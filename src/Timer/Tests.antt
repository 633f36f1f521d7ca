-- ===== src/Timer/Tests.antt =====
-- The theorems on timers at concrete inputs.
use ameba_micro_python.Prelude.{ℕ, ◌≡◌, ◌≢◌, ◌⊎◌, refl, true, false, none, some, pos, negsuc}
use ameba_micro_python.Timer.{
  green2, World, Args, init_helper, make_new, period_of, raw_period, alloc,
}
use ameba_micro_python.Timer.Slots.{empty_world, Holds, next, at_boot, makes, Reach-Holds}

abbrev every_second : Args
every_second = record {
  mode = 1;
  callback = 9;
  period = pos 1000;
  tick_hz = pos 1000;
  freq = none;
  hard = false;
}

abbrev one_timer : World
one_timer = (make_new green2 empty_world (negsuc 0) (some every_second)).1

Reach-Holds_example :
    Holds green2 one_timer 0 0 × (((one_timer.timer 3).hw_id ≢ some 0) ⊎ (◌≡◌ {A = ℕ} 3 0))
unfolding make_new init_helper period_of raw_period alloc
Reach-Holds_example =
    Reach-Holds green2 one_timer 0 3 0 (next at_boot (makes (negsuc 0) (some every_second) refl))
      refl

abbrev zero_freq : Args
zero_freq = record every_second { freq = some (pos 0); hard = true }
