-- ===== src/Pin/Tests.antt =====
-- The theorems on pins at concrete inputs.
use ameba_micro_python.Prelude.{◌≡◌, ◌⊎◌, refl, true, false, none, some, arith, inr}
use ameba_micro_python.Pin.{Pin, initial, make_new, init_helper, toggle}
use ameba_micro_python.Pin.OpenDrain.{
  at_boot, next, makes, toggles, is_output, level, Reach-open_drain,
}

-- An open-drain pin that has been toggled once.
abbrev toggled : Pin
toggled = toggle (make_new initial (some 2) none (some true)) false

Reach-open_drain_example :
    ((toggled.od_output_high ≡ true) × (is_output toggled.calls ≡ false))
    ⊎ ((toggled.od_output_high ≡ false)
        × (is_output toggled.calls ≡ true)
        × (level toggled.calls ≡ some false))
    ⊎ ((toggled.od_output_high ≡ false)
        × (is_output toggled.calls ≡ false)
        × (toggled.gpio_configured ≡ true))
unfolding make_new toggle init_helper
Reach-open_drain_example =
    Reach-open_drain toggled
      (next (next at_boot (makes (some 2) none (some true) (inr (2, refl, omega arith)) refl))
        (toggles false refl))
      refl
