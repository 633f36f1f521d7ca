-- ===== src/Rtc/Tests.antt =====
-- The theorems on the alarm at concrete inputs; a date is its timestamp.
use ameba_micro_python.Prelude.{◌≡◌, ◌⊎◌, refl, true, some, ℤ, pos, ◌+ℤ◌, ◌≤ℤ◌}
use ameba_micro_python.Rtc.{Rtc, offset_ms, alarm, fire, rearm_scheduled, machine_rtc_obj}
use ameba_micro_python.Rtc.Rearm.{at_boot, next, alarms, Reach-fire}

abbrev stamp : ℤ → ℤ
stamp t = t

-- An alarm every two seconds, set at 100.
abbrev repeating : Rtc ℤ
repeating = (alarm stamp machine_rtc_obj (pos 100) 0 (offset_ms (pos 2000)) true).1

Reach-fire_example :
    ((repeating.armed ≡ some repeating.alarm_target) ⊎ (repeating.queued ≡ true))
    × (repeating.alarm_target +ℤ pos 1 ≤ℤ (fire stamp repeating).alarm_target)
    × ((fire stamp repeating).queued ≡ true)
    × ((rearm_scheduled stamp (fire stamp repeating)).armed
        ≡ some (fire stamp repeating).alarm_target)
unfolding alarm
Reach-fire_example =
    Reach-fire stamp repeating (next at_boot (alarms (pos 100) 0 (offset_ms (pos 2000)) true refl))
      refl
