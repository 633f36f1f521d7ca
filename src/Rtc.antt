-- ===== src/Rtc.antt =====
-- ports/ameba-rtos-m/src/machine_rtc.c: the alarm of `machine.RTC`.
-- The conversion of a Unix timestamp to day, hour, minute and second (`timeutils` of the MicroPython
-- core) is the parameter `of_timestamp`; the hardware keeps one alarm, which `rtc_set_alarm` sets and
-- `rtc_disable_alarm` clears. Each function is one step: no alarm fires within one.
pub mod Rearm
mod Tests
use ameba_micro_python.Prelude.{
  ℕ, zero, suc, ◌+◌, ◌*◌, ◌-◌, ◌/◌, ◌%◌, ◌^◌, Bool, true, false, ◌&&◌, Option, none, some, ◌==◌,
  ltb, if◌then◌else◌, ℤ, pos, negsuc, ltb_ℤ, pos_part, ◌+ℤ◌, ◌-ℤ◌, sub_ℕ,
}
use ameba_micro_python.Py.{Exc, value_error, Result, ok, raise}

-- `machine_rtc_obj`, with the alarm of the hardware, whether the scheduler node is queued, and the
-- handler of the irq object where there is one.
pub record Rtc (Alarm : Type 0) : Type 0 where
  pub alarm_target : ℤ
  pub alarm_repeat : Bool
  pub alarm_interval_ms : ℤ
  pub armed : Option Alarm
  pub queued : Bool
  pub irq : Option ℕ

-- The two forms of the argument `time`: milliseconds from now, or a date and time, given by its
-- timestamp.
pub data Time : Type 0 where
  offset_ms date_time : ℤ → Time

-- The quotient by 1000, truncated towards zero.
pub seconds_of : ℤ → ℤ
seconds_of (pos n) = pos (n / 1000)
seconds_of (negsuc n) = sub_ℕ 0 (suc n / 1000)

-- `rtc_alarm_ms_left`: the cast to `uint32_t` precedes the product, which wraps.
pub ms_left : ℤ → ℤ → ℕ
ms_left now target =
    if ltb_ℤ now target then (pos_part (target -ℤ now) % 2 ^ 32 * 1000) % 2 ^ 32 else 0

module _ {Alarm : Type 0} (of_timestamp : ℤ → Alarm) where
  -- `rtc_alarm_arm`
  abbrev pub arm : Rtc Alarm → Rtc Alarm
  arm self = record self { armed = some (of_timestamp self.alarm_target) }

  -- `machine_rtc_alarm` at the time `now`
  unfoldable pub alarm : Rtc Alarm → ℤ → ℕ → Time → Bool → Result (Unit {0}) × Rtc Alarm
  unfolding seconds_of
  alarm self now id (offset_ms t) repeat =
      let target = now +ℤ seconds_of t in
      if id == 0
      then (if repeat && ltb_ℤ t (pos 1000) then (raise value_error, self) else (
        ok tt,
        record self {
          alarm_target = target;
          alarm_repeat = repeat;
          alarm_interval_ms = t;
          armed = some (of_timestamp target);
        },
      ))
      else (raise value_error, self)
  alarm self now id (date_time target) repeat =
      if id == 0
      then (
        ok tt,
        record self {
          alarm_target = target;
          alarm_repeat = false;
          alarm_interval_ms = pos 0;
          armed = some (of_timestamp target);
        },
      )
      else (raise value_error, self)

  -- `machine_rtc_alarm_irq_handler`, called by the vendor's interrupt handler, which disables the
  -- alarm when it has returned.
  unfoldable pub fire : Rtc Alarm → Rtc Alarm
  unfolding seconds_of
  fire self =
      if self.alarm_repeat
      then record self {
        alarm_target = self.alarm_target +ℤ seconds_of self.alarm_interval_ms;
        queued = true;
        armed = none;
      }
      else record self { alarm_target = pos 0; armed = none }

  -- The scheduler takes the node, and `machine_rtc_alarm_rearm_scheduled` runs.
  unfoldable pub rearm_scheduled : Rtc Alarm → Rtc Alarm
  rearm_scheduled self =
      if self.alarm_repeat
      then arm (record self { queued = false })
      else record self { queued = false }

-- `machine_rtc_alarm_left`
pub alarm_left : {Alarm : Type 0} → Rtc Alarm → ℤ → ℕ → Result ℕ
unfolding ms_left
alarm_left self now id = if id == 0 then ok (ms_left now self.alarm_target) else raise value_error

-- `machine_rtc_alarm_cancel`
unfoldable pub alarm_cancel : {Alarm : Type 0} → Rtc Alarm → ℕ → Result (Unit {0}) × Rtc Alarm
alarm_cancel self id =
    if id == 0
    then (
      ok tt,
      record self {
        alarm_target = pos 0;
        alarm_repeat = false;
        alarm_interval_ms = pos 0;
        armed = none;
      },
    )
    else (raise value_error, self)

-- `machine_rtc_irq`: the object is made once, its handler replaced.
abbrev pub irq : {Alarm : Type 0} → Rtc Alarm → ℕ → ℕ → Result (Unit {0}) × Rtc Alarm
irq self trigger handler =
    if trigger == 0 then (ok tt, record self { irq = some handler }) else (raise value_error, self)

-- `machine_rtc_deinit_all`, at a soft reset; and the state at boot.
abbrev pub deinit_all : {Alarm : Type 0} → Rtc Alarm → Rtc Alarm
deinit_all self = record {
  alarm_target = pos 0;
  alarm_repeat = false;
  alarm_interval_ms = pos 0;
  armed = none;
  queued = false;
  irq = none;
}

abbrev pub machine_rtc_obj : {Alarm : Type 0} → Rtc Alarm
machine_rtc_obj = record {
  alarm_target = pos 0;
  alarm_repeat = false;
  alarm_interval_ms = pos 0;
  armed = none;
  queued = false;
  irq = none;
}
