-- ===== src/Rtc/Rearm.antt =====
-- The alarm of machine_rtc.c over sequences of calls, interrupts and scheduler runs.
use ameba_micro_python.Prelude.{
  ℕ, ◌+◌, ◌-◌, ◌*◌, ◌/◌, ◌^◌, ◌≤◌, ◌<◌, ◌≡◌, ◌≢◌, ◌⊎◌, ◌↔◌, sym, Bool, true, false, none, some,
  arith, Option-cases, inl, inr, ℤ, pos, negsuc, ◌+ℤ◌, ◌-ℤ◌, ◌≤ℤ◌, int_laws,
}
use mathlib.Core.Path.{subst}
use ameba_micro_python.Py.{ok}
use ameba_micro_python.Rtc.{
  Rtc, Time, offset_ms, date_time, seconds_of, ms_left, alarm, fire, rearm_scheduled, alarm_left,
  alarm_cancel, irq, deinit_all, machine_rtc_obj,
}

-- A repeating alarm has an interval of a second at least, and is set in the hardware or will be by
-- the queued node; an alarm that is set in the hardware is the one of `alarm_target`; and a queued
-- node is harmless.
pub record Inv {Alarm : Type 0} (of_timestamp : ℤ → Alarm) (r : Rtc Alarm) : Type 0 where
  pub interval : r.alarm_repeat ≡ true → pos 1000 ≤ℤ r.alarm_interval_ms
  pub pending : r.alarm_repeat ≡ true → r.armed ≢ none ⊎ r.queued ≡ true
  pub current : (a : Alarm) → r.armed ≡ some a → a ≡ of_timestamp r.alarm_target

-- One step: a call from Python, the interrupt of an alarm that is set, or the scheduler.
pub data Step {Alarm : Type 0} (of_timestamp : ℤ → Alarm) (r r' : Rtc Alarm) : Type 0 where
  alarms :
      (now : ℤ) (id : ℕ) (t : Time) (repeat : Bool)
      → (alarm of_timestamp r now id t repeat).1 ≡ r'
      → Step of_timestamp r r'
  cancels : (id : ℕ) → (alarm_cancel r id).1 ≡ r' → Step of_timestamp r r'
  registers : (trigger handler : ℕ) → (irq r trigger handler).1 ≡ r' → Step of_timestamp r r'
  fires : (a : Alarm) → r.armed ≡ some a → fire of_timestamp r ≡ r' → Step of_timestamp r r'
  pumps : r.queued ≡ true → rearm_scheduled of_timestamp r ≡ r' → Step of_timestamp r r'
  resets : deinit_all r ≡ r' → Step of_timestamp r r'

pub data Reach {Alarm : Type 0} (of_timestamp : ℤ → Alarm) : Rtc Alarm → Type 0 where
  at_boot : Reach of_timestamp machine_rtc_obj
  next : {r r' : Rtc Alarm} → Reach of_timestamp r → Step of_timestamp r r' → Reach of_timestamp r'

module _ {Alarm : Type 0} (of_timestamp : ℤ → Alarm) where
  alarm-Inv :
      (r : Rtc Alarm) (now : ℤ) (id : ℕ) (t : Time) (repeat : Bool)
      → Inv of_timestamp r
      → Inv of_timestamp (alarm of_timestamp r now id t repeat).1
  unfolding alarm
  alarm-Inv r now id (offset_ms t) repeat v = record {
    interval = λ h. ground (arith, v.interval);
    pending = λ h. ground (arith, v.pending);
    current = λ a h. ground (arith, v.current a);
  }
  alarm-Inv r now id (date_time t) repeat v = record {
    interval = λ h. ground (arith, v.interval);
    pending = λ h. ground (arith, v.pending);
    current = λ a h. ground (arith, v.current a);
  }

  fire-Inv : (r : Rtc Alarm) → Inv of_timestamp r → Inv of_timestamp (fire of_timestamp r)
  unfolding fire
  fire-Inv r v = record {
    interval = λ h. ground (arith, v.interval);
    pending = λ h. ground arith;
    current = λ a h. ground arith;
  }

  rearm-Inv :
      (r : Rtc Alarm) → Inv of_timestamp r → Inv of_timestamp (rearm_scheduled of_timestamp r)
  unfolding rearm_scheduled
  rearm-Inv r v = record {
    interval = λ h. ground (arith, v.interval);
    pending = λ h. ground arith;
    current = λ a h. ground (arith, v.current a);
  }

  cancel-Inv :
      (r : Rtc Alarm) (id : ℕ) → Inv of_timestamp r → Inv of_timestamp (alarm_cancel r id).1
  unfolding alarm_cancel
  cancel-Inv r id v = record {
    interval = λ h. ground (arith, v.interval);
    pending = λ h. ground (arith, v.pending);
    current = λ a h. ground (arith, v.current a);
  }

  irq-Inv :
      (r : Rtc Alarm) (trigger handler : ℕ)
      → Inv of_timestamp r
      → Inv of_timestamp (irq r trigger handler).1
  irq-Inv r trigger handler v = record {
    interval = λ h. ground (arith, v.interval);
    pending = λ h. ground (arith, v.pending);
    current = λ a h. ground (arith, v.current a);
  }

  reset-Inv : Inv of_timestamp machine_rtc_obj
  reset-Inv = record { interval = λ h. cc; pending = λ h. cc; current = λ a h. cc }

  Step-Inv : {r r' : Rtc Alarm} → Step of_timestamp r r' → Inv of_timestamp r → Inv of_timestamp r'
  Step-Inv {r} (alarms now id t repeat e) v =
      subst (Inv of_timestamp) e (alarm-Inv r now id t repeat v)
  Step-Inv {r} (cancels id e) v = subst (Inv of_timestamp) e (cancel-Inv r id v)
  Step-Inv {r} (registers trigger handler e) v =
      subst (Inv of_timestamp) e (irq-Inv r trigger handler v)
  Step-Inv {r} (fires a h e) v = subst (Inv of_timestamp) e (fire-Inv r v)
  Step-Inv {r} (pumps h e) v = subst (Inv of_timestamp) e (rearm-Inv r v)
  Step-Inv (resets e) v = subst (Inv of_timestamp) e reset-Inv

  Reach-Inv : {r : Rtc Alarm} → Reach of_timestamp r → Inv of_timestamp r
  Reach-Inv at_boot = reset-Inv
  Reach-Inv (next r s) = Step-Inv s (Reach-Inv r)

  seconds_of-positive : (t : ℤ) → pos 1000 ≤ℤ t → pos 1 ≤ℤ seconds_of t
  unfolding seconds_of
  seconds_of-positive (pos n) h = omega arith
  seconds_of-positive (negsuc n) h = absurd (omega arith)

  fire-target :
      (r : Rtc Alarm)
      → r.alarm_repeat ≡ true
      → (fire of_timestamp r).alarm_target ≡ r.alarm_target +ℤ seconds_of r.alarm_interval_ms
  unfolding fire
  fire-target r h = ground arith

  fire-advances :
      (r : Rtc Alarm)
      → Inv of_timestamp r
      → r.alarm_repeat ≡ true
      → r.alarm_target +ℤ pos 1 ≤ℤ (fire of_timestamp r).alarm_target
  fire-advances r v h =
      let s : ℤ = seconds_of r.alarm_interval_ms in
      let p : pos 1 ≤ℤ s = seconds_of-positive r.alarm_interval_ms (v.interval h) in
      subst (λ t. r.alarm_target +ℤ pos 1 ≤ℤ t) (sym (fire-target r h)) (omega int_laws)

  -- In every reachable state with a repeating alarm, the hardware is set to the alarm's target or the
  -- node that will set it is queued; when the alarm fires, its target moves on by a second at least,
  -- and the scheduler then sets the hardware to the new target.
  pub Reach-fire :
      (r : Rtc Alarm)
      → Reach of_timestamp r
      → r.alarm_repeat ≡ true
      → ((r.armed ≡ some (of_timestamp r.alarm_target)) ⊎ (r.queued ≡ true))
        × (r.alarm_target +ℤ pos 1 ≤ℤ (fire of_timestamp r).alarm_target)
        × ((fire of_timestamp r).queued ≡ true)
        × ((rearm_scheduled of_timestamp (fire of_timestamp r)).armed
            ≡ some (of_timestamp (fire of_timestamp r).alarm_target))
  unfolding fire rearm_scheduled
  Reach-fire r reach h =
      let v = Reach-Inv reach in (set_or_queued v, fire-advances r v h, ground arith, ground arith)
    where
      set_or_queued :
          Inv of_timestamp r → (r.armed ≡ some (of_timestamp r.alarm_target)) ⊎ (r.queued ≡ true)
      set_or_queued v = elim (Option-cases r.armed) [
        | inl unset ↦ ground (arith, v.pending h)
        | inr (a, set) ↦ inl (ground (arith, v.current a set))
      ]

  -- After a cancel no alarm is set, not even when a node that was queued before it runs, and no time
  -- is left at any later time.
  pub rearm_scheduled-alarm_cancel :
      (r : Rtc Alarm) (now : ℕ)
      → let r' = (alarm_cancel r 0).1 in
        (r'.armed ≡ none)
        × ((rearm_scheduled of_timestamp r').armed ≡ none)
        × (alarm_left (rearm_scheduled of_timestamp r') (pos now) 0 ≡ ok 0)
  unfolding alarm_cancel rearm_scheduled alarm_left ms_left
  rearm_scheduled-alarm_cancel r now = ground arith

  -- An alarm set for `t` ms from `now` (a machine integer) has, `k` seconds later and not after its
  -- target, exactly the remaining whole seconds left, in milliseconds.
  pub alarm_left-alarm :
      (r : Rtc Alarm) (now t k : ℕ)
      → t < 2 ^ 31
      → k ≤ t / 1000
      → alarm_left (alarm of_timestamp r (pos now) 0 (offset_ms (pos t)) false).1 (pos (now + k)) 0
        ≡ ok ((t / 1000 - k) * 1000)
  unfolding alarm_left alarm ms_left seconds_of ◌+ℤ◌ ◌-ℤ◌
  alarm_left-alarm r now t k h le = ground arith

  -- An alarm set for a date and time `s` seconds ahead reports its remaining milliseconds right where
  -- they fit in 32 bits, which is up to 4294967 seconds (49 days), and only there.
  pub alarm_left-date_time :
      (r : Rtc Alarm) (now s : ℕ) (repeat : Bool)
      → (alarm_left
            (alarm of_timestamp r (pos now) 0 (date_time (pos (now + s))) repeat).1
            (pos now)
            0
          ≡ ok (s * 1000))
        ↔ (s * 1000 < 2 ^ 32)
  unfolding alarm_left alarm ms_left ◌-ℤ◌
  alarm_left-date_time r now s repeat = ground arith
