-- ===== src/Pwm/Period.antt =====
-- The period and the prescaler that `mp_machine_pwm_freq_set` derives, and the widths of a pulse.
use ameba_micro_python.Prelude.{
  ℕ, ◌+◌, ◌*◌, ◌/◌, ◌≤◌, ◌<◌, ◌≡◌, ◌⊎◌, inl, inr, arith, ltb, Bool-cases, if◌then◌else◌, ℤ,
  pos_part,
}
use native.Mathlib.Nat.{le-div_iff_mul-le, div-lt_iff_lt-mul, div-mul-le_self}
use ameba_micro_python.Pwm.{prescaler_of, clamp_setup, timer_setup, pulse_of, pwm_timer_clk_mhz}

-- The longest period is 419430 microseconds.
clamp_setup-fits :
    (n : ℕ)
    → n ≤ 1000000
    → let s = clamp_setup n in
      (s.1 ≤ 0xff)
      × (s.0 * pwm_timer_clk_mhz ≤ 0x10000 * (s.1 + 1))
      × (s.0 ≤ 419430)
      × ((419430 < n) ⊎ (s.0 ≡ n))
unfolding clamp_setup
clamp_setup-fits n h = elim (Bool-cases (ltb 0xff (prescaler_of n))) [
  | inl long ↦ ground arith
  | inr short ↦ ground arith
]

clamp_setup-short : (n : ℕ) → n ≤ 419430 → (clamp_setup n).0 ≡ n
unfolding clamp_setup
clamp_setup-short n h = ground arith

-- For each frequency of at least 1 Hz the prescaler fits its 8 bits, and the period that is set, in
-- ticks of the timer, fits its 16-bit counter at that prescaler; the period is at most 419430
-- microseconds, and is that of the frequency from 3 Hz on.
pub timer_setup-fits :
    (freq : ℕ)
    → 0 < freq
    → let s = timer_setup freq in
      (s.1 ≤ 0xff)
      × (s.0 * pwm_timer_clk_mhz ≤ 0x10000 * (s.1 + 1))
      × (s.0 ≤ 419430)
      × ((freq < 3) ⊎ (s.0 ≡ 1000000 / freq))
unfolding timer_setup
timer_setup-fits freq h =
    let (a, b, c, d) = clamp_setup-fits (1000000 / freq) (omega arith) in
    (a, b, c, elim d [ inl long ↦ inl (omega (arith, is_low long)) | inr e ↦ inr e ])
  where
    is_low : 419430 < 1000000 / freq → freq < 3
    is_low long =
        let k = (le-div_iff_mul-le {x = 419431} {y = 1000000} h).0 long in omega (arith, k)

pub large_period : (freq : ℕ) → 0 < freq → freq ≤ 1000 → 1000 ≤ 1000000 / freq
large_period freq lo hi = (le-div_iff_mul-le {k = freq} {x = 1000} {y = 1000000} lo).1 (omega arith)

-- The quotient by the quotient.
pub div_div : (freq : ℕ) → 0 < freq → freq ≤ 1000 → 1000000 / (1000000 / freq) ≡ freq
div_div freq lo hi =
    let p : ℕ = 1000000 / freq in
    let large : 1000 ≤ p = large_period freq lo hi in
    let below : 1000000 < (p + 1) * freq =
      (div-lt_iff_lt-mul {k = freq} {x = 1000000} {y = p + 1} lo).0 (omega arith) in
    let most : p * freq ≤ 1000000 = div-mul-le_self 1000000 freq in
    let over : freq ≤ 1000000 / p =
      (le-div_iff_mul-le {k = p} {x = freq} {y = 1000000} (omega arith)).1 (omega arith) in
    let under : 1000000 / p < freq + 1 =
      (div-lt_iff_lt-mul {k = p} {x = 1000000} {y = freq + 1} (omega arith)).1 (omega arith) in
    omega arith

-- A pulse that is given in nanoseconds is the whole microseconds of it, or the whole period where the
-- pulse is longer, for each period that `freq` can set.
pub pulse_of-min :
    (period : ℕ) (duty_ns : ℤ)
    → period ≤ 419430
    → (pulse_of period duty_ns ≤ period)
      × (pulse_of period duty_ns
          ≡ (if ltb (period * 1000) (pos_part duty_ns) then period else pos_part duty_ns / 1000))
pulse_of-min period duty_ns h = ground arith
