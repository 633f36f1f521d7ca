-- ===== src/Pwm/Channels/Owner.antt =====
-- Which channel `mp_machine_pwm_make_new` returns, and when it has none.
use ameba_micro_python.Prelude.{
  ℕ, ◌≤◌, ◌<◌, ◌≡◌, ◌≢◌, ◌⊎◌, sym, refl, inl, inr, true, false, Option, arith, ltb, Option-cases, ℤ,
}
use mathlib.Core.Path.{subst}
use ameba_micro_python.Py.{ok, raise, value_error}
use ameba_micro_python.Pwm.{
  Driver, Bank, Args, pa_6, pwm_channel_max, alloc_channel, find_by_pin, freq_set, init_helper,
  start_channel, make_new,
}
use ameba_micro_python.Pwm.Shared.{freq_set-channels}
use ameba_micro_python.Pwm.Channels.{init_helper-keeps}
use ameba_micro_python.Pwm.Channels.Search.{
  alloc_channel-some, alloc_channel-none, find_by_pin-none, find_by_pin-some,
}

module _ (driver : Driver) where
  open driver use {Out}

  -- The pin and the owner of a channel are left alone by `init`.
  abbrev pub Owned : Bank Out → ℕ → ℕ → Type 0
  Owned bank idx pin = ((bank.channel idx).active ≡ true) × ((bank.channel idx).pin ≡ pin)

  freq_set-Owned :
      (bank : Bank Out) (i idx pin : ℕ) (freq : ℤ)
      → Owned bank idx pin
      → Owned (freq_set driver bank i freq).1 idx pin
  freq_set-Owned bank i idx pin freq o =
      subst (λ c. (c.active ≡ true) × (c.pin ≡ pin))
        (sym (freq_set-channels driver bank i freq idx)) (ground arith)

  init_helper-Owned :
      (bank : Bank Out) (idx pin : ℕ) (a : Args)
      → Owned bank idx pin
      → Owned (init_helper driver bank idx a) idx pin
  init_helper-Owned bank idx pin a o =
      init_helper-keeps driver (λ b. Owned b idx pin) bank idx a
        (λ freq w. freq_set-Owned bank idx idx pin freq w) (λ b out w. ground arith) o

  -- Where the arguments are well-formed, `PWM(pin)` of a pin from PA_6 on returns a channel that is
  -- active and has the pin; or it raises ValueError, and each of the eight channels is active and has
  -- another pin.
  pub make_new-cases :
      (bank : Bank Out) (pin : ℕ) (a : Args) (j : ℕ)
      → pa_6 ≤ pin
      → j < pwm_channel_max
      → let (r, bank') = make_new driver bank pin (ok a) in
        ((idx : ℕ) × (idx < pwm_channel_max) × (r ≡ ok idx) × Owned bank' idx pin)
        ⊎ ((r ≡ raise value_error)
            × ((bank.channel j).active ≡ true)
            × ((bank.channel j).pin ≢ pin))
  unfolding make_new
  make_new-cases bank pin a j h hj =
      let found : Option ℕ =
        find_by_pin (λ c. c.active) (λ c. c.pin) bank.channel pin pwm_channel_max 0 in
      let free_ : Option ℕ = alloc_channel (λ c. c.active) bank.channel pwm_channel_max 0 in
      let high : ltb pin pa_6 ≡ false = ground arith in
      elim (Option-cases found) [
        | inr (idx, e) ↦
            let (hi, is_on, same) =
              find_by_pin-some (λ c. c.active) (λ c. c.pin) bank.channel pin pwm_channel_max 0 idx
                e in
            rw (high, e, make_new)
              (inl (idx, omega arith, refl, init_helper-Owned bank idx pin a (is_on, same)))
        | inl e ↦ elim (Option-cases free_) [
          | inl full ↦
              let is_on =
                alloc_channel-none (λ c. c.active) bank.channel pwm_channel_max 0 j full
                  (omega arith) (omega arith) in
              rw (high, e, full, make_new)
                (inr (
                  refl,
                  is_on,
                  find_by_pin-none (λ c. c.active) (λ c. c.pin) bank.channel pin pwm_channel_max 0 j
                      e (omega arith) (omega arith) is_on,
                ))
          | inr (idx, f) ↦
              let (lo, hi, off) =
                alloc_channel-some (λ c. c.active) bank.channel pwm_channel_max 0 idx f in
              rw (high, e, f, make_new)
                (inl (
                  idx,
                  omega arith,
                  refl,
                  init_helper-Owned (start_channel driver bank idx pin) idx pin a (ground arith),
                ))
        ]
      ]
