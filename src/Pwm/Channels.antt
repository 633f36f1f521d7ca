-- ===== src/Pwm/Channels.antt =====
-- The table of PWM channels over any sequence of calls, from boot on.
pub mod Search
pub mod Owner
use ameba_micro_python.Prelude.{
  ℕ, zero, suc, ◌+◌, ◌*◌, ◌-◌, ◌/◌, ◌%◌, ◌^◌, ◌≤◌, ◌<◌, ◌≡◌, ◌≢◌, ◌⊎◌, ◌∙◌, sym, refl, ap, inl, inr,
  Bool, true, false, not, ◌&&◌, ◌||◌, Option, none, some, arith, ltb, leb, Bool-cases, Option-cases,
  if◌then◌else◌, ℤ, pos, negsuc, pos_part, ◌==◌, ltb_ℤ,
}
use mathlib.Core.Path.{subst}
use ameba_micro_python.Py.{ok, raise, Result, value_error}
use ameba_micro_python.Pwm.{
  Driver, Channel, Bank, Args, pa_6, timer_setup, pwm_channel_max, alloc_channel, find_by_pin,
  apply_freq, freq_set, duty_set_u16, duty_set_ns, set_duty, set_pwm, set_channel, init_helper,
  start_channel, with_args, on_fresh, on_channel, make_new, stopped, deinit, deinit_all,
}
use ameba_micro_python.Pwm.Period.{timer_setup-fits}
use ameba_micro_python.Pwm.Shared.{changed, freq_set-channels}
use ameba_micro_python.Pwm.Channels.Search.{
  alloc_channel-some, alloc_channel-none, find_by_pin-none, find_by_pin-some,
}

positive : (z : ℤ) → ltb_ℤ (pos 0) z ≡ true → 0 < pos_part z
positive (pos n) h = ground arith
positive (negsuc n) h = absurd (ground arith)

module _ (driver : Driver) where
  open driver use {Out, write, frac}

  -- No two channels drive one pin, the pins can carry a PWM, and the prescaler that the driver counts
  -- with is the one in the register, which has 8 bits.
  pub record Inv (bank : Bank Out) : Type 0 where
    pub distinct :
        (i j : ℕ)
        → i < pwm_channel_max
        → j < pwm_channel_max
        → (bank.channel i).active ≡ true
        → (bank.channel j).active ≡ true
        → (bank.channel i).pin ≡ (bank.channel j).pin
        → i ≡ j
    pub pins : (i : ℕ) → (bank.channel i).active ≡ true → pa_6 ≤ (bank.channel i).pin
    pub lockstep : bank.psc ≡ bank.prescaler
    pub small : bank.prescaler ≤ 0xff

  -- The channels keep their pins and their owners, or are given up.
  abbrev pub Keeps : Bank Out → Bank Out → Type 0
  Keeps bank bank' =
      (i : ℕ)
      → ((bank'.channel i).pin ≡ (bank.channel i).pin)
        × (((bank'.channel i).active ≡ (bank.channel i).active)
            ⊎ ((bank'.channel i).active ≡ false))

  Keeps-Inv :
      (bank bank' : Bank Out)
      → Keeps bank bank'
      → bank'.psc ≡ bank'.prescaler
      → bank'.prescaler ≤ 0xff
      → Inv bank
      → Inv bank'
  Keeps-Inv bank bank' k e h v = record {
    distinct = λ i j hi hj a b p.
        let (pi, ai) = k i in
        let (pj, aj) = k j in v.distinct i j hi hj (ground arith) (ground arith) (ground arith);
    pins = λ i a. let (pi, ai) = k i in ground (arith, v.pins i);
    lockstep = e;
    small = h;
  }

  set_pwm-Inv :
      (bank : Bank Out) (idx : ℕ) (out : Out) → Inv bank → Inv (set_pwm driver bank idx out)
  set_pwm-Inv bank idx out v =
      Keeps-Inv bank (set_pwm driver bank idx out) (λ i. ground arith) v.lockstep v.small v

  deinit-Inv : (bank : Bank Out) (idx : ℕ) → Inv bank → Inv (deinit driver bank idx)
  unfolding deinit
  deinit-Inv bank idx v =
      Keeps-Inv bank (deinit driver bank idx) (λ i. ground arith) v.lockstep v.small v

  freq_set-Keeps :
      (bank : Bank Out) (idx : ℕ) (freq : ℤ) → Keeps bank (freq_set driver bank idx freq).1
  freq_set-Keeps bank idx freq i =
      subst
        (λ c.
          (c.pin ≡ (bank.channel i).pin)
          × ((c.active ≡ (bank.channel i).active) ⊎ (c.active ≡ false)))
        (sym (freq_set-channels driver bank idx freq i)) (ground arith)

  freq_set-if :
      (bank : Bank Out) (idx : ℕ) (freq : ℤ) (b : Bool)
      → ltb_ℤ (pos 0) freq ≡ b
      → (freq_set driver bank idx freq).1
        ≡ (if b then apply_freq driver bank idx (pos_part freq) else bank)
  unfolding freq_set
  freq_set-if bank idx freq true e = rw (e, freq_set) refl
  freq_set-if bank idx freq false e = rw (e, freq_set) refl

  freq_set-prescaler :
      (bank : Bank Out) (idx : ℕ) (freq : ℤ)
      → Inv bank
      → ((freq_set driver bank idx freq).1.psc ≡ (freq_set driver bank idx freq).1.prescaler)
        × ((freq_set driver bank idx freq).1.prescaler ≤ 0xff)
  unfolding apply_freq
  freq_set-prescaler bank idx freq v = elim (Bool-cases (ltb_ℤ (pos 0) freq)) [
    | inl good ↦
        subst (λ b. (b.psc ≡ b.prescaler) × (b.prescaler ≤ 0xff))
          (sym (freq_set-if bank idx freq true good))
          (
            pushed (timer_setup (pos_part freq)).1 bank.prescaler bank.psc v.lockstep,
            (timer_setup-fits (pos_part freq) (positive freq good)).0,
          )
    | inr bad ↦
        subst (λ b. (b.psc ≡ b.prescaler) × (b.prescaler ≤ 0xff))
          (sym (freq_set-if bank idx freq false bad)) (v.lockstep, v.small)
  ]
    where
      pushed : (q old psc : ℕ) → psc ≡ old → (if q == old then psc else q) ≡ q
      pushed q old psc e = ground arith

  freq_set-Inv :
      (bank : Bank Out) (idx : ℕ) (freq : ℤ) → Inv bank → Inv (freq_set driver bank idx freq).1
  freq_set-Inv bank idx freq v =
      let (e, h) = freq_set-prescaler bank idx freq v in
      Keeps-Inv bank (freq_set driver bank idx freq).1 (freq_set-Keeps bank idx freq) e h v

  -- What each setting keeps, `init` keeps.
  pub init_helper-keeps :
      (P : Bank Out → Type 0) (bank : Bank Out) (idx : ℕ) (a : Args)
      → ((freq : ℤ) → P bank → P (freq_set driver bank idx freq).1)
      → ((b : Bank Out) (out : Out) → P b → P (set_pwm driver b idx out))
      → P bank
      → P (init_helper driver bank idx a)
  unfolding init_helper duty_set_u16 duty_set_ns
  init_helper-keeps P bank idx a freq_keeps pwm_keeps v = duty (with_freq (ltb_ℤ (pos 0) a.freq))
    where
      with_freq : (b : Bool) → P (if b then (freq_set driver bank idx a.freq).1 else bank)
      with_freq true = freq_keeps a.freq v
      with_freq false = v

      duty : {b : Bank Out} → P b → P (set_duty driver b idx a)
      duty {b} w = elim (Bool-cases (ltb_ℤ (negsuc 0) a.duty_u16)) [
        | inl u ↦ rw u (pwm_keeps b _ w)
        | inr u ↦ elim (Bool-cases (ltb_ℤ (negsuc 0) a.duty_ns)) [
          | inl n ↦ rw (u, n) (pwm_keeps b _ w)
          | inr n ↦ rw (u, n) w
        ]
      ]

  init_helper-Inv :
      (bank : Bank Out) (idx : ℕ) (a : Args) → Inv bank → Inv (init_helper driver bank idx a)
  init_helper-Inv bank idx a v =
      init_helper-keeps Inv bank idx a (λ freq w. freq_set-Inv bank idx freq w)
        (λ b out w. set_pwm-Inv b idx out w) v

  -- A start on a channel that is free, of a pin that no channel drives.
  start_channel-Inv :
      (bank : Bank Out) (idx pin : ℕ)
      → pa_6 ≤ pin
      → ((j : ℕ)
          → j < pwm_channel_max
          → (bank.channel j).active ≡ true
          → (bank.channel j).pin ≢ pin)
      → Inv bank
      → Inv (start_channel driver bank idx pin)
  start_channel-Inv bank idx pin ok_ fresh v = record {
    distinct = λ i j hi hj a b p. elim (Bool-cases (i == idx)) [
      | inl is ↦ elim (Bool-cases (j == idx)) [
        | inl js ↦ ground arith
        | inr ja ↦ absurd (fresh j hj (ground arith) (ground arith))
      ]
      | inr ia ↦ elim (Bool-cases (j == idx)) [
        | inl js ↦ absurd (fresh i hi (ground arith) (ground arith))
        | inr ja ↦ v.distinct i j hi hj (ground arith) (ground arith) (ground arith)
      ]
    ];
    pins = λ i a. ground (arith, v.pins i);
    lockstep = v.lockstep;
    small = v.small;
  }

  with_args-Inv :
      (bank : Bank Out) (idx : ℕ) (args : Result Args)
      → Inv bank
      → Inv (with_args driver bank idx args).1
  with_args-Inv bank idx (raise e) v = v
  with_args-Inv bank idx (ok a) v = init_helper-Inv bank idx a v

  make_new-Inv :
      (bank : Bank Out) (pin : ℕ) (args : Result Args)
      → Inv bank
      → Inv (make_new driver bank pin args).1
  unfolding make_new
  make_new-Inv bank pin args v =
      let found : Option ℕ =
        find_by_pin (λ c. c.active) (λ c. c.pin) bank.channel pin pwm_channel_max 0 in
      let free_ : Option ℕ = alloc_channel (λ c. c.active) bank.channel pwm_channel_max 0 in
      elim (Bool-cases (ltb pin pa_6)) [
        | inl low ↦ rw (low, make_new) v
        | inr high ↦ elim (Option-cases found) [
          | inr (idx, e) ↦ rw (high, e, make_new) (with_args-Inv bank idx args v)
          | inl e ↦ elim (Option-cases free_) [
            | inl full ↦ rw (high, e, full, make_new) v
            | inr (idx, f) ↦
                rw (high, e, f, make_new)
                  (with_args-Inv (start_channel driver bank idx pin) idx args (
                    start_channel-Inv bank idx pin (ground arith)
                      (λ j hj a.
                        find_by_pin-none (λ c. c.active) (λ c. c.pin) bank.channel pin
                          pwm_channel_max 0 j e (omega arith) (omega arith) a)
                      v))
          ]
        ]
      ]

  deinit_all-Inv : (n i : ℕ) (bank : Bank Out) → Inv bank → Inv (deinit_all driver n i bank)
  unfolding deinit_all
  deinit_all-Inv zero i bank v = v
  deinit_all-Inv (suc n) i bank v =
      deinit_all-Inv n (i + 1) (deinit driver bank i) (deinit-Inv bank i v)

  -- A call from Python on a channel, a construction, or a soft reset.
  pub data Step (bank bank' : Bank Out) : Type 0 where
    makes :
        (pin : ℕ) (args : Result Args) → (make_new driver bank pin args).1 ≡ bank' → Step bank bank'
    inits : (idx : ℕ) (a : Args) → init_helper driver bank idx a ≡ bank' → Step bank bank'
    sets_freq : (idx : ℕ) (freq : ℤ) → (freq_set driver bank idx freq).1 ≡ bank' → Step bank bank'
    sets_u16 : (idx : ℕ) (duty : ℤ) → duty_set_u16 driver bank idx duty ≡ bank' → Step bank bank'
    sets_ns : (idx : ℕ) (duty : ℤ) → duty_set_ns driver bank idx duty ≡ bank' → Step bank bank'
    deinits : (idx : ℕ) → deinit driver bank idx ≡ bank' → Step bank bank'
    resets : deinit_all driver pwm_channel_max 0 bank ≡ bank' → Step bank bank'

  abbrev pub at_boot : Out → Bank Out
  at_boot out = record {
    channel = λ i. record { pwm = out; pin = 0; active = false };
    prescaler = 0;
    psc = 0;
  }

  pub data Reach (out : Out) : Bank Out → Type 0 where
    boots : Reach out (at_boot out)
    next : {bank bank' : Bank Out} → Reach out bank → Step bank bank' → Reach out bank'

  Step-Inv : {bank bank' : Bank Out} → Step bank bank' → Inv bank → Inv bank'
  unfolding duty_set_u16 duty_set_ns
  Step-Inv {bank} (makes pin args e) v = subst Inv e (make_new-Inv bank pin args v)
  Step-Inv {bank} (inits idx a e) v = subst Inv e (init_helper-Inv bank idx a v)
  Step-Inv {bank} (sets_freq idx freq e) v = subst Inv e (freq_set-Inv bank idx freq v)
  Step-Inv {bank} (sets_u16 idx duty e) v = subst Inv e (set_pwm-Inv bank idx _ v)
  Step-Inv {bank} (sets_ns idx duty e) v = subst Inv e (set_pwm-Inv bank idx _ v)
  Step-Inv {bank} (deinits idx e) v = subst Inv e (deinit-Inv bank idx v)
  Step-Inv {bank} (resets e) v = subst Inv e (deinit_all-Inv pwm_channel_max 0 bank v)

  -- After any sequence of constructions, calls and soft resets, no two active channels have the same
  -- pin, each has a pin from PA_6 on, and the prescaler that the driver counts with is the one in the
  -- register of the timer, which has 8 bits.
  pub Reach-Inv : (out : Out) (bank : Bank Out) → Reach out bank → Inv bank
  Reach-Inv out bank boots = record {
    distinct = λ i j hi hj a b p. cc;
    pins = λ i a. cc;
    lockstep = refl;
    small = omega arith;
  }
  Reach-Inv out bank (next {bank = before} r s) = Step-Inv s (Reach-Inv out before r)
