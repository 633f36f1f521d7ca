-- ===== src/Pwm/Shared.antt =====
-- What `mp_machine_pwm_freq_set` does to the channels, which share one timer.
use ameba_micro_python.Prelude.{
  ℕ, zero, suc, ◌+◌, ◌/◌, ◌≤◌, ◌≡◌, ◌∙◌, refl, ap, inl, inr, Bool, true, false, ◌&&◌, ◌||◌, Option,
  none, some, arith, ltb, leb, Bool-cases, if◌then◌else◌, ℤ, pos, pos_part, ◌==◌, ltb_ℤ,
}
use ameba_micro_python.Pwm.{
  Driver, Channel, Bank, timer_setup, pwm_channel_max, is_other, save, restored, restore,
  set_period, apply_freq, freq_set, freq_get,
}
use ameba_micro_python.Pwm.Period.{timer_setup-fits, div_div, large_period}

-- What the port relies on: the period that is set is the field of that name, and a duty leaves it.
pub record KeepsPeriod (driver : Driver) : Type 0 where
  pub with_period_period : (o : driver.Out) (n : ℕ) → driver.period (driver.with_period o n) ≡ n
  pub period_us_period : (o : driver.Out) (n : ℕ) → driver.period (driver.period_us o n) ≡ n
  pub write_period :
      (o : driver.Out) (d : driver.Duty) → driver.period (driver.write o d) ≡ driver.period o

-- A number of `n` from `i` on.
abbrev pub is_within : ℕ → ℕ → ℕ → Bool
is_within i n j = leb i j && ltb j (i + n)

module _ (driver : Driver) where
  open driver use {Out, Duty, period, with_period, period_us, read, write}

  save-lem :
      (channel : ℕ → Channel Out) (idx n i : ℕ) (saved : ℕ → Option Duty) (count : ℕ) (j : ℕ)
      → (save driver channel idx n i saved count).0 j ≡ (
          if is_within i n j && is_other driver channel idx j
          then some (read (channel j).pwm)
          else saved j)
  unfolding save
  save-lem channel idx zero i saved count j = ground arith
  save-lem channel idx (suc n) i saved count j = elim (Bool-cases (is_other driver channel idx i)) [
    | inl o ↦
        rw (o, save)
          (save-lem channel idx n (i + 1)
              (λ j. if j == i then some (read (channel i).pwm) else saved j) (count + 1) j
            ∙ ground arith)
    | inr o ↦ rw (o, save) (save-lem channel idx n (i + 1) saved count j ∙ ground arith)
  ]

  -- A count of 0 means that there was no other channel.
  save-count :
      (channel : ℕ → Channel Out) (idx n i : ℕ) (saved : ℕ → Option Duty) (count : ℕ)
      → (count ≤ (save driver channel idx n i saved count).1)
        × (((save driver channel idx n i saved count).1 ≡ count)
            → (j : ℕ) → is_within i n j ≡ true
            → is_other driver channel idx j ≡ false)
  unfolding save
  save-count channel idx zero i saved count = (omega arith, λ e j h. absurd (ground arith))
  save-count channel idx (suc n) i saved count = elim (Bool-cases (is_other driver channel idx i)) [
    | inl o ↦
        let (a, b) =
          save-count channel idx n (i + 1)
            (λ j. if j == i then some (read (channel i).pwm) else saved j) (count + 1) in
        rw (o, save) (omega arith, λ e j h. absurd (omega arith))
    | inr o ↦
        let (a, b) = save-count channel idx n (i + 1) saved count in
        rw (o, save) (a, λ e j h. ground (arith, b e j))
  ]

  restore-lem :
      (idx p : ℕ) (saved : ℕ → Option Duty) (n i : ℕ) (channel : ℕ → Channel Out) (j : ℕ)
      → restore driver idx p saved n i channel j ≡ (
          if is_within i n j && is_other driver channel idx j
          then restored driver (channel j) p (saved j)
          else channel j)
  unfolding restore
  restore-lem idx p saved zero i channel j = ground arith
  restore-lem idx p saved (suc n) i channel j = elim (Bool-cases (is_other driver channel idx i)) [
    | inl o ↦
        rw (o, restore)
          (restore-lem idx p saved n (i + 1)
              (λ j. if j == i then restored driver (channel i) p (saved i) else channel j) j
            ∙ ground arith)
    | inr o ↦ rw (o, restore) (restore-lem idx p saved n (i + 1) channel j ∙ ground arith)
  ]

  -- What a channel is afterwards.
  abbrev pub changed : (ℕ → Channel Out) → ℕ → ℕ → ℕ → Channel Out
  changed channel idx n j =
      if j == idx
      then record (channel j) { pwm = period_us (channel j).pwm n }
      else if ltb j pwm_channel_max && (channel j).active
      then record (channel j) { pwm = write (with_period (channel j).pwm n) (read (channel j).pwm) }
      else channel j

  -- The last loop, after the change of the channel itself.
  restored-changed :
      (channel : ℕ → Channel Out) (idx n j : ℕ) (saved : Option Duty)
      → saved ≡ (
          if is_within 0 pwm_channel_max j && is_other driver channel idx j
          then some (read (channel j).pwm)
          else none)
      → let first : ℕ → Channel Out = λ j.
        if j == idx
        then record (channel idx) { pwm = period_us (channel idx).pwm n }
        else channel j in
        (if is_within 0 pwm_channel_max j && is_other driver first idx j
          then restored driver (first j) n saved
          else first j)
        ≡ changed channel idx n j
  restored-changed channel idx n j saved e = elim (Bool-cases (j == idx)) [
    | inl same ↦ ground arith
    | inr apart ↦ elim (Bool-cases (ltb j pwm_channel_max && (channel j).active)) [
      | inl is_on ↦ ground arith
      | inr off ↦ ground arith
    ]
  ]

  set_period-lem :
      (channel : ℕ → Channel Out) (idx n j : ℕ)
      → set_period driver channel idx n (save driver channel idx pwm_channel_max 0 (λ j. none) 0) j
        ≡ changed channel idx n j
  set_period-lem channel idx n j =
      let saves : (ℕ → Option Duty) × ℕ = save driver channel idx pwm_channel_max 0 (λ j. none) 0 in
      let kept = save-lem channel idx pwm_channel_max 0 (λ j. none) 0 j in
      let others = (save-count channel idx pwm_channel_max 0 (λ j. none) 0).1 in
      let first : ℕ → Channel Out = λ j.
        if j == idx
        then record (channel idx) { pwm = period_us (channel idx).pwm n }
        else channel j in
      elim (Bool-cases (ltb 0 saves.1)) [
        | inl some_ ↦
            ap (λ b. (if b then restore driver idx n saves.0 pwm_channel_max 0 first else first) j)
              some_
            ∙ restore-lem idx n saves.0 pwm_channel_max 0 first j
            ∙ restored-changed channel idx n j (saves.0 j) kept
        | inr none_ ↦
            ap (λ b. (if b then restore driver idx n saves.0 pwm_channel_max 0 first else first) j)
              none_
            ∙ alone (others (ground arith) j)
      ]
    where
      alone :
          (is_within 0 pwm_channel_max j ≡ true → is_other driver channel idx j ≡ false)
          → (if j == idx
              then record (channel idx) { pwm = period_us (channel idx).pwm n }
              else channel j)
            ≡ changed channel idx n j
      alone h = elim (Bool-cases (j == idx)) [
        | inl same ↦ ground arith
        | inr apart ↦ ground (arith, h)
      ]

  -- A frequency that is set reaches each channel once: the channel itself by the driver's function,
  -- every other active channel with the new period and the duty that it had before, and no channel
  -- that is not active. A frequency that is not positive changes nothing and raises ValueError.
  pub freq_set-channels :
      (bank : Bank Out) (idx : ℕ) (freq : ℤ) (j : ℕ)
      → (freq_set driver bank idx freq).1.channel j ≡ (
          if ltb_ℤ (pos 0) freq
          then changed bank.channel idx (timer_setup (pos_part freq)).0 j
          else bank.channel j)
  unfolding freq_set apply_freq
  freq_set-channels bank idx freq j = elim (Bool-cases (ltb_ℤ (pos 0) freq)) [
    | inl good ↦
        rw (good, freq_set) (set_period-lem bank.channel idx (timer_setup (pos_part freq)).0 j)
    | inr bad ↦ rw (bad, freq_set) refl
  ]

  changed-period :
      KeepsPeriod driver
      → (channel : ℕ → Channel Out) (idx n j : ℕ)
      → ((j == idx) || ltb j pwm_channel_max && (channel j).active) ≡ true
      → period (changed channel idx n j).pwm ≡ n
  changed-period keeps channel idx n j h = elim (Bool-cases (j == idx)) [
    | inl same ↦ ground (arith, keeps.period_us_period (channel j).pwm n)
    | inr apart ↦ ground (
      arith,
      keeps.write_period (with_period (channel j).pwm n) (read (channel j).pwm),
      keeps.with_period_period (channel j).pwm n,
    )
  ]

  -- A frequency from 3 Hz to 1 kHz that is set on a channel is the one that it, and every other active
  -- channel, then reports, where the driver keeps the periods that it is given.
  pub freq_get-freq_set :
      KeepsPeriod driver
      → (bank : Bank Out) (idx freq j : ℕ) → 3 ≤ freq
      → freq ≤ 1000
      → ((j == idx) || ltb j pwm_channel_max && (bank.channel j).active) ≡ true
      → freq_get driver (freq_set driver bank idx (pos freq)).1 j ≡ freq
  freq_get-freq_set keeps bank idx freq j lo hi h =
      let fits = timer_setup-fits freq (omega arith) in
      let e : (freq_set driver bank idx (pos freq)).1.channel j
          ≡ changed bank.channel idx (timer_setup freq).0 j =
        freq_set-channels bank idx (pos freq) j ∙ ground arith in
      let p : period ((freq_set driver bank idx (pos freq)).1.channel j).pwm ≡ 1000000 / freq =
        ap (λ c. period c.pwm) e
        ∙ changed-period keeps bank.channel idx (timer_setup freq).0 j h
        ∙ elim fits.3 [ inl low ↦ absurd (omega arith) | inr same ↦ same ] in
      let large = large_period freq (omega arith) hi in
      ap (λ p. if ltb 0 p then 1000000 / p else 0) p ∙ ground (arith, div_div freq (omega arith) hi)
