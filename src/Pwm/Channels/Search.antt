-- ===== src/Pwm/Channels/Search.antt =====
-- What `machine_pwm_alloc_channel` and `machine_pwm_find_by_pin` find.
use ameba_micro_python.Prelude.{
  ℕ, zero, suc, ◌+◌, ◌≤◌, ◌<◌, ◌≡◌, ◌≢◌, inl, inr, Bool, true, false, ◌&&◌, none, some, arith,
  Bool-cases, ◌==◌,
}
use mathlib.Core.Path.{subst}
use ameba_micro_python.Pwm.{alloc_channel, find_by_pin}

pub alloc_channel-some :
    {A : Type 0} (active : A → Bool) (channel : ℕ → A) (n i idx : ℕ)
    → alloc_channel active channel n i ≡ some idx
    → (i ≤ idx) × (idx < i + n) × (active (channel idx) ≡ false)
unfolding alloc_channel
alloc_channel-some active channel zero i idx e = cc
alloc_channel-some active channel (suc n) i idx e = elim (Bool-cases (active (channel i))) [
  | inl taken ↦
      let (lo, hi, free_) = alloc_channel-some active channel n (i + 1) idx (ground arith) in
      (omega arith, omega arith, free_)
  | inr free_ ↦
      let same : i ≡ idx = ground arith in
      (omega arith, omega arith, subst (λ k. active (channel k) ≡ false) same free_)
]

pub alloc_channel-none :
    {A : Type 0} (active : A → Bool) (channel : ℕ → A) (n i j : ℕ)
    → alloc_channel active channel n i ≡ none
    → i ≤ j
    → j < i + n
    → active (channel j) ≡ true
unfolding alloc_channel
alloc_channel-none active channel zero i j e lo hi = absurd (omega arith)
alloc_channel-none active channel (suc n) i j e lo hi = elim (Bool-cases (active (channel i))) [
  | inl taken ↦ elim (Bool-cases (i == j)) [
    | inl same ↦ subst (λ k. active (channel k) ≡ true) (ground arith) taken
    | inr apart ↦
        alloc_channel-none active channel n (i + 1) j (ground arith) (ground arith) (omega arith)
  ]
  | inr free_ ↦ absurd (ground arith)
]

pub find_by_pin-none :
    {A : Type 0} (active : A → Bool) (pin_of : A → ℕ) (channel : ℕ → A) (pin n i j : ℕ)
    → find_by_pin active pin_of channel pin n i ≡ none
    → i ≤ j
    → j < i + n
    → active (channel j) ≡ true
    → pin_of (channel j) ≢ pin
unfolding find_by_pin
find_by_pin-none active pin_of channel pin zero i j e lo hi a h = absurd (omega arith)
find_by_pin-none active pin_of channel pin (suc n) i j e lo hi a h =
    elim (Bool-cases (active (channel i) && pin_of (channel i) == pin)) [
      | inl found ↦ absurd (ground arith)
      | inr other ↦ elim (Bool-cases (i == j)) [
        | inl same ↦ ground arith
        | inr apart ↦
            find_by_pin-none active pin_of channel pin n (i + 1) j (ground arith) (ground arith)
              (omega arith) a h
      ]
    ]

pub find_by_pin-some :
    {A : Type 0} (active : A → Bool) (pin_of : A → ℕ) (channel : ℕ → A) (pin n i idx : ℕ)
    → find_by_pin active pin_of channel pin n i ≡ some idx
    → (idx < i + n) × (active (channel idx) ≡ true) × (pin_of (channel idx) ≡ pin)
unfolding find_by_pin
find_by_pin-some active pin_of channel pin zero i idx e = cc
find_by_pin-some active pin_of channel pin (suc n) i idx e =
    elim (Bool-cases (active (channel i) && pin_of (channel i) == pin)) [
      | inl found ↦
          let same : i ≡ idx = ground arith in
          (
            omega arith,
            subst (λ k. active (channel k) ≡ true) same (ground arith),
            subst (λ k. pin_of (channel k) ≡ pin) same (ground arith),
          )
      | inr other ↦
          let (hi, a, p) =
            find_by_pin-some active pin_of channel pin n (i + 1) idx (ground arith) in
          (omega arith, a, p)
    ]
