-- ===== src/Pin/OpenDrain.antt =====
-- The direction and the level of the open-drain pins of machine_pin.c.
use ameba_micro_python.Prelude.{
  ℕ, ◌≤◌, ◌≡◌, ◌⊎◌, refl, Bool, true, false, not, Option, none, some, List, [], ◌∷◌, ◌==◌,
  if◌then◌else◌, arith, inl, inr, Bool-cases,
}
use mathlib.Core.Path.{subst}
use ameba_micro_python.Pin.{
  Pin, Call, init_call, dir_input, dir_output, write_call, direct_write, pull_call, mode_open_drain,
  initial, is_open_drain, od_write, init_mode, init_pull, init_value, init_helper, configure,
  make_new, call, on, off, toggle, ioctl_write,
}

-- The direction that the calls leave the pin in; it is an input at reset and after `gpio_init`.
abbrev pub is_output : List Call → Bool
is_output [] = false
is_output (init_call ∷ cs) = false
is_output (dir_input ∷ cs) = false
is_output (dir_output ∷ cs) = true
is_output (write_call n ∷ cs) = is_output cs
is_output (direct_write b ∷ cs) = is_output cs
is_output (pull_call n ∷ cs) = is_output cs

-- The level that the calls have written, 1 for any but 0.
abbrev pub level : List Call → Option Bool
level [] = none
level (write_call n ∷ cs) = some (not (n == 0))
level (direct_write b ∷ cs) = some b
level (_ ∷ cs) = level cs

-- In the open-drain mode a pin that is to be high is an input, and an output drives 0; a pin that is to
-- be low is an output, or has been configured since.
pub record Inv (p : Pin) : Type 0 where
  pub released : p.mode ≡ mode_open_drain → p.od_output_high ≡ true → is_output p.calls ≡ false
  pub low : p.mode ≡ mode_open_drain → is_output p.calls ≡ true → level p.calls ≡ some false
  pub driven :
      p.mode ≡ mode_open_drain
      → p.od_output_high ≡ false
      → (is_output p.calls ≡ true) ⊎ (p.gpio_configured ≡ true)

-- One call of Python on the pin other than `irq`, with a mode of the module.
pub data Step (p p' : Pin) : Type 0 where
  makes :
      (mode pull : Option ℕ) (value : Option Bool)
      → (mode ≡ none) ⊎ ((m : ℕ) × (mode ≡ some m) × (m ≤ 2))
      → make_new p mode pull value ≡ p'
      → Step p p'
  inits :
      (mode pull : Option ℕ) (value : Option Bool)
      → (mode ≡ none) ⊎ ((m : ℕ) × (mode ≡ some m) × (m ≤ 2))
      → init_helper p mode pull value ≡ p'
      → Step p p'
  calls : (v : Bool) → call p v ≡ p' → Step p p'
  turns_on : on p ≡ p' → Step p p'
  turns_off : off p ≡ p' → Step p p'
  toggles : (read : Bool) → toggle p read ≡ p' → Step p p'
  writes : (val : ℕ) → ioctl_write p val ≡ p' → Step p p'

pub data Reach : Pin → Type 0 where
  at_boot : Reach initial
  next : {p p' : Pin} → Reach p → Step p p' → Reach p'

init_mode-Inv :
    (p : Pin) (mode : Option ℕ)
    → (mode ≡ none) ⊎ ((m : ℕ) × (mode ≡ some m) × (m ≤ 2))
    → Inv p
    → Inv (init_mode p mode)
init_mode-Inv p none h v = v
init_mode-Inv p (some m) h v = record {
  released = λ e f. ground arith;
  low = λ e f. ground arith;
  driven = λ e f. ground arith;
}

init_pull-Inv : (p : Pin) (pull : Option ℕ) → Inv p → Inv (init_pull p pull)
init_pull-Inv p none v = v
init_pull-Inv p (some n) v = record { released = v.released; low = v.low; driven = v.driven }

od_write-Inv : (p : Pin) (value : Bool) → Inv (od_write p value)
od_write-Inv p true = record { released = λ e f. refl; low = λ e f. cc; driven = λ e f. cc }
od_write-Inv p false = record { released = λ e f. cc; low = λ e f. refl; driven = λ e f. inl refl }

-- A write of a pin in another mode.
other-Inv : (p : Pin) (c : List Call) → is_open_drain p ≡ false → Inv (record p { calls = c })
other-Inv p c h = record {
  released = λ e f. ground arith;
  low = λ e f. ground arith;
  driven = λ e f. ground arith;
}

init_value-Inv : (p : Pin) (value : Option Bool) → Inv p → Inv (init_value p value)
init_value-Inv p none v = v
init_value-Inv p (some b) v = elim (Bool-cases (is_open_drain p)) [
  | inl od ↦ rw od (od_write-Inv p b)
  | inr not_od ↦ elim (Bool-cases (p.mode == 1)) [
    | inl out ↦ rw (not_od, out) (other-Inv p _ not_od)
    | inr in_ ↦ rw (not_od, in_) v
  ]
]

either-Inv : (b : Bool) (x y : Pin) → Inv x → (b ≡ false → Inv y) → Inv (if b then x else y)
either-Inv true x y v w = v
either-Inv false x y v w = w refl

-- The first construction makes the pin an input.
configure-Inv : (p : Pin) → Inv p → Inv (configure p)
configure-Inv p v =
    either-Inv p.gpio_configured p _ v
      (λ first. record { released = λ e f. refl; low = λ e f. cc; driven = λ e f. inr refl })

init_helper-Inv :
    (p : Pin) (mode pull : Option ℕ) (value : Option Bool)
    → (mode ≡ none) ⊎ ((m : ℕ) × (mode ≡ some m) × (m ≤ 2))
    → Inv p
    → Inv (init_helper p mode pull value)
unfolding init_helper
init_helper-Inv p mode pull value h v =
    init_value-Inv (init_pull (init_mode p mode) pull) value
      (init_pull-Inv (init_mode p mode) pull (init_mode-Inv p mode h v))

-- `call`, `on`, `off`, `toggle` and the write of the pin protocol: an open-drain write, or a write of
-- a pin in another mode.
value-Inv :
    (p : Pin) (b : Bool) (c : List Call)
    → Inv (if is_open_drain p then od_write p b else record p { calls = c })
value-Inv p b c = elim (Bool-cases (is_open_drain p)) [
  | inl od ↦ rw od (od_write-Inv p b)
  | inr not_od ↦ rw not_od (other-Inv p c not_od)
]

toggle-Inv : (p : Pin) (read : Bool) → Inv (toggle p read)
unfolding toggle
toggle-Inv p read = elim (Bool-cases (is_open_drain p)) [
  | inl od ↦ elim (Bool-cases p.od_output_high) [
    | inl high ↦ rw (od, high, toggle) (od_write-Inv p false)
    | inr is_low ↦ rw (od, is_low, toggle) (od_write-Inv p true)
  ]
  | inr not_od ↦ rw (not_od, toggle) (other-Inv p _ not_od)
]

Step-Inv : {p p' : Pin} → Step p p' → Inv p → Inv p'
unfolding make_new call on off ioctl_write
Step-Inv {p} (makes mode pull value h e) v =
    subst Inv e (init_helper-Inv (configure p) mode pull value h (configure-Inv p v))
Step-Inv {p} (inits mode pull value h e) v = subst Inv e (init_helper-Inv p mode pull value h v)
Step-Inv {p} (calls b e) v = subst Inv e (value-Inv p b _)
Step-Inv {p} (turns_on e) v = subst Inv e (value-Inv p true _)
Step-Inv {p} (turns_off e) v = subst Inv e (value-Inv p false _)
Step-Inv {p} (toggles read e) v = subst Inv e (toggle-Inv p read)
Step-Inv {p} (writes val e) v = subst Inv e (value-Inv p (not (val == 0)) _)

Reach-Inv : {p : Pin} → Reach p → Inv p
Reach-Inv at_boot = record { released = λ e f. cc; low = λ e f. cc; driven = λ e f. cc }
Reach-Inv (next r s) = Step-Inv s (Reach-Inv r)

-- After any sequence of constructions, initialisations, writes and toggles with modes of the module,
-- a pin in the open-drain mode never rests at a driven high level: where it is to be high it is released,
-- and where it is to be low it is an output that was written 0, or, once it has been constructed, an
-- input.
pub Reach-open_drain :
    (p : Pin)
    → Reach p
    → p.mode ≡ mode_open_drain
    → ((p.od_output_high ≡ true) × (is_output p.calls ≡ false))
      ⊎ ((p.od_output_high ≡ false) × (is_output p.calls ≡ true) × (level p.calls ≡ some false))
      ⊎ ((p.od_output_high ≡ false) × (is_output p.calls ≡ false) × (p.gpio_configured ≡ true))
Reach-open_drain p r e =
    let v = Reach-Inv r in
    elim (Bool-cases p.od_output_high) [
      | inl high ↦ inl (high, v.released e high)
      | inr is_low ↦ elim (Bool-cases (is_output p.calls)) [
        | inl out ↦ inr (inl (is_low, out, v.low e out))
        | inr in_ ↦ inr (
            inr (
              is_low,
              in_,
              elim (v.driven e is_low) [ inl out ↦ absurd (cc) | inr configured ↦ configured ],
            ))
      ]
    ]
