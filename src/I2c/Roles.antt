-- ===== src/I2c/Roles.antt =====
-- Master and target on one controller of machine_i2c.c and machine_i2c_target.c.
use ameba_micro_python.Prelude.{
  ◌≡◌, ◌∙◌, refl, inl, inr, Bool, true, false, arith, Option-cases, if◌then◌else◌, ap, sym,
}
use mathlib.Core.Path.{subst}
use ameba_micro_python.Py.{Result, raise, value_error}
use ameba_micro_python.I2c.{
  Master, Controller, Args, TargetArgs, with_defaults, set_sda, set_scl, set_args, start,
  init_helper, target_deinit, target_start, target_make_new, deinit, pin_or, is_seven, positive_or,
}

-- One call on the controller: of its I2C object, or of its target; the methods of `I2C` have no
-- `deinit`.
pub data Step (c c' : Controller) : Type 0 where
  inits : (a : Args) → (init_helper a c).1 ≡ c' → Step c c'
  targets : (a : TargetArgs) → (target_make_new a c).1 ≡ c' → Step c c'
  target_deinits : target_deinit c ≡ c' → Step c c'

-- What calls can lead to before the next soft reset.
pub data Leads (c : Controller) : Controller → Type 0 where
  here : Leads c c
  next : {c' c'' : Controller} → Leads c c' → Step c' c'' → Leads c c''

-- The arguments do not clear `initialized`.
pub with_defaults-initialized : (m : Master) → (with_defaults m).initialized ≡ m.initialized
with_defaults-initialized m = ground arith

set_sda-initialized : (a : Args) (m : Master) → (set_sda a m).1.initialized ≡ m.initialized
set_sda-initialized a m = elim (Option-cases (pin_or a.sda m.sda)) [
  | inl e ↦ rw (e, set_sda) refl
  | inr (p, e) ↦ rw (e, set_sda) refl
]

pub set_args-initialized : (a : Args) (m : Master) → (set_args a m).1.initialized ≡ m.initialized
unfolding set_args
set_args-initialized a m = elim (Option-cases (pin_or a.scl m.scl)) [
  | inl e ↦ rw (e, set_scl) refl
  | inr (p, e) ↦
      rw (e, set_scl)
        (set_sda-initialized a (record m { freq = positive_or a.freq m.freq; scl = p }))
]

-- A master that is set up stays so, even where a new `init` of it is refused.
start-initialized :
    (c : Controller) (out : Bool × Master)
    → out.1.initialized ≡ true
    → (start c out).1.master.initialized ≡ true
start-initialized c (true, m) e = refl
start-initialized c (false, m) e = e

target_deinit-master : (c : Controller) → (target_deinit c).master ≡ c.master
unfolding target_deinit
target_deinit-master c = ground arith

abbrev refused : Controller → Result (Unit {0}) × Controller
refused c = (raise value_error, c)

target_make_new-refused :
    (a : TargetArgs) (c : Controller)
    → c.master.initialized ≡ true
    → target_make_new a c ≡ (raise value_error, c)
unfolding target_make_new
target_make_new-refused a c e = go (is_seven a.addrsize) c.master.initialized e
  where
    go :
        (b is_master : Bool)
        → is_master ≡ true
        → (if b
            then (if is_master
                then (raise value_error, c)
                else target_start a
                    (record (target_deinit c) {
                      target = record (target_deinit c).target { handler = false };
                    })
                    (pin_or a.scl a.default_scl)
                    (pin_or a.sda a.default_sda))
            else (raise value_error, c))
          ≡ refused c
    go true true e = refl
    go false true e = refl
    go b false e = cc

Step-master :
    {c c' : Controller} → Step c c' → c.master.initialized ≡ true → c'.master.initialized ≡ true
unfolding init_helper
Step-master {c} (inits a e) h =
    subst (λ t. t.master.initialized ≡ true) e
      (start-initialized c (set_args a (with_defaults c.master))
        (set_args-initialized a (with_defaults c.master) ∙ with_defaults-initialized c.master ∙ h))
Step-master {c} (targets a e) h =
    subst (λ t. t.master.initialized ≡ true)
      (ap (λ o. o.1) (sym (target_make_new-refused a c h)) ∙ e) h
Step-master {c} (target_deinits e) h =
    subst (λ t. t.master.initialized ≡ true) e
      (ap (λ m. m.initialized) (target_deinit-master c) ∙ h)

Leads-master :
    {c c' : Controller} → Leads c c' → c.master.initialized ≡ true → c'.master.initialized ≡ true
Leads-master here h = h
Leads-master (next l s) h = Step-master s (Leads-master l h)

deinit-master : (c : Controller) → (deinit c).master.initialized ≡ false
unfolding deinit
deinit-master c = ground arith

-- Once a controller has been set up as a master, every construction of a target on it raises ValueError
-- and changes nothing, whatever calls come between, failing ones included; the soft reset frees it.
pub Leads-refused :
    (c c' : Controller) (a : TargetArgs)
    → c.master.initialized ≡ true
    → Leads c c'
    → (target_make_new a c' ≡ (raise value_error, c')) × ((deinit c').master.initialized ≡ false)
Leads-refused c c' a h l = (target_make_new-refused a c' (Leads-master l h), deinit-master c')
