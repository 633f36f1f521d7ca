-- ===== src/I2c/Reset.antt =====
-- The soft reset of the two controllers of machine_i2c.c and machine_i2c_target.c.
use ameba_micro_python.Prelude.{
  ℕ, ◌≡◌, ◌⊎◌, ◌∙◌, refl, inl, inr, Bool, true, false, Option, none, some, if◌then◌else◌,
}
use mathlib.Core.Path.{subst}
use ameba_micro_python.Py.{raise, value_error}
use ameba_micro_python.I2c.{
  Master, idle, Controller, Args, TargetArgs, with_defaults, set_args, start, init_helper,
  target_deinit, target_start, target_make_new, deinit, pin_or, is_seven,
}
use ameba_micro_python.I2c.Roles.{
  Step, inits, targets, target_deinits, with_defaults-initialized, set_args-initialized,
}

-- Calls and soft resets from the first use on.
pub data Reach : Controller → Type 0 where
  at_boot : (c : Controller) → c.role ≡ idle → c.irq ≡ false → Reach c
  calls : {c c' : Controller} → Reach c → Step c c' → Reach c'
  resets : {c : Controller} → Reach c → Reach (target_deinit (deinit c))

-- A controller that is set up belongs to an object that is, and the interrupt to the target.
abbrev pub Owned : Controller → Type 0
Owned c =
    ((c.role ≡ idle) ⊎ ((c.master.initialized ≡ true) ⊎ (c.target.initialized ≡ true)))
    × ((c.irq ≡ false) ⊎ (c.target.initialized ≡ true))

start-Owned :
    (c : Controller) (out : Bool × Master)
    → out.1.initialized ≡ c.master.initialized
    → Owned c
    → Owned (start c out).1
start-Owned c (true, m) e (r, i) = (inr (inl refl), i)
start-Owned c (false, m) e (inl r, i) = (inl r, i)
start-Owned c (false, m) e (inr (inl r), i) = (inr (inl (e ∙ r)), i)
start-Owned c (false, m) e (inr (inr r), i) = (inr (inr r), i)

-- The target's clean-up leaves the controller idle, where it was set up at all.
target_deinit-Owned : (c : Controller) → Owned c → Owned (target_deinit c)
unfolding target_deinit
target_deinit-Owned c w = go c.target.initialized
  where
    go :
        (b : Bool)
        → Owned (
            if b
            then record c {
              target = record c.target { initialized = false };
              role = idle;
              irq = false;
            }
            else c)
    go true = (inl refl, inl refl)
    go false = w

target_start-Owned :
    (a : TargetArgs) (c : Controller) (p q : Option ℕ) → Owned c → Owned (target_start a c p q).1
target_start-Owned a c (some scl) (some sda) w = (inr (inr refl), inr refl)
target_start-Owned a c (some scl) none w = w
target_start-Owned a c none q w = w

target_make_new-Owned : (a : TargetArgs) (c : Controller) → Owned c → Owned (target_make_new a c).1
unfolding target_make_new
target_make_new-Owned a c w = go (is_seven a.addrsize) c.master.initialized
  where
    cleared : Controller
    cleared = record (target_deinit c) {
      target = record (target_deinit c).target { handler = false };
    }

    go :
        (b is_master : Bool)
        → Owned
            (if b
              then (if is_master
                  then (raise value_error, c)
                  else target_start a cleared
                      (pin_or a.scl a.default_scl)
                      (pin_or a.sda a.default_sda))
              else (raise value_error, c)).1
    go true true = w
    go true false =
        target_start-Owned a cleared (pin_or a.scl a.default_scl) (pin_or a.sda a.default_sda)
          (target_deinit-Owned c w)
    go false is_master = w

init_helper-Owned : (a : Args) (c : Controller) → Owned c → Owned (init_helper a c).1
unfolding init_helper
init_helper-Owned a c w =
    start-Owned c (set_args a (with_defaults c.master))
      (set_args-initialized a (with_defaults c.master) ∙ with_defaults-initialized c.master) w

Step-Owned : {c c' : Controller} → Step c c' → Owned c → Owned c'
Step-Owned {c} (inits a e) w = subst Owned e (init_helper-Owned a c w)
Step-Owned {c} (targets a e) w = subst Owned e (target_make_new-Owned a c w)
Step-Owned {c} (target_deinits e) w = subst Owned e (target_deinit-Owned c w)

-- After the clean-up of the masters, what is set up belongs to a target.
abbrev Targets : Controller → Type 0
Targets c =
    ((c.role ≡ idle) ⊎ (c.target.initialized ≡ true))
    × ((c.irq ≡ false) ⊎ (c.target.initialized ≡ true))

deinit-Targets : (c : Controller) → Owned c → Targets (deinit c)
unfolding deinit
deinit-Targets c (r, i) = go c.master.initialized (λ e. masterless e r)
  where
    go :
        (b : Bool)
        → (b ≡ false → (c.role ≡ idle) ⊎ (c.target.initialized ≡ true))
        → Targets (
            if b
            then record c { master = record c.master { initialized = false }; role = idle }
            else c)
    go true h = (inl refl, i)
    go false h = (h refl, i)

    masterless :
        c.master.initialized ≡ false
        → (c.role ≡ idle) ⊎ ((c.master.initialized ≡ true) ⊎ (c.target.initialized ≡ true))
        → (c.role ≡ idle) ⊎ (c.target.initialized ≡ true)
    masterless e (inl q) = inl q
    masterless e (inr (inl q)) = cc
    masterless e (inr (inr q)) = inr q

target_deinit-idle :
    (c : Controller) → Targets c → ((target_deinit c).role ≡ idle) × ((target_deinit c).irq ≡ false)
unfolding target_deinit
target_deinit-idle c w = go c.target.initialized (λ e. off e w)
  where
    go :
        (b : Bool)
        → (b ≡ false → (c.role ≡ idle) × (c.irq ≡ false))
        → let c' =
            if b
            then record c {
              target = record c.target { initialized = false };
              role = idle;
              irq = false;
            }
            else c in
          (c'.role ≡ idle) × (c'.irq ≡ false)
    go true h = (refl, refl)
    go false h = h refl

    off : c.target.initialized ≡ false → Targets c → (c.role ≡ idle) × (c.irq ≡ false)
    off e (inl r, inl i) = (r, i)
    off e (inr t, i) = cc
    off e (inl r, inr t) = cc

-- The two clean-ups of the soft reset leave nothing set up and no interrupt.
pub reset-idle :
    (c : Controller)
    → Owned c
    → ((target_deinit (deinit c)).role ≡ idle) × ((target_deinit (deinit c)).irq ≡ false)
reset-idle c w = target_deinit-idle (deinit c) (deinit-Targets c w)

pub Reach-Owned : {c : Controller} → Reach c → Owned c
Reach-Owned (at_boot c r i) = (inl r, inl i)
Reach-Owned (calls r s) = Step-Owned s (Reach-Owned r)
Reach-Owned (resets {c} r) = let (i, j) = reset-idle c (Reach-Owned r) in (inl i, inl j)
