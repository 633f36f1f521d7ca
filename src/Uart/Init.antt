-- ===== src/Uart/Init.antt =====
-- The configurations that `init` of machine_uart.c lets through, and what a refused one leaves.
pub mod Checks
use ameba_micro_python.Prelude.{
  ℕ, ◌+◌, ◌%◌, ◌^◌, ◌≤◌, ◌<◌, ◌≡◌, ◌≢◌, ◌⊎◌, refl, Bool, true, false, ◌&&◌, Option, none, some,
  ◌==◌, if◌then◌else◌, ℤ, pos, negsuc, ltb_ℤ, arith, Bool-cases, Option-cases, inl, inr,
}
use mathlib.Core.Path.{subst}
use ameba_micro_python.Py.{value_error, raise}
use ameba_micro_python.Uart.{
  Config, Uart, Args, min_buf, max_buf, default_config, base_config, set_config, set_stop, set_pins,
  set_rx, set_numbers, set_baudrate, check_pins, finish_init, init_helper, deinit, without_irq, irq,
  set_trigger, pin_ok, pin_or, buf_or, is_one_of, given_or, parity_or,
}
use ameba_micro_python.Uart.Init.Checks.{
  IsStored, IsValid, Checked, set_config-Checked, default_config-IsStored,
}

-- The driver runs exactly where the object is initialized, with a valid configuration.
pub record Inv (u : Uart) : Type 0 where
  pub stored : u.initialized ≡ true → IsStored u.config
  pub running : u.initialized ≡ true → u.driver ≢ none
  pub stopped : u.initialized ≡ false → u.driver ≡ none
  pub valid : (c : Config) → u.driver ≡ some c → IsValid c

finish_init-Inv :
    (u : Uart) (alloc : Bool) (out : Bool × Config)
    → Checked out
    → Inv u
    → Inv (finish_init u alloc out).1
finish_init-Inv u alloc (false, c) ch v = record {
  stored = λ e. ch.0;
  running = v.running;
  stopped = v.stopped;
  valid = v.valid;
}
finish_init-Inv u false (true, c) ch v = record {
  stored = λ e. ch.0;
  running = v.running;
  stopped = v.stopped;
  valid = v.valid;
}
finish_init-Inv u true (true, c) (st, inl bad) v = cc
finish_init-Inv u true (true, c) (st, inr good) v = record {
  stored = λ e. st;
  running = λ e f. cc;
  stopped = λ e. cc;
  valid = λ c' e. subst IsValid (some-injective e) good;
}
  where
    some-injective : {x y : Config} → ◌≡◌ {A = Option Config} (some x) (some y) → x ≡ y
    some-injective e = cc

base_config-IsStored : (u : Uart) (id : ℕ) → Inv u → IsStored (base_config u id)
base_config-IsStored u id v = choose u.initialized (v.stored)
  where
    choose :
        (b : Bool)
        → (b ≡ true → IsStored u.config)
        → IsStored (if b then u.config else default_config id)
    choose true h = h refl
    choose false h = default_config-IsStored id

init_helper-Inv :
    (id : ℕ) (u : Uart) (a : Args) (alloc : Bool) → Inv u → Inv (init_helper id u a alloc).1
unfolding init_helper
init_helper-Inv id u a alloc v =
    finish_init-Inv u alloc (set_config (base_config u id) a)
      (set_config-Checked (base_config u id) a (base_config-IsStored u id v)) v

-- The object at boot, and one call from Python.
abbrev pub at_reset : Uart
at_reset = record {
  config = default_config 0;
  initialized = false;
  driver = none;
  tx_busy = false;
  irq_trigger = 0;
  irq_obj = none;
}

pub data Step (id : ℕ) (u u' : Uart) : Type 0 where
  inits : (a : Args) (alloc : Bool) → (init_helper id u a alloc).1 ≡ u' → Step id u u'
  deinits : deinit u ≡ u' → Step id u u'
  registers : (handler : Option ℕ) (trigger : ℕ) → irq u handler trigger ≡ u' → Step id u u'
  triggers : (trigger : ℕ) → set_trigger u trigger ≡ u' → Step id u u'

pub data Reach (id : ℕ) : Uart → Type 0 where
  at_boot : Reach id at_reset
  next : {u u' : Uart} → Reach id u → Step id u u' → Reach id u'

deinit-Inv : (u : Uart) → Inv u → Inv (deinit u)
unfolding deinit
deinit-Inv u v = record {
  stored = λ e. cc;
  running = λ e. cc;
  stopped = λ e. ground (arith, v.stopped);
  valid = λ c e. ground (arith, v.stopped);
}

-- Another registration or trigger leaves the driver alone.
registered-Inv :
    (u : Uart) (trigger : ℕ) (obj : Option ℕ)
    → Inv u
    → Inv (record u { irq_trigger = trigger; irq_obj = obj })
registered-Inv u trigger obj v = record {
  stored = v.stored;
  running = v.running;
  stopped = v.stopped;
  valid = v.valid;
}

without_irq-Inv : (u : Uart) → Inv u → Inv (without_irq u)
without_irq-Inv u v = go u.irq_obj
  where
    go :
        (o : Option ℕ)
        → Inv (elim o [ none ↦ u | some _ ↦ record u { irq_trigger = 0; irq_obj = none } ])
    go none = v
    go (some f) = registered-Inv u 0 none v

irq-Inv : (u : Uart) (handler : Option ℕ) (trigger : ℕ) → Inv u → Inv (irq u handler trigger)
unfolding irq
irq-Inv u none trigger v = without_irq-Inv u v
irq-Inv u (some handler) trigger v = elim (Bool-cases (trigger == 0)) [
  | inl zero_ ↦ rw (zero_, irq) (without_irq-Inv u v)
  | inr some_ ↦
      rw (some_, irq)
        (registered-Inv (without_irq u) (trigger % 2 ^ 16) (some handler) (without_irq-Inv u v))
]

Step-Inv : {id : ℕ} {u u' : Uart} → Step id u u' → Inv u → Inv u'
Step-Inv {id} {u} (inits a alloc e) v = subst Inv e (init_helper-Inv id u a alloc v)
Step-Inv {id} {u} (deinits e) v = subst Inv e (deinit-Inv u v)
Step-Inv {id} {u} (registers handler trigger e) v = subst Inv e (irq-Inv u handler trigger v)
Step-Inv {id} {u} (triggers trigger e) v =
    subst Inv e (registered-Inv u (trigger % 2 ^ 16) u.irq_obj v)

Reach-Inv : {id : ℕ} {u : Uart} → Reach id u → Inv u
Reach-Inv at_boot = record {
  stored = λ e. cc;
  running = λ e. cc;
  stopped = λ e. refl;
  valid = λ c e. cc;
}
Reach-Inv (next r s) = Step-Inv s (Reach-Inv r)

-- After any sequence of calls, refused ones included, the SDK's driver runs exactly where the object
-- is initialized, and was started with 7 or 8 bits, 1 or 2 stop bits, a positive rate, pins from PA_6
-- on without PB_12, and queues of 32 to 8192 bytes, which the 16 bits of their size hold.
pub Reach-IsValid :
    (id : ℕ) (u : Uart)
    → Reach id u
    → ((u.initialized ≡ false) × (u.driver ≡ none))
      ⊎ ((c : Config) × (u.initialized ≡ true) × (u.driver ≡ some c) × IsValid c)
Reach-IsValid id u r =
    let v = Reach-Inv r in
    elim (Bool-cases u.initialized) [
      | inr off ↦ inl (off, v.stopped off)
      | inl is_on ↦ elim (Option-cases u.driver) [
        | inl gone ↦ absurd (v.running is_on gone)
        | inr (c, e) ↦ inr (c, is_on, e, v.valid c e)
      ]
    ]

-- The check of the pins is the last of `init`, after everything that can change them.
set_config-tx :
    (c : Config) (a : Args) → a.tx ≡ none → pin_ok c.tx ≡ false → (set_config c a).0 ≡ false
unfolding set_config set_stop set_pins set_rx
set_config-tx c a h bad = elim (Option-cases (pin_or a.rx c.rx)) [
  | inl e ↦ ground arith
  | inr (p, e) ↦ ground arith
]

finish_init-refused :
    (u : Uart) (alloc : Bool) (out : Bool × Config)
    → out.0 ≡ false
    → ((finish_init u alloc out).0 ≡ raise value_error)
      × ((finish_init u alloc out).1.driver ≡ u.driver)
finish_init-refused u alloc (false, c) e = (refl, refl)
finish_init-refused u alloc (true, c) e = cc

-- A transmit pin that `init` has refused stays in the object: each later `init` of the running port
-- that does not name a pin is refused too, while the driver goes on with its old configuration.
pub init_helper-refused_pin :
    (id : ℕ) (u : Uart) (a : Args) (alloc : Bool)
    → u.initialized ≡ true
    → pin_ok u.config.tx ≡ false
    → a.tx ≡ none
    → ((init_helper id u a alloc).0 ≡ raise value_error)
      × ((init_helper id u a alloc).1.driver ≡ u.driver)
unfolding init_helper
init_helper-refused_pin id u a alloc running bad absent =
    finish_init-refused u alloc (set_config (base_config u id) a)
      (set_config-tx (base_config u id) a absent (still_bad u.initialized running))
  where
    still_bad :
        (b : Bool) → b ≡ true → pin_ok (if b then u.config else default_config id).tx ≡ false
    still_bad b e = rw e bad
