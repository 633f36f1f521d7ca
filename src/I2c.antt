-- ===== src/I2c.antt =====
-- ports/ameba-rtos-m/src/machine_i2c.c: `machine.I2C`, and the constructor and the clean-up of
-- machine_i2c_target.c, which share its two controllers (the target's interrupt handler is in
-- I2cTarget). Of a controller one sees what it was last set up as; the calls of the HAL that transfer
-- bytes are parameters.
pub mod Roles
pub mod Reset
mod Tests
use ameba_micro_python.Prelude.{
  ℕ, zero, suc, ◌%◌, ◌^◌, Bool, true, false, not, ◌||◌, ◌&&◌, Option, none, some, List, [], ◌∷◌,
  get_elem?, set, length, map, ◌==◌, if◌then◌else◌, ℤ, pos, negsuc,
}
use ameba_micro_python.Py.{Exc, Errno, value_error, einval, eio, enodev, Result, ok, raise}

-- `machine_i2c_obj_t`
pub record Master : Type 0 where
  pub scl : ℕ
  pub sda : ℕ
  pub freq : ℕ
  pub timeout : ℕ
  pub initialized : Bool

-- The fields of `machine_i2c_target_obj_t` that the constructor sets; `handler` tells whether the
-- Python handler and memory of the port's root pointers are there.
pub record TargetObj : Type 0 where
  pub scl : ℕ
  pub sda : ℕ
  pub initialized : Bool
  pub handler : Bool

-- What a controller was last set up as, with its pads and its rate or its address.
pub data Role : Type 0 where
  idle : Role
  as_master : ℕ → ℕ → ℕ → Role
  as_slave : ℕ → ℕ → ℕ → Role

pub record Controller : Type 0 where
  pub master : Master
  pub target : TargetObj
  pub role : Role
  -- the interrupt of the target is registered
  pub irq : Bool

-- The arguments of `I2C`: `freq` and `timeout` are -1 where they are absent; a pin is `none` where it is
-- absent, `some none` where the parse raises.
pub record Args : Type 0 where
  pub freq : ℤ
  pub scl : Option (Option ℕ)
  pub sda : Option (Option ℕ)
  pub timeout : ℤ

-- DEFAULT_I2C_FREQ, DEFAULT_I2C_TIMEOUT_MS, and no pins
abbrev pub with_defaults : Master → Master
with_defaults m =
    if m.initialized then m else record m { freq = 400000; timeout = 1000; scl = 0; sda = 0 }

-- `if (arg > 0) field = arg`
abbrev pub positive_or : ℤ → ℕ → ℕ
positive_or (pos zero) old = old
positive_or (pos (suc n)) old = suc n
positive_or (negsuc n) old = old

abbrev pub pin_or : Option (Option ℕ) → ℕ → Option ℕ
pin_or none old = some old
pin_or (some p) old = p

-- The fields that the arguments set; `false` where an error ends it.
abbrev pub set_sda : Args → Master → Bool × Master
set_sda a m = elim (pin_or a.sda m.sda) [
  | none ↦ (false, m)
  | some p ↦ (
    not ((m.scl == 0) || (p == 0)),
    record m { sda = p; timeout = positive_or a.timeout m.timeout },
  )
]

abbrev pub set_scl : Args → Master → Bool × Master
set_scl a m = elim (pin_or a.scl m.scl) [
  | none ↦ (false, m)
  | some p ↦ set_sda a (record m { scl = p })
]

unfoldable pub set_args : Args → Master → Bool × Master
set_args a m = set_scl a (record m { freq = positive_or a.freq m.freq })

-- The end of `mp_machine_i2c_init_helper`: `i2c_reset` of a controller in use, then `i2c_init`.
abbrev pub start : Controller → Bool × Master → Result (Unit {0}) × Controller
start c (false, m) = (raise value_error, record c { master = m })
start c (true, m) = (
  ok tt,
  record c { master = record m { initialized = true }; role = as_master m.scl m.sda m.freq },
)

-- `mp_machine_i2c_init_helper`
unfoldable pub init_helper : Args → Controller → Result (Unit {0}) × Controller
unfolding set_args
init_helper a c = start c (set_args a (with_defaults c.master))

-- `mp_machine_i2c_target_deinit`
unfoldable pub target_deinit : Controller → Controller
target_deinit c =
    if c.target.initialized
    then record c { target = record c.target { initialized = false }; role = idle; irq = false }
    else c

-- The arguments of `I2CTarget`, and the pads of the board for the controller.
pub record TargetArgs : Type 0 where
  pub addr : ℕ
  pub addrsize : ℤ
  pub scl : Option (Option ℕ)
  pub sda : Option (Option ℕ)
  pub default_scl : ℕ
  pub default_sda : ℕ

abbrev pub is_seven : ℤ → Bool
is_seven (pos n) = n == 7
is_seven (negsuc n) = false

-- The rest of the constructor, after the pins.
abbrev pub target_start :
    TargetArgs → Controller → Option ℕ → Option ℕ → Result (Unit {0}) × Controller
target_start a c (some scl) (some sda) = (
  ok tt,
  record c {
    target = record { scl = scl; sda = sda; initialized = true; handler = false };
    role = as_slave scl sda a.addr;
    irq = true;
  },
)
target_start a c scl sda = (raise value_error, c)

-- `mp_machine_i2c_target_make_new`, of a controller that exists
unfoldable pub target_make_new : TargetArgs → Controller → Result (Unit {0}) × Controller
unfolding target_deinit
target_make_new a c =
    let c1 = target_deinit c in
    let c2 = record c1 { target = record c1.target { handler = false } } in
    if is_seven a.addrsize
    then (if c.master.initialized
        then (raise value_error, c)
        else target_start a c2 (pin_or a.scl a.default_scl) (pin_or a.sda a.default_sda))
    else (raise value_error, c)

-- `machine_i2c_deinit`, and one step of `machine_i2c_deinit_all`
unfoldable pub deinit : Controller → Controller
deinit c =
    if c.master.initialized
    then record c { master = record c.master { initialized = false }; role = idle }
    else c

-- The check of the id in both constructors, and the object of that id.
abbrev pub on_port :
    (Controller → Result (Unit {0}) × Controller)
    → List Controller
    → ℤ
    → Result (Unit {0}) × List Controller
on_port f ports (negsuc n) = (raise value_error, ports)
on_port f ports (pos n) = elim (get_elem? ports n) [
  | none ↦ (raise value_error, ports)
  | some c ↦ let (r, c') = f c in (r, set ports n c')
]

-- `machine_i2c_make_new`
abbrev pub make_new : Args → List Controller → ℤ → Result (Unit {0}) × List Controller
make_new a ports id = on_port (init_helper a) ports id

abbrev pub target_new : TargetArgs → List Controller → ℤ → Result (Unit {0}) × List Controller
target_new a ports id = on_port (target_make_new a) ports id

-- The two calls of the soft reset.
unfoldable pub deinit_all : List Controller → List Controller
unfolding deinit
deinit_all ports = map deinit ports

unfoldable pub target_deinit_all : List Controller → List Controller
unfolding target_deinit
target_deinit_all ports = map target_deinit ports

-- The result of a transfer: a count, or the negative of an errno.
pub data Ret : Type 0 where
  count : ℕ → Ret
  failed : Errno → Ret

-- Whether the HAL answered the length.
abbrev pub is_len : ℤ → ℕ → Bool
is_len (pos n) len = n == len
is_len (negsuc n) len = false

abbrev pub is_negative : ℤ → Bool
is_negative (pos n) = false
is_negative (negsuc n) = true

-- `machine_i2c_transfer_single` with the HAL's answers: of `i2c_read_timeout`, and of
-- `i2c_write_timeout`, each for an address, a length and a time-out.
unfoldable pub transfer_single : (ℕ → ℕ → ℕ → ℤ) → (ℕ → ℕ → ℕ → ℤ) → Master → ℕ → ℕ → Bool → Ret
transfer_single hal_read hal_write m addr len is_read =
    if not m.initialized
    then failed einval
    else if is_read
    then (if is_len (hal_read addr len m.timeout) len then count len else failed eio)
    else if len == 0
    then (if is_negative (hal_write addr 0 100) then failed enodev else count 0)
    else if is_len (hal_write addr len m.timeout) len
    then count len
    else failed eio
