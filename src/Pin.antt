-- ===== src/Pin.antt =====
-- ports/ameba-rtos-m/src/machine_pin.c: `machine.Pin`, one object for each pin of the SoC.
-- Calls of the SDK on a pin (`gpio_...`) are recorded, latest first; what `gpio_read` returns is an
-- argument.
pub mod OpenDrain
pub mod Table
mod Tests
use ameba_micro_python.Prelude.{
  ℕ, zero, suc, ◌+◌, ◌*◌, ◌-◌, ◌/◌, ◌%◌, ◌^◌, Bool, true, false, not, ◌&&◌, ◌||◌, Option, none,
  some, List, [], ◌∷◌, ◌==◌, ltb, if◌then◌else◌, ℤ, pos, negsuc,
}
use ameba_micro_python.Py.{Exc, value_error, Result, ok, raise}

-- The builds, with the number of pins of the banks A, B and C.
pub data Soc : Type 0 where
  dplus lite green2 smart : Soc

abbrev pub port_a : Soc → ℕ
port_a soc = 32

abbrev pub port_b : Soc → ℕ
port_b lite = 20
port_b _ = 32

abbrev pub port_c : Soc → ℕ
port_c green2 = 9
port_c smart = 7
port_c _ = 0

-- `AMEBA_PIN_TABLE_SIZE`
abbrev pub table_size : Soc → ℕ
table_size green2 = 2 * 32 + port_c green2
table_size smart = 2 * 32 + port_c smart
table_size soc = 32 + port_b soc

-- `machine_pin_table_init_bank` for the first `count` pins: which slots of the table are filled. A pin
-- is below 32, so that its index is a sum.
pub init_bank : ℕ → ℕ → (ℕ → Bool) → ℕ → Bool
init_bank bank zero table i = table i
init_bank bank (suc n) table i = if i == bank * 32 + n then true else init_bank bank n table i

-- `machine_pin_table_init`
pub table_init : Soc → ℕ → Bool
unfolding init_bank
table_init soc =
    init_bank 2 (port_c soc) (init_bank 1 (port_b soc) (init_bank 0 (port_a soc) (λ i. false)))

-- The conversion of an `int` to `unsigned`.
abbrev pub unsigned : ℤ → ℕ
unsigned (pos n) = n % 2 ^ 32
unsigned (negsuc n) = 2 ^ 32 - 1 - n % 2 ^ 32

-- `IS_VALID_PINNAME`
abbrev pub is_valid_pinname : Soc → ℤ → Bool
is_valid_pinname soc z = ltb (unsigned z) (table_size soc) && table_init soc (unsigned z)

-- The argument of `machine_pin_find`: a Pin, a number, a name with what the generated table of the
-- board finds, or something else.
pub data PinArg : Type 0 where
  pin_object : ℕ → PinArg
  number : ℤ → PinArg
  name : Option ℕ → PinArg
  other : PinArg

-- `machine_pin_find`, and `mp_hal_pin_resolve`: the index in the table.
pub find : Soc → PinArg → Result ℕ
unfolding table_init
find soc (pin_object i) = ok i
find soc (number z) = if is_valid_pinname soc z then ok (unsigned z) else raise value_error
find soc (name (some i)) = ok i
find soc (name none) = raise value_error
find soc other = raise value_error

abbrev pub mode_in : ℕ
mode_in = 0

abbrev pub mode_out : ℕ
mode_out = 1

abbrev pub mode_open_drain : ℕ
mode_open_drain = 2

-- The calls of the SDK on the pin.
pub data Call : Type 0 where
  init_call dir_input dir_output : Call
  write_call : ℕ → Call
  direct_write : Bool → Call
  pull_call : ℕ → Call

-- `machine_pin_obj_t`, without its interrupt.
pub record Pin : Type 0 where
  pub mode : ℕ
  pub pull : ℕ
  pub gpio_configured : Bool
  pub od_output_high : Bool
  pub calls : List Call

-- The object after `machine_pin_table_init_bank`.
abbrev pub initial : Pin
initial = record {
  mode = mode_in;
  pull = 0;
  gpio_configured = false;
  od_output_high = true;
  calls = [];
}

abbrev pub is_open_drain : Pin → Bool
is_open_drain p = p.mode == mode_open_drain

-- The value of an open-drain pin, as `init`, `value` and the pin protocol write it.
abbrev pub od_write : Pin → Bool → Pin
od_write p true = record p { calls = dir_input ∷ p.calls; od_output_high = true }
od_write p false = record p { calls = write_call 0 ∷ dir_output ∷ p.calls; od_output_high = false }

abbrev pub bit : Bool → ℕ
bit true = 1
bit false = 0

-- The three parts of `machine_pin_init_helper`, each for an argument that may be missing.
abbrev pub init_mode : Pin → Option ℕ → Pin
init_mode p none = p
init_mode p (some m) =
    if m == mode_in
    then record p { mode = m % 2 ^ 8; calls = dir_input ∷ p.calls }
    else if m == mode_open_drain
    then record p {
      mode = m % 2 ^ 8;
      od_output_high = true;
      calls = dir_input ∷ dir_output ∷ p.calls;
    }
    else record p { mode = m % 2 ^ 8; calls = dir_output ∷ p.calls }

abbrev pub init_pull : Pin → Option ℕ → Pin
init_pull p none = p
init_pull p (some n) = record p { pull = n % 2 ^ 8; calls = pull_call n ∷ p.calls }

abbrev pub init_value : Pin → Option Bool → Pin
init_value p none = p
init_value p (some v) =
    if is_open_drain p
    then od_write p v
    else if p.mode == mode_out
    then record p { calls = write_call (bit v) ∷ p.calls }
    else p

-- `machine_pin_init_helper`
unfoldable pub init_helper : Pin → Option ℕ → Option ℕ → Option Bool → Pin
init_helper p mode pull value = init_value (init_pull (init_mode p mode) pull) value

-- `mp_pin_make_new` on the object found, before its `init`; also `mp_hal_pin_gpio`.
abbrev pub configure : Pin → Pin
configure p =
    if p.gpio_configured
    then p
    else record p { gpio_configured = true; calls = init_call ∷ p.calls }

unfoldable pub make_new : Pin → Option ℕ → Option ℕ → Option Bool → Pin
unfolding init_helper
make_new p mode pull value = init_helper (configure p) mode pull value

-- `machine_pin_call` with a value
unfoldable pub call : Pin → Bool → Pin
call p v =
    if is_open_drain p then od_write p v else record p { calls = write_call (bit v) ∷ p.calls }

-- `machine_pin_on` and `machine_pin_off`
unfoldable pub on : Pin → Pin
on p =
    if is_open_drain p
    then record p { calls = dir_input ∷ p.calls; od_output_high = true }
    else record p { calls = direct_write true ∷ p.calls }

unfoldable pub off : Pin → Pin
off p =
    if is_open_drain p
    then record p { calls = write_call 0 ∷ dir_output ∷ p.calls; od_output_high = false }
    else record p { calls = direct_write false ∷ p.calls }

-- `machine_pin_toggle`, where `gpio_read` returns the level.
unfoldable pub toggle : Pin → Bool → Pin
toggle p level =
    if is_open_drain p
    then (if p.od_output_high
        then record p { calls = write_call 0 ∷ dir_output ∷ p.calls; od_output_high = false }
        else record p { calls = dir_input ∷ p.calls; od_output_high = true })
    else record p { calls = write_call (1 - bit level) ∷ p.calls }

-- MP_PIN_WRITE of `machine_pin_ioctl`
unfoldable pub ioctl_write : Pin → ℕ → Pin
ioctl_write p val =
    if is_open_drain p
    then od_write p (not (val == 0))
    else record p { calls = write_call val ∷ p.calls }
