-- ===== src/Uart.antt =====
-- ports/ameba-rtos-m/src/machine_uart.c: `machine.UART`, a serial port with a queue in each direction.
-- This file has the configuration of a port, its construction and its interrupt registration; the
-- children have the two directions. The SDK's serial driver enters by what it is given and answers.
pub mod Init
pub mod Flush
pub mod Read
pub mod Receive
pub mod Transmit
mod Tests
use ameba_micro_python.Prelude.{
  ℕ, zero, suc, ◌+◌, ◌*◌, ◌-◌, ◌/◌, ◌%◌, ◌^◌, Bool, true, false, not, ◌&&◌, ◌||◌, Option, none,
  some, List, [], ◌∷◌, ◌==◌, ltb, leb, if◌then◌else◌, ℤ, pos, negsuc, ltb_ℤ, pos_part,
}
use ameba_micro_python.Py.{Exc, value_error, memory_error, Result, ok, raise}
use ameba_micro_python.PinName.{PinArg, get_pin, pb_0}

pub data Parity : Type 0 where
  parity_none parity_odd parity_even : Parity

-- The part of `machine_uart_obj_t` that `init` sets from its arguments.
pub record Config : Type 0 where
  pub baudrate : ℕ
  pub bits : ℕ
  pub parity : Parity
  pub stop : ℕ
  pub tx : ℕ
  pub rx : ℕ
  pub timeout : ℕ
  pub timeout_char : ℕ
  pub rxbuf_len : ℕ
  pub txbuf_len : ℕ

-- The whole object: `driver` is the configuration that the SDK's driver was last started with, with
-- buffers of its lengths (`none` where it is stopped), `irq_obj` the handler of `mp_irq_obj`.
pub record Uart : Type 0 where
  pub config : Config
  pub initialized : Bool
  pub driver : Option Config
  pub tx_busy : Bool
  pub irq_trigger : ℕ
  pub irq_obj : Option ℕ

-- The parsed arguments of `init`; -1 is a number that is not given. A parity of `some none` is None.
pub record Args : Type 0 where
  pub baudrate : ℤ
  pub bits : ℤ
  pub parity : Option (Option ℕ)
  pub stop : ℤ
  pub tx : Option PinArg
  pub rx : Option PinArg
  pub timeout : ℤ
  pub timeout_char : ℤ
  pub rxbuf : ℤ
  pub txbuf : ℤ

abbrev pub is_given : ℤ → Bool
is_given (pos n) = true
is_given (negsuc n) = false

-- A value of two that the argument must be, where it is given.
abbrev pub is_one_of : ℤ → ℕ → ℕ → Bool
is_one_of (pos n) a b = n == a || n == b
is_one_of (negsuc n) a b = true

abbrev pub given_or : ℤ → ℕ → ℕ
given_or (pos n) old = n
given_or (negsuc n) old = old

-- `UART_MIN_RXBUF` and `UART_MAX_RXBUF`, which are those of the other direction too.
abbrev pub min_buf : ℕ
min_buf = 32

abbrev pub max_buf : ℕ
max_buf = 8192

abbrev pub clamp_buf : ℕ → ℕ
clamp_buf n = if ltb n min_buf then min_buf else if ltb max_buf n then max_buf else n

abbrev pub buf_or : ℤ → ℕ → ℕ
buf_or (pos n) old = clamp_buf n
buf_or (negsuc n) old = old

-- A timeout, stored in 16 bits.
abbrev pub timeout_or : ℤ → ℕ → ℕ
timeout_or (pos n) old = n % 2 ^ 16
timeout_or (negsuc n) old = old

abbrev pub parity_or : Option (Option ℕ) → Parity → Parity
parity_or none old = old
parity_or (some none) old = parity_none
parity_or (some (some p)) old = if p % 2 == 1 then parity_odd else parity_even

-- `uart_tx_pin_ok` and `uart_rx_pin_ok`: from PA_6 on, without PB_12.
unfoldable pub pin_ok : ℕ → Bool
pin_ok p = leb 6 p && not (p == pb_0 + 12)

-- The default pins of the two ports, and the other defaults of a first `init`.
abbrev pub default_config : ℕ → Config
default_config id = record {
  baudrate = 115200;
  bits = 8;
  parity = parity_none;
  stop = 1;
  tx = if id == 1 then 29 else 31;
  rx = if id == 1 then 28 else 30;
  timeout = 0;
  timeout_char = 0;
  rxbuf_len = 256;
  txbuf_len = 256;
}

-- A pin that is given, stored in 16 bits; `none` is an argument that is no pin.
abbrev pub pin_or : Option PinArg → ℕ → Option ℕ
pin_or none old = some old
pin_or (some a) old = elim (get_pin a) [ none ↦ none | some p ↦ some (p % 2 ^ 16) ]

-- The steps of `mp_machine_uart_init_helper` before the buffers are allocated, with the configuration
-- reached where one of them raises ValueError (false).
abbrev pub set_numbers : Config → Args → Config
set_numbers c a = record c {
  timeout = timeout_or a.timeout c.timeout;
  timeout_char = timeout_or a.timeout_char c.timeout_char;
  rxbuf_len = buf_or a.rxbuf c.rxbuf_len;
  txbuf_len = buf_or a.txbuf c.txbuf_len;
}

abbrev pub check_pins : Config → Bool × Config
check_pins c = (pin_ok c.tx && pin_ok c.rx, c)

unfoldable pub set_rx : Config → Args → Bool × Config
set_rx c a = elim (pin_or a.rx c.rx) [
  | none ↦ (false, c)
  | some p ↦ check_pins (set_numbers (record c { rx = p }) a)
]

unfoldable pub set_pins : Config → Args → Bool × Config
unfolding set_rx
set_pins c a = elim (pin_or a.tx c.tx) [
  | none ↦ (false, c)
  | some p ↦ set_rx (record c { tx = p }) a
]

abbrev pub set_baudrate : Config → Args → Config
set_baudrate c a =
    if ltb_ℤ (pos 0) a.baudrate then record c { baudrate = pos_part a.baudrate } else c

unfoldable pub set_stop : Config → Args → Bool × Config
unfolding set_pins
set_stop c a =
    if is_one_of a.stop 1 2
    then set_pins (record c { stop = given_or a.stop c.stop }) a
    else (false, c)

unfoldable pub set_config : Config → Args → Bool × Config
unfolding set_stop
set_config c a =
    let c' = set_baudrate c a in
    if is_one_of a.bits 7 8
    then set_stop
        (record c' { bits = given_or a.bits c'.bits; parity = parity_or a.parity c'.parity }) a
    else (false, c')

-- The configuration that `init` starts from.
abbrev pub base_config : Uart → ℕ → Config
base_config u id = if u.initialized then u.config else default_config id

-- The end of `init`, with all buffers allocated: an earlier driver is stopped and its interrupt
-- registration dropped.
abbrev pub start_driver : Uart → Config → Uart
start_driver u c = record {
  config = c;
  initialized = true;
  driver = some c;
  tx_busy = if u.initialized then false else u.tx_busy;
  irq_trigger = if u.initialized then 0 else u.irq_trigger;
  irq_obj = if u.initialized then none else u.irq_obj;
}

abbrev pub finish_init : Uart → Bool → Bool × Config → Result (Unit {0}) × Uart
finish_init u alloc (false, c) = (raise value_error, record u { config = c })
finish_init u alloc (true, c) =
    if alloc then (ok tt, start_driver u c) else (raise memory_error, record u { config = c })

-- `mp_machine_uart_init_helper` of the port `id`; `alloc` tells whether the buffers can be allocated.
unfoldable pub init_helper : ℕ → Uart → Args → Bool → Result (Unit {0}) × Uart
unfolding set_config
init_helper id u a alloc = finish_init u alloc (set_config (base_config u id) a)

-- `mp_machine_uart_make_new` on the table of the two ports.
unfoldable pub make_new : (ℕ → Uart) → ℤ → Args → Bool → Result ℕ × (ℕ → Uart)
unfolding init_helper
make_new ports (negsuc n) a alloc = (raise value_error, ports)
make_new ports (pos id) a alloc =
    let (r, u) = init_helper id (ports id) a alloc in
    if ltb id 2
    then (elim r [ ok _ ↦ ok id | raise e ↦ raise e ], λ j. if j == id then u else ports j)
    else (raise value_error, ports)

-- `mp_machine_uart_deinit`
unfoldable pub deinit : Uart → Uart
deinit u = record u {
  initialized = false;
  driver = if u.initialized then none else u.driver;
  irq_obj = none;
  irq_trigger = 0;
  tx_busy = false;
}

-- The registration that `mp_machine_uart_irq` drops first.
abbrev pub without_irq : Uart → Uart
without_irq u = elim u.irq_obj [ none ↦ u | some _ ↦ record u { irq_trigger = 0; irq_obj = none } ]

-- `mp_machine_uart_irq` with arguments, and `machine_uart_irq_trigger`: a trigger has 16 bits.
unfoldable pub irq : Uart → Option ℕ → ℕ → Uart
irq u none trigger = without_irq u
irq u (some handler) trigger =
    if trigger == 0
    then without_irq u
    else record (without_irq u) { irq_obj = some handler; irq_trigger = trigger % 2 ^ 16 }

abbrev pub set_trigger : Uart → ℕ → Uart
set_trigger u trigger = record u { irq_trigger = trigger % 2 ^ 16 }
