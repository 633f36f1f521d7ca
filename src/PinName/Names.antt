-- ===== src/PinName/Names.antt =====
-- The names that `machine_uart_get_pin` reads, against those that `mp_machine_uart_print` writes.
use ameba_micro_python.Prelude.{ℕ, ◌-◌, ◌<◌, ◌≡◌, some, arith}
use ameba_micro_python.PinName.{str, digits, after_port, parse, get_pin, decimal2, print_pin}

after_port-decimal2 : (n : ℕ) → n < 32 → after_port (decimal2 n) ≡ some n
unfolding after_port decimal2 digits
after_port-decimal2 n h = ground arith

-- A pin of the ports A and B is read back from the name under which it is printed.
pub get_pin-print_pin : (p : ℕ) → p < 64 → get_pin (str (print_pin p)) ≡ some p
unfolding get_pin parse print_pin
get_pin-print_pin p h = ground (arith, after_port-decimal2 p, after_port-decimal2 (p - 32))
