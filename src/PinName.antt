-- ===== src/PinName.antt =====
-- The pin arguments of machine_uart.c, machine_i2c.c, machine_i2c_target.c and machine_spi.c: each file
-- has its own copy of `machine_..._get_pin`, of which machine_uart.c's is the one translated here. A
-- character is its code.
pub mod Names
use ameba_micro_python.Prelude.{
  ℕ, zero, suc, ◌+◌, ◌*◌, ◌-◌, ◌%◌, ◌^◌, ◌<◌, ◌≤◌, ◌/◌, Bool, true, false, not, ◌&&◌, ◌||◌, Option,
  none, some, List, [], ◌∷◌, ◌==◌, ltb, leb, if◌then◌else◌, ℤ, pos, negsuc,
}

-- `PinName`s: the port in the bits above the lowest five.
abbrev pub pa_0 : ℕ
pa_0 = 0

abbrev pub pb_0 : ℕ
pb_0 = 32

-- An argument: a number, a string, or anything else.
pub data PinArg : Type 0 where
  number : ℤ → PinArg
  str : List ℕ → PinArg
  other : PinArg

abbrev pub is_digit : ℕ → Bool
is_digit c = leb 48 c && leb c 57

-- The loop over the digits from `num` on; `none` is a character that is no digit, or no digit at all.
-- The sum is in `int`.
unfoldable pub digits : List ℕ → ℕ → Bool → Option ℕ
digits [] num has_digit = if has_digit then some num else none
digits (c ∷ cs) num has_digit =
    let rest = digits cs ((num * 10 + (c - 48)) % 2 ^ 32) true in if is_digit c then rest else none

-- The number after the port, with one underscore before it left out.
unfoldable pub after_port : List ℕ → Option ℕ
unfolding digits
after_port [] = none
after_port (c ∷ cs) = if c == 95 then digits cs 0 false else digits (c ∷ cs) 0 false

-- The pin of a port, for a number up to 31 (a negative one is above it as a word).
abbrev pub in_port : ℕ → Option ℕ → Option ℕ
in_port base none = none
in_port base (some num) = if leb num 31 then some (base + num) else none

unfoldable pub parse : List ℕ → Option ℕ
unfolding after_port
parse (p ∷ port ∷ c ∷ cs) =
    if not (p == 80)
    then none
    else if port == 65
    then in_port pa_0 (after_port (c ∷ cs))
    else if port == 66
    then in_port pb_0 (after_port (c ∷ cs))
    else none
parse _ = none

-- `machine_uart_get_pin`; `none` is the ValueError. A number is not looked at, and is a word here.
unfoldable pub get_pin : PinArg → Option ℕ
unfolding parse
get_pin (number (pos n)) = some (n % 2 ^ 32)
get_pin (number (negsuc n)) = some (2 ^ 32 - 1 - n % 2 ^ 32)
get_pin (str s) = parse s
get_pin other = none

-- How `print` writes a pin: "PA" or "PB", and the number in decimal.
unfoldable pub decimal2 : ℕ → List ℕ
decimal2 n = if ltb n 10 then (48 + n) ∷ [] else (48 + n / 10) ∷ (48 + n % 10) ∷ []

unfoldable pub print_pin : ℕ → List ℕ
unfolding decimal2
print_pin p = if ltb p pb_0 then 80 ∷ 65 ∷ decimal2 p else 80 ∷ 66 ∷ decimal2 (p - pb_0)
