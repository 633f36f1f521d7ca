-- ===== src/Pin/Table.antt =====
-- The pin table of machine_pin.c and the lookup of a number in it.
use ameba_micro_python.Prelude.{
  ℕ, zero, suc, ◌+◌, ◌*◌, ◌-◌, ◌%◌, ◌^◌, ◌<◌, ◌≤◌, ◌≡◌, ◌⊎◌, ◌↔◌, refl, Bool, true, false, ◌&&◌,
  ltb, if◌then◌else◌, pos, negsuc, arith, lt→ltb, sym, ap,
}
use mathlib.Core.Path.{subst}
use ameba_micro_python.Py.{value_error, ok, raise}
use ameba_micro_python.Pin.{
  Soc, dplus, lite, green2, smart, port_a, port_b, port_c, table_size, init_bank, table_init,
  is_valid_pinname, number, find,
}

-- A slot is filled by a bank exactly where it is one of the bank's, or was filled before.
init_bank_iff :
    (bank n : ℕ) (table : ℕ → Bool) (i : ℕ)
    → (init_bank bank n table i ≡ true)
      ↔ (((bank * 32 ≤ i) × (i < bank * 32 + n)) ⊎ (table i ≡ true))
unfolding init_bank
init_bank_iff bank zero table i = ground arith
init_bank_iff bank (suc n) table i = ground (arith, init_bank_iff bank n table i)

-- The pins of a build: those of its three banks.
abbrev pub IsPin : Soc → ℕ → Type 0
IsPin soc i =
    ((64 ≤ i) × (i < 64 + port_c soc)) ⊎ ((32 ≤ i) × (i < 32 + port_b soc)) ⊎ (i < port_a soc)

pub table_init_iff : (soc : Soc) (i : ℕ) → (table_init soc i ≡ true) ↔ IsPin soc i
unfolding table_init
table_init_iff soc i = ground (
  arith,
  init_bank_iff 2 (port_c soc) (init_bank 1 (port_b soc) (init_bank 0 (port_a soc) (λ i. false))) i,
  init_bank_iff 1 (port_b soc) (init_bank 0 (port_a soc) (λ i. false)) i,
  init_bank_iff 0 (port_a soc) (λ i. false) i,
)

IsPin-bound : (soc : Soc) (i : ℕ) → IsPin soc i → i < table_size soc
IsPin-bound dplus i h = omega arith
IsPin-bound lite i h = omega arith
IsPin-bound green2 i h = omega arith
IsPin-bound smart i h = omega arith

table_size-bound : (soc : Soc) → table_size soc < 100
table_size-bound dplus = omega arith
table_size-bound lite = omega arith
table_size-bound green2 = omega arith
table_size-bound smart = omega arith

and-right : (a b : Bool) → (a && b) ≡ true → b ≡ true
and-right true b h = h
and-right false b h = cc

and-true : (a b : Bool) → a ≡ true → b ≡ true → (a && b) ≡ true
and-true a b h k = rw (h, k) refl

is_valid_pinname-pos :
    (soc : Soc) (n : ℕ) → n < 2 ^ 31 → (is_valid_pinname soc (pos n) ≡ true) ↔ IsPin soc n
is_valid_pinname-pos soc n h =
    let same : n % 2 ^ 32 ≡ n = omega arith in
    (
      λ e. subst (IsPin soc) same (
          (table_init_iff soc (n % 2 ^ 32)).0
            (and-right (ltb (n % 2 ^ 32) (table_size soc)) (table_init soc (n % 2 ^ 32)) e)),
      λ pin.
          and-true (ltb (n % 2 ^ 32) (table_size soc)) (table_init soc (n % 2 ^ 32))
            (lt→ltb _ _ (subst (λ j. j < table_size soc) (sym same) (IsPin-bound soc n pin)))
            ((table_init_iff soc (n % 2 ^ 32)).1 (subst (IsPin soc) (sym same) pin)),
    )

-- The test on a negative number, whose unsigned value is beyond the table.
is_valid_pinname-negsuc : (soc : Soc) (n : ℕ) → n < 2 ^ 31 → is_valid_pinname soc (negsuc n) ≡ false
is_valid_pinname-negsuc soc n h =
    let past : ltb (2 ^ 32 - 1 - n % 2 ^ 32) (table_size soc) ≡ false =
      le→not_ltb _ _ (omega (arith, table_size-bound soc)) in
    rw past refl
  where
    le→not_ltb : (a b : ℕ) → b ≤ a → ltb a b ≡ false
    le→not_ltb a b le = ground arith

-- In every build, a 32-bit number finds a pin exactly where it is the number of a pin of one of the
-- three banks, which it then is itself and lies within the table; each other number, negative or
-- between the banks, raises ValueError.
pub find-number :
    (soc : Soc) (n : ℕ)
    → n < 2 ^ 31
    → ((find soc (number (pos n)) ≡ ok n) ↔ (IsPin soc n × (n < table_size soc)))
      × (find soc (number (negsuc n)) ≡ raise value_error)
unfolding find
find-number soc n h =
    let (to, from) = is_valid_pinname-pos soc n h in
    let same : n % 2 ^ 32 ≡ n = omega arith in
    let out = is_valid_pinname-negsuc soc n h in
    (
      (
        λ e.
            let pin = to (found-valid (is_valid_pinname soc (pos n)) (n % 2 ^ 32) e) in
            (pin, IsPin-bound soc n pin),
        λ (pin, _). rw (from pin) (ap ok same),
      ),
      rw out refl,
    )
  where
    found-valid : (b : Bool) (i : ℕ) → (if b then ok i else raise value_error) ≡ ok n → b ≡ true
    found-valid true i e = refl
    found-valid false i e = cc
