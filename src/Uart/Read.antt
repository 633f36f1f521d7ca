-- ===== src/Uart/Read.antt =====
-- `mp_machine_uart_read` of machine_uart.c, with its timeouts.
-- The interrupt runs between two looks at the queue: `arrive i` is the data that it stores before look
-- `i`, and `tick i` the clock in milliseconds at that look, which the code sees in 32 bits.
pub mod Takes
pub mod Total
use ameba_micro_python.Prelude.{
  ℕ, zero, suc, ◌+◌, ◌-◌, ◌*◌, ◌%◌, ◌^◌, ◌<◌, ◌≤◌, ◌≡◌, ◌≢◌, ◌∙◌, ◌⊎◌, refl, ap, sym, Option, none,
  some, List, [], ◌∷◌, ◌++◌, length, length-append, take, arith, inl, inr, Option-cases, Bool-cases,
  ltb, ◌==◌, if◌then◌else◌,
}
use mathlib.Core.Path.{subst}
use mathlib.Core.List.{append_assoc, append-nil}
use ameba_micro_python.Py.{os_error, eagain, Result, ok, raise}
use ameba_micro_python.RingBuf.{RingBuf, IsQueue}
use ameba_micro_python.RingBuf.Fill.{put_all, put_all-contents}

abbrev pub u32 : ℕ → ℕ
u32 n = n % 2 ^ 32

-- `mp_hal_ticks_ms() - start` in 32 bits.
abbrev pub elapsed_since : ℕ → ℕ → ℕ
elapsed_since start now = u32 (u32 now + 2 ^ 32 - start)

-- `(uint8_t)` of what `ringbuf_get` returns, -1 where it is empty.
abbrev pub byte_or {ℓ} : {B : Type ℓ} → B → Option (ℕ × B) → ℕ × B
byte_or b none = (0xff, b)
byte_or b (some cb) = cb

abbrev pub prepend {ℓ} : {B : Type ℓ} → ℕ → Option (List ℕ × B) → Option (List ℕ × B)
prepend c none = none
prepend c (some (out, b)) = some (c ∷ out, b)

-- The data of `k` looks from `i` on.
abbrev pub flow : (ℕ → List ℕ) → ℕ → ℕ → List ℕ
flow arrive i zero = []
flow arrive i (suc k) = arrive i ++ flow arrive (i + 1) k

module _ (ring : RingBuf) (arrive : ℕ → List ℕ) (tick : ℕ → ℕ) (timeout_char : ℕ) where
  open ring use {Buf, get, avail}

  -- The loops, from look `i` on, for `n` more bytes: the bytes read, and the queue. `none` is a loop
  -- that still waits when the fuel is used up.
  unfoldable pub read_loop : ℕ → ℕ → Buf → ℕ → ℕ → ℕ → Option (List ℕ × Buf)
  read_loop fuel i b start timeout zero = some ([], b)
  read_loop zero i b start timeout (suc n) = none
  read_loop (suc fuel) i b start timeout (suc n) =
      let b' = put_all ring b (arrive i) in
      let (c, rest) = byte_or b' (get b') in
      let waited = read_loop fuel (i + 1) b' start timeout (suc n) in
      let got = read_loop fuel (i + 1) rest (u32 (tick i)) timeout_char n in
      if avail b' == 0
      then if ltb timeout (elapsed_since start (tick i)) then some ([], b') else waited
      else prepend c got

  abbrev pub or_again : List ℕ × Buf → Result (List ℕ) × Buf
  or_again ([], b) = (raise (os_error eagain), b)
  or_again (x ∷ xs, b) = (ok (x ∷ xs), b)

  abbrev pub or_again_option : Option (List ℕ × Buf) → Option (Result (List ℕ) × Buf)
  or_again_option none = none
  or_again_option (some out) = some (or_again out)

  -- `mp_machine_uart_read` of `size` bytes, begun at the clock `start`.
  unfoldable pub read : ℕ → Buf → ℕ → ℕ → ℕ → Option (Result (List ℕ) × Buf)
  unfolding read_loop
  read fuel b start timeout zero = some (ok [], b)
  read fuel b start timeout (suc n) =
      or_again_option (read_loop fuel 0 b (u32 start) timeout (suc n))
