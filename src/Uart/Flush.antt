-- ===== src/Uart/Flush.antt =====
-- The time limit of `flush` in `mp_machine_uart_ioctl` of machine_uart.c.
use ameba_micro_python.Prelude.{
  ℕ, zero, suc, ◌+◌, ◌*◌, ◌/◌, ◌%◌, ◌^◌, ◌≤◌, ◌<◌, ◌≡◌, refl, Bool, Option, none, some, ltb,
  if◌then◌else◌, arith,
}
use native.Mathlib.Nat.{le-div_iff_mul-le, div-mul-le_self}
use ameba_micro_python.Py.{os_error, etimedout, Result, ok, raise}
use ameba_micro_python.Uart.{Config}

-- `timeout_us`: the product is computed in 32 bits, from left to right. `fifo` is the size of the
-- transmit FIFO of the hardware.
unfoldable pub flush_timeout_us : ℕ → Config → ℕ
flush_timeout_us fifo c =
    ((c.txbuf_len + fifo + 1) % 2 ^ 32 * 10 % 2 ^ 32 * 1000000 % 2 ^ 32 * 2) % 2 ^ 32 / c.baudrate

-- The loop of the flush: whether the port is still busy and how many microseconds have passed in
-- round `i`. `none` is a loop that still runs when the fuel is used up.
unfoldable pub flush_loop : (ℕ → Bool) → (ℕ → ℕ) → ℕ → ℕ → ℕ → Option (Result (Unit {0}))
flush_loop busy elapsed timeout zero i = none
flush_loop busy elapsed timeout (suc fuel) i =
    let rest = flush_loop busy elapsed timeout fuel (i + 1) in
    if busy i
    then if ltb timeout (elapsed i) then some (raise (os_error etimedout)) else rest
    else some (ok tt)

-- Up to 214 bytes of queue, FIFO and one more, the limit is twice the time of sending them all.
pub flush_timeout_us-exact :
    (fifo : ℕ) (c : Config)
    → 0 < c.baudrate
    → c.txbuf_len + fifo + 1 ≤ 214
    → flush_timeout_us fifo c ≡ (c.txbuf_len + fifo + 1) * 10 * 1000000 * 2 / c.baudrate
unfolding flush_timeout_us
flush_timeout_us-exact fifo c pos_ h =
    let n : ℕ = c.txbuf_len + fifo + 1 in
    let e : (n % 2 ^ 32 * 10 % 2 ^ 32 * 1000000 % 2 ^ 32 * 2) % 2 ^ 32 ≡ n * 10 * 1000000 * 2 =
      omega arith in
    rw e refl

div_mono : (a b d : ℕ) → 0 < d → a ≤ b → a / d ≤ b / d
div_mono a b d h le =
    (le-div_iff_mul-le {x = a / d} {y = b} h).1 (omega (arith, div-mul-le_self a d))

-- Where the queue, the FIFO and one more byte are 215 to 429 bytes, as with the default queue of 256
-- bytes and a FIFO of up to 172, the product wraps: at each rate the limit of `flush` is at most the
-- time in which so many bytes are sent once, at ten bits each.
pub flush_timeout_us-short :
    (fifo : ℕ) (c : Config)
    → 0 < c.baudrate
    → 215 ≤ c.txbuf_len + fifo + 1
    → c.txbuf_len + fifo + 1 ≤ 429
    → flush_timeout_us fifo c ≤ (c.txbuf_len + fifo + 1) * 10 * 1000000 / c.baudrate
unfolding flush_timeout_us
flush_timeout_us-short fifo c pos_ lo hi = div_mono _ _ c.baudrate pos_ (omega arith)
