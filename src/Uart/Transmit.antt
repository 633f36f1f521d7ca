-- ===== src/Uart/Transmit.antt =====
-- The transmit direction of machine_uart.c: `mp_machine_uart_write`, `uart_fill_tx_fifo`, the TxIrq
-- branch of the interrupt handler and `mp_machine_uart_txdone`.
-- The interrupt runs between any two steps of the thread, also inside its `uart_fill_tx_fifo`, between
-- `ringbuf_get` and `serial_putc`; the thread does not run inside the interrupt. `room` is the number of
-- bytes for which `serial_writable` answers yes there; in the thread it may answer either.
pub mod Order
use ameba_micro_python.Prelude.{
  ℕ, zero, suc, ◌≡◌, ◌<◌, Bool, true, false, not, ◌||◌, Option, none, some, List, [], ◌∷◌, ◌++◌,
  ◌==◌, if◌then◌else◌,
}
use ameba_micro_python.RingBuf.{RingBuf}
use ameba_micro_python.RingBuf.Fill.{or_same}
use ameba_micro_python.Uart.Read.{byte_or}

-- The queue, `tx_busy`, whether the one-shot interrupt is armed; beside them what has been given to
-- `serial_putc`, what `write` has taken from its callers, whether a `write` is in its first loop, whether
-- the thread is in `uart_fill_tx_fifo`, the byte that it holds there, and whether an interrupt has come
-- while it held one.
pub record Tx (Buf : Type 0) : Type 0 where
  pub queue : Buf
  pub busy : Bool
  pub armed : Bool
  pub wire : List ℕ
  pub taken : List ℕ
  pub queueing : Bool
  pub filling : Bool
  pub hand : Option ℕ
  pub crossed : Bool

module _ (ring : RingBuf) where
  open ring use {Buf, put, get, avail, free}

  abbrev pub arm_if_busy : Tx Buf → Tx Buf
  arm_if_busy t = if t.busy then record t { armed = true } else t

  -- `serial_putc` of the next byte of the queue.
  abbrev pub send_next : Tx Buf → Tx Buf
  send_next t =
      let (c, rest) = byte_or t.queue (get t.queue) in
      record t { queue = rest; wire = t.wire ++ c ∷ [] }

  -- `uart_fill_tx_fifo`, as the interrupt runs it.
  unfoldable pub fill_tx_fifo : ℕ → Tx Buf → Tx Buf
  fill_tx_fifo zero t = arm_if_busy t
  fill_tx_fifo (suc room) t =
      let next = fill_tx_fifo room (send_next t) in
      if avail t.queue == 0 then arm_if_busy t else next

  -- The steps of `uart_fill_tx_fifo` in the thread: `ringbuf_get`, `serial_putc`, and its end.
  abbrev pub get_next : Tx Buf → Tx Buf
  get_next t =
      let (c, rest) = byte_or t.queue (get t.queue) in record t { queue = rest; hand = some c }

  abbrev pub put_next : Tx Buf → ℕ → Tx Buf
  put_next t c = record t { wire = t.wire ++ c ∷ []; hand = none }

  abbrev pub fill_end : Tx Buf → Tx Buf
  fill_end t = record (arm_if_busy t) { filling = false }

  -- `ringbuf_put` of a byte of the caller.
  abbrev pub put_byte : Tx Buf → ℕ → Tx Buf
  put_byte t x = record t {
    queue = or_same ring t.queue (put t.queue x);
    taken = t.taken ++ x ∷ [];
  }

  -- The first loop of `write`, byte by byte; its end, up to the first fill; and one round of its last
  -- loop, in which the queue has room again, up to its fill.
  abbrev pub queue_byte : Tx Buf → ℕ → Tx Buf
  queue_byte t x = record (put_byte t x) { queueing = true }

  abbrev pub end_queueing : Tx Buf → Tx Buf
  end_queueing t = record t { busy = true; queueing = false; filling = true }

  abbrev pub feed_byte : Tx Buf → ℕ → Tx Buf
  feed_byte t x = record (put_byte t x) { filling = true }

  -- The TxIrq branch, which the driver calls after it has disarmed the interrupt.
  abbrev pub tx_irq : Tx Buf → ℕ → Tx Buf
  tx_irq t room =
      let off = record t { armed = false } in
      if avail t.queue == 0 then record off { busy = false } else fill_tx_fifo room off

  -- `mp_machine_uart_txdone` of an initialized port.
  abbrev pub txdone : Tx Buf → Bool
  txdone t = not t.busy

  -- What the interrupt leaves, with the note that it came while the thread held a byte.
  abbrev pub is_held : Option ℕ → Bool
  is_held none = false
  is_held (some c) = true

  abbrev pub interrupted : Tx Buf → ℕ → Tx Buf
  interrupted t room = record (tx_irq t room) { crossed = t.crossed || is_held t.hand }

  -- One step of the thread or of the interrupt.
  pub data Step (t t' : Tx Buf) : Type 0 where
    queues : (x : ℕ) → t.filling ≡ false → 0 < free t.queue → queue_byte t x ≡ t' → Step t t'
    ends : t.queueing ≡ true → t.filling ≡ false → end_queueing t ≡ t' → Step t t'
    feeds :
        (x : ℕ)
        → t.queueing ≡ false
        → t.filling ≡ false
        → 0 < free t.queue
        → feed_byte t x ≡ t'
        → Step t t'
    gets : t.filling ≡ true → t.hand ≡ none → 0 < avail t.queue → get_next t ≡ t' → Step t t'
    puts : (c : ℕ) → t.filling ≡ true → t.hand ≡ some c → put_next t c ≡ t' → Step t t'
    fills : t.filling ≡ true → t.hand ≡ none → fill_end t ≡ t' → Step t t'
    interrupts : (room : ℕ) → t.armed ≡ true → interrupted t room ≡ t' → Step t t'

  abbrev pub idle : Buf → Tx Buf
  idle empty = record {
    queue = empty;
    busy = false;
    armed = false;
    wire = [];
    taken = [];
    queueing = false;
    filling = false;
    hand = none;
    crossed = false;
  }

  pub data Reach (empty : Buf) : Tx Buf → Type 0 where
    at_start : Reach empty (idle empty)
    next : {t t' : Tx Buf} → Reach empty t → Step t t' → Reach empty t'
