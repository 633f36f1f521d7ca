-- ===== src/Uart/Receive.antt =====
-- The receive direction of machine_uart.c: the interrupt that drains the FIFO of the hardware into the
-- queue, and `mp_machine_uart_read`.
use ameba_micro_python.Prelude.{
  ℕ, ◌+◌, ◌-◌, ◌/◌, ◌%◌, ◌^◌, ◌≡◌, ◌∙◌, refl, ap, Bool, true, false, ◌&&◌, ◌||◌, Option, none, some,
  List, [], ◌∷◌, ◌++◌, length, take, arith, ◌==◌, if◌then◌else◌,
}
use ameba_micro_python.RingBuf.{RingBuf, IsQueue}
use ameba_micro_python.RingBuf.Fill.{put_all, put_all-contents, or_same}

-- What the line-status register tells after the drain.
pub record Status : Type 0 where
  pub is_break : Bool
  pub timed_out : Bool

-- The bits of a trigger.
abbrev pub bit : ℕ → ℕ → Bool
bit n k = n / 2 ^ k % 2 == 1

abbrev pub irq_rx : ℕ
irq_rx = 0

abbrev pub irq_break : ℕ
irq_break = 1

abbrev pub irq_rxidle : ℕ
irq_rxidle = 2

abbrev pub flag : Bool → ℕ → ℕ
flag b k = if b then 2 ^ k else 0

module _ (ring : RingBuf) where
  open ring use {Buf, put, get, avail}

  -- The `while` loop of the RxIrq branch over the bytes in the FIFO: the queue lags by the byte
  -- `pending` (`none` is -1). It returns the queue, `got_byte` and the byte held back.
  unfoldable pub drain_fifo : Buf → Bool → Option ℕ → List ℕ → Buf × Bool × Option ℕ
  drain_fifo b got pending [] = (b, got, pending)
  drain_fifo b got none (c ∷ cs) = drain_fifo b got (some c) cs
  drain_fifo b got (some p) (c ∷ cs) = drain_fifo (or_same ring b (put b p)) true (some c) cs

  -- The byte held back is dropped after a break.
  abbrev pub put_pending : Bool → Buf × Bool × Option ℕ → Buf × Bool
  put_pending is_break (b, got, none) = (b, got)
  put_pending is_break (b, got, some p) =
      if is_break then (b, got) else (or_same ring b (put b p), true)

  -- The RxIrq branch of `machine_uart_irq_handler`: the queue and the flags.
  unfoldable pub rx_irq : Buf → List ℕ → Status → ℕ → Buf × ℕ
  unfolding drain_fifo
  rx_irq b fifo s trigger =
      let (b', got) = put_pending s.is_break (drain_fifo b false none fifo) in
      (
        b',
        flag (got && bit trigger irq_rx) irq_rx
            + flag (s.timed_out && bit trigger irq_rxidle) irq_rxidle
            + flag (s.is_break && bit trigger irq_break) irq_break,
      )

-- The bytes of the FIFO that are data: all, or after a break all but the last.
abbrev pub but_last : List ℕ → List ℕ
but_last [] = []
but_last (x ∷ []) = []
but_last (x ∷ y ∷ ys) = x ∷ but_last (y ∷ ys)

abbrev pub data_of : Bool → List ℕ → List ℕ
data_of true fifo = but_last fifo
data_of false fifo = fifo

abbrev pub is_nonempty : List ℕ → Bool
is_nonempty [] = false
is_nonempty (x ∷ xs) = true

module _ (ring : RingBuf) where
  open ring use {Buf, contents}

  drain_fifo-pending :
      (b : Buf) (got : Bool) (p : ℕ) (cs : List ℕ) (is_break : Bool)
      → put_pending ring is_break (drain_fifo ring b got (some p) cs) ≡ (
        put_all ring b (data_of is_break (p ∷ cs)),
        got || is_nonempty (data_of is_break (p ∷ cs)),
      )
  unfolding drain_fifo put_all
  drain_fifo-pending b got p [] true = ground arith
  drain_fifo-pending b got p [] false = ground arith
  drain_fifo-pending b got p (c ∷ cs) true =
      drain_fifo-pending (or_same ring b (ring.put b p)) true c cs true ∙ ground arith
  drain_fifo-pending b got p (c ∷ cs) false =
      drain_fifo-pending (or_same ring b (ring.put b p)) true c cs false ∙ ground arith

  drain_fifo-lem :
      (b : Buf) (fifo : List ℕ) (is_break : Bool)
      → put_pending ring is_break (drain_fifo ring b false none fifo)
        ≡ (put_all ring b (data_of is_break fifo), is_nonempty (data_of is_break fifo))
  unfolding drain_fifo put_all
  drain_fifo-lem b [] true = refl
  drain_fifo-lem b [] false = refl
  drain_fifo-lem b (c ∷ cs) is_break = drain_fifo-pending b false c cs is_break

-- One interrupt: the data of the FIFO goes to the end of the queue, in order, as far as there is room,
-- and a break drops exactly the last byte of the FIFO. IRQ_RX is flagged exactly where there was data
-- and the trigger asks for it.
pub rx_irq-contents :
    (ring : RingBuf) (b : ring.Buf) (fifo : List ℕ) (s : Status) (trigger : ℕ)
    → IsQueue ring
    → let bytes = data_of s.is_break fifo in
      (ring.contents (rx_irq ring b fifo s trigger).0
        ≡ ring.contents b ++ take (ring.capacity - length (ring.contents b)) bytes)
      × ((rx_irq ring b fifo s trigger).1
          ≡ flag (is_nonempty bytes && bit trigger irq_rx) irq_rx
            + flag (s.timed_out && bit trigger irq_rxidle) irq_rxidle
            + flag (s.is_break && bit trigger irq_break) irq_break)
unfolding rx_irq
rx_irq-contents ring b fifo s trigger queue =
    let e = drain_fifo-lem ring b fifo s.is_break in
    (
      ap (λ out. ring.contents out.0) e ∙ put_all-contents ring queue b (data_of s.is_break fifo),
      ap
          (λ out.
            flag (out.1 && bit trigger irq_rx) irq_rx
            + flag (s.timed_out && bit trigger irq_rxidle) irq_rxidle
            + flag (s.is_break && bit trigger irq_break) irq_break)
          e,
    )
