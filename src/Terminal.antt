-- ===== src/Terminal.antt =====
-- ports/ameba-rtos-m/src/mphalport.c: the terminal of the REPL, which reads the log UART, the
-- `dupterm` stream of the MicroPython core, and the USB serial port of machine_usbserial.c, and writes
-- to all three. The ring buffer is the parameter `RingBuf`, and `dupterm` a parameter with a state.
pub mod Input
pub mod Keys
mod Tests
use ameba_micro_python.Prelude.{
  ℕ, zero, suc, ◌+◌, ◌%◌, ◌^◌, Bool, true, false, not, ◌&&◌, ◌||◌, Option, none, some, List, [],
  ◌∷◌, ◌++◌, length, ◌==◌, if◌then◌else◌, ◌≡◌,
}
use ameba_micro_python.Py.{Exc, pending, Result, ok, raise}
use ameba_micro_python.RingBuf.{RingBuf}
use ameba_micro_python.Usb.{poll, received}

-- `mp_os_dupterm_rx_chr` (`none` for a negative answer) and the reading part of `mp_os_dupterm_poll`.
pub record Dupterm : Type 1 where
  pub Stream : Type 0
  pub rx_chr : Stream → Option ℕ × Stream
  pub readable : Stream → Bool

-- The log UART: its receive buffer, the count of lost bytes, how often `mp_sched_keyboard_interrupt`
-- was called, and the interrupt mask of the hardware.
pub record LogUart (ring : RingBuf) : Type 0 where
  pub stdin_ringbuf : ring.Buf
  pub uart_rx_overflow : ℕ
  pub interrupts : ℕ
  pub imr : ℕ

-- `mp_interrupt_char`, `none` for -1.
abbrev pub is_interrupt_char : Option ℕ → ℕ → Bool
is_interrupt_char none c = false
is_interrupt_char (some i) c = c == i

module _ (ring : RingBuf) where
  -- The result of `ringbuf_put` in the interrupt handler.
  abbrev pub stored : LogUart ring → Option ring.Buf → LogUart ring
  stored u none = record u { uart_rx_overflow = (u.uart_rx_overflow + 1) % 2 ^ 32 }
  stored u (some b) = record u { stdin_ringbuf = b }

  -- One byte of the interrupt handler; the first argument tells whether it is the interrupt character.
  abbrev pub rx_byte : Bool → LogUart ring → ℕ → LogUart ring
  rx_byte true u c = record u { interrupts = u.interrupts + 1 }
  rx_byte false u c = stored u (ring.put u.stdin_ringbuf c)

  -- The loop of `log_uart_irq` over the bytes of the receive FIFO.
  unfoldable pub rx_bytes : Option ℕ → LogUart ring → List ℕ → LogUart ring
  rx_bytes interrupt_char u [] = u
  rx_bytes interrupt_char u (c ∷ cs) =
      rx_bytes interrupt_char (rx_byte (is_interrupt_char interrupt_char c) u c) cs

  -- `log_uart_irq`: `ready` is LOGUART_BIT_DRDY of the line status.
  unfoldable pub log_uart_irq : Option ℕ → LogUart ring → Bool → List ℕ → LogUart ring
  log_uart_irq interrupt_char u ready cs =
      if ready
      then record (rx_bytes interrupt_char (record u { imr = 0 }) cs) { imr = u.imr }
      else u

-- What the REPL reads from: the log UART, `dupterm`, and the buffer of the USB port.
pub record Sources (ring : RingBuf) (dup : Dupterm) : Type 0 where
  pub loguart : LogUart ring
  pub stream : dup.Stream
  pub usb : ring.Buf

-- One run of `MICROPY_EVENT_POLL_HOOK`: a pending exception is thrown, or interrupts bring bytes and
-- other tasks act on the stream.
pub data Hook (dup : Dupterm) : Type 0 where
  throws : Hook dup
  brings : List ℕ → List ℕ → (dup.Stream → dup.Stream) → Hook dup

module _ (ring : RingBuf) (dup : Dupterm) where
  -- The reading part of `mp_hal_stdio_poll`, then the writing part.
  unfoldable pub stdio_poll : Sources ring dup → Bool → Bool → Bool × Bool
  stdio_poll s rd wr = (
    (rd && dup.readable s.stream)
        || ((poll ring s.usb rd wr).0
            || (rd && elim (ring.peek s.loguart.stdin_ringbuf) [ none ↦ false | some _ ↦ true ])),
    (poll ring s.usb rd wr).1 || wr,
  )

  -- The three sources in order, each tried where the ones before gave nothing.
  abbrev pub from_usb : Sources ring dup → Option (ℕ × ring.Buf) → Option ℕ × Sources ring dup
  from_usb s none = (none, s)
  from_usb s (some (c, b)) = (some c, record s { usb = b })

  abbrev pub from_stream : Sources ring dup → Option ℕ × dup.Stream → Option ℕ × Sources ring dup
  from_stream s (some c, d) = (some c, record s { stream = d })
  from_stream s (none, d) = from_usb (record s { stream = d }) (ring.get s.usb)

  abbrev pub from_loguart : Sources ring dup → Option (ℕ × ring.Buf) → Option ℕ × Sources ring dup
  from_loguart s none = from_stream s (dup.rx_chr s.stream)
  from_loguart s (some (c, b)) =
      (some c, record s { loguart = record s.loguart { stdin_ringbuf = b } })

  -- One round of the loop of `mp_hal_stdin_rx_chr`.
  unfoldable pub rx_round : Sources ring dup → Option ℕ × Sources ring dup
  rx_round s = from_loguart s (ring.get s.loguart.stdin_ringbuf)

  -- The interrupts of a hook, and the USB port's callback.
  abbrev pub after_hook :
      Option ℕ → List ℕ → List ℕ → (dup.Stream → dup.Stream) → Sources ring dup → Sources ring dup
  after_hook interrupt_char typed host act s = record {
    loguart = log_uart_irq ring interrupt_char s.loguart true typed;
    stream = act s.stream;
    usb = (received ring s.usb 0 host).0;
  }

  -- The byte of a round, or what comes after it.
  abbrev pub got_or :
      Option ℕ × Sources ring dup
      → (Sources ring dup → Option (Result ℕ × Sources ring dup))
      → Option (Result ℕ × Sources ring dup)
  got_or (some c, s) rest = some (ok c, s)
  got_or (none, s) rest = rest s

  -- `mp_hal_stdin_rx_chr` over the hooks that run while it waits; `none` where it waits at their end.
  unfoldable pub stdin_rx_chr :
      Option ℕ → Sources ring dup → List (Hook dup) → Option (Result ℕ × Sources ring dup)
  unfolding rx_round
  stdin_rx_chr interrupt_char s [] = got_or (rx_round s) (λ s'. none)
  stdin_rx_chr interrupt_char s (throws ∷ hooks) =
      got_or (rx_round s) (λ s'. some (raise pending, s'))
  stdin_rx_chr interrupt_char s (brings typed host act ∷ hooks) =
      got_or (rx_round s)
        (λ s'. stdin_rx_chr interrupt_char (after_hook interrupt_char typed host act s') hooks)

-- `mp_hal_stdout_tx_strn`: what `dupterm`, the USB port and the log UART are given, and the count.
unfoldable pub stdout_loop : List ℕ → ℕ → List ℕ × ℕ
stdout_loop [] n_chars = ([], n_chars)
stdout_loop (c ∷ str) n_chars = let (sent, n) = stdout_loop str (n_chars + 1) in (c ∷ sent, n)

pub record Output : Type 0 where
  pub to_dupterm : List ℕ
  pub to_usb : List ℕ
  pub to_loguart : List ℕ
  pub n_chars : ℕ

unfoldable pub stdout_tx_strn : List ℕ → Output
unfolding stdout_loop
stdout_tx_strn str = record {
  to_dupterm = str;
  to_usb = str;
  to_loguart = (stdout_loop str 0).0;
  n_chars = (stdout_loop str 0).1;
}
