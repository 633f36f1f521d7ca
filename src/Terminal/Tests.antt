-- ===== src/Terminal/Tests.antt =====
-- The theorems about the terminal of mphalport.c at one input each.
use ameba_micro_python.Prelude.{
  ℕ, ◌+◌, ◌-◌, ◌%◌, ◌^◌, ◌≡◌, ◌⊎◌, refl, true, false, Option, none, some, List, [], ◌∷◌, ◌++◌,
  length, take, arith,
}
use ameba_micro_python.Py.{ok}
use ameba_micro_python.RingBuf.Tests.{three, three-IsQueue}
use ameba_micro_python.Terminal.{
  Dupterm, LogUart, Sources, throws, brings, stdio_poll, stdin_rx_chr, log_uart_irq, rx_bytes,
  stdout_tx_strn, stdout_loop,
}
use ameba_micro_python.Terminal.Keys.{keys, count_interrupts, log_uart_irq-contents}
use ameba_micro_python.Terminal.Input.{Returns, stdio_poll-stdin_rx_chr, stdin_rx_chr-typed}

-- No `dupterm` stream.
abbrev no_dupterm : Dupterm
no_dupterm = record { Stream = Unit {0}; rx_chr = λ d. (none, d); readable = λ d. false }

-- Ctrl-C interrupts.
abbrev ctrl_c : Option ℕ
ctrl_c = some 3

abbrev one_key : LogUart three
one_key = record { stdin_ringbuf = 97 ∷ []; uart_rx_overflow = 0; interrupts = 0; imr = 1 }

abbrev typed_bytes : List ℕ
typed_bytes = 98 ∷ 3 ∷ 99 ∷ 100 ∷ []

abbrev sources : Sources three no_dupterm
sources = record { loguart = record one_key { stdin_ringbuf = [] }; stream = tt; usb = [] }

log_uart_irq-contents_example :
    let u' = log_uart_irq three ctrl_c one_key true typed_bytes in
    (u'.stdin_ringbuf ≡ 97 ∷ take (3 - 1) (keys ctrl_c typed_bytes))
    × (u'.uart_rx_overflow ≡ (0 + (length (keys ctrl_c typed_bytes) - (3 - 1))) % 2 ^ 32)
    × (u'.interrupts ≡ 0 + count_interrupts ctrl_c typed_bytes)
    × (u'.imr ≡ 1)
log_uart_irq-contents_example =
    log_uart_irq-contents three three-IsQueue ctrl_c one_key typed_bytes (omega arith)

stdio_poll-stdin_rx_chr_example :
    (((stdio_poll three no_dupterm sources true false).0 ≡ true)
      × Returns three three-IsQueue no_dupterm ctrl_c sources (throws ∷ []))
    ⊎ ((sources.loguart.stdin_ringbuf ≡ [])
        × (sources.usb ≡ [])
        × ((stdio_poll three no_dupterm sources true false).0 ≡ false)
        × ((((no_dupterm.rx_chr tt).0 ≡ none)
              × (stdin_rx_chr three no_dupterm ctrl_c sources [] ≡ none))
            ⊎ ((c : ℕ) × ((no_dupterm.rx_chr tt).0 ≡ some c)
                × Returns three three-IsQueue no_dupterm ctrl_c sources (throws ∷ []))))
stdio_poll-stdin_rx_chr_example =
    stdio_poll-stdin_rx_chr three three-IsQueue no_dupterm ctrl_c sources false (throws ∷ [])

stdin_rx_chr-typed_example :
    (c : ℕ) × (s' : Sources three no_dupterm) × (stdin_rx_chr three no_dupterm ctrl_c sources
        ((brings (3 ∷ []) [] (λ d. d) ∷ []) ++ brings typed_bytes [] (λ d. d) ∷ [])
      ≡ some (ok c, s'))
stdin_rx_chr-typed_example =
    stdin_rx_chr-typed three three-IsQueue no_dupterm ctrl_c sources
      (brings (3 ∷ []) [] (λ d. d) ∷ []) typed_bytes [] (λ d. d) (omega arith) (omega arith) tt
      (omega arith)

-- The handler keeps "a", takes "b" and "c", loses "d", and asks for one interrupt.
log_uart_irq-run :
    log_uart_irq three ctrl_c one_key true typed_bytes
    ≡ record { stdin_ringbuf = 97 ∷ 98 ∷ 99 ∷ []; uart_rx_overflow = 1; interrupts = 1; imr = 1 }
unfolding log_uart_irq rx_bytes
log_uart_irq-run = refl

stdout_tx_strn-run : stdout_tx_strn (104 ∷ 105 ∷ []) ≡ record {
  to_dupterm = 104 ∷ 105 ∷ [];
  to_usb = 104 ∷ 105 ∷ [];
  to_loguart = 104 ∷ 105 ∷ [];
  n_chars = 2;
}
unfolding stdout_tx_strn stdout_loop
stdout_tx_strn-run = refl
