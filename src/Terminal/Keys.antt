-- ===== src/Terminal/Keys.antt =====
-- The interrupt handler of the log UART in mphalport.c: what becomes of the bytes that are typed.
use ameba_micro_python.Prelude.{
  ℕ, suc, ◌+◌, ◌-◌, ◌%◌, ◌^◌, ◌<◌, ◌≡◌, ◌∙◌, refl, ap, Bool, true, false, Option, none, some, List,
  [], ◌∷◌, ◌++◌, length, take, arith, length-append, length-take,
}
use ameba_micro_python.RingBuf.{RingBuf, IsQueue}
use ameba_micro_python.RingBuf.Fill.{put_all, put_all-contents}
use ameba_micro_python.Terminal.{
  LogUart, is_interrupt_char, stored, rx_byte, rx_bytes, log_uart_irq,
}

-- The bytes other than the interrupt character, and how many are that character.
abbrev pub keep : Bool → ℕ → List ℕ → List ℕ
keep true c cs = cs
keep false c cs = c ∷ cs

abbrev pub keys : Option ℕ → List ℕ → List ℕ
keys i [] = []
keys i (c ∷ cs) = keep (is_interrupt_char i c) c (keys i cs)

abbrev pub count_if : Bool → ℕ → ℕ
count_if true n = suc n
count_if false n = n

abbrev pub count_interrupts : Option ℕ → List ℕ → ℕ
count_interrupts i [] = 0
count_interrupts i (c ∷ cs) = count_if (is_interrupt_char i c) (count_interrupts i cs)

module _ (ring : RingBuf) (queue : IsQueue ring) where
  open ring use {Buf, contents, capacity, put}

  abbrev pub room : LogUart ring → ℕ
  room u = capacity - length (contents u.stdin_ringbuf)

  -- What a run of the handler does with the keys `ks` and `n` interrupt characters: the keys go to the
  -- buffer, those for which there is no room are counted as lost, and each interrupt character asks for
  -- one KeyboardInterrupt.
  pub record Takes (ks : List ℕ) (n : ℕ) (u u' : LogUart ring) : Type 0 where
    pub to_buffer : u'.stdin_ringbuf ≡ put_all ring u.stdin_ringbuf ks
    pub lost : u'.uart_rx_overflow ≡ (u.uart_rx_overflow + (length ks - room u)) % 2 ^ 32
    pub asked : u'.interrupts ≡ u.interrupts + n

  stored-Takes :
      (ks : List ℕ) (n : ℕ) (u u' : LogUart ring) (c : ℕ) (o : Option Buf)
      → put u.stdin_ringbuf c ≡ o
      → Takes ks n (stored ring u o) u'
      → Takes (c ∷ ks) n u u'
  unfolding put_all
  stored-Takes ks n u u' c none full t = record {
    to_buffer = rw full t.to_buffer;
    lost = omega (arith, t.lost, queue.put_none u.stdin_ringbuf c full);
    asked = t.asked;
  }
  stored-Takes ks n u u' c (some b) fits t =
      let grown : length (contents b) ≡ length (contents u.stdin_ringbuf) + 1 =
        ap length (queue.put_some u.stdin_ringbuf b c fits)
        ∙ length-append (contents u.stdin_ringbuf) (c ∷ []) in
      record {
        to_buffer = rw fits t.to_buffer;
        lost = omega (arith, t.lost, grown, queue.put_room u.stdin_ringbuf b c fits);
        asked = t.asked;
      }

  byte-Takes :
      (b : Bool) (ks : List ℕ) (n : ℕ) (u u' : LogUart ring) (c : ℕ)
      → Takes ks n (rx_byte ring b u c) u'
      → Takes (keep b c ks) (count_if b n) u u'
  byte-Takes true ks n u u' c t = record {
    to_buffer = t.to_buffer;
    lost = t.lost;
    asked = omega (arith, t.asked);
  }
  byte-Takes false ks n u u' c t = stored-Takes ks n u u' c (put u.stdin_ringbuf c) refl t

  rx_byte-bound :
      (b : Bool) (u : LogUart ring) (c : ℕ)
      → u.uart_rx_overflow < 2 ^ 32
      → (rx_byte ring b u c).uart_rx_overflow < 2 ^ 32
  rx_byte-bound true u c h = h
  rx_byte-bound false u c h = go (put u.stdin_ringbuf c)
    where
      go : (o : Option Buf) → (stored ring u o).uart_rx_overflow < 2 ^ 32
      go none = omega arith
      go (some b) = h

  pub rx_bytes-Takes :
      (i : Option ℕ) (u : LogUart ring) (cs : List ℕ)
      → u.uart_rx_overflow < 2 ^ 32
      → Takes (keys i cs) (count_interrupts i cs) u (rx_bytes ring i u cs)
  unfolding rx_bytes put_all
  rx_bytes-Takes i u [] h = record { to_buffer = refl; lost = omega arith; asked = omega arith }
  rx_bytes-Takes i u (c ∷ cs) h =
      let b : Bool = is_interrupt_char i c in
      byte-Takes b (keys i cs) (count_interrupts i cs) u (rx_bytes ring i (rx_byte ring b u c) cs) c
        (rx_bytes-Takes i (rx_byte ring b u c) cs (rx_byte-bound b u c h))

  -- The handler appends the bytes that are not the interrupt character to the buffer, in order and as
  -- far as there is room; it counts exactly the others of them as lost (in 32 bits), asks for a
  -- KeyboardInterrupt once for each interrupt character, and restores the interrupt mask.
  pub log_uart_irq-contents :
      (i : Option ℕ) (u : LogUart ring) (cs : List ℕ)
      → u.uart_rx_overflow < 2 ^ 32
      → let u' = log_uart_irq ring i u true cs in
        (contents u'.stdin_ringbuf ≡ contents u.stdin_ringbuf ++ take (room u) (keys i cs))
        × (u'.uart_rx_overflow ≡ (u.uart_rx_overflow + (length (keys i cs) - room u)) % 2 ^ 32)
        × (u'.interrupts ≡ u.interrupts + count_interrupts i cs)
        × (u'.imr ≡ u.imr)
  unfolding log_uart_irq
  log_uart_irq-contents i u cs h =
      let t = rx_bytes-Takes i (record u { imr = 0 }) cs h in
      (
        ap contents t.to_buffer ∙ put_all-contents ring queue u.stdin_ringbuf (keys i cs),
        t.lost,
        t.asked,
        refl,
      )

  -- After a key has been typed the buffer is not empty.
  pub log_uart_irq-filled :
      (i : Option ℕ) (u : LogUart ring) (cs : List ℕ)
      → u.uart_rx_overflow < 2 ^ 32
      → 0 < capacity
      → 0 < length (keys i cs)
      → 0 < length (contents (log_uart_irq ring i u true cs).stdin_ringbuf)
  log_uart_irq-filled i u cs h c k =
      let (e, l, n, m) = log_uart_irq-contents i u cs h in
      omega (
        arith,
        ap length e,
        length-append (contents u.stdin_ringbuf) (take (room u) (keys i cs)),
        length-take (room u) (keys i cs),
        c,
        k,
      )

  pub log_uart_irq-bound :
      (i : Option ℕ) (u : LogUart ring) (cs : List ℕ)
      → u.uart_rx_overflow < 2 ^ 32
      → (log_uart_irq ring i u true cs).uart_rx_overflow < 2 ^ 32
  log_uart_irq-bound i u cs h =
      let (e, l, n, m) = log_uart_irq-contents i u cs h in omega (arith, l)
