-- ===== src/Terminal/Input.antt =====
-- The poll and the reader of the terminal in mphalport.c: what `mp_hal_stdin_rx_chr` returns, and when.
use ameba_micro_python.Prelude.{
  ℕ, ◌^◌, ◌<◌, ◌≡◌, ◌⊎◌, ◌∙◌, refl, ap, Bool, true, false, Option, none, some, List, [], ◌∷◌, ◌++◌,
  length, inl, inr, Option-cases, Bool-cases, arith, ◌||◌,
}
use ameba_micro_python.Py.{Result, ok}
use ameba_micro_python.RingBuf.{RingBuf, IsQueue}
use ameba_micro_python.Usb.{poll}
use ameba_micro_python.Terminal.Keys.{keys, log_uart_irq-filled, log_uart_irq-bound}
use ameba_micro_python.Terminal.{
  Dupterm, Sources, Hook, throws, brings, stdio_poll, from_usb, from_stream, from_loguart, rx_round,
  after_hook, got_or, stdin_rx_chr,
}

abbrev pub is_some {ℓ} : {A : Type ℓ} → Option A → Bool
is_some none = false
is_some (some x) = true

module _ (ring : RingBuf) (queue : IsQueue ring) (dup : Dupterm) where
  open ring use {Buf, contents, get, peek}

  -- A peek tells whether a get gives a byte.
  peek-get : (b : Buf) → is_some (peek b) ≡ is_some (get b)
  peek-get b = elim (Option-cases (peek b)) [
    | inl e ↦ elim (Option-cases (get b)) [
      | inl f ↦ rw (e, f) refl
      | inr ((c, b'), f) ↦ cc (queue.peek_none b e, queue.get_some b b' c f)
    ]
    | inr (x, e) ↦ elim (Option-cases (get b)) [
      | inl f ↦ let (l, g) = queue.peek_some b x e in cc (g, queue.get_none b f)
      | inr (c, f) ↦ rw (e, f) refl
    ]
  ]

  -- A round gives a byte where one of the sources has one.
  from_usb-is_some :
      (s : Sources ring dup) (o : Option (ℕ × Buf)) → is_some (from_usb ring dup s o).0 ≡ is_some o
  from_usb-is_some s none = refl
  from_usb-is_some s (some (c, b)) = refl

  from_stream-is_some :
      (s : Sources ring dup) (p : Option ℕ × dup.Stream)
      → is_some (from_stream ring dup s p).0 ≡ (is_some p.0 || is_some (get s.usb))
  from_stream-is_some s (some c, d) = refl
  from_stream-is_some s (none, d) = from_usb-is_some (record s { stream = d }) (get s.usb)

  from_loguart-is_some :
      (s : Sources ring dup) (o : Option (ℕ × Buf))
      → is_some (from_loguart ring dup s o).0
        ≡ (is_some o || (is_some (dup.rx_chr s.stream).0 || is_some (get s.usb)))
  from_loguart-is_some s none = from_stream-is_some s (dup.rx_chr s.stream)
  from_loguart-is_some s (some (c, b)) = refl

  or_rotate : (a b c : Bool) → (b || (c || a)) ≡ (a || (b || c))
  or_rotate a b c = ground arith

  -- The poll and a round, by what each source has.
  stdio_poll-sources :
      (s : Sources ring dup) (wr : Bool)
      → (stdio_poll ring dup s true wr).0
        ≡ (dup.readable s.stream || (is_some (get s.usb) || is_some (get s.loguart.stdin_ringbuf)))
  unfolding stdio_poll poll
  stdio_poll-sources s wr = rw (peek-get s.loguart.stdin_ringbuf, peek-get s.usb) refl

  round-sources :
      (s : Sources ring dup)
      → is_some (rx_round ring dup s).0 ≡ (
          is_some (get s.loguart.stdin_ringbuf)
          || (is_some (dup.rx_chr s.stream).0 || is_some (get s.usb)))
  unfolding rx_round
  round-sources s = from_loguart-is_some s (get s.loguart.stdin_ringbuf)

  get-empty : (b : Buf) → is_some (get b) ≡ false → contents b ≡ []
  get-empty b e = elim (Option-cases (get b)) [
    | inl f ↦ queue.get_none b f
    | inr ((c, b'), f) ↦ absurd (cc)
  ]

  -- The first round decides, where it gives a byte.
  rx_chr-first :
      (i : Option ℕ) (s s' : Sources ring dup) (hooks : List (Hook dup)) (c : ℕ)
      → rx_round ring dup s ≡ (some c, s')
      → stdin_rx_chr ring dup i s hooks ≡ some (ok c, s')
  unfolding stdin_rx_chr
  rx_chr-first i s s' [] c e = rw (e, got_or) refl
  rx_chr-first i s s' (throws ∷ hooks) c e = rw (e, got_or) refl
  rx_chr-first i s s' (brings typed host act ∷ hooks) c e = rw (e, got_or) refl

  -- The reader returns a byte before any of the hooks runs.
  abbrev pub Returns : Option ℕ → Sources ring dup → List (Hook dup) → Type 0
  Returns i s hooks =
      (c : ℕ) × (s' : Sources ring dup) × (stdin_rx_chr ring dup i s hooks ≡ some (ok c, s'))
      × (rx_round ring dup s ≡ (some c, s'))

  round-Returns :
      (i : Option ℕ) (s : Sources ring dup) (hooks : List (Hook dup))
      → is_some (rx_round ring dup s).0 ≡ true
      → Returns i s hooks
  round-Returns i s hooks h = go (rx_round ring dup s) refl h
    where
      go :
          (out : Option ℕ × Sources ring dup)
          → rx_round ring dup s ≡ out
          → is_some out.0 ≡ true
          → Returns i s hooks
      go (some c, s') e h = (c, s', rx_chr-first i s s' hooks c e, e)
      go (none, s') e h = absurd (cc)

  round-waits :
      (i : Option ℕ) (s : Sources ring dup)
      → is_some (rx_round ring dup s).0 ≡ false
      → stdin_rx_chr ring dup i s [] ≡ none
  unfolding stdin_rx_chr
  round-waits i s h = go (rx_round ring dup s) h
    where
      go :
          (out : Option ℕ × Sources ring dup)
          → is_some out.0 ≡ false
          → got_or ring dup out (λ s'. none) ≡ none
      go (some c, s') h = absurd (cc)
      go (none, s') h = refl

  -- The poll and the reader agree about the log UART and the USB port, whatever `dupterm` does: either
  -- one of the two has a byte, the poll says readable, and `mp_hal_stdin_rx_chr` returns a byte before any
  -- hook runs; or both are empty, the poll says what that of `dupterm` says, and the reader returns a
  -- byte at once exactly where `mp_os_dupterm_rx_chr` gives one.
  pub stdio_poll-stdin_rx_chr :
      (i : Option ℕ) (s : Sources ring dup) (wr : Bool) (hooks : List (Hook dup))
      → (((stdio_poll ring dup s true wr).0 ≡ true) × Returns i s hooks)
        ⊎ ((contents s.loguart.stdin_ringbuf ≡ [])
            × (contents s.usb ≡ [])
            × ((stdio_poll ring dup s true wr).0 ≡ dup.readable s.stream)
            × ((((dup.rx_chr s.stream).0 ≡ none) × (stdin_rx_chr ring dup i s [] ≡ none))
                ⊎ ((c : ℕ) × ((dup.rx_chr s.stream).0 ≡ some c) × Returns i s hooks)))
  stdio_poll-stdin_rx_chr i s wr hooks =
      let p = stdio_poll-sources s wr in
      let r = round-sources s in
      elim (Bool-cases (is_some (get s.loguart.stdin_ringbuf))) [
        | inl log ↦ inl (ground arith, round-Returns i s hooks (ground arith))
        | inr no_log ↦ elim (Bool-cases (is_some (get s.usb))) [
          | inl usb ↦ inl (ground arith, round-Returns i s hooks (ground arith))
          | inr no_usb ↦ inr (
            get-empty s.loguart.stdin_ringbuf no_log,
            get-empty s.usb no_usb,
            ground arith,
            elim (Option-cases (dup.rx_chr s.stream).0) [
              | inl e ↦ inl (e, round-waits i s (r ∙ rw (no_log, no_usb, e) refl))
              | inr (c, e) ↦ inr (c, e, round-Returns i s hooks (r ∙ rw (no_log, no_usb, e) refl))
            ],
          )
        ]
      ]

  -- Hooks that throw nothing.
  abbrev pub Calm : List (Hook dup) → Type 0
  Calm [] = Unit {0}
  Calm (throws ∷ hooks) = ⊥
  Calm (brings typed host act ∷ hooks) = Calm hooks

  -- A byte is in the log UART's buffer.
  filled-round :
      (s : Sources ring dup)
      → 0 < length (contents s.loguart.stdin_ringbuf)
      → (c : ℕ) × (s' : Sources ring dup) × (rx_round ring dup s ≡ (some c, s'))
  unfolding rx_round
  filled-round s h = elim (Option-cases (get s.loguart.stdin_ringbuf)) [
    | inl e ↦ absurd (omega (arith, ap length (queue.get_none s.loguart.stdin_ringbuf e)))
    | inr ((c, b), e) ↦ (
      c,
      record s { loguart = record s.loguart { stdin_ringbuf = b } },
      rw (e, from_loguart) refl,
    )
  ]

  -- A round does not count lost bytes.
  round-overflow :
      (s : Sources ring dup)
      → (rx_round ring dup s).1.loguart.uart_rx_overflow ≡ s.loguart.uart_rx_overflow
  unfolding rx_round
  round-overflow s = loguart_part (get s.loguart.stdin_ringbuf)
    where
      usb_part :
          (t : Sources ring dup) (o : Option (ℕ × Buf))
          → (from_usb ring dup t o).1.loguart.uart_rx_overflow ≡ t.loguart.uart_rx_overflow
      usb_part t none = refl
      usb_part t (some (c, b)) = refl

      stream_part :
          (p : Option ℕ × dup.Stream)
          → (from_stream ring dup s p).1.loguart.uart_rx_overflow ≡ s.loguart.uart_rx_overflow
      stream_part (some c, d) = refl
      stream_part (none, d) = usb_part (record s { stream = d }) (get s.usb)

      loguart_part :
          (o : Option (ℕ × Buf))
          → (from_loguart ring dup s o).1.loguart.uart_rx_overflow ≡ s.loguart.uart_rx_overflow
      loguart_part none = stream_part (dup.rx_chr s.stream)
      loguart_part (some (c, b)) = refl

  -- What the reader does in its first round, when the rest of it would give a byte.
  got_or-some :
      (out : Option ℕ × Sources ring dup)
      (rest : Sources ring dup → Option (Result ℕ × Sources ring dup))
      → ((c : ℕ) × (s' : Sources ring dup) × (rest out.1 ≡ some (ok c, s')))
      → (c : ℕ) × (s' : Sources ring dup) × (got_or ring dup out rest ≡ some (ok c, s'))
  got_or-some (some c, s) rest h = (c, s, refl)
  got_or-some (none, s) rest h = h

  -- A reader that waits is woken by a key: whatever hooks ran before, none of them throwing, once the
  -- log UART receives a byte that is not the interrupt character, `mp_hal_stdin_rx_chr` has returned a
  -- byte by the end of that hook.
  pub stdin_rx_chr-typed :
      (i : Option ℕ) (s : Sources ring dup) (hooks : List (Hook dup)) (typed host : List ℕ)
      (act : dup.Stream → dup.Stream)
      → 0 < ring.capacity
      → s.loguart.uart_rx_overflow < 2 ^ 32
      → Calm hooks
      → 0 < length (keys i typed)
      → (c : ℕ) × (s' : Sources ring dup) × (stdin_rx_chr ring dup i s
            (hooks ++ brings typed host act ∷ [])
          ≡ some (ok c, s'))
  unfolding stdin_rx_chr
  stdin_rx_chr-typed i s [] typed host act cap bound calm key =
      let s1 : Sources ring dup = (rx_round ring dup s).1 in
      let s2 : Sources ring dup = after_hook ring dup i typed host act s1 in
      let b1 : s1.loguart.uart_rx_overflow < 2 ^ 32 = omega (arith, round-overflow s, bound) in
      let (c, s', e) =
        filled-round s2 (log_uart_irq-filled ring queue i s1.loguart typed b1 cap key) in
      got_or-some (rx_round ring dup s)
        (λ t. stdin_rx_chr ring dup i (after_hook ring dup i typed host act t) [])
        (c, s', rx_chr-first i s2 s' [] c e)
  stdin_rx_chr-typed i s (throws ∷ hooks) typed host act cap bound calm key = absurd calm
  stdin_rx_chr-typed i s (brings typed' host' act' ∷ hooks) typed host act cap bound calm key =
      let s1 : Sources ring dup = (rx_round ring dup s).1 in
      let s2 : Sources ring dup = after_hook ring dup i typed' host' act' s1 in
      let b1 : s1.loguart.uart_rx_overflow < 2 ^ 32 = omega (arith, round-overflow s, bound) in
      got_or-some (rx_round ring dup s)
        (λ t.
          stdin_rx_chr ring dup i (after_hook ring dup i typed' host' act' t)
            (hooks ++ brings typed host act ∷ []))
        (stdin_rx_chr-typed i s2 hooks typed host act cap
          (log_uart_irq-bound ring queue i s1.loguart typed' b1) calm key)
