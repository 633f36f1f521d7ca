-- ===== src/Uart/Read/Takes.antt =====
-- What `mp_machine_uart_read` returns: a queue with arrivals, read from its front.
use ameba_micro_python.Prelude.{
  ℕ, zero, suc, ◌+◌, ◌<◌, ◌≤◌, ◌≡◌, ◌∙◌, ◌⊎◌, refl, ap, sym, Option, none, some, List, [], ◌∷◌,
  ◌++◌, length, length-append, arith, inl, inr, Option-cases, Bool-cases, ltb, ◌==◌,
}
use mathlib.Core.Path.{subst}
use mathlib.Core.List.{append_assoc, append-nil}
use ameba_micro_python.Py.{os_error, eagain, Result, ok, raise}
use ameba_micro_python.RingBuf.{RingBuf, IsQueue}
use ameba_micro_python.RingBuf.Fill.{put_all, put_all-fits}
use ameba_micro_python.Uart.Read.{u32, elapsed_since, flow, read_loop, or_again, read}

module _ (ring : RingBuf) (queue : IsQueue ring) (arrive : ℕ → List ℕ) (tick : ℕ → ℕ)
    (timeout_char : ℕ) where
  open ring use {Buf, contents, capacity, get, avail}

  -- What a loop from look `i` returns: the bytes at the front of the queue and of the data of some
  -- `k` looks.
  abbrev pub Takes : ℕ → ℕ → Buf → ℕ → List ℕ × Buf → Type 0
  Takes fuel i b n out =
      (k : ℕ) × (k ≤ fuel)
      × (length out.0 ≤ n)
      × (out.0 ++ contents out.1 ≡ contents b ++ flow arrive i k)

  some-eq : (x y : List ℕ × Buf) → ◌≡◌ {A = Option (List ℕ × Buf)} (some x) (some y) → x ≡ y
  some-eq x y e = cc

  none-some : (x : List ℕ × Buf) → ◌≡◌ {A = Option (List ℕ × Buf)} none (some x) → ⊥
  none-some x e = cc

  -- One look more.
  Takes-look :
      (fuel i : ℕ) (b b' : Buf) (n : ℕ) (out : List ℕ × Buf)
      → contents b' ≡ contents b ++ arrive i
      → Takes fuel (i + 1) b' n out
      → Takes (suc fuel) i b n out
  Takes-look fuel i b b' n out h (k, le, len, e) = (
    suc k,
    omega arith,
    len,
    e ∙ ap (λ l. l ++ flow arrive (i + 1) k) h ∙ append_assoc (contents b) (arrive i) _,
  )

  -- One byte more.
  Takes-byte :
      (fuel i : ℕ) (b rest : Buf) (c n : ℕ) (out : List ℕ × Buf)
      → contents b ≡ c ∷ contents rest
      → Takes fuel i rest n out
      → Takes fuel i b (suc n) (c ∷ out.0, out.1)
  Takes-byte fuel i b rest c n out h (k, le, len, e) =
      (k, le, omega arith, ap (λ l. c ∷ l) e ∙ ap (λ l. l ++ flow arrive i k) (sym h))

  -- While all that arrives fits, the queue after a look is the queue with the data of the look, and
  -- what arrives later still fits, also after a byte is taken.
  read_loop-Takes :
      (fuel i : ℕ) (b : Buf) (start timeout n : ℕ) (out : List ℕ × Buf)
      → length (contents b) + length (flow arrive i fuel) ≤ capacity
      → read_loop ring arrive tick timeout_char fuel i b start timeout n ≡ some out
      → Takes fuel i b n out
  unfolding read_loop
  read_loop-Takes zero i b start timeout zero out fit e =
      subst (Takes zero i b zero) (some-eq ([], b) out e)
        (0, omega arith, omega arith, sym (append-nil (contents b)))
  read_loop-Takes (suc fuel) i b start timeout zero out fit e =
      subst (Takes (suc fuel) i b zero) (some-eq ([], b) out e)
        (0, omega arith, omega arith, sym (append-nil (contents b)))
  read_loop-Takes zero i b start timeout (suc n) out fit e = cc
  read_loop-Takes (suc fuel) i b start timeout (suc n) out fit e =
      let b' : Buf = put_all ring b (arrive i) in
      let all = length-append (arrive i) (flow arrive (i + 1) fuel) in
      let h : contents b' ≡ contents b ++ arrive i =
        put_all-fits ring queue b (arrive i) (omega arith) in
      let len = ap length h ∙ length-append (contents b) (arrive i) in
      elim (Bool-cases (avail b' == 0)) [
        | inl empty ↦ elim (Bool-cases (ltb timeout (elapsed_since start (tick i)))) [
          | inl late ↦
              subst (Takes (suc fuel) i b (suc n))
                (some-eq ([], b') out (rw (empty, late, read_loop) at e))
                (
                  1,
                  omega arith,
                  omega arith,
                  h ∙ ap (λ l. contents b ++ l) (sym (append-nil (arrive i))),
                )
          | inr early ↦ Takes-look fuel i b b' (suc n) out h (
              read_loop-Takes fuel (i + 1) b' start timeout (suc n) out (omega arith)
                (rw (empty, early, read_loop) at e))
        ]
        | inr more ↦ elim (Option-cases (get b')) [
          | inl gone ↦ absurd (ground (arith, queue.get_none b' gone, queue.avail_length b'))
          | inr ((c, rest), g) ↦
              let front = queue.get_some b' rest c g in
              elim (Option-cases (
                read_loop ring arrive tick timeout_char fuel (i + 1) rest (u32 (tick i))
                  timeout_char n)) [
                    | inl stuck ↦ absurd (none-some out (rw (more, g, stuck, read_loop) at e))
                    | inr (o, done) ↦
                        subst (Takes (suc fuel) i b (suc n))
                          (some-eq (c ∷ o.0, o.1) out (rw (more, g, done, read_loop) at e))
                          (Takes-look fuel i b b' (suc n) (c ∷ o.0, o.1) h
                            (Takes-byte fuel (i + 1) b' rest c n o front (
                              read_loop-Takes fuel (i + 1) rest (u32 (tick i)) timeout_char n o
                                (omega (arith, ap length front)) done)))
                  ]
        ]
      ]

  -- For a read of one byte or more that ends, where the queue has room for all that arrives in as many
  -- looks as the fuel: it returns at least one and at most `size` bytes, or raises EAGAIN without a byte;
  -- and the bytes returned and those left in the queue are, in order, those of the queue before and all
  -- that arrived in some number of looks.
  pub read-Takes :
      (fuel : ℕ) (b : Buf) (start timeout n : ℕ) (out : Result (List ℕ) × Buf)
      → length (contents b) + length (flow arrive 0 fuel) ≤ capacity
      → read ring arrive tick timeout_char fuel b start timeout (suc n) ≡ some out
      → (bytes : List ℕ) × (k : ℕ) × (length bytes ≤ suc n)
        × (bytes ++ contents out.1 ≡ contents b ++ flow arrive 0 k)
        × (((bytes ≡ []) × (out.0 ≡ raise (os_error eagain)))
            ⊎ ((0 < length bytes) × (out.0 ≡ ok bytes)))
  unfolding read
  read-Takes fuel b start timeout n out fit e =
      elim (Option-cases
        (read_loop ring arrive tick timeout_char fuel 0 b (u32 start) timeout (suc n))) [
          | inl stuck ↦ absurd (none_some out (rw (stuck, read_loop) at e))
          | inr (o, done) ↦
              let (k, le, len, eq) =
                read_loop-Takes fuel 0 b (u32 start) timeout (suc n) o fit done in
              finish o k len eq (rw (done, read_loop) at e)
        ]
    where
      none_some :
          (out : Result (List ℕ) × Buf)
          → ◌≡◌ {A = Option (Result (List ℕ) × Buf)} none (some out)
          → ⊥
      none_some out h = cc

      pair_eq :
          {x : Result (List ℕ) × Buf}
          → ◌≡◌ {A = Option (Result (List ℕ) × Buf)} (some x) (some out)
          → x ≡ out
      pair_eq h = cc

      finish :
          (o : List ℕ × Buf) (k : ℕ)
          → length o.0 ≤ suc n
          → o.0 ++ contents o.1 ≡ contents b ++ flow arrive 0 k
          → ◌≡◌ {A = Option (Result (List ℕ) × Buf)}
              (some (or_again ring arrive tick timeout_char o))
              (some out)
          → (bytes : List ℕ) × (k : ℕ) × (length bytes ≤ suc n)
            × (bytes ++ contents out.1 ≡ contents b ++ flow arrive 0 k)
            × (((bytes ≡ []) × (out.0 ≡ raise (os_error eagain)))
                ⊎ ((0 < length bytes) × (out.0 ≡ ok bytes)))
      finish ([], r) k len eq h = (
        [],
        k,
        len,
        ap contents (sym (ap (λ z. z.1) (pair_eq h))) ∙ eq,
        inl (refl, sym (ap (λ z. z.0) (pair_eq h))),
      )
      finish (x ∷ xs, r) k len eq h = (
        x ∷ xs,
        k,
        len,
        ap (λ l. (x ∷ xs) ++ contents l) (sym (ap (λ z. z.1) (pair_eq h))) ∙ eq,
        inr (omega arith, sym (ap (λ z. z.0) (pair_eq h))),
      )
