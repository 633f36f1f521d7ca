-- ===== src/Uart/Read/Total.antt =====
-- The loops of `mp_machine_uart_read` end: by the timeout between two bytes.
use ameba_micro_python.Prelude.{
  ℕ, zero, suc, ◌+◌, ◌-◌, ◌*◌, ◌^◌, ◌<◌, ◌≤◌, ◌≡◌, ◌≢◌, refl, Option, none, some, List, arith, inl,
  inr, Bool-cases, ltb, ◌==◌,
}
use mathlib.Core.Path.{subst}
use ameba_micro_python.RingBuf.{RingBuf, IsQueue}
use ameba_micro_python.RingBuf.Fill.{put_all}
use ameba_micro_python.Uart.Read.{
  u32, elapsed_since, byte_or, prepend, read_loop, or_again_option, read,
}

module _ (ring : RingBuf) (queue : IsQueue ring) (arrive : ℕ → List ℕ) (tick : ℕ → ℕ)
    (timeout_char span : ℕ) where
  open ring use {Buf, contents, capacity, get, avail}

  read_loop-total :
      (fuel i : ℕ) (b : Buf) (s timeout n d : ℕ)
      → ((j : ℕ) → (tick j ≤ tick (j + 1)) × (tick (j + 1) ≤ tick j + 2 ^ 31))
      → ((j : ℕ) → tick j + 2 ^ 16 ≤ tick (j + span))
      → timeout < 2 ^ 16
      → timeout_char < 2 ^ 16
      → s ≤ tick i
      → tick i ≤ s + timeout + 2 ^ 31
      → timeout + s < tick (i + d)
      → n * (span + 1) + d < fuel
      → read_loop ring arrive tick timeout_char fuel i b (u32 s) timeout n ≢ none
  unfolding read_loop
  read_loop-total fuel i b s timeout zero d clock passes h hc lo hi left enough e = cc
  read_loop-total zero i b s timeout (suc n) d clock passes h hc lo hi left enough e =
      absurd (omega arith)
  read_loop-total (suc fuel) i b s timeout (suc n) d clock passes h hc lo hi left enough e =
      let b' : Buf = put_all ring b (arrive i) in
      let now : elapsed_since (u32 s) (tick i) ≡ tick i - s = omega arith in
      elim (Bool-cases (avail b' == 0)) [
        | inl empty ↦ elim (Bool-cases (ltb timeout (elapsed_since (u32 s) (tick i)))) [
          | inl late ↦ absurd (some-none (rw (empty, late, read_loop) at e))
          | inr early ↦
              let not_late : tick i - s ≤ timeout = ground arith in
              let wait : 0 < d = pos_of d left not_late in
              read_loop-total fuel (i + 1) b' s timeout (suc n) (d - 1) clock passes h hc
                (omega (arith, clock i)) (omega (arith, clock i))
                (subst (λ j. timeout + s < tick j) (omega arith) left) (omega arith)
                (rw (empty, early, read_loop) at e)
        ]
        | inr more ↦
            let rest : Buf = (byte_or b' (get b')).1 in
            read_loop-total fuel (i + 1) rest (tick i) timeout_char n span clock passes hc hc
              (omega (arith, clock i)) (omega (arith, clock i))
              (omega (arith, clock i, passes (i + 1))) (omega arith)
              (prepend-none (byte_or b' (get b')).0 _ (rw (more, read_loop) at e))
      ]
    where
      pos_of : (d : ℕ) → timeout + s < tick (i + d) → tick i - s ≤ timeout → 0 < d
      pos_of zero far near =
          absurd (omega (arith, subst (λ j. timeout + s < tick j) (zero_add i) far))
        where
          zero_add : (i : ℕ) → i + 0 ≡ i
          zero_add i = omega arith
      pos_of (suc d) far near = omega arith

      some-none : {x : List ℕ × Buf} → ◌≡◌ {A = Option (List ℕ × Buf)} (some x) none → ⊥
      some-none h = cc

      prepend-none : (c : ℕ) (o : Option (List ℕ × Buf)) → prepend c o ≡ none → o ≡ none
      prepend-none c none h = refl
      prepend-none c (some o) h = cc

  -- Where the clock never goes back, moves by at most 2^31 ms from one look to the next, and by 2^16 ms or
  -- more in any `span` looks, a read with 16-bit timeouts ends: within `span` + 1 looks for each byte and
  -- `span` more, whatever arrives.
  pub read-total :
      (fuel : ℕ) (b : Buf) (start timeout n : ℕ)
      → ((j : ℕ) → (tick j ≤ tick (j + 1)) × (tick (j + 1) ≤ tick j + 2 ^ 31))
      → ((j : ℕ) → tick j + 2 ^ 16 ≤ tick (j + span))
      → timeout < 2 ^ 16
      → timeout_char < 2 ^ 16
      → start ≤ tick 0
      → tick 0 ≤ start + 2 ^ 31
      → n * (span + 1) + span < fuel
      → read ring arrive tick timeout_char fuel b start timeout n ≢ none
  unfolding read
  read-total fuel b start timeout zero clock passes h hc lo hi enough e = cc
  read-total fuel b start timeout (suc n) clock passes h hc lo hi enough e =
      read_loop-total fuel 0 b start timeout (suc n) span clock passes h hc lo (omega arith)
        (omega (arith, passes 0)) (omega arith) (or_again-none _ e)
    where
      or_again-none :
          (o : Option (List ℕ × Buf))
          → or_again_option ring arrive tick timeout_char o ≡ none
          → o ≡ none
      or_again-none none h = refl
      or_again-none (some o) h = cc
