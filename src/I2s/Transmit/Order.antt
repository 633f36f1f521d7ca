-- ===== src/I2s/Transmit/Order.antt =====
-- What an I2S transmitter plays, against what has been written to it.
use ameba_micro_python.Prelude.{
  ℕ, zero, suc, ◌-◌, ◌≤◌, ◌≡◌, ◌∙◌, sym, refl, ap, Bool, true, false, not, some, List, [], ◌∷◌,
  ◌++◌, length, drop, leb, arith, inl, inr, Bool-cases, Option-cases,
}
use mathlib.Core.Path.{subst}
use mathlib.Core.List.{append_assoc}
use ameba_micro_python.RingBuf.{RingBuf, IsQueue}
use ameba_micro_python.RingBuf.Fill.{put_all, put_all-fits}
use ameba_micro_python.I2s.Transmit.{
  zeros, pop_byte, pop_half, next_block, feed_half, tx_gdma_done, start_tx, Line, half_at, played,
  room_after, Step, plays, fails, pushes, started, Reach, starts, next,
}

-- The audio that a stream of blocks carries: each block is `half` bytes of it, or of silence.
pub data Delivers (half : ℕ) : List ℕ → List ℕ → Type 0 where
  nothing : Delivers half [] []
  silence :
      {sent audio : List ℕ} → Delivers half sent audio → Delivers half (sent ++ zeros half) audio
  block :
      {sent audio : List ℕ} (b : List ℕ)
      → length b ≡ half
      → Delivers half sent audio
      → Delivers half (sent ++ b) (audio ++ b)

module _ (ring : RingBuf) (queue : IsQueue ring) where
  open ring use {Buf, contents, avail, get}

  pop_half-lem :
      (n : ℕ) (b : Buf) (old : List ℕ)
      → n ≤ length (contents b)
      → (length (pop_half ring n b old).0 ≡ n)
        × (contents b ≡ (pop_half ring n b old).0 ++ contents (pop_half ring n b old).1)
  unfolding pop_half
  pop_half-lem zero b old h = (refl, refl)
  pop_half-lem (suc n) b old h = elim (Option-cases (get b)) [
    | inl gone ↦ absurd (omega (arith, ap length (queue.get_none b gone)))
    | inr ((c, b'), e) ↦
        let front : contents b ≡ c ∷ contents b' = queue.get_some b b' c e in
        let (len, rest) = pop_half-lem n b' (drop 1 old) (omega (arith, ap length front)) in
        let first : pop_byte b old (get b) ≡ (c, b') = ap (pop_byte b old) e ∙ popped old in
        subst
          (λ p.
            (suc (length (pop_half ring n p.1 (drop 1 old)).0) ≡ suc n)
            × (contents b
                ≡ p.0 ∷ (pop_half ring n p.1 (drop 1 old)).0
                  ++ contents (pop_half ring n p.1 (drop 1 old)).1))
          (sym first) (omega arith, front ∙ ap (λ l. c ∷ l) rest)
  ]
    where
      popped : {c : ℕ} {b' : Buf} (old : List ℕ) → pop_byte b old (some (c, b')) ≡ (c, b')
      popped [] = refl
      popped (x ∷ old) = refl

  -- The next block continues the delivery.
  next_block-Delivers :
      (half : ℕ) (b : Buf) (old sent audio : List ℕ)
      → Delivers half sent audio
      → (audio' : List ℕ) × Delivers half (sent ++ (next_block ring half b old).0) audio'
        × (audio' ++ contents (next_block ring half b old).1 ≡ audio ++ contents b)
  unfolding next_block
  next_block-Delivers half b old sent audio d = elim (Bool-cases (leb half (avail b))) [
    | inl enough ↦
        let (len, e) = pop_half-lem half b old (ground (arith, queue.avail_length b)) in
        let (cs, rest) = pop_half ring half b old in
        rw (enough, next_block)
          (
            audio ++ cs,
            block cs len d,
            append_assoc audio cs (contents rest) ∙ ap (λ l. audio ++ l) (sym e),
          )
    | inr few ↦ rw (few, next_block) (audio, silence d, refl)
  ]

  -- The controller plays the half whose interrupt is expected next, and the stream of blocks, with the
  -- two halves that are still to be played, carries all that the ring buffer has given away.
  pub record Inv (half : ℕ) (l : Line ring) : Type 0 where
    pub in_step : l.playing ≡ l.tx.dma_half
    pub audio : List ℕ
    pub delivers :
        Delivers half ((l.wire ++ half_at ring l l.playing) ++ half_at ring l (not l.playing)) audio
    pub complete : audio ++ contents l.tx.ring ≡ l.pushed

  -- One round of the line, from the half that the next block goes to.
  played-half :
      (half : ℕ) (old : List ℕ) (r : Buf) (more sent audio pushed : List ℕ)
      → length more ≤ ring.capacity - length (contents (next_block ring half r old).1)
      → Delivers half sent audio
      → audio ++ contents r ≡ pushed
      → let (b, rest) = next_block ring half r old in
        (audio' : List ℕ) × Delivers half (sent ++ b) audio'
        × (audio' ++ contents (put_all ring rest more) ≡ pushed ++ more)
  played-half half old r more sent audio pushed h d e =
      let (audio', d', e') = next_block-Delivers half r old sent audio d in
      let rest : Buf = (next_block ring half r old).1 in
      (
        audio',
        d',
        ap (λ l. audio' ++ l) (put_all-fits ring queue rest more h)
            ∙ sym (append_assoc audio' (contents rest) more)
            ∙ ap (λ l. l ++ more) (e' ∙ e),
      )

  -- The line where the index of the interrupt is that of the controller.
  abbrev pub aligned : Line ring → Line ring
  aligned l = record l { tx = record (l.tx) { dma_half = l.playing } }

  aligned-Inv :
      (half : ℕ) (l : Line ring) (more : List ℕ)
      → length more ≤ room_after ring half (aligned l)
      → Inv half (aligned l)
      → Inv half (played ring half more (aligned l))
  unfolding tx_gdma_done feed_half put_all
  aligned-Inv half l more h v = go l.playing l.wire l.pushed v.audio h v.delivers v.complete
    where
      go :
          (p : Bool) (wire pushed audio : List ℕ)
          → let l' : Line ring = record {
            tx = record { half0 = l.tx.half0; half1 = l.tx.half1; ring = l.tx.ring; dma_half = p };
            playing = p;
            wire = wire;
            pushed = pushed;
          } in
            length more ≤ room_after ring half l'
            → Delivers half ((wire ++ half_at ring l' p) ++ half_at ring l' (not p)) audio
            → audio ++ contents l.tx.ring ≡ pushed
            → Inv half (played ring half more l')
      go false wire pushed audio h d e =
          let (audio', d', e') = played-half half l.tx.half0 l.tx.ring more _ audio pushed h d e in
          record { in_step = refl; audio = audio'; delivers = d'; complete = e' }
      go true wire pushed audio h d e =
          let (audio', d', e') = played-half half l.tx.half1 l.tx.ring more _ audio pushed h d e in
          record { in_step = refl; audio = audio'; delivers = d'; complete = e' }

  played-Inv :
      (half : ℕ) (l : Line ring) (more : List ℕ)
      → length more ≤ room_after ring half l
      → Inv half l
      → Inv half (played ring half more l)
  played-Inv half l more h v =
      subst
        (λ l'.
          length more ≤ room_after ring half l' → Inv half l' → Inv half (played ring half more l'))
        (ap with_half v.in_step) (aligned-Inv half l more) h v
    where
      with_half : Bool → Line ring
      with_half d = record l { tx = record (l.tx) { dma_half = d } }

  started-Inv : (half : ℕ) (empty : Buf) → contents empty ≡ [] → Inv half (started ring half empty)
  unfolding start_tx feed_half
  started-Inv half empty e =
      let (audio, d, f) = next_block-Delivers half empty [] [] [] nothing in
      let (audio', d', f') =
        next_block-Delivers half (next_block ring half empty []).1 [] _ audio d in
      record { in_step = refl; audio = audio'; delivers = d'; complete = f' ∙ f ∙ e }

  Step-Inv : {half : ℕ} {l l' : Line ring} → Step ring half l l' → Inv half l → Inv half l'
  unfolding tx_gdma_done
  Step-Inv {half} {l} (plays more h e) v = subst (Inv half) e (played-Inv half l more h v)
  Step-Inv {half} {l} (fails more e) v = subst (Inv half) e v
  Step-Inv {half} {l} (pushes x b g e) v = subst (Inv half) e (record {
    in_step = v.in_step;
    audio = v.audio;
    delivers = v.delivers;
    complete =
        ap (λ c. v.audio ++ c) (queue.put_some l.tx.ring b x g)
        ∙ sym (append_assoc v.audio (contents l.tx.ring) (x ∷ []))
        ∙ ap (λ c. c ++ x ∷ []) v.complete;
  })

  Reach-Inv :
      {half : ℕ} {empty : Buf} {l : Line ring}
      → contents empty ≡ []
      → Reach ring half empty l
      → Inv half l
  Reach-Inv {half} {empty} e starts = started-Inv half empty e
  Reach-Inv e (next r s) = Step-Inv s (Reach-Inv e r)

  -- In every reachable state, with errors of the controller and pushes between the blocks, the half
  -- that the next interrupt fills is the one that the controller plays, and what has been played,
  -- followed by the two halves, is a stream of blocks that are each silence or the next `half` bytes
  -- of the audio: none of the bytes pushed is lost, repeated or out of order.
  pub Reach-Delivers :
      (half : ℕ) (empty : Buf) (l : Line ring)
      → contents empty ≡ []
      → Reach ring half empty l
      → (l.playing ≡ l.tx.dma_half)
        × (audio : List ℕ) × Delivers half
            ((l.wire ++ half_at ring l l.playing) ++ half_at ring l (not l.playing))
            audio
        × (audio ++ contents l.tx.ring ≡ l.pushed)
  Reach-Delivers half empty l e r =
      let v = Reach-Inv e r in (v.in_step, v.audio, v.delivers, v.complete)
