-- ===== src/I2s/Receive.antt =====
-- The receive direction of machine_i2s.c: the half of the DMA buffer that has been filled goes into
-- the ring buffer while the other one is filled. Half 0 is `false`. The cache is not modelled, and what
-- `fill_appbuf_from_ringbuf_non_blocking` takes at the end of the interrupt is a step of its own.
use ameba_micro_python.Prelude.{
  ℕ, ◌≡◌, ◌∙◌, sym, refl, ap, Bool, true, false, not, some, List, [], ◌∷◌, ◌++◌, length, leb,
  if◌then◌else◌, arith, inl, inr, Bool-cases,
}
use mathlib.Core.Path.{subst}
use mathlib.Core.List.{append_assoc}
use ameba_micro_python.RingBuf.{RingBuf, IsQueue}
use ameba_micro_python.RingBuf.Fill.{put_all, put_all-fits}
use ameba_micro_python.I2s.Transmit.{half_of}

pub record Rx (Buf : Type 0) : Type 0 where
  pub half0 : List ℕ
  pub half1 : List ℕ
  pub ring : Buf
  pub dma_half : Bool

-- The audio that is kept of a stream of blocks: each block whole, or nothing of it.
pub data Captures (half : ℕ) : List ℕ → List ℕ → Type 0 where
  nothing : Captures half [] []
  keeps :
      {stream audio : List ℕ} (b : List ℕ)
      → length b ≡ half
      → Captures half stream audio
      → Captures half (stream ++ b) (audio ++ b)
  drops :
      {stream audio : List ℕ} (b : List ℕ)
      → length b ≡ half
      → Captures half stream audio
      → Captures half (stream ++ b) audio

module _ (ring : RingBuf) where
  open ring use {Buf, get, free}

  -- The ring buffer after `i2s_rx_drain_half`, and the function.
  abbrev pub store_block : ℕ → Buf → List ℕ → Buf
  store_block half b block = if leb half (free b) then put_all ring b block else b

  unfoldable pub drain_half : ℕ → Rx Buf → Bool → Rx Buf
  drain_half half r which = record r {
    ring = store_block half r.ring (half_of r.half0 r.half1 which);
  }

  -- `i2s_rx_gdma_done`: `is_done` is a completion, not an error.
  unfoldable pub rx_gdma_done : ℕ → Bool → Rx Buf → Rx Buf
  unfolding drain_half
  rx_gdma_done half false r = r
  rx_gdma_done half true r = drain_half half (record r { dma_half = not r.dma_half }) r.dma_half

  -- The line: the half that the controller fills, all that it has received, and what has been taken
  -- from the ring buffer.
  pub record Line : Type 0 where
    pub rx : Rx Buf
    pub filling : Bool
    pub stream : List ℕ
    pub taken : List ℕ

  -- The controller stores a block.
  abbrev pub store : Rx Buf → Bool → List ℕ → Rx Buf
  store r true block = record r { half1 = block }
  store r false block = record r { half0 = block }

  abbrev pub filled : ℕ → List ℕ → Line → Line
  filled half block l = record {
    rx = rx_gdma_done half true (store l.rx l.filling block);
    filling = not l.filling;
    stream = l.stream ++ block;
    taken = l.taken;
  }

  -- A block has been received, and the controller goes on to the other half; an error interrupt; and
  -- a byte that is taken.
  pub data Step (half : ℕ) (l l' : Line) : Type 0 where
    fills : (block : List ℕ) → length block ≡ half → filled half block l ≡ l' → Step half l l'
    fails : record l { rx = rx_gdma_done half false l.rx } ≡ l' → Step half l l'
    takes :
        (x : ℕ) (b : Buf)
        → get l.rx.ring ≡ some (x, b)
        → record l { rx = record (l.rx) { ring = b }; taken = l.taken ++ x ∷ [] } ≡ l'
        → Step half l l'

  abbrev pub started : Buf → Line
  started empty = record {
    rx = record { half0 = []; half1 = []; ring = empty; dma_half = false };
    filling = false;
    stream = [];
    taken = [];
  }

  pub data Reach (half : ℕ) (empty : Buf) : Line → Type 0 where
    starts : Reach half empty (started empty)
    next : {l l' : Line} → Reach half empty l → Step half l l' → Reach half empty l'

module _ (ring : RingBuf) (queue : IsQueue ring) where
  open ring use {Buf, contents, free}

  -- The interrupt drains the half that the controller has just filled, and audio that has been kept is
  -- what has been taken and what the ring buffer holds.
  pub record Inv (half : ℕ) (l : Line ring) : Type 0 where
    pub in_step : l.filling ≡ l.rx.dma_half
    pub captures : Captures half l.stream (l.taken ++ contents l.rx.ring)

  store_block-Captures :
      (half : ℕ) (b : Buf) (block stream taken : List ℕ)
      → length block ≡ half
      → Captures half stream (taken ++ contents b)
      → Captures half (stream ++ block) (taken ++ contents (store_block ring half b block))
  store_block-Captures half b block stream taken len c = elim (Bool-cases (leb half (free b))) [
    | inl room ↦
        let e : contents (put_all ring b block) ≡ contents b ++ block =
          put_all-fits ring queue b block (ground (arith, queue.free_rest b)) in
        rw room (
          subst (Captures half (stream ++ block))
            (append_assoc taken (contents b) block ∙ ap (λ l. taken ++ l) (sym e))
            (keeps block len c))
    | inr full ↦ rw full (drops block len c)
  ]

  abbrev pub with_half : Line ring → Bool → Line ring
  with_half l d = record l { rx = record (l.rx) { dma_half = d } }

  aligned-Inv :
      (half : ℕ) (l : Line ring) (block : List ℕ)
      → length block ≡ half
      → Inv half (with_half l l.filling)
      → Inv half (filled ring half block (with_half l l.filling))
  unfolding rx_gdma_done drain_half
  aligned-Inv half l block len v = go l.filling
    where
      go : (p : Bool) → Inv half (filled ring half block (record (with_half l p) { filling = p }))
      go false = record {
        in_step = refl;
        captures = store_block-Captures half l.rx.ring block l.stream l.taken len v.captures;
      }
      go true = record {
        in_step = refl;
        captures = store_block-Captures half l.rx.ring block l.stream l.taken len v.captures;
      }

  filled-Inv :
      (half : ℕ) (l : Line ring) (block : List ℕ)
      → length block ≡ half
      → Inv half l
      → Inv half (filled ring half block l)
  filled-Inv half l block len v =
      subst (λ l'. Inv half l' → Inv half (filled ring half block l')) (ap (with_half l) v.in_step)
        (aligned-Inv half l block len) v

  Step-Inv : {half : ℕ} {l l' : Line ring} → Step ring half l l' → Inv half l → Inv half l'
  unfolding rx_gdma_done
  Step-Inv {half} {l} (fills block len e) v = subst (Inv half) e (filled-Inv half l block len v)
  Step-Inv {half} {l} (fails e) v = subst (Inv half) e v
  Step-Inv {half} {l} (takes x b g e) v = subst (Inv half) e (record {
    in_step = v.in_step;
    captures =
        subst (Captures half l.stream)
          (ap (λ c. l.taken ++ c) (queue.get_some l.rx.ring b x g)
            ∙ sym (append_assoc l.taken (x ∷ []) (contents b)))
          v.captures;
  })

  Reach-Inv :
      {half : ℕ} {empty : Buf} {l : Line ring}
      → contents empty ≡ []
      → Reach ring half empty l
      → Inv half l
  Reach-Inv {half} e starts = record {
    in_step = refl;
    captures = subst (Captures half []) (sym e) nothing;
  }
  Reach-Inv e (next r s) = Step-Inv s (Reach-Inv e r)

  -- In every reachable state, with errors of the controller and bytes taken between the blocks, the
  -- half that the next interrupt drains is the one that the controller fills, and what has been taken
  -- and what is left in the ring buffer are, in order, the blocks received, of which each is kept
  -- whole or dropped whole.
  pub Reach-Captures :
      (half : ℕ) (empty : Buf) (l : Line ring)
      → contents empty ≡ []
      → Reach ring half empty l
      → (l.filling ≡ l.rx.dma_half) × Captures half l.stream (l.taken ++ contents l.rx.ring)
  Reach-Captures half empty l e r = let v = Reach-Inv e r in (v.in_step, v.captures)
