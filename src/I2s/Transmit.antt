-- ===== src/I2s/Transmit.antt =====
-- The transmit direction of machine_i2s.c: the half of the DMA buffer that has been played is filled
-- from the ring buffer while the other one is played. Half 0 is `false`. The cache is not modelled.
pub mod Order
use ameba_micro_python.Prelude.{
  ℕ, zero, suc, ◌+◌, ◌-◌, ◌≤◌, ◌≡◌, ◌∙◌, sym, refl, ap, Bool, true, false, not, Option, none, some,
  List, [], ◌∷◌, ◌++◌, length, drop, leb, if◌then◌else◌, arith, inl, inr, Bool-cases, Option-cases,
}
use mathlib.Core.Path.{subst}
use mathlib.Core.List.{append_assoc, append-nil}
use ameba_micro_python.RingBuf.{RingBuf, IsQueue}
use ameba_micro_python.RingBuf.Fill.{put_all, put_all-fits}

-- The DMA buffer, the ring buffer and `dma_half`.
pub record Tx (Buf : Type 0) : Type 0 where
  pub half0 : List ℕ
  pub half1 : List ℕ
  pub ring : Buf
  pub dma_half : Bool

abbrev pub half_of {ℓ} : {A : Type ℓ} → A → A → Bool → A
half_of half0 half1 which = if which then half1 else half0

-- `memset(p, 0, half)`
abbrev pub zeros : ℕ → List ℕ
zeros zero = []
zeros (suc n) = 0 ∷ zeros n

-- `ringbuf_pop` into a byte, which stays as it was where the ring is empty.
abbrev pub pop_byte {ℓ} : {B : Type ℓ} → B → List ℕ → Option (ℕ × B) → ℕ × B
pop_byte b [] none = (0, b)
pop_byte b (old ∷ rest) none = (old, b)
pop_byte b old (some cb) = cb

module _ (ring : RingBuf) where
  open ring use {Buf, put, get, avail}

  -- The loop of `i2s_tx_feed_half` over the bytes of a half, with its old bytes.
  unfoldable pub pop_half : ℕ → Buf → List ℕ → List ℕ × Buf
  pop_half zero b old = ([], b)
  pop_half (suc n) b old =
      let (c, b') = pop_byte b old (get b) in
      let (cs, rest) = pop_half n b' (drop 1 old) in (c ∷ cs, rest)

  abbrev pub set_half : Tx Buf → Bool → List ℕ × Buf → Tx Buf
  set_half t true (block, rest) = record t { half1 = block; ring = rest }
  set_half t false (block, rest) = record t { half0 = block; ring = rest }

  -- What `i2s_tx_feed_half` puts into a half of `half` bytes.
  unfoldable pub next_block : ℕ → Buf → List ℕ → List ℕ × Buf
  unfolding pop_half
  next_block half b old = if leb half (avail b) then pop_half half b old else (zeros half, b)

  unfoldable pub feed_half : ℕ → Tx Buf → Bool → Tx Buf
  unfolding next_block
  feed_half half t which = set_half t which (next_block half t.ring (half_of t.half0 t.half1 which))

  -- `i2s_tx_gdma_done`: `is_done` is a completion, not an error. `more` is what
  -- `copy_appbuf_to_ringbuf_non_blocking` of extmod/machine_i2s.c adds, nothing where it is not called.
  unfoldable pub tx_gdma_done : ℕ → Bool → List ℕ → Tx Buf → Tx Buf
  unfolding feed_half
  tx_gdma_done half false more t = t
  tx_gdma_done half true more t =
      let fed = feed_half half (record t { dma_half = not t.dma_half }) t.dma_half in
      record fed { ring = put_all ring fed.ring more }

  -- The TX branch of `start_transfer`.
  unfoldable pub start_tx : ℕ → Tx Buf → Tx Buf
  unfolding feed_half
  start_tx half t = feed_half half (feed_half half (record t { dma_half = false }) false) true

  -- The line: the half that the controller plays, what it has played, and what has been pushed into
  -- the ring buffer.
  pub record Line : Type 0 where
    pub tx : Tx Buf
    pub playing : Bool
    pub wire : List ℕ
    pub pushed : List ℕ

  abbrev pub half_at : Line → Bool → List ℕ
  half_at l which = half_of l.tx.half0 l.tx.half1 which

  abbrev pub played : ℕ → List ℕ → Line → Line
  played half more l = record {
    tx = tx_gdma_done half true more l.tx;
    playing = not l.playing;
    wire = l.wire ++ half_at l l.playing;
    pushed = l.pushed ++ more;
  }

  -- The room in the ring buffer after a half has been filled.
  abbrev pub room_after : ℕ → Line → ℕ
  room_after half l = ring.capacity - length (ring.contents (tx_gdma_done half true [] l.tx).ring)

  -- A block has been played, and the controller goes on to the other half; an error interrupt; and a
  -- byte from `write`.
  pub data Step (half : ℕ) (l l' : Line) : Type 0 where
    plays :
        (more : List ℕ) → length more ≤ room_after half l → played half more l ≡ l' → Step half l l'
    fails :
        (more : List ℕ) → record l { tx = tx_gdma_done half false more l.tx } ≡ l' → Step half l l'
    pushes :
        (x : ℕ) (b : Buf)
        → put l.tx.ring x ≡ some b
        → record l { tx = record (l.tx) { ring = b }; pushed = l.pushed ++ x ∷ [] } ≡ l'
        → Step half l l'

  abbrev pub started : ℕ → Buf → Line
  started half empty = record {
    tx = start_tx half (record { half0 = []; half1 = []; ring = empty; dma_half = false });
    playing = false;
    wire = [];
    pushed = [];
  }

  pub data Reach (half : ℕ) (empty : Buf) : Line → Type 0 where
    starts : Reach half empty (started half empty)
    next : {l l' : Line} → Reach half empty l → Step half l l' → Reach half empty l'
