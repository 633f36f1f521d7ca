-- ===== src/SdCard/Blocks.antt =====
-- Reading back what `writeblocks` of machine_sdcard.c has written.
use ameba_micro_python.Prelude.{
  ℕ, zero, suc, ◌+◌, ◌*◌, ◌/◌, ◌≡◌, ◌∙◌, ap, refl, Bool, true, false, Option, none, some, List, [],
  ◌∷◌, ◌++◌, length, take, drop, arith, length-take,
}
use mathlib.Core.Path.{ap₂}
use ameba_micro_python.SdCard.{
  Card, IsCard, SdCard, number, readblocks, read_result, writeblocks, write_result,
}

drop-append : (xs ys : List ℕ) (n : ℕ) → length xs ≡ n → drop n (xs ++ ys) ≡ ys
drop-append [] ys zero h = refl
drop-append [] ys (suc n) h = absurd (omega (arith, h))
drop-append (x ∷ xs) ys zero h = absurd (omega (arith, h))
drop-append (x ∷ xs) ys (suc n) h = drop-append xs ys n (omega (arith, h))

take-append : (xs ys : List ℕ) (n : ℕ) → length xs ≡ n → take n (xs ++ ys) ≡ xs
take-append [] ys zero h = refl
take-append [] ys (suc n) h = absurd (omega (arith, h))
take-append (x ∷ xs) ys zero h = absurd (omega (arith, h))
take-append (x ∷ xs) ys (suc n) h = ap (λ l. x ∷ l) (take-append xs ys n (omega (arith, h)))

module _ (card : Card) (law : IsCard card) where
  -- The bytes of the card, after a write of `l`, where it went.
  read-back :
      (s s' : card.State) (block : ℕ) (l : List ℕ)
      → card.write s block l ≡ (true, s')
      → take (length l) (drop (block * 512) (card.bytes s')) ≡ l
  read-back s s' block l e =
      let (fits, now) = law.write_bytes s s' block l e in
      let old : List ℕ = card.bytes s in
      let rest : List ℕ = drop (block * 512 + length l) old in
      ap (λ b. take (length l) (drop (block * 512) b)) now
      ∙ ap (take (length l)) (
          drop-append (take (block * 512) old) (l ++ rest) (block * 512)
            (omega (arith, length-take (block * 512) old, fits)))
      ∙ take-append l rest (length l) refl

  -- Where `writeblocks` of a buffer answers 0 and then `readblocks` of another buffer of the same length
  -- at the same block answers 0, the second buffer holds the whole blocks of the first, and keeps its own
  -- bytes after them: a last part that is shorter than a block is neither written nor read.
  pub readblocks-writeblocks_whole :
      (c : SdCard card) (block : ℕ) (buf old : List ℕ)
      → length old ≡ length buf
      → (writeblocks card c block buf).0 ≡ number 0
      → (readblocks card (writeblocks card c block buf).1 block old).0 ≡ number 0
      → (readblocks card (writeblocks card c block buf).1 block old).1
        ≡ take (length buf / 512 * 512) buf ++ drop (length buf / 512 * 512) old
  unfolding writeblocks readblocks
  readblocks-writeblocks_whole c block buf old same w r =
      after (card.write c.state block data_) refl w r
    where
      data_ : List ℕ
      data_ = take (length buf / 512 * 512) buf

      size : length data_ ≡ length buf / 512 * 512
      size = omega (arith, length-take (length buf / 512 * 512) buf)

      read :
          (s' : card.State) (o : Option (List ℕ))
          → card.write c.state block data_ ≡ (true, s')
          → card.read s' block (length old / 512) ≡ o
          → (read_result card old o).0 ≡ number 0
          → (read_result card old o).1 ≡ data_ ++ drop (length buf / 512 * 512) old
      read s' none e f h = cc
      read s' (some l) e f h =
          let counts : length old / 512 * 512 ≡ length data_ = omega (arith, size, same) in
          let got : l ≡ data_ =
            law.read_bytes s' block (length old / 512) l f
            ∙ ap (λ n. take n (drop (block * 512) (card.bytes s'))) counts
            ∙ read-back c.state s' block data_ e in
          ap₂ (λ t n. t ++ drop n old) got (ap length got ∙ size)

      after :
          (out : Bool × card.State)
          → card.write c.state block data_ ≡ out
          → (write_result card c out).0 ≡ number 0
          → (read_result card old
              (card.read (write_result card c out).1.state block (length old / 512))).0
            ≡ number 0
          → (read_result card old
              (card.read (write_result card c out).1.state block (length old / 512))).1
            ≡ data_ ++ drop (length buf / 512 * 512) old
      after (false, s') e h k = cc
      after (true, s') e h k = read s' (card.read s' block (length old / 512)) e refl k
