-- ===== src/RingBuf/Fill.antt =====
-- Bytes put into a ring buffer one after another, those that find it full being dropped.
use ameba_micro_python.Prelude.{
  ℕ, zero, suc, ◌+◌, ◌-◌, ◌≤◌, ◌≡◌, ◌∙◌, refl, ap, sym, Option, none, some, List, [], ◌∷◌, ◌++◌,
  length, length-append, take, take-nil, take-all, arith, inl, inr, Option-cases,
}
use mathlib.Core.List.{append_assoc, append-nil}
use ameba_micro_python.RingBuf.{RingBuf, IsQueue}

module _ (ring : RingBuf) where
  open ring use {Buf, put}

  abbrev pub or_same : Buf → Option Buf → Buf
  or_same b none = b
  or_same b (some b') = b'

  -- `ringbuf_put` for each byte, its result not looked at.
  unfoldable pub put_all : Buf → List ℕ → Buf
  put_all b [] = b
  put_all b (x ∷ xs) = put_all (or_same b (put b x)) xs

module _ (ring : RingBuf) (queue : IsQueue ring) where
  open ring use {Buf, contents, capacity, put}

  -- A full buffer drops everything.
  put_all-full : (b : Buf) (xs : List ℕ) → capacity ≤ length (contents b) → put_all ring b xs ≡ b
  unfolding put_all
  put_all-full b [] full = refl
  put_all-full b (x ∷ xs) full = elim (Option-cases (put b x)) [
    | inl e ↦ rw e (put_all-full b xs full)
    | inr (b', e) ↦ absurd (omega (arith, queue.put_room b b' x e))
  ]

  put_all-room :
      (b : Buf) (room : ℕ) (xs : List ℕ)
      → room ≡ capacity - length (contents b)
      → contents (put_all ring b xs) ≡ contents b ++ take room xs
  unfolding put_all
  put_all-room b room [] h =
      sym (append-nil (contents b)) ∙ ap (λ l. contents b ++ l) (sym (take-nil room))
  put_all-room b zero (x ∷ xs) h = elim (Option-cases (put b x)) [
    | inl e ↦
        rw e
          (ap contents (put_all-full b xs (queue.put_none b x e)) ∙ sym (append-nil (contents b)))
    | inr (b', e) ↦ absurd (omega (arith, queue.put_room b b' x e))
  ]
  put_all-room b (suc room) (x ∷ xs) h = elim (Option-cases (put b x)) [
    | inl e ↦ absurd (omega (arith, queue.put_none b x e))
    | inr (b', e) ↦
        let grown : contents b' ≡ contents b ++ x ∷ [] = queue.put_some b b' x e in
        let len : length (contents b') ≡ length (contents b) + 1 =
          ap length grown ∙ length-append (contents b) (x ∷ []) in
        rw e (
          put_all-room b' room xs (omega arith)
          ∙ ap (λ l. l ++ take room xs) grown
          ∙ append_assoc (contents b) (x ∷ []) (take room xs))
  ]

  -- The bytes that there is room for go to the end of the queue, in order; the others are dropped.
  pub put_all-contents :
      (b : Buf) (xs : List ℕ)
      → contents (put_all ring b xs) ≡ contents b ++ take (capacity - length (contents b)) xs
  put_all-contents b xs = put_all-room b (capacity - length (contents b)) xs refl

  -- Bytes that there is room for are all stored.
  pub put_all-fits :
      (b : Buf) (xs : List ℕ)
      → length xs ≤ capacity - length (contents b)
      → contents (put_all ring b xs) ≡ contents b ++ xs
  put_all-fits b xs h =
      put_all-contents b xs
      ∙ ap (λ l. contents b ++ l) (take-all (capacity - length (contents b)) xs (omega arith))
