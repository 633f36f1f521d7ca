-- ===== src/Spi/Exchange.antt =====
-- The transfer of machine_spi.c against the exchange of a list of bytes.
use ameba_micro_python.Prelude.{
  ℕ, ◌+◌, ◌%◌, ◌≡◌, refl, true, List, [], ◌∷◌, ◌++◌, length, get_or, set, arith, ap, ◌∙◌, sym,
}
use mathlib.Core.List.{append_assoc}
use mathlib.Core.Path.{ap₂}
use ameba_micro_python.Py.{ok}
use ameba_micro_python.Spi.{Spi, in_place, buffer, transfer_loop, transfer}

module _ {D : Type 0} (master_write : D → ℕ → ℕ × D) where
  -- The bytes that come back for the bytes `outs`, sent one after another.
  abbrev pub exchange : D → List ℕ → List ℕ × D
  exchange d [] = ([], d)
  exchange d (x ∷ outs) =
      let (in_, d') = master_write d x in
      let (ins, d'') = exchange d' outs in (in_ % 256 ∷ ins, d'')

  get_or-middle :
      (pre : List ℕ) (x : ℕ) (rest : List ℕ) → get_or (pre ++ x ∷ rest) (length pre) 255 ≡ x
  get_or-middle [] x rest = refl
  get_or-middle (y ∷ pre) x rest = get_or-middle pre x rest

  set-middle :
      (pre : List ℕ) (x v : ℕ) (rest : List ℕ)
      → set (pre ++ x ∷ rest) (length pre) v ≡ pre ++ v ∷ rest
  set-middle [] x v rest = refl
  set-middle (y ∷ pre) x v rest = ap (λ l. y ∷ l) (set-middle pre x v rest)

  length-snoc : (pre : List ℕ) (v : ℕ) → length (pre ++ v ∷ []) ≡ length pre + 1
  length-snoc [] v = refl
  length-snoc (y ∷ pre) v = omega (arith, length-snoc pre v)

  -- The loop in the middle of the buffer: `pre` has been read already.
  in_place-middle :
      (d : D) (pre rest : List ℕ)
      → transfer_loop master_write true in_place d (pre ++ rest) (length pre) (length rest)
        ≡ (pre ++ (exchange d rest).0, (exchange d rest).1)
  unfolding transfer_loop
  in_place-middle d pre [] = refl
  in_place-middle d pre (x ∷ rest) =
      let v : ℕ = (master_write d x).0 % 256 in
      let d' : D = (master_write d x).1 in
      ap
        (λ o.
          transfer_loop master_write true in_place (master_write d o).1
            (set (pre ++ x ∷ rest) (length pre) ((master_write d o).0 % 256)) (length pre + 1)
            (length rest))
        (get_or-middle pre x rest)
      ∙ ap (λ l. transfer_loop master_write true in_place d' l (length pre + 1) (length rest))
          (set-middle pre x v rest ∙ sym (append_assoc pre (v ∷ []) rest))
      ∙ ap
          (λ i.
            transfer_loop master_write true in_place d' ((pre ++ v ∷ []) ++ rest) i (length rest))
          (sym (length-snoc pre v))
      ∙ in_place-middle d' (pre ++ v ∷ []) rest
      ∙ ap (λ l. (l, (exchange d' rest).1)) (append_assoc pre (v ∷ []) (exchange d' rest).0)

  -- The loop with a buffer of its own to send from, of which `sent` has been sent.
  buffer-middle :
      (d : D) (sent pre xs ys : List ℕ)
      → length sent ≡ length pre
      → length ys ≡ length xs
      → transfer_loop master_write true (buffer (sent ++ xs)) d (pre ++ ys) (length pre) (length xs)
        ≡ (pre ++ (exchange d xs).0, (exchange d xs).1)
  unfolding transfer_loop
  buffer-middle d sent pre [] [] s e = refl
  buffer-middle d sent pre [] (y ∷ ys) s e = absurd (omega (arith, e))
  buffer-middle d sent pre (x ∷ xs) [] s e = absurd (omega (arith, e))
  buffer-middle d sent pre (x ∷ xs) (y ∷ ys) s e =
      let v : ℕ = (master_write d x).0 % 256 in
      let d' : D = (master_write d x).1 in
      let read : get_or (sent ++ x ∷ xs) (length pre) 255 ≡ x =
        ap (λ i. get_or (sent ++ x ∷ xs) i 255) (sym s) ∙ get_or-middle sent x xs in
      ap
        (λ o.
          transfer_loop master_write true (buffer (sent ++ x ∷ xs)) (master_write d o).1
            (set (pre ++ y ∷ ys) (length pre) ((master_write d o).0 % 256)) (length pre + 1)
            (length xs))
        read
      ∙ ap
          (λ l.
            transfer_loop master_write true (buffer (sent ++ x ∷ xs)) d' l (length pre + 1)
              (length xs))
          (set-middle pre y v ys ∙ sym (append_assoc pre (v ∷ []) ys))
      ∙ ap₂
          (λ l i.
            transfer_loop master_write true (buffer l) d' ((pre ++ v ∷ []) ++ ys) i (length xs))
          (sym (append_assoc sent (x ∷ []) xs)) (sym (length-snoc pre v))
      ∙ buffer-middle d' (sent ++ x ∷ []) (pre ++ v ∷ []) xs ys
          (omega (arith, length-snoc sent x, length-snoc pre v, s)) (omega (arith, e))
      ∙ ap (λ l. (l, (exchange d' xs).1)) (append_assoc pre (v ∷ []) (exchange d' xs).0)

  -- A transfer of an object that is set up sends the bytes `xs` in order and stores what comes back for
  -- each: the same bytes, and the same state of the bus, whether they are read into a buffer of the same
  -- length or over the bytes that are sent.
  pub transfer-exchange :
      (s : Spi) (d : D) (xs ys : List ℕ)
      → s.initialized ≡ true
      → length ys ≡ length xs
      → (transfer master_write s true in_place d xs (length xs)
          ≡ (ok tt, (exchange d xs).0, (exchange d xs).1))
        × (transfer master_write s true (buffer xs) d ys (length xs)
            ≡ (ok tt, (exchange d xs).0, (exchange d xs).1))
  unfolding transfer
  transfer-exchange s d xs ys i e =
      (rw (i, in_place-middle d [] xs) refl, rw (i, buffer-middle d [] [] xs ys refl e) refl)
