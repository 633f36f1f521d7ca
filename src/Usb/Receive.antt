-- ===== src/Usb/Receive.antt =====
-- Bytes from the host through the ring buffer of machine_usbserial.c to Python.
use ameba_micro_python.Prelude.{
  ℕ, zero, suc, ◌+◌, ◌-◌, ◌%◌, ◌^◌, ◌≡◌, ◌∙◌, refl, ap, Bool, true, false, List, [], ◌∷◌, ◌++◌,
  length, take, drop, inl, inr, Option-cases, if◌then◌else◌,
}
use ameba_micro_python.Py.{os_error, eagain, ok, raise}
use ameba_micro_python.RingBuf.{RingBuf, IsQueue}
use ameba_micro_python.RingBuf.Fill.{put_all, put_all-contents}
use ameba_micro_python.Usb.{received, read_loop, read, got_or_again}

abbrev pub is_empty : List ℕ → Bool
is_empty [] = true
is_empty (x ∷ xs) = false

module _ (ring : RingBuf) (queue : IsQueue ring) where
  open ring use {Buf, contents, capacity, put, get}

  -- The bytes that arrive are put into the buffer, whatever is counted beside.
  received-put_all :
      (b : Buf) (overflow : ℕ) (xs : List ℕ) → (received ring b overflow xs).0 ≡ put_all ring b xs
  unfolding received put_all
  received-put_all b overflow [] = refl
  received-put_all b overflow (x ∷ xs) = elim (Option-cases (put b x)) [
    | inl e ↦ rw (e, received) (received-put_all b ((overflow + 1) % 2 ^ 32) xs)
    | inr (b', e) ↦ rw (e, received) (received-put_all b' overflow xs)
  ]

  read_loop-contents :
      (b : Buf) (size : ℕ)
      → ((read_loop ring b size).0 ≡ take size (contents b))
        × (contents (read_loop ring b size).1 ≡ drop size (contents b))
  unfolding read_loop
  read_loop-contents b zero = (refl, refl)
  read_loop-contents b (suc size) = elim (Option-cases (get b)) [
    | inl e ↦ rw (e, read_loop, queue.get_none b e) (refl, refl)
    | inr ((c, b'), e) ↦
        let (f, g) = read_loop-contents b' size in
        rw (e, read_loop, queue.get_some b b' c e) (ap (λ l. c ∷ l) f, g)
  ]

  -- Of the bytes that arrive, those that the buffer has room for are delivered, in order, after the
  -- older ones: a read returns the first `size` of them and leaves the others, or raises EAGAIN
  -- exactly where there is nothing to return.
  pub read-received :
      (b : Buf) (overflow size : ℕ) (xs : List ℕ)
      → let b' = (received ring b overflow xs).0 in
        let all = contents b ++ take (capacity - length (contents b)) xs in
        ((read ring b' size).0
          ≡ (if is_empty (take size all) then raise (os_error eagain) else ok (take size all)))
        × (contents (read ring b' size).1 ≡ drop size all)
  unfolding read
  read-received b overflow size xs =
      let b' : Buf = (received ring b overflow xs).0 in
      let h : contents b' ≡ contents b ++ take (capacity - length (contents b)) xs =
        ap contents (received-put_all b overflow xs) ∙ put_all-contents ring queue b xs in
      let (f, g) = read_loop-contents b' size in
      (
        got_or_again-lem (read_loop ring b' size)
            ∙ ap (λ l. if is_empty l then raise (os_error eagain) else ok l) (f ∙ ap (take size) h),
        got_or_again-buf (read_loop ring b' size) ∙ g ∙ ap (drop size) h,
      )
    where
      got_or_again-lem :
          (out : List ℕ × Buf)
          → (got_or_again ring out).0
            ≡ (if is_empty out.0 then raise (os_error eagain) else ok out.0)
      got_or_again-lem ([], b) = refl
      got_or_again-lem (x ∷ xs, b) = refl

      got_or_again-buf : (out : List ℕ × Buf) → contents (got_or_again ring out).1 ≡ contents out.1
      got_or_again-buf ([], b) = refl
      got_or_again-buf (x ∷ xs, b) = refl
