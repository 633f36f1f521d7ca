-- ===== src/Ota/Write.antt =====
-- `ameba_ota_write` of modota.c and the stream that it fills.
use ameba_micro_python.Prelude.{
  ℕ, zero, suc, ◌+◌, ◌<◌, ◌≡◌, ◌∙◌, ◌⊎◌, refl, sym, ap, false, true, Option, Bool, some, List, [],
  ◌∷◌, ◌++◌, length, take, drop, take-append-drop, arith, Bool-cases, inl, inr,
}
use mathlib.Core.Path.{subst}
use mathlib.Core.List.{append_assoc, append-nil}
use ameba_micro_python.Py.{ok, raise, os_error, eio, Result}
use ameba_micro_python.Ota.{Session, pending, write_loop, write}

-- In a loop that ends without an error the stream has taken all bytes, in order.
write_loop-ok :
    (ended : ℕ → Bool) (sent : ℕ → ℕ → ℕ) (fuel i : ℕ) (bytes taken out : List ℕ)
    → write_loop ended sent fuel i bytes taken ≡ some (ok tt, out)
    → out ≡ taken ++ bytes
unfolding write_loop
write_loop-ok ended sent zero i bytes taken out e = cc
write_loop-ok ended sent (suc fuel) i [] taken out e = ground (arith, append-nil taken)
write_loop-ok ended sent (suc fuel) i (b ∷ bs) taken out e =
    let n : ℕ = sent i (length (b ∷ bs)) in
    elim (Bool-cases (ended i)) [
      | inl stop ↦ ground arith
      | inr more ↦
          write_loop-ok ended sent fuel (i + 1) (drop n (b ∷ bs)) (taken ++ take n (b ∷ bs)) out
            (rw (more, write_loop) at e)
          ∙ append_assoc taken (take n (b ∷ bs)) (drop n (b ∷ bs))
          ∙ ap (λ l. taken ++ l) (take-append-drop n (b ∷ bs))
    ]

-- How a `write` of `bytes` ends: with all of them in the stream, or with EIO and a beginning of them.
abbrev pub Ended : List ℕ → Option (Result (Unit {0}) × List ℕ) → Type 0
Ended bytes out =
    (out ≡ some (ok tt, bytes))
    ⊎ ((taken : List ℕ) × (rest : List ℕ) × (out ≡ some (raise (os_error eio), taken))
        × (taken ++ rest ≡ bytes))

write_loop-Ended :
    (ended : ℕ → Bool) (sent : ℕ → ℕ → ℕ) (fuel i k : ℕ) (bytes taken : List ℕ)
    → ended (i + k) ≡ true
    → k < fuel
    → Ended (taken ++ bytes) (write_loop ended sent fuel i bytes taken)
unfolding write_loop
write_loop-Ended ended sent zero i k bytes taken at h = absurd (omega arith)
write_loop-Ended ended sent (suc fuel) i k [] taken at h =
    inl (ap (λ l. some (ok tt, l)) (sym (append-nil taken)))
write_loop-Ended ended sent (suc fuel) i zero (b ∷ bs) taken at h =
    inr (taken, b ∷ bs, rw (stop, write_loop) refl, refl)
  where
    stop : ended i ≡ true
    stop = subst (λ j. ended j ≡ true) (omega arith) at
write_loop-Ended ended sent (suc fuel) i (suc k) (b ∷ bs) taken at h =
    let n : ℕ = sent i (length (b ∷ bs)) in
    elim (Bool-cases (ended i)) [
      | inl stop ↦ rw (stop, write_loop) (inr (taken, b ∷ bs, refl, refl))
      | inr more ↦
          rw (more, write_loop)
            (subst
              (λ l.
                Ended l
                  (write_loop ended sent fuel (i + 1) (drop n (b ∷ bs)) (taken ++ take n (b ∷ bs))))
              (append_assoc taken (take n (b ∷ bs)) (drop n (b ∷ bs))
                ∙ ap (λ l. taken ++ l) (take-append-drop n (b ∷ bs)))
              (write_loop-Ended ended sent fuel (i + 1) k (drop n (b ∷ bs))
                (taken ++ take n (b ∷ bs)) (subst (λ j. ended j ≡ true) (omega arith) at)
                (omega arith)))
    ]

-- A `write` that returns has passed all of its bytes to the stream, in order.
pub write-ok :
    (s : Session) (ended : ℕ → Bool) (sent : ℕ → ℕ → ℕ) (fuel : ℕ) (bytes out : List ℕ)
    → write s ended sent fuel bytes ≡ some (ok tt, out)
    → out ≡ bytes
unfolding write
write-ok s ended sent fuel bytes out e = write_loop-ok ended sent fuel 0 bytes [] out (ground arith)

-- A `write` on a session that is pending and not finished ends, whatever the stream takes in each round:
-- at the latest in the round `k` that finds that the task has ended. Either the stream has taken all of its
-- bytes, in order, and it returns, or it raises EIO with a beginning of them in the stream.
pub write-Ended :
    (s : Session) (ended : ℕ → Bool) (sent : ℕ → ℕ → ℕ) (fuel k : ℕ) (bytes : List ℕ)
    → s.finished ≡ false
    → s.result ≡ pending
    → ended k ≡ true
    → k < fuel
    → Ended bytes (write s ended sent fuel bytes)
unfolding write
write-Ended s ended sent fuel k bytes open_ pend at h =
    rw (open_, pend)
      (write_loop-Ended ended sent fuel 0 k bytes [] (subst (λ j. ended j ≡ true) (omega arith) at)
        h)
