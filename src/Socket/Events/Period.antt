-- ===== src/Socket/Events/Period.antt =====
-- How often the handler of the socket events polls.
use ameba_micro_python.Prelude.{
  ℕ, zero, suc, ◌+◌, ◌-◌, ◌<◌, ◌≤◌, ◌≡◌, ◌∙◌, refl, true, false, List, ◌∷◌, ◌==◌, if◌then◌else◌,
  arith, ltb,
}
use ameba_micro_python.Socket.Events.{Events, due}

-- The state after `k` starts of the handler.
unfoldable pub due_n : ℕ → Events → Events
due_n zero e = e
due_n (suc k) e = due_n k (due e).0

-- The calls that pass before a poll: the counter is 0 at boot, which counts as 256.
abbrev pub silent : ℕ → ℕ
silent d = if d == 0 then 255 else d - 1

quiet :
    (e : Events) (s : ℕ) (ss : List ℕ)
    → e.head ≡ s ∷ ss
    → e.divisor < 256
    → 0 < silent e.divisor
    → (due e).0 ≡ record e { divisor = silent e.divisor }
unfolding due
quiet e s ss h d p = ground arith

quiet_n :
    (k : ℕ) (e : Events) (s : ℕ) (ss : List ℕ)
    → e.head ≡ s ∷ ss
    → e.divisor < 256
    → k ≤ silent e.divisor
    → (silent (due_n k e).divisor + k ≡ silent e.divisor)
      × ((due_n k e).divisor < 256)
      × ((due_n k e).head ≡ e.head)
unfolding due_n
quiet_n zero e s ss h d p = (omega arith, d, refl)
quiet_n (suc k) e s ss h d p =
    let e' = record e { divisor = silent e.divisor } in
    let (a, b, c) = quiet_n k e' s ss h (ground arith) (ground arith) in
    rw (quiet e s ss h d (ground arith), due_n) (ground arith, b, c)

step :
    (e : Events) (s : ℕ) (ss : List ℕ)
    → e.head ≡ s ∷ ss
    → e.divisor < 256
    → (due e).1 ≡ (if ltb 0 (silent e.divisor) then false else true)
unfolding due
step e s ss h d = ground arith

-- With a socket registered and none taken away, the handler skips the poll in its next `silent` calls, and
-- polls in the call after those; `silent` is 255 at boot and 7 after a poll.
pub due_n-polls :
    (k : ℕ) (e : Events) (s : ℕ) (ss : List ℕ)
    → e.head ≡ s ∷ ss
    → e.divisor < 256
    → k ≤ silent e.divisor
    → (due (due_n k e)).1 ≡ (if ltb k (silent e.divisor) then false else true)
due_n-polls k e s ss h d p =
    let (a, b, c) = quiet_n k e s ss h d p in
    step (due_n k e) s ss (c ∙ h) b
    ∙ (let same : ltb 0 (silent (due_n k e).divisor) ≡ ltb k (silent e.divisor) = ground arith in
        rw same refl)
