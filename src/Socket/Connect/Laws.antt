-- ===== src/Socket/Connect/Laws.antt =====
-- When `socket_connect` of modsocket.c returns, and with what.
use ameba_micro_python.Prelude.{
  ℕ, zero, suc, ◌+◌, ◌≤◌, ◌<◌, ◌≡◌, ◌≢◌, ◌∙◌, ◌⊎◌, refl, ap, sym, Bool, true, false, Option, none,
  some, arith, Bool-cases, inl, inr,
}
use native.Mathlib.Decide.{ℕ_discrete, dec_lt}
use ameba_micro_python.Py.{Errno, einprogress, etimedout, os_error, Result, ok, raise}
use ameba_micro_python.Socket.{Socket, connected, uint_max}
use ameba_micro_python.Socket.Connect.{
  Poll, select_failed, unread, writable, idle, Network, start_error, poll_loop, is_blocking,
  attempt, attempt_in_state, polls, outcome, connect_to, connect,
}

Poll-cases :
    (p : Poll)
    → ((e : Errno) × (p ≡ select_failed e))
      ⊎ ((e : Errno) × (p ≡ unread e))
      ⊎ (p ≡ writable none)
      ⊎ ((e : Errno) × (p ≡ writable (some e)))
      ⊎ (p ≡ idle)
Poll-cases (select_failed e) = inl (e, refl)
Poll-cases (unread e) = inr (inl (e, refl))
Poll-cases (writable none) = inr (inr (inl refl))
Poll-cases (writable (some e)) = inr (inr (inr (inl (e, refl))))
Poll-cases idle = inr (inr (inr (inr refl)))

-- A poll after which the loop goes on: it found nothing, or the descriptor writable while the connection
-- is still in progress.
abbrev pub IsWaiting : Poll → Type 0
IsWaiting p = (p ≡ idle) ⊎ (p ≡ writable (some einprogress))

module _ (net : Network) where
  -- The polls end without an error only where one found the descriptor writable with `SO_ERROR` 0.
  poll_loop-ok :
      (retries fuel i : ℕ) (err : Errno)
      → poll_loop retries net fuel i (some err) ≡ some (ok none)
      → (k : ℕ) × (net.poll k ≡ writable none)
  unfolding poll_loop
  poll_loop-ok retries zero i err e = cc
  poll_loop-ok retries (suc fuel) i err e = elim (Poll-cases (net.poll i)) [
    | inl (x, p) ↦ ground arith
    | inr (inl (x, p)) ↦ ground arith
    | inr (inr (inl p)) ↦ (i, p)
    | inr (inr (inr (inl (x, p)))) ↦ poll_loop-ok retries fuel (i + 1) x (ground arith)
    | inr (inr (inr (inr p))) ↦ poll_loop-ok retries fuel (i + 1) etimedout (ground arith)
  ]

  poll_loop-idle :
      (retries fuel i k : ℕ) (err : Option Errno)
      → i ≤ k
      → k ≤ retries
      → retries ≤ uint_max
      → k < fuel + i
      → ((j : ℕ) → j < k → IsWaiting (net.poll j))
      → ((j : ℕ) → j < k → net.interrupt j ≡ false)
      → net.poll k ≡ writable none
      → poll_loop retries net fuel i err ≡ some (ok none)
  unfolding poll_loop
  poll_loop-idle retries zero i k err hi hk hr hf hp hn hw = absurd (omega arith)
  poll_loop-idle retries (suc fuel) i k err hi hk hr hf hp hn hw = elim (ℕ_discrete i k) [
    | yes e ↦ let w : net.poll i ≡ writable none = ap net.poll e ∙ hw in ground arith
    | no ne ↦
        let rest = λ (e : Errno).
          poll_loop-idle retries fuel (i + 1) k (some e) (omega arith) hk hr (omega arith) hp hn
            hw in
        let calm = hn i (omega arith) in
        elim (hp i (omega arith)) [
          | inl p ↦ ground (arith, p, calm, rest etimedout)
          | inr p ↦ ground (arith, p, rest einprogress)
        ]
  ]

  poll_loop-timeout :
      (retries fuel i : ℕ) (err : Errno)
      → retries < uint_max
      → i ≤ retries + 1
      → retries + 2 ≤ fuel + i
      → ((j : ℕ) → j ≤ retries → net.poll j ≡ idle)
      → ((j : ℕ) → j ≤ retries → net.interrupt j ≡ false)
      → (i ≤ retries) ⊎ (err ≡ etimedout)
      → poll_loop retries net fuel i (some err) ≡ some (ok (some etimedout))
  unfolding poll_loop
  poll_loop-timeout retries zero i err h hi hf hp hn he = absurd (omega arith)
  poll_loop-timeout retries (suc fuel) i err h hi hf hp hn he = elim (dec_lt retries i) [
    | yes p ↦ ground arith
    | no p ↦ ground (
      arith,
      hp i (omega arith),
      hn i (omega arith),
      poll_loop-timeout retries fuel (i + 1) etimedout h (omega arith) (omega arith) hp hn
          (inr refl),
    )
  ]

  poll_loop-total :
      (retries fuel i : ℕ) (err : Option Errno)
      → retries < uint_max
      → i ≤ retries + 1
      → retries + 2 ≤ fuel + i
      → poll_loop retries net fuel i err ≢ none
  unfolding poll_loop
  poll_loop-total retries zero i err h hi hf = absurd (omega arith)
  poll_loop-total retries (suc fuel) i err h hi hf = elim (Poll-cases (net.poll i)) [
    | inr (inr (inr (inl (x, p)))) ↦ ground (arith, poll_loop-total retries fuel (i + 1) (some x) h)
    | inl (x, p) ↦ ground arith
    | inr (inl (x, p)) ↦ ground arith
    | inr (inr (inl p)) ↦ ground arith
    | inr (inr (inr (inr p))) ↦
        ground (arith, poll_loop-total retries fuel (i + 1) (some etimedout) h)
  ]

polls-true :
    (b : Bool) (err : Option Errno) → polls b err ≡ true → (b ≡ true) × (err ≡ some einprogress)
polls-true true (some e) h = ground arith
polls-true true none h = cc
polls-true false err h = cc

outcome-ok : (err : Option Errno) → outcome (ok err) ≡ ok tt → err ≡ none
outcome-ok none h = refl
outcome-ok (some e) h = cc

module _ (net : Network) (sock : Socket) where
  attempt-ok :
      (fuel : ℕ)
      → attempt sock net fuel ≡ some (ok tt)
      → (start_error (is_blocking sock) net ≡ none)
        ⊎ ((is_blocking sock ≡ true)
            × (start_error true net ≡ some einprogress)
            × (k : ℕ) × (net.poll k ≡ writable none))
  unfolding attempt
  attempt-ok fuel e = elim (Bool-cases (polls (is_blocking sock) err)) [
    | inr f ↦
        let e' : some (outcome (ok err)) ≡ some (ok tt) = rw (f, attempt) at e in
        inl (outcome-ok err (cc))
    | inl t ↦
        let (b, s) = polls-true (is_blocking sock) err t in
        let s' : start_error true net ≡ some einprogress = rw b at s in
        let fin : poll_loop sock.retries net fuel 0 (some einprogress) ≡ some (ok none) =
          ground arith in
        let (k, w) = poll_loop-ok net sock.retries fuel 0 einprogress fin in inr (b, s', k, w)
  ]
    where
      err : Option Errno
      err = start_error (is_blocking sock) net

  attempt_in_state-ok :
      (r : Option (Result (Unit {0}))) (after : Socket)
      → attempt_in_state sock r ≡ some (ok tt, after)
      → (r ≡ some (ok tt)) × (after.state ≡ connected)
  unfolding attempt_in_state
  attempt_in_state-ok none after e = cc
  attempt_in_state-ok (some r) after e = ground arith

  -- A `connect` that returns has a known address, and either started without an error or, on a
  -- blocking socket, found the descriptor writable with `SO_ERROR` 0 in some poll.
  pub connect-ok :
      (fuel : ℕ) (after : Socket)
      → connect sock net fuel ≡ some (ok tt, after)
      → (net.lookup ≡ ok tt)
        × (after.state ≡ connected)
        × ((start_error (is_blocking sock) net ≡ none)
            ⊎ ((is_blocking sock ≡ true)
                × (start_error true net ≡ some einprogress)
                × (k : ℕ) × (net.poll k ≡ writable none)))
  unfolding connect
  connect-ok fuel after e =
      let known : net.lookup ≡ ok tt = ground arith in
      let (done, state) =
        attempt_in_state-ok (attempt sock net fuel) after
          (ap (λ l. connect_to l sock net fuel) (sym known) ∙ e) in
      (known, state, attempt-ok fuel done)

  -- A blocking socket whose connection is in progress connects at a poll that finds it writable with
  -- `SO_ERROR` 0 within the timeout, if each poll before found nothing, or found it writable with the
  -- connection still in progress, and no exception is pending before.
  pub connect-first :
      (fuel k : ℕ)
      → net.lookup ≡ ok tt
      → 0 < sock.retries
      → sock.retries ≤ uint_max
      → start_error true net ≡ some einprogress
      → k ≤ sock.retries
      → k < fuel
      → ((j : ℕ) → j < k → IsWaiting (net.poll j))
      → ((j : ℕ) → j < k → net.interrupt j ≡ false)
      → net.poll k ≡ writable none
      → connect sock net fuel ≡ some (ok tt, record sock { state = connected })
  unfolding connect
  connect-first fuel k hl h0 hr hs hk hf hp hn hw =
      let e : poll_loop sock.retries net fuel 0 (some einprogress) ≡ some (ok none) =
        poll_loop-idle net sock.retries fuel 0 k (some einprogress) (omega arith) hk hr
          (omega arith) hp hn hw in
      ground arith

  -- A blocking socket with a finite timeout whose connection is in progress raises ETIMEDOUT where
  -- none of its `retries` + 1 polls finds anything and no exception is pending; the socket counts as
  -- connected all the same.
  pub connect-timeout :
      (fuel : ℕ)
      → net.lookup ≡ ok tt
      → 0 < sock.retries
      → sock.retries < uint_max
      → sock.retries + 2 ≤ fuel
      → start_error true net ≡ some einprogress
      → ((j : ℕ) → j ≤ sock.retries → net.poll j ≡ idle)
      → ((j : ℕ) → j ≤ sock.retries → net.interrupt j ≡ false)
      → connect sock net fuel ≡ some (raise (os_error etimedout), record sock { state = connected })
  unfolding connect
  connect-timeout fuel hl h0 hr hf hs hp hn =
      let e : poll_loop sock.retries net fuel 0 (some einprogress) ≡ some (ok (some etimedout)) =
        poll_loop-timeout net sock.retries fuel 0 einprogress hr (omega arith) (omega arith) hp hn
          (inl (omega arith)) in
      ground arith

  -- With a finite timeout `connect` ends, whatever lwIP answers.
  pub connect-total :
      (fuel : ℕ) → sock.retries < uint_max → sock.retries + 2 ≤ fuel → connect sock net fuel ≢ none
  unfolding connect
  connect-total fuel hr hf = ground (
    arith,
    poll_loop-total net sock.retries fuel 0 (start_error (is_blocking sock) net) hr (omega arith)
        (omega arith),
  )
