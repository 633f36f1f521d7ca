-- ===== src/Socket/Transfer/Send.antt =====
-- What `send`, `sendall`, `sendto` and the stream's write tell the caller.
use ameba_micro_python.Prelude.{
  ℕ, zero, suc, ◌+◌, ◌-◌, ◌≤◌, ◌<◌, ◌≡◌, ◌≢◌, ◌∙◌, refl, ap, Bool, false, Option, none, some, List,
  [], ◌∷◌, ◌++◌, length, take, drop, arith, inl, inr, ◌⊎◌,
}
use ameba_micro_python.Py.{Errno, os_error, eagain, etimedout, Result, ok, raise}
use ameba_micro_python.Socket.{Socket, uint_max}
use ameba_micro_python.Socket.Transfer.{
  Reply, got, fail, send_loop, send, sendall, sendall_result, sendto, stream_write, timed_out,
}

-- What a write takes is no more than what it was offered.
abbrev pub TakesAtMost : (ℕ → ℕ → Reply) → Type 0
TakesAtMost write = (i n r : ℕ) → write i n ≡ got r → r ≤ n

take-add :
    (n r : ℕ) (bytes : List ℕ)
    → n + r ≤ length bytes
    → take n bytes ++ take r (drop n bytes) ≡ take (n + r) bytes
take-add zero r bytes h = let e : r ≡ 0 + r = omega arith in ap (λ k. take k bytes) e
take-add (suc n) r [] h = absurd (omega arith)
take-add (suc n) r (b ∷ bytes) h =
    let e : suc (n + r) ≡ suc n + r = omega arith in
    ap (λ l. b ∷ l) (take-add n r bytes (omega arith)) ∙ ap (λ k. take k (b ∷ bytes)) e

Reply-cases : (x : Reply) → ((r : ℕ) × (x ≡ got r)) ⊎ ((e : Errno) × (x ≡ fail e))
Reply-cases (got r) = inl (r, refl)
Reply-cases (fail e) = inr (e, refl)

take_all : (n : ℕ) (bytes : List ℕ) → length bytes ≤ n → take n bytes ≡ bytes
take_all zero [] h = refl
take_all (suc n) [] h = refl
take_all zero (b ∷ bytes) h = absurd (omega arith)
take_all (suc n) (b ∷ bytes) h = ap (λ l. b ∷ l) (take_all n bytes (omega arith))

whole_send :
    (bytes out : List ℕ) (r : Option (Result ℕ × List ℕ))
    → sendall_result bytes r ≡ some (ok tt, out)
    → (n : ℕ) × (r ≡ some (ok n, out)) × (length bytes ≤ n)
unfolding sendall_result
whole_send bytes out none e = cc
whole_send bytes out (some (ok n, sent)) e = (n, ground arith, ground arith)
whole_send bytes out (some (raise x, sent)) e = cc

module _ (write : ℕ → ℕ → Reply) (interrupt : ℕ → Bool) (law : TakesAtMost write) where
  -- What is out is always the beginning of the data.
  send_loop-prefix :
      (retries : ℕ) (bytes : List ℕ) (fuel i n : ℕ) (sent : List ℕ) (m : ℕ) (out : List ℕ)
      → n ≤ length bytes
      → sent ≡ take n bytes
      → send_loop write interrupt retries bytes fuel i n sent ≡ some (ok m, out)
      → (m ≤ length bytes) × (out ≡ take m bytes)
  unfolding send_loop
  send_loop-prefix retries bytes zero i n sent m out h hs e = cc
  send_loop-prefix retries bytes (suc fuel) i n sent m out h hs e =
      elim (Reply-cases (write i (length bytes - n))) [
        | inl (r, w) ↦ ground (
          arith,
          w,
          law i (length bytes - n) r w,
          take-add n r bytes,
          send_loop-prefix retries bytes fuel (i + 1) (n + r) (sent ++ take r (drop n bytes)) m out,
        )
        | inr (x, w) ↦
            ground (arith, w, send_loop-prefix retries bytes fuel (i + 1) n sent m out h hs)
      ]

  -- `send` returns a positive number of bytes, at most those given, and what lwIP took is exactly
  -- that many bytes from the front of the data, in order.
  pub send-prefix :
      (sock : Socket) (bytes : List ℕ) (fuel n : ℕ) (out : List ℕ)
      → send write interrupt sock bytes fuel ≡ some (ok n, out)
      → (0 < n) × (n ≤ length bytes) × (out ≡ take n bytes)
  unfolding send
  send-prefix sock bytes fuel n out e =
      ground (arith, send_loop-prefix sock.retries bytes fuel 0 0 [] n out (omega arith) refl)

  -- Where `sendall` returns, lwIP took all of the data, in order.
  pub sendall-all :
      (sock : Socket) (bytes out : List ℕ) (fuel : ℕ)
      → sendall write interrupt sock bytes fuel ≡ some (ok tt, out)
      → out ≡ bytes
  unfolding sendall
  sendall-all sock bytes out fuel e =
      let (n, sent, whole) = whole_send bytes out (send write interrupt sock bytes fuel) e in
      (send-prefix sock bytes fuel n out sent).2 ∙ take_all n bytes whole

module _ (write : ℕ → ℕ → Reply) (interrupt : ℕ → Bool) where
  -- With a finite timeout `sendall` ends, whatever lwIP answers.
  send_loop-total :
      (retries : ℕ) (bytes : List ℕ) (fuel i n : ℕ) (sent : List ℕ)
      → retries < uint_max
      → i ≤ retries + 1
      → retries + 2 ≤ fuel + i
      → send_loop write interrupt retries bytes fuel i n sent ≢ none
  unfolding send_loop
  send_loop-total retries bytes zero i n sent h hi hf = absurd (omega arith)
  send_loop-total retries bytes (suc fuel) i n sent h hi hf =
      elim (Reply-cases (write i (length bytes - n))) [
        | inl (r, w) ↦ ground (
          arith,
          w,
          send_loop-total retries bytes fuel (i + 1) (n + r) (sent ++ take r (drop n bytes)) h,
        )
        | inr (x, w) ↦ ground (arith, w, send_loop-total retries bytes fuel (i + 1) n sent h)
      ]

  -- With a finite timeout `sendall` ends, whatever lwIP answers.
  pub sendall-total :
      (sock : Socket) (bytes : List ℕ) (fuel : ℕ)
      → sock.retries < uint_max
      → sock.retries + 2 ≤ fuel
      → sendall write interrupt sock bytes fuel ≢ none
  unfolding sendall
  sendall-total sock bytes fuel h hf =
      ground (arith, send_loop-total sock.retries bytes fuel 0 0 [] h (omega arith) (omega arith))

  -- Sending no bytes is reported as a timeout at once, without a call of lwIP.
  pub send-empty :
      (sock : Socket) (fuel : ℕ)
      → send write interrupt sock [] (suc fuel) ≡ some (raise (timed_out sock.retries), [])
  unfolding send
  send-empty sock fuel = ground arith

  -- On a non-blocking socket whose buffer is full, `sendto` raises ETIMEDOUT where the stream's write
  -- reports EAGAIN.
  pub sendto-nonblocking :
      (sock : Socket) (size fuel : ℕ)
      → sock.retries ≡ 0
      → write 0 size ≡ fail eagain
      → interrupt 0 ≡ false
      → (sendto write interrupt sock size (suc (suc fuel)) ≡ some (raise (os_error etimedout)))
        × (stream_write write interrupt sock size (suc (suc fuel)) ≡ some (raise (os_error eagain)))
  unfolding sendto stream_write
  sendto-nonblocking sock size fuel h w p = ground arith
