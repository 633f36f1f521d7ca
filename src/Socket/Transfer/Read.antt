-- ===== src/Socket/Transfer/Read.antt =====
-- What `_socket_read_data` of modsocket.c returns.
use ameba_micro_python.Prelude.{
  ℕ, ◌+◌, ◌≤◌, ◌<◌, ◌≡◌, ◌≢◌, refl, ap, ◌∙◌, Bool, false, none, some, inl, inr, ◌==◌, if◌then◌else◌,
  arith,
}
use ameba_micro_python.Py.{os_error, eagain, etimedout, ok, raise}
use ameba_micro_python.Socket.{Socket, State, new, connected, peer_closed, uint_max}
use ameba_micro_python.Socket.Retry.{
  retry_loop-stop, retry_loop-exhausted, retry_loop-total, retry_loop-cases, retry_loop,
}
use ameba_micro_python.Socket.Transfer.{
  Reply, got, fail, read_round, read_data, read_in_state, timed_out,
}

module _ (recv : ℕ → Reply) (interrupt : ℕ → Bool) (sock : Socket) where
  read_connected :
      (dontwait : Bool) (fuel : ℕ)
      → sock.state ≡ connected
      → read_data recv interrupt sock dontwait fuel
        ≡ retry_loop sock.retries
            (read_round recv interrupt sock dontwait)
            (raise (timed_out sock.retries), sock)
            fuel
            0
  unfolding read_data
  read_connected dontwait fuel h = ap (λ s. read_in_state recv interrupt s sock dontwait fuel) h

  -- Where `lwip_recvfrom` would block for `k` rounds with no exception pending, and then delivers
  -- `n` bytes within the timeout, a connected socket returns `n`, and is marked as closed by the
  -- peer exactly for `n` = 0.
  pub read_data-first :
      (fuel k n : ℕ)
      → sock.state ≡ connected
      → k ≤ sock.retries
      → sock.retries ≤ uint_max
      → k < fuel
      → ((j : ℕ) → j < k → recv j ≡ fail eagain)
      → ((j : ℕ) → j < k → interrupt j ≡ false)
      → recv k ≡ got n
      → read_data recv interrupt sock false fuel
        ≡ some (ok n, if n == 0 then record sock { state = peer_closed } else sock)
  unfolding read_data
  read_data-first fuel k n hs hk hr hf hb hi hg =
      read_connected false fuel hs
      ∙ (retry_loop-stop sock.retries (read_round recv interrupt sock false) _ fuel 0 k _
          (omega arith) hk hr (omega arith) (λ j h. ground (arith, hb j h, hi j h))
          (ground (arith, hg)))

  -- Where `lwip_recvfrom` would block in every round and no exception comes, the read of a connected socket ends
  -- after `retries` + 1 rounds with EAGAIN for a non-blocking socket, and else with ETIMEDOUT.
  pub read_data-timeout :
      (fuel : ℕ)
      → sock.state ≡ connected
      → sock.retries < uint_max
      → sock.retries + 2 ≤ fuel
      → ((j : ℕ) → j ≤ sock.retries → recv j ≡ fail eagain)
      → ((j : ℕ) → j ≤ sock.retries → interrupt j ≡ false)
      → read_data recv interrupt sock false fuel
        ≡ some (raise (os_error (if sock.retries == 0 then eagain else etimedout)), sock)
  unfolding read_data
  read_data-timeout fuel hs hr hf hb hi =
      read_connected false fuel hs
      ∙ (retry_loop-exhausted sock.retries (read_round recv interrupt sock false) _ fuel 0 hr
          (omega arith) (omega arith) (λ j h. ground (arith, hb j h, hi j h)))

  -- A finite timeout bounds the rounds of a read, whatever the network does.
  pub read_data-total :
      (dontwait : Bool) (fuel : ℕ)
      → sock.retries < uint_max
      → sock.retries + 2 ≤ fuel
      → read_data recv interrupt sock dontwait fuel ≢ none
  unfolding read_data
  read_data-total dontwait fuel hr hf = read_data_total_in sock.state
    where
      loop :
          retry_loop sock.retries
            (read_round recv interrupt sock dontwait)
            (raise (timed_out sock.retries), sock)
            fuel
            0
          ≢ none
      loop = retry_loop-total sock.retries _ _ fuel 0 hr (omega arith) (omega arith)

      read_data_total_in : (s : State) → read_in_state recv interrupt s sock dontwait fuel ≢ none
      read_data_total_in new e = cc
      read_data_total_in peer_closed e = cc
      read_data_total_in connected e = loop e

-- Once a read has returned 0, the end of the stream, every later read of that socket returns 0 at
-- once, whatever the network has to deliver, and leaves the socket as it is.
pub read_data-closed :
    (recv recv' : ℕ → Reply) (interrupt interrupt' : ℕ → Bool) (sock after : Socket)
    (dontwait dontwait' : Bool) (fuel fuel' : ℕ)
    → read_data recv interrupt sock dontwait fuel ≡ some (ok 0, after)
    → read_data recv' interrupt' after dontwait' fuel' ≡ some (ok 0, after)
unfolding read_data
read_data-closed recv recv' interrupt interrupt' sock after dontwait dontwait' fuel fuel' e =
    ap (λ s. read_in_state recv' interrupt' s after dontwait' fuel')
      (end_of_stream sock.state refl e)
  where
    end_of_stream :
        (s : State)
        → sock.state ≡ s
        → read_in_state recv interrupt s sock dontwait fuel ≡ some (ok 0, after)
        → after.state ≡ peer_closed
    end_of_stream new hs e = cc
    end_of_stream peer_closed hs e = ground arith
    end_of_stream connected hs e = elim (retry_loop-cases sock.retries _ _ fuel 0 _ e) [
      | inl h ↦ cc
      | inr (k, h) ↦ ground arith
    ]
