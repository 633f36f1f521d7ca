-- ===== src/Socket/Transfer.antt =====
-- The transfers of modsocket.c: `_socket_read_data` and `_socket_recvfrom`, `_socket_send` with
-- `send` and `sendall`, `sendto`, the stream's write, and `accept`.
-- The answers of lwIP are functions of the number of the round, and so is whether an exception is
-- pending at the end of a round that did not return.
pub mod Read
pub mod Send
use ameba_micro_python.Prelude.{
  ℕ, zero, suc, ◌+◌, ◌-◌, ◌<◌, ◌≤◌, Bool, true, false, not, ◌||◌, ◌&&◌, Option, none, some, List,
  [], ◌++◌, ltb, leb, ◌==◌, if◌then◌else◌, length, take, drop,
}
use ameba_micro_python.Py.{
  Errno, Exc, os_error, pending, eagain, einprogress, etimedout, enotconn, Result, ok, raise,
}
use ameba_micro_python.Socket.{Socket, State, new, connected, peer_closed, uint64_max, set_timeout}
use ameba_micro_python.Socket.Retry.{Try, stop, again, retry_loop, u32}

-- What a call of lwIP returns: a number that is not negative, or -1 with `errno`.
pub data Reply : Type 0 where
  got : ℕ → Reply
  fail : Errno → Reply

abbrev pub is_eagain : Errno → Bool
is_eagain eagain = true
is_eagain _ = false

-- The errors on which a write is tried again, EWOULDBLOCK and EINPROGRESS.
abbrev pub is_busy : Errno → Bool
is_busy eagain = true
is_busy einprogress = true
is_busy _ = false

-- `check_for_exceptions` at the end of a round.
abbrev pub check_pending {ℓ} : {A : Type ℓ} → Bool → (Exc → A) → Try A
check_pending true f = stop (f pending)
check_pending false f = again

-- The error after the last round of a loop.
abbrev pub timed_out : ℕ → Exc
timed_out retries = os_error (if retries == 0 then eagain else etimedout)

module _ (recv : ℕ → Reply) (interrupt : ℕ → Bool) where
  -- One round of `_socket_read_data`, after the poll that only decides whether the GIL is released.
  -- MP_STREAM_ERROR with an error code is a raised OSError here.
  abbrev pub read_round : Socket → Bool → ℕ → Try (Result ℕ × Socket)
  read_round sock dontwait i = elim (recv i) [
    | got n ↦ stop (ok n, if n == 0 then record sock { state = peer_closed } else sock)
    | fail e ↦
        if not (is_eagain e) || dontwait
        then stop (raise (os_error e), sock)
        else check_pending (interrupt i) (λ x. (raise x, sock))
  ]

  read_in_state : State → Socket → Bool → ℕ → Option (Result ℕ × Socket)
  unfolding retry_loop
  read_in_state new sock dontwait fuel = some (raise (os_error enotconn), sock)
  read_in_state peer_closed sock dontwait fuel = some (ok 0, sock)
  read_in_state connected sock dontwait fuel =
      retry_loop sock.retries (read_round sock dontwait) (raise (timed_out sock.retries), sock) fuel
        0

  -- `_socket_read_data`, and so `socket_stream_read`, `recv` and `recvfrom`: how many bytes come, and
  -- the socket afterwards. `dontwait` is `flags & MSG_DONTWAIT`.
  unfoldable pub read_data : Socket → Bool → ℕ → Option (Result ℕ × Socket)
  unfolding read_in_state
  read_data sock dontwait fuel = read_in_state sock.state sock dontwait fuel

all_or_timeout : List ℕ → Result ℕ × List ℕ → Result (Unit {0}) × List ℕ
all_or_timeout bytes (ok n, sent) =
    if ltb n (length bytes) then (raise (os_error etimedout), sent) else (ok tt, sent)
all_or_timeout bytes (raise x, sent) = (raise x, sent)

-- What `socket_sendall` makes of the outcome of `_socket_send`.
sendall_result : List ℕ → Option (Result ℕ × List ℕ) → Option (Result (Unit {0}) × List ℕ)
unfolding all_or_timeout
sendall_result bytes none = none
sendall_result bytes (some out) = some (all_or_timeout bytes out)

-- `write i n` is the answer in round `i` to an offer of `n` bytes.
module _ (write : ℕ → ℕ → Reply) (interrupt : ℕ → Bool) where
  -- The loop of `_socket_send` from round `i`: `sentlen` bytes are out, and `sent` is what lwIP took.
  -- The result is the count at the end, or the exception, beside the bytes taken.
  pub send_loop : ℕ → List ℕ → ℕ → ℕ → ℕ → List ℕ → Option (Result ℕ × List ℕ)
  send_loop retries bytes zero i sentlen sent = none
  send_loop retries bytes (suc fuel) i sentlen sent =
      elim (leb (u32 i) retries && ltb sentlen (length bytes)) [
        | false ↦ some (ok sentlen, sent)
        | true ↦ elim (write i (length bytes - sentlen)) [
          | got r ↦ elim (interrupt i) [
            | true ↦ some (raise pending, sent ++ take r (drop sentlen bytes))
            | false ↦
                send_loop retries bytes fuel (i + 1) (sentlen + r)
                  (sent ++ take r (drop sentlen bytes))
          ]
          | fail e ↦ elim (is_busy e) [
            | false ↦ some (raise (os_error e), sent)
            | true ↦ elim (interrupt i) [
              | true ↦ some (raise pending, sent)
              | false ↦ send_loop retries bytes fuel (i + 1) sentlen sent
            ]
          ]
        ]
      ]

  -- The test after the loop: `sentlen == 0` is a timeout.
  sent_or_timeout : ℕ → Result ℕ × List ℕ → Result ℕ × List ℕ
  sent_or_timeout retries (ok n, sent) =
      if n == 0 then (raise (timed_out retries), sent) else (ok n, sent)
  sent_or_timeout retries (raise x, sent) = (raise x, sent)

  -- `_socket_send`, which is `socket_send`.
  unfoldable pub send : Socket → List ℕ → ℕ → Option (Result ℕ × List ℕ)
  unfolding send_loop sent_or_timeout
  send sock bytes fuel = elim (send_loop sock.retries bytes fuel 0 0 []) [
    | none ↦ none
    | some out ↦ some (sent_or_timeout sock.retries out)
  ]

  -- `socket_sendall`
  unfoldable pub sendall : Socket → List ℕ → ℕ → Option (Result (Unit {0}) × List ℕ)
  unfolding send sendall_result
  sendall sock bytes fuel = sendall_result bytes (send sock bytes fuel)

  -- One round of `socket_stream_write`.
  abbrev pub stream_write_round : ℕ → ℕ → Try (Result ℕ)
  stream_write_round size i = elim (write i size) [
    | got r ↦ if r == 0 then check_pending (interrupt i) (λ x. raise x) else stop (ok r)
    | fail e ↦
        if is_busy e then check_pending (interrupt i) (λ x. raise x) else stop (raise (os_error e))
  ]

  -- `socket_stream_write`
  pub stream_write : Socket → ℕ → ℕ → Option (Result ℕ)
  unfolding retry_loop
  stream_write sock size fuel =
      retry_loop sock.retries (stream_write_round size) (raise (timed_out sock.retries)) fuel 0

  -- One round of `socket_sendto`, where `write` is `lwip_sendto`.
  abbrev pub sendto_round : ℕ → ℕ → Try (Result ℕ)
  sendto_round size i = elim (write i size) [
    | got r ↦ if r == 0 then check_pending (interrupt i) (λ x. raise x) else stop (ok r)
    | fail e ↦
        if is_eagain e
        then check_pending (interrupt i) (λ x. raise x)
        else stop (raise (os_error e))
  ]

  -- `socket_sendto`: after the last round it raises ETIMEDOUT, for a non-blocking socket too.
  pub sendto : Socket → ℕ → ℕ → Option (Result ℕ)
  unfolding retry_loop
  sendto sock size fuel =
      retry_loop sock.retries (sendto_round size) (raise (os_error etimedout)) fuel 0

module _ (incoming : ℕ → Reply) (interrupt : ℕ → Bool) where
  -- One round of `socket_accept`.
  abbrev pub accept_round : ℕ → Try (Result ℕ)
  accept_round i = elim (incoming i) [
    | got fd ↦ stop (ok fd)
    | fail e ↦
        if is_eagain e
        then check_pending (interrupt i) (λ x. raise x)
        else stop (raise (os_error e))
  ]

  -- The new socket object, for a descriptor of `lwip_accept`.
  accepted : Socket → Result ℕ → Result Socket
  unfolding set_timeout
  accepted self (raise x) = raise x
  accepted self (ok fd) =
      ok (set_timeout (record self { fd = some fd; state = connected }) uint64_max)

  -- `socket_accept`
  pub accept : Socket → ℕ → Option (Result Socket)
  unfolding retry_loop accepted
  accept self fuel =
      elim (retry_loop self.retries accept_round (raise (timed_out self.retries)) fuel 0) [
        | none ↦ none
        | some out ↦ some (accepted self out)
      ]
