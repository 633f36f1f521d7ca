-- ===== src/Socket/Timeout.antt =====
-- How the timeout of a socket, in milliseconds, becomes a number of polls.
use ameba_micro_python.Prelude.{
  ℕ, ◌+◌, ◌*◌, ◌^◌, ◌≤◌, ◌<◌, ◌≡◌, refl, Bool, true, false, Option, none, some, arith, ◌↔◌,
}
use ameba_micro_python.Socket.{Socket, settimeout, setblocking}

-- Below 2^32 polls the number of retries is the timeout in whole tenths of a second, and the
-- descriptor is non-blocking exactly for the timeout 0.
pub settimeout_rounds :
    (sock : Socket) (ms : ℕ)
    → ms < 100 * 2 ^ 32
    → let s = settimeout sock (some ms) in
      (s.retries * 100 ≤ ms) × (ms < s.retries * 100 + 100) × ((s.nonblock ≡ true) ↔ (ms ≡ 0))
unfolding settimeout
settimeout_rounds sock ms h = (ground arith, ground arith, (λ e. ground arith, λ e. ground arith))

-- A timeout shorter than one poll leaves a blocking descriptor with no retries, the combination
-- that `socket_connect` takes for a non-blocking socket.
pub settimeout_short :
    (sock : Socket) (ms : ℕ)
    → 0 < ms
    → ms < 100
    → ((settimeout sock (some ms)).retries ≡ 0) × ((settimeout sock (some ms)).nonblock ≡ false)
unfolding settimeout
settimeout_short sock ms h k = ground arith

-- `setblocking` is `settimeout`: True is None, False is 0, whatever was set before.
pub setblocking-eq-settimeout :
    (sock : Socket) (b : Bool) (before : Option ℕ)
    → setblocking (settimeout sock before) b
      ≡ settimeout sock (elim b [ true ↦ none | false ↦ some 0 ])
unfolding settimeout setblocking
setblocking-eq-settimeout sock true none = refl
setblocking-eq-settimeout sock true (some t) = refl
setblocking-eq-settimeout sock false none = refl
setblocking-eq-settimeout sock false (some t) = refl
