-- ===== src/Socket/Connect.antt =====
-- `socket_connect` of modsocket.c: a non-blocking connection, followed by polls in slices.
pub mod Laws
use ameba_micro_python.Prelude.{
  ℕ, zero, suc, ◌+◌, Bool, true, false, not, Option, none, some, leb, ◌==◌, if◌then◌else◌,
}
use ameba_micro_python.Py.{Errno, einprogress, etimedout, os_error, pending, Result, ok, raise}
use ameba_micro_python.Socket.{Socket, connected}
use ameba_micro_python.Socket.Retry.{u32}

-- What one poll of the descriptor finds: `lwip_select` fails; it is writable and `SO_ERROR` cannot
-- be read; it is writable with that error (`none` is 0); the slice passed.
pub data Poll : Type 0 where
  select_failed unread : Errno → Poll
  writable : Option Errno → Poll
  idle : Poll

-- What lwIP answers to one call of `connect`; `none` is success.
pub record Network : Type 0 where
  pub lookup : Result (Unit {0})
  pub set_nonblock : Option Errno
  pub start : Option Errno
  pub restore : Option Errno
  pub poll : ℕ → Poll
  pub interrupt : ℕ → Bool

abbrev pub is_einprogress : Errno → Bool
is_einprogress einprogress = true
is_einprogress _ = false

-- `raise_err == 0 || raise_err == EINPROGRESS`
abbrev pub may_overwrite : Option Errno → Bool
may_overwrite none = true
may_overwrite (some e) = is_einprogress e

abbrev pub unless_set : Option Errno → Option Errno → Option Errno
unless_set none later = later
unless_set (some e) later = some e

-- The error of restoring the blocking mode replaces only the two above.
abbrev pub after_restore : Option Errno → Option Errno → Option Errno
after_restore none err = err
after_restore (some r) err = if may_overwrite err then some r else err

-- `raise_err` before the polls.
abbrev pub start_error : Bool → Network → Option Errno
start_error true net = after_restore net.restore (unless_set net.set_nonblock net.start)
start_error false net = net.start

-- The polls, from round `i` with `raise_err` = `err`: `raise_err` at the end, or the exception that
-- was pending.
pub poll_loop : ℕ → Network → ℕ → ℕ → Option Errno → Option (Result (Option Errno))
poll_loop retries net zero i err = none
poll_loop retries net (suc fuel) i err = elim (leb (u32 i) retries) [
  | false ↦ some (ok err)
  | true ↦ elim (net.poll i) [
    | select_failed e ↦ some (ok (some e))
    | unread e ↦ some (ok (some e))
    | writable none ↦ some (ok none)
    | writable (some e) ↦ elim (is_einprogress e) [
      | true ↦ poll_loop retries net fuel (i + 1) (some e)
      | false ↦ some (ok (some e))
    ]
    | idle ↦ elim (net.interrupt i) [
      | true ↦ some (raise pending)
      | false ↦ poll_loop retries net fuel (i + 1) (some etimedout)
    ]
  ]
]

abbrev pub outcome : Result (Option Errno) → Result (Unit {0})
outcome (ok none) = ok tt
outcome (ok (some e)) = raise (os_error e)
outcome (raise x) = raise x

-- The polls happen for a blocking socket whose connection is in progress.
abbrev pub polls : Bool → Option Errno → Bool
polls true (some e) = is_einprogress e
polls _ _ = false

-- `blocking`, taken from the retries.
abbrev pub is_blocking : Socket → Bool
is_blocking sock = not (sock.retries == 0)

-- The connection itself, after the address is known.
attempt : Socket → Network → ℕ → Option (Result (Unit {0}))
unfolding poll_loop
attempt sock net fuel =
    let err = start_error (is_blocking sock) net in
    elim (polls (is_blocking sock) err) [
      | false ↦ some (outcome (ok err))
      | true ↦ elim (poll_loop sock.retries net fuel 0 err) [
        | none ↦ none
        | some r ↦ some (outcome r)
      ]
    ]

attempt_in_state : Socket → Option (Result (Unit {0})) → Option (Result (Unit {0}) × Socket)
attempt_in_state sock none = none
attempt_in_state sock (some r) = some (r, record sock { state = connected })

connect_to : Result (Unit {0}) → Socket → Network → ℕ → Option (Result (Unit {0}) × Socket)
unfolding attempt attempt_in_state
connect_to (raise x) sock net fuel = some (raise x, sock)
connect_to (ok _) sock net fuel = attempt_in_state sock (attempt sock net fuel)

-- `socket_connect`: the state becomes CONNECTED as soon as the address is known, also where the
-- connection fails.
pub connect : Socket → Network → ℕ → Option (Result (Unit {0}) × Socket)
unfolding connect_to
connect sock net fuel = connect_to net.lookup sock net fuel
