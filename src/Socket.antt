-- ===== src/Socket.antt =====
-- ports/ameba-rtos-m/src/modsocket.c: the socket objects of the module `socket`, over lwIP.
-- This file has the object, its timeouts and its construction; the children have the transfers, the
-- connection, the socket events and the stream protocol. What lwIP answers is an argument.
pub mod Retry
pub mod Timeout
pub mod Transfer
pub mod Connect
pub mod Events
pub mod Stream
mod Tests
use ameba_micro_python.Prelude.{
  ℕ, zero, suc, ◌+◌, ◌-◌, ◌*◌, ◌/◌, ◌%◌, ◌^◌, Bool, true, false, Option, none, some, ◌==◌,
  if◌then◌else◌,
}
use ameba_micro_python.Py.{Errno, Exc, os_error, Result, ok, raise}

-- `SOCKET_STATE_...`
pub data State : Type 0 where
  new connected peer_closed : State

-- `SOCK_...`
pub data Kind : Type 0 where
  stream dgram raw : Kind

abbrev pub uint_max : ℕ
uint_max = 2 ^ 32 - 1

abbrev pub uint64_max : ℕ
uint64_max = 2 ^ 64 - 1

abbrev pub socket_poll_us : ℕ
socket_poll_us = 100000

-- `socket_obj_t`. `fd` is `none` for -1. The last two fields are what lwIP keeps for the descriptor:
-- the send and receive timeout in microseconds, and O_NONBLOCK.
pub record Socket : Type 0 where
  pub fd : Option ℕ
  pub domain : ℕ
  pub kind : Kind
  pub proto : ℕ
  pub state : State
  pub retries : ℕ
  pub poll_us : ℕ
  pub nonblock : Bool

-- `sock->retries` for a timeout in milliseconds: a product in `uint64_t`, stored in 32 bits.
abbrev pub retries_of : ℕ → ℕ
retries_of timeout_ms =
    if timeout_ms == uint64_max
    then uint_max
    else (timeout_ms * 1000 % 2 ^ 64) / socket_poll_us % 2 ^ 32

-- `_socket_settimeout`
pub set_timeout : Socket → ℕ → Socket
set_timeout sock timeout_ms = record sock {
  retries = retries_of timeout_ms;
  poll_us = if timeout_ms == 0 then 0 else socket_poll_us;
  nonblock = timeout_ms == 0;
}

-- `socket_settimeout`; `none` is None, a number the milliseconds of the argument.
pub settimeout : Socket → Option ℕ → Socket
unfolding set_timeout
settimeout sock none = set_timeout sock uint64_max
settimeout sock (some timeout_ms) = set_timeout sock timeout_ms

-- `socket_setblocking`
pub setblocking : Socket → Bool → Socket
unfolding set_timeout
setblocking sock true = set_timeout sock uint64_max
setblocking sock false = set_timeout sock 0

-- What `lwip_socket` answers: a descriptor, or an error of which the code asks whether it is ENFILE.
pub data Opened : Type 0 where
  opened : ℕ → Opened
  enfile : Errno → Opened
  failed : Errno → Opened

abbrev pub is_stream : Kind → Bool
is_stream stream = true
is_stream _ = false

abbrev with_fd : Kind → ℕ → ℕ → ℕ → Socket
with_fd kind domain proto fd = record {
  fd = some fd;
  domain = domain;
  kind = kind;
  proto = proto;
  state = if is_stream kind then new else connected;
  retries = 0;
  poll_us = 0;
  nonblock = false;
}

-- The answer that counts: a second try, after a collection, where the table was full.
abbrev pub after_collect : Opened → Opened → Opened
after_collect (enfile _) second = second
after_collect first second = first

finish_new : Kind → ℕ → ℕ → Opened → Result Socket
unfolding set_timeout
finish_new kind domain proto (opened fd) =
    ok (set_timeout (with_fd kind domain proto fd) uint64_max)
finish_new kind domain proto (enfile e) = raise (os_error e)
finish_new kind domain proto (failed e) = raise (os_error e)

-- `socket_make_new`, with the defaults of its arguments filled in. The two last arguments are the
-- answers to the first `lwip_socket` and to the one after `gc_collect`.
pub make_new : ℕ → Kind → ℕ → Opened → Opened → Result Socket
unfolding finish_new
make_new domain kind proto first second = finish_new kind domain proto (after_collect first second)
