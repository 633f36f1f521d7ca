-- ===== src/Socket/Stream.antt =====
-- The rest of modsocket.c: the stream protocol's `ioctl` (poll and close), `bind`, `listen`, the
-- socket options, and the lookup of a name.
pub mod Laws
use text.Mathlib.Text.{◌==◌ as str_eq}
use Prim.Native.String.{String}
use ameba_micro_python.Prelude.{
  ℕ, zero, suc, ◌*◌, Bool, true, false, not, ◌||◌, ◌&&◌, Option, none, some, ℤ, pos, negsuc, ltb,
  ◌==◌, if◌then◌else◌,
}
use ameba_micro_python.Py.{
  Errno, Exc, os_error, value_error, eio, einval, noname, negative, Result, ok, raise,
}
use ameba_micro_python.Socket.{Socket, State, new, connected, peer_closed}
use ameba_micro_python.Socket.Events.{Events, clear}

-- The bits of MP_STREAM_POLL that the code handles.
pub record Flags : Type 0 where
  pub rd : Bool
  pub wr : Bool
  pub hup : Bool
  pub nval : Bool

abbrev pub is_new : State → Bool
is_new new = true
is_new _ = false

abbrev poll_answer : Socket → Flags → Option Flags → Result Flags
poll_answer sock arg none = raise (os_error eio)
poll_answer sock arg (some sets) = ok (record {
  rd = sets.rd;
  wr = sets.wr || is_new sock.state && arg.wr;
  hup = sets.hup || is_new sock.state;
  nval = false;
})

-- MP_STREAM_POLL of `socket_stream_ioctl`: `selected` maps the sets given to `lwip_select` to the
-- sets that it leaves (`none` where it fails).
pub poll : Socket → (Flags → Option Flags) → Flags → Result Flags
poll sock selected arg = elim sock.fd [
  | none ↦ ok (record { rd = false; wr = false; hup = false; nval = true })
  | some fd ↦ poll_answer sock arg (selected (record arg { nval = false }))
]

-- A socket object, by its number among the events, with the event list.
pub record World : Type 0 where
  pub sock : Socket
  pub events : Events

close_fd : World → Option Errno → Result ℕ × World
close_fd w (some e) = (raise (os_error e), w)
close_fd w none = (ok 0, record w { sock = record (w.sock) { fd = none } })

close_after : World → Option Errno → Option Events → Option (Result ℕ × World)
unfolding close_fd
close_after w reply none = none
close_after w reply (some events) = some (close_fd (record w { events = events }) reply)

-- MP_STREAM_CLOSE of `socket_stream_ioctl` for the socket `s`; `reply` is the error of `lwip_close`.
-- `none` is an access through NULL in the event list.
pub close : World → ℕ → Option Errno → Option (Result ℕ × World)
unfolding close_after
close w s reply = elim w.sock.fd [
  | none ↦ some (ok 0, w)
  | some fd ↦ close_after w reply (clear w.events s)
]

reply_result : Option Errno → Result (Unit {0})
reply_result none = ok tt
reply_result (some e) = raise (os_error e)

bind_to : Result (Unit {0}) → Socket → Option Errno → Result (Unit {0}) × Socket
unfolding reply_result
bind_to (raise x) sock reply = (raise x, sock)
bind_to (ok _) sock reply = (reply_result reply, record sock { state = connected })

-- `socket_bind`, with the outcome of the lookup and the error of `lwip_bind`.
pub bind : Socket → Result (Unit {0}) → Option Errno → Result (Unit {0}) × Socket
unfolding bind_to
bind sock lookup reply = bind_to lookup sock reply

-- The backlog that `socket_listen` passes on: a negative one counts as 0.
pub backlog_of : ℕ → Option ℤ → ℕ
backlog_of default none = default
backlog_of default (some (pos n)) = n
backlog_of default (some (negsuc n)) = 0

-- `socket_listen`: the backlog given to lwIP, the result and the socket.
pub listen : ℕ → Socket → Option ℤ → (ℕ → Option Errno) → Result (Unit {0}) × Socket
unfolding backlog_of reply_result
listen default sock backlog reply =
    (reply_result (reply (backlog_of default backlog)), record sock { state = connected })

-- The options of `socket_setsockopt`, but option 20, which is `Events.register`. An option of a
-- number, with the error of lwIP; a device name with its length; a membership with the length of its
-- buffer and the error of `igmp_joingroup`; any other option.
pub data Sockopt : Type 0 where
  number : Option Errno → Sockopt
  bindtodevice : ℕ → Option Errno → Sockopt
  add_membership : ℕ → Option Errno → Sockopt
  other : Sockopt

-- What comes of it: a return value, or `memcpy` writing past the end of `ifname`.
pub data Setsockopt : Type 0 where
  returned : Result (Unit {0}) → Setsockopt
  overflow : Setsockopt

-- `socket_setsockopt`; `netif_namesize` is lwIP's NETIF_NAMESIZE, and `addr_size` the size of
-- `ip4_addr_t`.
pub setsockopt : ℕ → ℕ → Sockopt → Setsockopt
unfolding reply_result
setsockopt netif_namesize addr_size (number reply) = returned (reply_result reply)
setsockopt netif_namesize addr_size (bindtodevice len reply) =
    if ltb netif_namesize len then overflow else returned (reply_result reply)
setsockopt netif_namesize addr_size (add_membership len reply) =
    if len == addr_size * 2 then returned (reply_result reply) else returned (raise value_error)
setsockopt netif_namesize addr_size other = returned (ok tt)

-- An answer to a lookup: the return value, and the canonical name of the result where there is one.
abbrev pub Answer : Type 0
Answer = ℤ × Option String

-- `mp_raise_OSError(retval > 0 ? -retval : retval)`
abbrev lookup_error : ℤ → Exc
lookup_error (pos n) = os_error (negative n)
lookup_error (negsuc n) = os_error (negative (suc n))

abbrev all_addresses : String
all_addresses = "0.0.0.0"

-- The tests after the lookup: a failed one is an error, and so is no result, or 0.0.0.0 for a host
-- that is not 0.0.0.0.
pub check_answer : String → Answer → Result String
check_answer host (pos zero, none) = raise (os_error noname)
check_answer host (pos zero, some name) =
    if str_eq name all_addresses && not (str_eq host all_addresses)
    then raise (os_error noname)
    else ok name
check_answer host (retval, _) = raise (lookup_error retval)

-- The second lookup happens where the first, over mDNS, has neither an error nor a result.
pub second_lookup : Answer → Answer → Answer
second_lookup (pos zero, none) lwip = lwip
second_lookup mdns lwip = mdns

-- `_getaddrinfo_inner`: the canonical name of the result.
unfoldable pub getaddrinfo : (String → Answer) → (String → Answer) → String → Result String
unfolding check_answer second_lookup
getaddrinfo mdns lwip host =
    let host' = if str_eq host "" then all_addresses else host in
    check_answer host' (second_lookup (mdns host') (lwip host'))
