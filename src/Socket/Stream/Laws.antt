-- ===== src/Socket/Stream/Laws.antt =====
-- Close, the socket options and the lookup of modsocket.c.
use text.Mathlib.Text.{◌==◌ as str_eq}
use text.Mathlib.TextEquality.{eq_iff}
use Prim.Native.String.{String}
use ameba_micro_python.Prelude.{
  ℕ, zero, suc, ◌<◌, ◌≡◌, ◌∙◌, ◌⊎◌, ◌↔◌, refl, ap, true, Option, none, some, pos, negsuc, arith,
  inl, inr, Bool-cases,
}
use ameba_micro_python.Py.{Errno, os_error, Result, ok, raise}
use ameba_micro_python.Socket.Events.{clear}
use ameba_micro_python.Socket.Events.Invariant.{Inv, clear-Inv}
use ameba_micro_python.Socket.Stream.{
  World, close, close_after, overflow, setsockopt, bindtodevice, Answer, check_answer,
  second_lookup, getaddrinfo,
}

close-clear :
    (w : World) (s fd : ℕ) (reply : Option Errno)
    → w.sock.fd ≡ some fd
    → close w s reply ≡ close_after w reply (clear w.events s)
unfolding close
close-clear w s fd reply h = ground arith

-- Closing an open socket never runs off the event list. The socket has no callback afterwards, the
-- other callbacks agree with the list, and the descriptor is gone exactly where lwIP closed it.
pub close-open :
    (w : World) (s fd : ℕ) (reply : Option Errno)
    → Inv w.events
    → w.sock.fd ≡ some fd
    → (w' : World) × (res : Result ℕ) × (close w s reply ≡ some (res, w'))
      × Inv w'.events
      × (w'.events.callback s ≡ none)
      × ((res ≡ ok 0) ↔ (reply ≡ none))
      × ((w'.sock.fd ≡ none) ↔ (reply ≡ none))
unfolding close
close-open w s fd none v h =
    let (e, c, ve, n) = clear-Inv w.events s v in
    (
      record w { sock = record (w.sock) { fd = none }; events = e },
      ok 0,
      close-clear w s fd none h ∙ ap (close_after w none) c,
      ve,
      n,
      (λ x. refl, λ x. refl),
      (λ x. refl, λ x. refl),
    )
close-open w s fd (some x) v h =
    let (e, c, ve, n) = clear-Inv w.events s v in
    (
      record w { events = e },
      raise (os_error x),
      close-clear w s fd (some x) h ∙ ap (close_after w (some x)) c,
      ve,
      n,
      (λ z. cc, λ z. cc),
      (λ z. cc, λ z. cc),
    )

close-fd :
    (w w' : World) (s : ℕ) (reply : Option Errno)
    → close w s reply ≡ some (ok 0, w')
    → w'.sock.fd ≡ none
unfolding close
close-fd w w' s reply h = ground arith

-- A closed socket can be closed again: nothing happens.
pub close-close :
    (w w' : World) (s s' : ℕ) (reply reply' : Option Errno)
    → close w s reply ≡ some (ok 0, w')
    → close w' s' reply' ≡ some (ok 0, w')
unfolding close
close-close w w' s s' reply reply' h = let closed = close-fd w w' s reply h in ground arith

-- The device name is copied into a buffer of NETIF_NAMESIZE bytes without a test of its length: a
-- longer one is written past the end.
pub setsockopt-overflow :
    (netif_namesize addr_size len : ℕ) (reply : Option Errno)
    → netif_namesize < len
    → setsockopt netif_namesize addr_size (bindtodevice len reply) ≡ overflow
unfolding setsockopt
setsockopt-overflow netif_namesize addr_size len reply h = ground arith

check_answer-all_addresses :
    (host : String) (a : Answer) → check_answer host a ≡ ok "0.0.0.0" → str_eq host "0.0.0.0" ≡ true
unfolding check_answer
check_answer-all_addresses host (pos zero, none) h = cc
check_answer-all_addresses host (pos zero, some name) h =
    ground (arith, eq_iff name "0.0.0.0", eq_iff host "0.0.0.0")
check_answer-all_addresses host (pos (suc n), r) h = cc
check_answer-all_addresses host (negsuc n, r) h = cc

-- A lookup that returns 0.0.0.0 was asked for it, or for the empty host that stands for it.
pub getaddrinfo-all_addresses :
    (mdns lwip : String → Answer) (host : String)
    → getaddrinfo mdns lwip host ≡ ok "0.0.0.0"
    → (host ≡ "") ⊎ (host ≡ "0.0.0.0")
unfolding getaddrinfo
getaddrinfo-all_addresses mdns lwip host h = elim (Bool-cases (str_eq host "")) [
  | inl empty ↦ inl ((eq_iff host "").0 empty)
  | inr given ↦
      let h' : check_answer host (second_lookup (mdns host) (lwip host)) ≡ ok "0.0.0.0" =
        rw (given, getaddrinfo) at h in
      inr (
        (eq_iff host "0.0.0.0").0
          (check_answer-all_addresses host (second_lookup (mdns host) (lwip host)) h'))
]
