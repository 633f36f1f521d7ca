-- ===== src/Socket/Tests.antt =====
-- The theorems on sockets at concrete inputs.
use ameba_micro_python.Prelude.{
  ap, ◌∙◌, sym, Bool, ◌==◌, if◌then◌else◌, inl, inr, ℕ, zero, suc, ◌<◌, ◌≡◌, ◌≢◌, ◌⊎◌, refl, Bool,
  true, false, none, some, List, [], ◌∷◌, arith,
}
use ameba_micro_python.Py.{eagain, einprogress, ok}
use ameba_micro_python.Socket.{Socket, connected, stream}
use ameba_micro_python.Socket.Transfer.{Reply, got, fail, read_data, sendall}
use ameba_micro_python.Socket.Transfer.Read.{read_data-first}
use ameba_micro_python.Socket.Transfer.Send.{TakesAtMost, sendall-all}
use ameba_micro_python.Socket.Connect.{
  Network, Poll, idle, writable, start_error, is_blocking, connect,
}
use ameba_micro_python.Socket.Connect.Laws.{IsWaiting, connect-ok, connect-first, connect-total}
use ameba_micro_python.Socket.Events.{
  Events, boot, register, nothing, readable, sets, acts, act, events_next, next_in, walk, due,
  polled, handler, set_callback,
}
use ameba_micro_python.Socket.Events.Invariant.{
  Reach, start, next, set, handle, count, registered, called, calls, Reach-register, Reach-handler,
}
use ameba_micro_python.Socket.Events.Period.{due_n}
use ameba_micro_python.Socket.Stream.{World}

-- A connected stream with a timeout of 300 ms.
abbrev sock : Socket
sock = record {
  fd = some 3;
  domain = 2;
  kind = stream;
  proto = 0;
  state = connected;
  retries = 3;
  poll_us = 100000;
  nonblock = false;
}

-- Nothing for two rounds, then five bytes in each.
abbrev late : ℕ → Reply
late zero = fail eagain
late (suc zero) = fail eagain
late (suc (suc i)) = got 5

abbrev quiet : ℕ → Bool
quiet i = false

read_data-first_example : read_data late quiet sock false 4 ≡ some (ok 5, sock)
read_data-first_example =
    read_data-first late quiet sock 4 2 5 refl (omega arith) (omega arith) (omega arith) blocked
      (λ j h. refl) refl
  where
    blocked : (j : ℕ) → j < 2 → late j ≡ fail eagain
    blocked zero h = refl
    blocked (suc zero) h = refl
    blocked (suc (suc j)) h = absurd (omega arith)

-- At most two bytes at a time, and none in the first round.
abbrev slow : ℕ → ℕ → Reply
slow zero n = fail eagain
slow (suc i) zero = got 0
slow (suc i) (suc zero) = got 1
slow (suc i) (suc (suc n)) = got 2

slow-TakesAtMost : TakesAtMost slow
slow-TakesAtMost zero n r h = absurd (cc)
slow-TakesAtMost (suc i) zero r h = ground arith
slow-TakesAtMost (suc i) (suc zero) r h = ground arith
slow-TakesAtMost (suc i) (suc (suc n)) r h = ground arith

abbrev five : List ℕ
five = 7 ∷ 8 ∷ 9 ∷ 10 ∷ 11 ∷ []

sendall-all_example : five ≡ 7 ∷ 8 ∷ 9 ∷ 10 ∷ 11 ∷ []
unfolding sendall
sendall-all_example = sendall-all slow quiet slow-TakesAtMost sock five five 9 refl

-- In progress at first; writable without an error in the third poll.
abbrev third_poll : ℕ → Poll
third_poll zero = idle
third_poll (suc zero) = writable (some einprogress)
third_poll (suc (suc i)) = writable none

abbrev net : Network
net = record {
  lookup = ok tt;
  set_nonblock = none;
  start = some einprogress;
  restore = none;
  poll = third_poll;
  interrupt = quiet;
}

connect-first_example : connect sock net 4 ≡ some (ok tt, sock)
connect-first_example =
    connect-first net sock 4 2 refl (omega arith) (omega arith) refl (omega arith) (omega arith)
      waits (λ j h. refl) refl
  where
    waits : (j : ℕ) → j < 2 → IsWaiting (third_poll j)
    waits zero h = inl refl
    waits (suc zero) h = inr refl
    waits (suc (suc j)) h = absurd (omega arith)

connect-ok_example :
    (net.lookup ≡ ok tt)
    × (sock.state ≡ connected)
    × ((start_error (is_blocking sock) net ≡ none)
        ⊎ ((is_blocking sock ≡ true)
            × (start_error true net ≡ some einprogress)
            × (k : ℕ) × (net.poll k ≡ writable none)))
connect-ok_example = connect-ok net sock 4 sock connect-first_example

connect-total_example :
    connect sock (record net { poll = λ i. writable (some einprogress) }) 5 ≢ none
connect-total_example =
    connect-total (record net { poll = λ i. writable (some einprogress) }) sock 5 (omega arith)
      (omega arith)

-- Socket 4 registers the callback 40, then socket 6 the callback 60.
abbrev one : Events
one = record {
  divisor = 0;
  head = 4 ∷ [];
  callback = set_callback boot.callback 4 (some 40);
  left = boot.left;
}

abbrev two : Events
two = record {
  divisor = 0;
  head = 6 ∷ 4 ∷ [];
  callback = set_callback one.callback 6 (some 60);
  left = boot.left;
}

Reach-two : Reach two
unfolding register
Reach-two = next (next start (set 4 (some 40) refl)) (set 6 (some 60) refl)

Reach-register_example :
    (count 4 two.head ≡ registered (two.callback 4))
    × ((e' : Events) × (register two 4 none ≡ some e') × (e'.callback 4 ≡ none))
Reach-register_example = Reach-register two 4 none Reach-two

Reach-due_n : (k : ℕ) (e : Events) → Reach e → Reach (due_n k e)
unfolding due_n handler
Reach-due_n zero e r = r
Reach-due_n (suc k) e r =
    Reach-due_n k (due e).0 (next r (handle (λ i. []) 0 nothing [] (no_calls (due e) refl)))
  where
    no_calls :
        (d : Events × Bool) → due e ≡ d → handler (λ i. []) 0 e nothing ≡ some ([], (due e).0)
    no_calls (x, false) h = ap (polled (λ i. []) 0 nothing) h ∙ ap (λ d. some ([], d.0)) (sym h)
    no_calls (x, true) h = ap (polled (λ i. []) 0 nothing) h ∙ ap (λ d. some ([], d.0)) (sym h)

-- After 255 calls the next one polls.
abbrev at_poll : Events
at_poll = due_n 255 two

Reach-handler_example :
    (handler (λ i. []) 2 at_poll (readable (λ s. true))
      ≡ some (calls at_poll.callback (λ s. true) at_poll.head, (due at_poll).0))
    × (called 4 (calls at_poll.callback (λ s. true) at_poll.head) ≡ registered (at_poll.callback 4))
unfolding due due_n
Reach-handler_example =
    Reach-handler at_poll 4 2 (λ s. true) (Reach-due_n 255 two Reach-two) refl (omega arith)

-- The callback of socket 6 takes the callbacks of 6 and 4 away: the walk goes on to 4 by the old pointer
-- and calls its callback, which is NULL by then.
stale_run :
    walk (λ s. true) (λ i. if i == 0 then sets 6 none ∷ sets 4 none ∷ [] else []) 3 0 two (some 6)
    ≡ some (
      (6, some 60) ∷ (4, none) ∷ [],
      record {
        divisor = 0;
        head = [];
        callback = set_callback (set_callback two.callback 6 none) 4 none;
        left = set_callback (set_callback two.left 6 (some 4)) 4 none;
      },
    )
unfolding walk acts act register events_next next_in
stale_run = refl

abbrev open_socket : World
open_socket = record { sock = sock; events = two }
