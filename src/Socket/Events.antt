-- ===== src/Socket/Events.antt =====
-- The socket events of modsocket.c (MICROPY_PY_SOCKET_EVENTS): a linked list of the sockets that
-- have a callback, polled at every eighth call of the handler.
-- A socket object is a number; its `events_callback` is in a table, with `none` for MP_OBJ_NULL. `left` is
-- the `events_next` of a socket that is not in the list any more, which keeps what it was.
pub mod Invariant
pub mod Period
use ameba_micro_python.Prelude.{
  ℕ, zero, suc, ◌+◌, ◌%◌, Bool, true, false, Option, none, some, List, [], ◌∷◌, ◌==◌, if◌then◌else◌,
}

pub record Events : Type 0 where
  pub divisor : ℕ
  pub head : List ℕ
  pub callback : ℕ → Option ℕ
  pub left : ℕ → Option ℕ

abbrev pub usocket_events_divisor : ℕ
usocket_events_divisor = 8

-- The static variables at boot.
abbrev pub boot : Events
boot = record { divisor = 0; head = []; callback = λ s. none; left = λ s. none }

-- `events_next`: of a socket in the list the one after it, `none` for NULL.
abbrev pub first : List ℕ → Option ℕ
first [] = none
first (s ∷ ss) = some s

unfoldable pub next_in : ℕ → List ℕ → Option (Option ℕ)
next_in s [] = none
next_in s (t ∷ ts) = if t == s then some (first ts) else next_in s ts

abbrev pub or_left : Option (Option ℕ) → Option ℕ → Option ℕ
or_left none l = l
or_left (some n) l = n

unfoldable pub events_next : Events → ℕ → Option ℕ
unfolding next_in
events_next e s = or_left (next_in s e.head) (e.left s)

-- `socket_events_deinit`
pub deinit : Events → Events
unfolding events_next
deinit e = record e { head = []; left = events_next e }

abbrev pub set_callback : (ℕ → Option ℕ) → ℕ → Option ℕ → ℕ → Option ℕ
set_callback f s v t = if t == s then v else f t

-- `socket_events_remove`; `none` is the access through NULL where the socket is not in the list.
pub remove : ℕ → List ℕ → Option (List ℕ)
remove s [] = none
remove s (t ∷ ts) = elim (t == s) [
  | true ↦ some ts
  | false ↦ elim (remove s ts) [ none ↦ none | some rest ↦ some (t ∷ rest) ]
]

clear_with : Events → ℕ → Option (List ℕ) → Option Events
unfolding events_next
clear_with e s none = none
clear_with e s (some rest) = some (record e {
  head = rest;
  callback = set_callback e.callback s none;
  left = set_callback e.left s (events_next e s);
})

-- The removal of the callback, in `setsockopt` and in `close`.
clear_if : Option ℕ → Events → ℕ → Option Events
unfolding remove clear_with
clear_if none e s = some e
clear_if (some f) e s = clear_with e s (remove s e.head)

pub clear : Events → ℕ → Option Events
unfolding clear_if
clear e s = clear_if (e.callback s) e s

-- `socket_events_add` where the socket had no callback, and the new callback.
add_if : Option ℕ → Events → ℕ → ℕ → Events
add_if none e s f = record e { head = s ∷ e.head; callback = set_callback e.callback s (some f) }
add_if (some _) e s f = record e { callback = set_callback e.callback s (some f) }

-- Option 20 of `socket_setsockopt`; `none` is None.
unfoldable pub register : Events → ℕ → Option ℕ → Option Events
unfolding clear add_if
register e s none = clear e s
register e s (some f) = some (add_if (e.callback s) e s f)

-- What Python does in a callback to the sockets: option 20 of `setsockopt`, or `close`.
pub data Action : Type 0 where
  sets : ℕ → Option ℕ → Action
  closes : ℕ → Action

unfoldable pub act : Events → Action → Option Events
act e (sets s arg) = register e s arg
act e (closes s) = clear e s

abbrev pub and_then : Option Events → (Events → Option Events) → Option Events
and_then none f = none
and_then (some e) f = f e

unfoldable pub acts : Events → List Action → Option Events
unfolding act
acts e [] = some e
acts e (a ∷ more) = and_then (act e a) (λ e'. acts e' more)

-- What `lwip_select` answers: an error or no descriptor, or the readable ones.
pub data Selected : Type 0 where
  nothing : Selected
  readable : (ℕ → Bool) → Selected

-- The calls of the callbacks, each with its socket.
abbrev pub Called : Type 0
Called = List (ℕ × Option ℕ) × Events

abbrev pub also : ℕ × Option ℕ → Option Called → Option Called
also c none = none
also c (some (cs, e)) = some (c ∷ cs, e)

abbrev pub resumed : Option Events → (Events → Option Called) → Option Called
resumed none rest = none
resumed (some e) rest = rest e

-- The loop after the poll, from a socket on: `does i` is what the `i`-th callback does. The list is read
-- again after each callback. `none` is a walk that goes on when the fuel is used up, or a callback that
-- walks through NULL.
unfoldable pub walk : (ℕ → Bool) → (ℕ → List Action) → ℕ → ℕ → Events → Option ℕ → Option Called
unfolding acts events_next
walk ready does fuel i e none = some ([], e)
walk ready does zero i e (some s) = none
walk ready does (suc fuel) i e (some s) =
    let skipped = walk ready does fuel i e (events_next e s) in
    if ready s
    then also (s, e.callback s)
        (resumed (acts e (does i)) (λ e'. walk ready does fuel (i + 1) e' (events_next e' s)))
    else skipped

abbrev pub decremented : ℕ → ℕ
decremented n = (n + 255) % 256

-- The start of `socket_events_handler`, with whether it polls.
unfoldable pub due : Events → Events × Bool
due e = elim e.head [
  | [] ↦ (e, false)
  | _ ∷ _ ↦
      if decremented e.divisor == 0
      then (record e { divisor = usocket_events_divisor }, true)
      else (record e { divisor = decremented e.divisor }, false)
]

abbrev pub polled : (ℕ → List Action) → ℕ → Selected → Events × Bool → Option Called
polled does fuel selected (e, false) = some ([], e)
polled does fuel nothing (e, true) = some ([], e)
polled does fuel (readable ready) (e, true) = walk ready does fuel 0 e (first e.head)

-- `socket_events_handler`: the calls of the callbacks, and the new state.
unfoldable pub handler : (ℕ → List Action) → ℕ → Events → Selected → Option Called
unfolding due walk
handler does fuel e selected = polled does fuel selected (due e)
