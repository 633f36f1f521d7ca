-- ===== src/Socket/Events/Invariant.antt =====
-- The list of the socket events of modsocket.c against the callbacks, over sequences of calls.
use ameba_micro_python.Prelude.{
  ℕ, ◌+◌, ◌<◌, ◌≡◌, ◌∙◌, refl, sym, ap, ◌≤◌, ◌++◌, length, Bool, true, false, zero, suc, Option,
  none, some, List, [], ◌∷◌, ◌==◌, if◌then◌else◌, arith, Bool-cases, Option-cases, inl, inr,
}
use mathlib.Core.Path.{subst}
use mathlib.Core.List.{append_assoc}
use ameba_micro_python.Socket.Events.{
  Events, boot, remove, set_callback, clear, clear_with, add_if, register, first, next_in, or_left,
  events_next, Action, sets, closes, act, and_then, acts, Selected, nothing, readable, Called, also,
  resumed, walk, due, polled, handler,
}

pub count : ℕ → List ℕ → ℕ
count s [] = 0
count s (t ∷ ts) = (if t == s then 1 else 0) + count s ts

-- How often a socket's callback is among the calls.
pub called : ℕ → List (ℕ × Option ℕ) → ℕ
called s [] = 0
called s ((t, f) ∷ ts) = (if t == s then 1 else 0) + called s ts

abbrev pub registered : Option ℕ → ℕ
registered none = 0
registered (some f) = 1

-- A socket is in the list once if it has a callback, and else not at all.
pub record Inv (e : Events) : Type 0 where
  pub listed : (s : ℕ) → count s e.head ≡ registered (e.callback s)

pub boot-Inv : Inv boot
unfolding count
boot-Inv = record { listed = λ s. refl }

pub count-remove :
    (s : ℕ) (ts : List ℕ)
    → 0 < count s ts
    → (rest : List ℕ) × (remove s ts ≡ some rest)
      × ((t : ℕ) → count t rest + (if s == t then 1 else 0) ≡ count t ts)
unfolding count remove
count-remove s [] h = absurd (omega arith)
count-remove s (t ∷ ts) h = elim (Bool-cases (t == s)) [
  | inl e ↦ (ts, rw (e, remove), λ u. ground arith)
  | inr e ↦
      let (rest, r, c) = count-remove s ts (ground arith) in
      (t ∷ rest, rw (e, r, remove), λ u. omega (arith, c u))
]

-- Clearing a callback never runs off the list, and keeps the agreement.
pub clear-Inv :
    (e : Events) (s : ℕ)
    → Inv e
    → (e' : Events) × (clear e s ≡ some e') × Inv e' × (e'.callback s ≡ none)
unfolding clear
clear-Inv e s v = elim (Option-cases (e.callback s)) [
  | inl n ↦ (e, rw n, v, n)
  | inr (f, p) ↦
      let (rest, r, c) = count-remove s e.head (ground (arith, v.listed s)) in
      (
        record e {
          head = rest;
          callback = set_callback e.callback s none;
          left = set_callback e.left s (events_next e s);
        },
        rw (p, r, clear_with),
        record { listed = λ t. ground (arith, v.listed t, c t, p) },
        ground arith,
      )
]

add_if-listed :
    (e : Events) (s f : ℕ)
    → Inv e
    → ((t : ℕ)
        → count t (add_if (e.callback s) e s f).head
          ≡ registered ((add_if (e.callback s) e s f).callback t))
      × ((add_if (e.callback s) e s f).callback s ≡ some f)
unfolding add_if count
add_if-listed e s f v = elim (Option-cases (e.callback s)) [
  | inl n ↦ rw n (λ t. ground (arith, v.listed t, n), ground arith)
  | inr (g, p) ↦ rw p (λ t. ground (arith, v.listed t, p), ground arith)
]

-- Setting or clearing a callback never runs off the list, keeps the agreement, and leaves the
-- socket with the callback that was given.
pub register-Inv :
    (e : Events) (s : ℕ) (arg : Option ℕ)
    → Inv e
    → (e' : Events) × (register e s arg ≡ some e') × Inv e' × (e'.callback s ≡ arg)
unfolding register
register-Inv e s none v = clear-Inv e s v
register-Inv e s (some f) v =
    let (listed, c) = add_if-listed e s f v in
    (add_if (e.callback s) e s f, refl, record { listed = listed }, c)

some_inj : {a b : Events} → some a ≡ some b → Inv a → Inv b
some_inj h v = subst Inv (cc) v

act-Inv : (e e' : Events) (a : Action) → act e a ≡ some e' → Inv e → Inv e'
unfolding act
act-Inv e e' (sets s arg) h v =
    let (x, r, vx, c) = register-Inv e s arg v in some_inj (sym r ∙ h) vx
act-Inv e e' (closes s) h v = let (x, r, vx, c) = clear-Inv e s v in some_inj (sym r ∙ h) vx

acts-Inv : (e e' : Events) (todo : List Action) → acts e todo ≡ some e' → Inv e → Inv e'
unfolding acts
acts-Inv e e' [] h v = some_inj h v
acts-Inv e e' (a ∷ more) h v =
    let (x, f, k) = and_then-some (act e a) (λ y. acts y more) e' h in
    acts-Inv x e' more k (act-Inv e x a f v)
  where
    and_then-some :
        (o : Option Events) (f : Events → Option Events) (e' : Events)
        → and_then o f ≡ some e'
        → (x : Events) × (o ≡ some x) × (f x ≡ some e')
    and_then-some none f e' h = absurd (cc)
    and_then-some (some x) f e' h = (x, refl, h)

called_inj : {a b : Called} → ◌≡◌ {A = Option Called} (some a) (some b) → a.1 ≡ b.1
called_inj h = cc

also-some :
    (c : ℕ × Option ℕ) (o : Option Called) (cs : List (ℕ × Option ℕ)) (e' : Events)
    → also c o ≡ some (cs, e')
    → (cs' : List (ℕ × Option ℕ)) × (o ≡ some (cs', e'))
also-some c none cs e' h = absurd (cc)
also-some c (some (cs', x)) cs e' h = (cs', ap (λ y. some (cs', y)) (called_inj h))

-- The walk keeps the agreement, whatever the callbacks do.
walk-Inv :
    (ready : ℕ → Bool) (does : ℕ → List Action) (fuel i : ℕ) (e : Events) (at : Option ℕ)
    (cs : List (ℕ × Option ℕ)) (e' : Events)
    → walk ready does fuel i e at ≡ some (cs, e')
    → Inv e
    → Inv e'
unfolding walk
walk-Inv ready does fuel i e none cs e' h v = subst Inv (called_inj h) v
walk-Inv ready does zero i e (some s) cs e' h v = absurd (cc)
walk-Inv ready does (suc fuel) i e (some s) cs e' h v = elim (Bool-cases (ready s)) [
  | inr skip ↦ walk-Inv ready does fuel i e (events_next e s) cs e' (rw (skip, walk) at h) v
  | inl on ↦
      let (cs', k) = also-some (s, e.callback s) _ cs e' (rw (on, walk) at h) in
      let (x, f, k') = resumed-some (acts e (does i)) _ (cs', e') k in
      walk-Inv ready does fuel (i + 1) x (events_next x s) cs' e' k' (acts-Inv e x (does i) f v)
]
  where
    resumed-some :
        (o : Option Events) (f : Events → Option Called) (out : Called)
        → resumed o f ≡ some out
        → (x : Events) × (o ≡ some x) × (f x ≡ some out)
    resumed-some none f out h = absurd (cc)
    resumed-some (some x) f out h = (x, refl, h)

due-Inv : (e : Events) → Inv e → Inv (due e).0
unfolding due
due-Inv e v = record { listed = λ s. ground (arith, v.listed s) }

handler-Inv :
    (does : ℕ → List Action) (fuel : ℕ) (e : Events) (selected : Selected)
    (cs : List (ℕ × Option ℕ)) (e' : Events)
    → handler does fuel e selected ≡ some (cs, e')
    → Inv e
    → Inv e'
unfolding handler
handler-Inv does fuel e selected cs e' h v = go selected (due e) h (due-Inv e v)
  where
    go :
        (selected : Selected) (d : Events × Bool)
        → polled does fuel selected d ≡ some (cs, e')
        → Inv d.0
        → Inv e'
    go selected (x, false) h v = subst Inv (called_inj h) v
    go nothing (x, true) h v = subst Inv (called_inj h) v
    go (readable ready) (x, true) h v = walk-Inv ready does fuel 0 x (first x.head) cs e' h v

-- One call of the module: option 20 of `setsockopt`, `close`, or the handler with its callbacks.
pub data Step (e e' : Events) : Type 0 where
  set : (s : ℕ) (arg : Option ℕ) → register e s arg ≡ some e' → Step e e'
  close : (s : ℕ) → clear e s ≡ some e' → Step e e'
  handle :
      (does : ℕ → List Action) (fuel : ℕ) (selected : Selected) (cs : List (ℕ × Option ℕ))
      → handler does fuel e selected ≡ some (cs, e')
      → Step e e'

pub data Reach : Events → Type 0 where
  start : Reach boot
  next : {e e' : Events} → Reach e → Step e e' → Reach e'

Step-Inv : {e e' : Events} → Step e e' → Inv e → Inv e'
Step-Inv {e} {e'} (set s arg h) v =
    let (a, r, va, c) = register-Inv e s arg v in some_inj (sym r ∙ h) va
Step-Inv {e} {e'} (close s h) v = let (a, r, va, c) = clear-Inv e s v in some_inj (sym r ∙ h) va
Step-Inv {e} {e'} (handle does fuel selected cs h) v = handler-Inv does fuel e selected cs e' h v

pub Reach-Inv : {e : Events} → Reach e → Inv e
Reach-Inv start = boot-Inv
Reach-Inv (next r s) = Step-Inv s (Reach-Inv r)

-- After any sequence of calls the list holds each socket with a callback once and no other, so that
-- registering or removing a callback walks to the socket's node and never through NULL.
pub Reach-register :
    (e : Events) (s : ℕ) (arg : Option ℕ)
    → Reach e
    → (count s e.head ≡ registered (e.callback s))
      × ((e' : Events) × (register e s arg ≡ some e') × (e'.callback s ≡ arg))
Reach-register e s arg r =
    let v = Reach-Inv r in let (e', h, v', c) = register-Inv e s arg v in (v.listed s, (e', h, c))

-- What a walk along the list calls: each readable socket, with its callback.
unfoldable pub calls : (ℕ → Option ℕ) → (ℕ → Bool) → List ℕ → List (ℕ × Option ℕ)
calls callback ready [] = []
calls callback ready (s ∷ ss) =
    let rest = calls callback ready ss in if ready s then (s, callback s) ∷ rest else rest

called-calls :
    (callback : ℕ → Option ℕ) (ready : ℕ → Bool) (s : ℕ) (ss : List ℕ)
    → called s (calls callback ready ss) ≡ (if ready s then count s ss else 0)
unfolding count called calls
called-calls callback ready s [] = ground arith
called-calls callback ready s (t ∷ ts) = ground (arith, called-calls callback ready s ts)

count-append : (s : ℕ) (xs ys : List ℕ) → count s (xs ++ ys) ≡ count s xs + count s ys
unfolding count
count-append s [] ys = omega arith
count-append s (x ∷ xs) ys = omega (arith, count-append s xs ys)

next_in-middle :
    (s : ℕ) (before after : List ℕ)
    → count s before ≡ 0
    → next_in s (before ++ s ∷ after) ≡ some (first after)
unfolding next_in count
next_in-middle s [] after h = ground arith
next_in-middle s (t ∷ before) after h = elim (Bool-cases (t == s)) [
  | inl same ↦ absurd (ground arith)
  | inr apart ↦ rw apart (next_in-middle s before after (ground arith))
]

events_next-middle :
    (e : Events) (s : ℕ) (before after : List ℕ)
    → Inv e
    → e.head ≡ before ++ s ∷ after
    → events_next e s ≡ first after
unfolding events_next count
events_next-middle e s before after v h =
    ap (λ o. or_left o (e.left s)) (ap (next_in s) h ∙ next_in-middle s before after once)
  where
    once : count s before ≡ 0
    once = ground (arith, v.listed s, ap (count s) h, count-append s before (s ∷ after))

walk-calls :
    (ready : ℕ → Bool) (fuel i : ℕ) (e : Events) (before after : List ℕ)
    → Inv e
    → e.head ≡ before ++ after
    → length after ≤ fuel
    → walk ready (λ j. []) fuel i e (first after) ≡ some (calls e.callback ready after, e)
unfolding walk calls acts
walk-calls ready fuel i e before [] v h le = refl
walk-calls ready zero i e before (s ∷ after) v h le = absurd (omega arith)
walk-calls ready (suc fuel) i e before (s ∷ after) v h le =
    let next_ = events_next-middle e s before after v h in
    let h' : e.head ≡ (before ++ s ∷ []) ++ after = h ∙ sym (append_assoc before (s ∷ []) after) in
    elim (Bool-cases (ready s)) [
      | inl on ↦
          rw (on, walk)
            (ap (λ n. also (s, e.callback s) (walk ready (λ j. []) fuel (i + 1) e n)) next_
              ∙ ap (also (s, e.callback s))
                  (walk-calls ready fuel (i + 1) e (before ++ s ∷ []) after v h' (omega arith)))
      | inr skip ↦
          rw (skip, walk)
            (ap (walk ready (λ j. []) fuel i e) next_
              ∙ walk-calls ready fuel i e (before ++ s ∷ []) after v h' (omega arith))
    ]

due-same : (e : Events) → ((due e).0.head ≡ e.head) × ((due e).0.callback ≡ e.callback)
unfolding due
due-same e = ground arith

-- In a poll after any sequence of calls, in which the callbacks themselves register and close no socket: the
-- handler ends, with fuel for the length of the list, and calls the callback of a socket once if the
-- socket has one and is readable, and else not at all.
pub Reach-handler :
    (e : Events) (s fuel : ℕ) (ready : ℕ → Bool)
    → Reach e
    → (due e).1 ≡ true
    → length e.head ≤ fuel
    → (handler (λ i. []) fuel e (readable ready) ≡ some (calls e.callback ready e.head, (due e).0))
      × (called s (calls e.callback ready e.head)
          ≡ (if ready s then registered (e.callback s) else 0))
unfolding handler
Reach-handler e s fuel ready r polls le = (
  go (due e) polls (due-Inv e v) (due-same e).0 (due-same e).1,
  called-calls e.callback ready s e.head ∙ ap (λ n. if ready s then n else 0) (v.listed s),
)
  where
    v : Inv e
    v = Reach-Inv r

    go :
        (d : Events × Bool)
        → d.1 ≡ true
        → Inv d.0
        → d.0.head ≡ e.head
        → d.0.callback ≡ e.callback
        → polled (λ i. []) fuel (readable ready) d ≡ some (calls e.callback ready e.head, d.0)
    go (x, false) p w h c = absurd (cc)
    go (x, true) p w h c =
        walk-calls ready fuel 0 x [] x.head w refl (omega (arith, ap length h))
        ∙ ap (λ f. some (calls f ready x.head, x)) c
        ∙ ap (λ l. some (calls e.callback ready l, x)) h
