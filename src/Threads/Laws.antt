-- ===== src/Threads/Laws.antt =====
-- The list of threads of mpthreadport.c, over sequences of calls.
use ameba_micro_python.Prelude.{
  ℕ, ◌+◌, ◌/◌, ◌≤◌, ◌≡◌, ◌≢◌, ◌⊎◌, refl, ap, true, false, Option, some, List, [], ◌∷◌, ◌++◌, ◌==◌,
  if◌then◌else◌, map, arith, inl, inr, ◌↔◌, Bool-cases,
}
use mathlib.Core.Path.{subst}
use mathlib.Core.List.{Memᴰ}
use ameba_micro_python.Threads.{
  RunState, new, running, finished, Thread, Threads, entry0, init, set_run_state, start, finish,
  leave, create, stack_size_of, min_stack_size, stack_root, gc_others, deleted_tasks, from_entry0,
  deinit, is_running,
}

-- How many threads of the list are of the task `i`.
abbrev pub count : ℕ → Threads → ℕ
count i [] = 0
count i (t ∷ ts) = (if t.id == i then 1 else 0) + count i ts

-- The main thread is the last of the list, of the task `main`, and every task has one node at most.
pub data EndsIn (main : ℕ) : Threads → Type 0 where
  last : {t : Thread} → t.node ≡ entry0 → t.id ≡ main → EndsIn main (t ∷ [])
  more : {t : Thread} {ts : Threads} → t.node ≢ entry0 → EndsIn main ts → EndsIn main (t ∷ ts)

pub record Inv (main : ℕ) (ts : Threads) : Type 0 where
  pub ends : EndsIn main ts
  pub single : (i : ℕ) → count i ts ≤ 1

-- One call by a task. The main thread never runs `freertos_entry`; a new node is not the address of
-- `thread_entry0`, and FreeRTOS gives a new task a handle that no living task has.
pub data Step (main : ℕ) (ts ts' : Threads) : Type 0 where
  starts : (self : ℕ) → start self ts ≡ ts' → Step main ts ts'
  finishes : (self : ℕ) → finish self ts ≡ ts' → Step main ts ts'
  leaves : (self : ℕ) → self ≢ main → leave self ts ≡ ts' → Step main ts ts'
  creates :
      (margin word size node arg id base : ℕ)
      → node ≢ entry0
      → count id ts ≡ 0
      → create margin word size node arg (some (id, base)) ts ≡ some (id, ts')
      → Step main ts ts'
  deinits : (deinit ts).1 ≡ ts' → Step main ts ts'

pub data Reach (main stack stack_len : ℕ) : Threads → Type 0 where
  boot : Reach main stack stack_len (init main stack stack_len)
  next :
      {ts ts' : Threads}
      → Reach main stack stack_len ts
      → Step main ts ts'
      → Reach main stack stack_len ts'

set_run_state-ends :
    {main : ℕ} (self : ℕ) (s : RunState) {ts : Threads}
    → EndsIn main ts
    → EndsIn main (set_run_state self s ts)
unfolding set_run_state
set_run_state-ends self s (last {t} h k) = elim (Bool-cases (t.id == self)) [
  | inl e ↦ rw e (last h k)
  | inr e ↦ rw e (last h k)
]
set_run_state-ends self s (more {t} h r) = elim (Bool-cases (t.id == self)) [
  | inl e ↦ rw e (more h r)
  | inr e ↦ rw e (more h (set_run_state-ends self s r))
]

set_run_state-count :
    (self : ℕ) (s : RunState) (ts : Threads) (i : ℕ)
    → count i (set_run_state self s ts) ≡ count i ts
unfolding set_run_state
set_run_state-count self s [] i = refl
set_run_state-count self s (t ∷ ts) i = ground (arith, set_run_state-count self s ts i)

leave-ends :
    {main : ℕ} (self : ℕ) {ts : Threads}
    → self ≢ main
    → EndsIn main ts
    → EndsIn main (leave self ts)
unfolding leave
leave-ends self ne (last {t} h k) = elim (Bool-cases (t.id == self)) [
  | inl e ↦ absurd (ground arith)
  | inr e ↦ rw e (last h k)
]
leave-ends self ne (more {t} h r) = elim (Bool-cases (t.id == self)) [
  | inl e ↦ rw e r
  | inr e ↦ rw e (more h (leave-ends self ne r))
]

leave-count : (self : ℕ) (ts : Threads) (i : ℕ) → count i (leave self ts) ≤ count i ts
unfolding leave
leave-count self [] i = omega arith
leave-count self (t ∷ ts) i = ground (arith, leave-count self ts i)

from_entry0-ends : {main : ℕ} {ts : Threads} → EndsIn main ts → EndsIn main (from_entry0 ts)
unfolding from_entry0
from_entry0-ends (last {t} h k) =
    let e : (t.node == entry0) ≡ true = ground arith in rw e (last h k)
from_entry0-ends (more {t} h r) =
    let e : (t.node == entry0) ≡ false = ground arith in rw e (from_entry0-ends r)

from_entry0-count : (ts : Threads) (i : ℕ) → count i (from_entry0 ts) ≤ count i ts
unfolding from_entry0
from_entry0-count [] i = omega arith
from_entry0-count (t ∷ ts) i = ground (arith, from_entry0-count ts i)

Step-Inv : {main : ℕ} {ts ts' : Threads} → Step main ts ts' → Inv main ts → Inv main ts'
unfolding start finish create deinit
Step-Inv {main} {ts} (starts self e) v = subst (Inv main) e (record {
  ends = set_run_state-ends self running v.ends;
  single = λ i. omega (arith, set_run_state-count self running ts i, v.single i);
})
Step-Inv {main} {ts} (finishes self e) v = subst (Inv main) e (record {
  ends = set_run_state-ends self finished v.ends;
  single = λ i. omega (arith, set_run_state-count self finished ts i, v.single i);
})
Step-Inv {main} {ts} (leaves self ne e) v = subst (Inv main) e (record {
  ends = leave-ends self ne v.ends;
  single = λ i. omega (arith, leave-count self ts i, v.single i);
})
Step-Inv {main} {ts} {ts'} (creates margin word size node arg id base ne new_id e) v =
    subst (Inv main) (created ts' e)
      (record { ends = more ne v.ends; single = λ i. ground (arith, new_id, v.single i) })
  where
    t : Thread
    t = record {
      node = node;
      id = id;
      run_state = new;
      arg = arg;
      stack = base;
      stack_len = stack_size_of margin size / word;
    }

    created :
        (l : Threads)
        → ◌≡◌ {A = Option (ℕ × Threads)} (some (id, t ∷ ts)) (some (id, l))
        → t ∷ ts ≡ l
    created l h = cc
Step-Inv {main} {ts} (deinits e) v = subst (Inv main) e (record {
  ends = from_entry0-ends v.ends;
  single = λ i. omega (arith, from_entry0-count ts i, v.single i);
})

init-Inv : (main stack stack_len : ℕ) → Inv main (init main stack stack_len)
unfolding init
init-Inv main stack stack_len = record { ends = last refl refl; single = λ i. ground arith }

pub Reach-Inv :
    {main stack stack_len : ℕ} {ts : Threads} → Reach main stack stack_len ts → Inv main ts
Reach-Inv {main} {stack} {stack_len} boot = init-Inv main stack stack_len
Reach-Inv (next r s) = Step-Inv s (Reach-Inv r)

deinit-ends :
    {main : ℕ} {ts : Threads}
    → EndsIn main ts
    → (t : Thread) × (from_entry0 ts ≡ t ∷ [])
      × (t.id ≡ main)
      × (deleted_tasks ts ++ main ∷ [] ≡ map (λ u. u.id) ts)
unfolding from_entry0 deleted_tasks
deinit-ends (last {t} h k) =
    let e : (t.node == entry0) ≡ true = ground arith in (t, rw e, k, rw (e, k))
deinit-ends {main} (more {t} h r) =
    let e : (t.node == entry0) ≡ false = ground arith in
    let (u, f, k, d) = deinit-ends r in (u, rw e f, k, rw e (ap (λ l. t.id ∷ l) d))

-- After any sequence of calls, `deinit` leaves the main thread alone in the list, and the tasks that
-- it deletes are those of all other threads of the list, in its order.
pub Reach-deinit :
    (main stack stack_len : ℕ) (ts : Threads)
    → Reach main stack stack_len ts
    → (t : Thread) × ((deinit ts).1 ≡ t ∷ [])
      × (t.id ≡ main)
      × ((deinit ts).0 ++ main ∷ [] ≡ map (λ u. u.id) ts)
unfolding deinit
Reach-deinit main stack stack_len ts r = deinit-ends (Reach-Inv r).ends

-- A thread that is created for a new task, starts, finishes and leaves, leaves the list as it was.
pub create-leave :
    (margin word size node arg id base : ℕ) (ts ts' : Threads)
    → create margin word size node arg (some (id, base)) ts ≡ some (id, ts')
    → leave id (finish id (start id ts')) ≡ ts
unfolding create start finish leave set_run_state
create-leave margin word size node arg id base ts ts' h =
    let e : new_thread ∷ ts ≡ ts' = cc in
    subst (λ l. leave id (finish id (start id l)) ≡ ts) e (ground arith)
  where
    new_thread : Thread
    new_thread = record {
      node = node;
      id = id;
      run_state = new;
      arg = arg;
      stack = base;
      stack_len = stack_size_of margin size / word;
    }

-- The stack of a new thread has at least the minimal size and at least the size asked for.
pub stack_size_of-bounds :
    (margin size : ℕ)
    → (min_stack_size ≤ stack_size_of margin size) × (size ≤ stack_size_of margin size)
unfolding stack_size_of
stack_size_of-bounds margin size = ground arith

-- The collector is given the stack of each running thread of another task.
gc_others-stack :
    (self : ℕ) (ts : Threads) {t : Thread}
    → Memᴰ t ts
    → t.run_state ≡ running
    → t.id ≢ self
    → Memᴰ (stack_root t.stack t.stack_len) (gc_others self ts)
unfolding gc_others
gc_others-stack self [] m h k = elim m [ ]
gc_others-stack self (u ∷ ts) (Memᴰ.head e) h k =
    let a : (u.id == self) ≡ false = ground arith in
    let b : is_running u.run_state ≡ true = ground arith in
    rw (a, b) (Memᴰ.tail (Memᴰ.tail (Memᴰ.head (ap (λ t. stack_root t.stack t.stack_len) e))))
gc_others-stack self (u ∷ ts) (Memᴰ.tail m) h k =
    let rest = gc_others-stack self ts m h k in
    elim (Bool-cases (u.id == self)) [
      | inl a ↦ rw a (Memᴰ.tail (Memᴰ.tail rest))
      | inr a ↦ elim (Bool-cases (is_running u.run_state)) [
        | inl b ↦ rw (a, b) (Memᴰ.tail (Memᴰ.tail (Memᴰ.tail rest)))
        | inr b ↦ rw (a, b) (Memᴰ.tail (Memᴰ.tail rest))
      ]
    ]

mem-cons_cases {ℓ} : {A : Type ℓ} {a x : A} {l : List A} → Memᴰ a (x ∷ l) → (a ≡ x) ⊎ Memᴰ a l
mem-cons_cases (Memᴰ.head e) = inl e
mem-cons_cases (Memᴰ.tail m) = inr m

-- A thread of the list that runs in another task.
abbrev pub RunsElsewhere : ℕ → Threads → Thread → Type 0
RunsElsewhere self ts t = Memᴰ t ts × (t.run_state ≡ running) × (t.id ≢ self)

weaken :
    (self base len : ℕ) (u : Thread) (ts : Threads)
    → (t : Thread) × RunsElsewhere self ts t
      × (stack_root base len ≡ stack_root t.stack t.stack_len)
    → (t : Thread) × RunsElsewhere self (u ∷ ts) t
      × (stack_root base len ≡ stack_root t.stack t.stack_len)
weaken self base len u ts (t, (m, h, k), e) = (t, (Memᴰ.tail m, h, k), e)

is_running-eq : (s : RunState) → is_running s ≡ true → s ≡ running
is_running-eq running h = refl
is_running-eq new h = cc
is_running-eq finished h = cc

stack-gc_others :
    (self base len : ℕ) (ts : Threads)
    → Memᴰ (stack_root base len) (gc_others self ts)
    → (t : Thread) × RunsElsewhere self ts t
      × (stack_root base len ≡ stack_root t.stack t.stack_len)
unfolding gc_others
stack-gc_others self base len [] m = elim m [ ]
stack-gc_others self base len (u ∷ ts) m = elim (mem-cons_cases m) [
  | inl e ↦ cc
  | inr m' ↦ elim (mem-cons_cases m') [
    | inl e ↦ cc
    | inr m'' ↦ elim (Bool-cases (u.id == self)) [
      | inl a ↦ weaken self base len u ts (stack-gc_others self base len ts (rw a at m''))
      | inr a ↦ elim (Bool-cases (is_running u.run_state)) [
        | inl b ↦ elim (mem-cons_cases (rw (a, b) at m'')) [
          | inl e ↦ (u, (Memᴰ.head refl, is_running-eq u.run_state b, ground arith), e)
          | inr r ↦ weaken self base len u ts (stack-gc_others self base len ts r)
        ]
        | inr b ↦ weaken self base len u ts (stack-gc_others self base len ts (rw (a, b) at m''))
      ]
    ]
  ]
]

-- The stacks given to the collector are exactly those of the threads that run in other tasks: none
-- is left out, and the collecting task's own stack is not among them.
pub gc_others-stacks :
    (self base len : ℕ) (ts : Threads)
    → Memᴰ (stack_root base len) (gc_others self ts) ↔ (
        (t : Thread) × RunsElsewhere self ts t
        × (stack_root base len ≡ stack_root t.stack t.stack_len))
gc_others-stacks self base len ts = (
  stack-gc_others self base len ts,
  λ found. rw (found.2) (gc_others-stack self ts (found.1.0) (found.1.1) (found.1.2)),
)
