-- ===== src/Timer/Init.antt =====
-- The branches of `machine_timer_init_helper` of machine_timer.c.
use ameba_micro_python.Prelude.{
  ℕ, ◌^◌, ◌%◌, ◌≡◌, ◌≢◌, Option, none, some, List, [], ◌∷◌, arith, Option-cases, inl, inr,
}
use mathlib.Core.List.{Memᴰ}
use ameba_micro_python.Py.{os_error, value_error, enodev, ok, raise}
use ameba_micro_python.Timer.{
  Soc, machine_timer_pool, World, Args, Call, start_call, stop_call, init_call, alloc, period_of,
  init_helper,
}

alloc-none :
    (slots : ℕ → Option ℕ) (ids : List ℕ) (h : ℕ)
    → alloc slots ids ≡ none
    → Memᴰ h ids
    → slots h ≢ none
unfolding alloc
alloc-none slots [] h e m = elim m [ ]
alloc-none slots (id ∷ ids) h e (Memᴰ.head same) = ground arith
alloc-none slots (id ∷ ids) h e (Memᴰ.tail m) = elim (Option-cases (slots id)) [
  | inl free ↦ ground arith
  | inr (o, taken) ↦ alloc-none slots ids h (rw (taken, alloc) at e) m
]

-- An `init` of an object without a hardware timer, with a valid period, raises ENODEV only where every
-- timer of the pool is held, and then leaves the table and the hardware as they were.
pub init_helper-enodev :
    (soc : Soc) (w : World) (i h : ℕ) (a : Args)
    → (init_helper soc w i a).0 ≡ raise (os_error enodev)
    → Memᴰ h (machine_timer_pool soc)
    → (w.slots h ≢ none)
      × ((init_helper soc w i a).1.slots h ≡ w.slots h)
      × ((init_helper soc w i a).1.calls ≡ w.calls)
unfolding init_helper
init_helper-enodev soc w i h a e m = elim (Option-cases (alloc w.slots (machine_timer_pool soc))) [
  | inl full ↦ ground (arith, alloc-none w.slots (machine_timer_pool soc) h full m)
  | inr (id, free) ↦ ground arith
]

-- A refused period leaves the table, the hardware and the period of a running timer as they were; but
-- the object's `hard` flag has already taken the new value.
pub init_helper-value_error :
    (soc : Soc) (w : World) (i : ℕ) (a : Args)
    → period_of a ≡ none
    → let w' = (init_helper soc w i a).1 in
      ((init_helper soc w i a).0 ≡ raise value_error)
      × (w'.slots ≡ w.slots)
      × (w'.calls ≡ w.calls)
      × ((w'.timer i).period_us ≡ (w.timer i).period_us)
      × ((w'.timer i).hard ≡ a.hard)
unfolding init_helper
init_helper-value_error soc w i a e = ground arith

-- An `init` that succeeds leaves the object with a hardware timer, which it has started last, in the
-- mode and with the period asked for.
pub init_helper-ok :
    (soc : Soc) (w : World) (i : ℕ) (a : Args)
    → (init_helper soc w i a).0 ≡ ok tt
    → let w' = (init_helper soc w i a).1 in
      (h : ℕ) × (p : ℕ) × (rest : List Call) × ((w'.timer i).hw_id ≡ some h)
      × (period_of a ≡ some p)
      × (w'.calls ≡ start_call (a.mode % 2 ^ 8) h p i ∷ rest)
unfolding init_helper
init_helper-ok soc w i a e = elim (Option-cases (period_of a)) [
  | inl bad ↦ ground arith
  | inr (p, good) ↦ elim (Option-cases ((w.timer i).hw_id)) [
    | inl unheld ↦ elim (Option-cases (alloc w.slots (machine_timer_pool soc))) [
      | inl full ↦ ground arith
      | inr (id, free) ↦ (id, p, init_call id ∷ w.calls, ground arith, good, ground arith)
    ]
    | inr (id, held) ↦ (id, p, stop_call id ∷ w.calls, ground arith, good, ground arith)
  ]
]
