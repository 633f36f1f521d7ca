-- ===== src/Timer/Slots.antt =====
-- The hardware timers of machine_timer.c and the objects that hold them.
use ameba_micro_python.Prelude.{
  ℕ, ◌≤◌, ◌<◌, ◌^◌, ◌≡◌, ◌≢◌, ◌⊎◌, refl, Option, none, some, List, [], ◌∷◌, ◌==◌, arith,
  Option-cases, Bool-cases, inl, inr, ℤ, sym,
}
use mathlib.Core.Path.{subst}
use mathlib.Core.List.{Memᴰ}
use ameba_micro_python.Py.{Result, ok, raise}
use ameba_micro_python.Timer.{
  Soc, machine_timer_pool, machine_timer_min_period_us, World, Args, alloc, period_of, raw_period,
  allocate, init_helper, new_timer, with_new, made, make_new, deinit,
}

-- A period that the hardware takes.
abbrev pub IsPeriod : ℕ → Type 0
IsPeriod p = (machine_timer_min_period_us ≤ p) × (p < 2 ^ 32)

-- The object `i` holds the hardware timer `h`: the table agrees, `h` is of the pool, and the period
-- is one that the hardware takes.
abbrev pub Holds : Soc → World → ℕ → ℕ → Type 0
Holds soc w i h =
    (w.slots h ≡ some i) × Memᴰ h (machine_timer_pool soc) × IsPeriod (w.timer i).period_us

pub record Inv (soc : Soc) (w : World) : Type 0 where
  pub holds : (i h : ℕ) → (w.timer i).hw_id ≡ some h → Holds soc w i h
  pub owned : (i h : ℕ) → w.slots h ≡ some i → (w.timer i).hw_id ≡ some h
  pub known : (i : ℕ) → w.fresh ≤ i → (w.timer i).hw_id ≡ none

alloc-free :
    (slots : ℕ → Option ℕ) (ids : List ℕ) (h : ℕ)
    → alloc slots ids ≡ some h
    → (slots h ≡ none) × Memᴰ h ids
unfolding alloc
alloc-free slots [] h e = cc
alloc-free slots (id ∷ ids) h e = elim (Option-cases (slots id)) [
  | inl free ↦
      let same : id ≡ h = ground arith in
      (subst (λ j. slots j ≡ none) same free, Memᴰ.head (sym same))
  | inr (o, taken) ↦
      let (f, m) = alloc-free slots ids h (rw (taken, alloc) at e) in (f, Memᴰ.tail m)
]

pub period_of-IsPeriod : (a : Args) (p : ℕ) → period_of a ≡ some p → IsPeriod p
unfolding period_of
period_of-IsPeriod a p e = elim (Option-cases (raw_period a)) [
  | inl none_ ↦ ground arith
  | inr (q, some_) ↦ ground arith
]

allocate-Inv :
    (soc : Soc) (w : World) (i : ℕ) (a : Args) (p : ℕ)
    → i < w.fresh
    → (w.timer i).hw_id ≡ none
    → IsPeriod p
    → Inv soc w
    → Inv soc (allocate soc w i a p (alloc w.slots (machine_timer_pool soc))).1
allocate-Inv soc w i a p lt unheld per v =
    elim (Option-cases (alloc w.slots (machine_timer_pool soc))) [
      | inl full ↦ rw full (record {
        holds = λ j h e. ground (arith, v.holds j h);
        owned = λ j h e. ground (arith, v.owned j h);
        known = λ j le. ground (arith, v.known j);
      })
      | inr (id, e) ↦
          let (free, m) = alloc-free w.slots (machine_timer_pool soc) id e in
          rw e (record {
            holds = λ j h e. ground (arith, v.holds j h, v.owned i h, v.owned j h);
            owned = λ j h e. ground (arith, v.owned j h);
            known = λ j le. ground (arith, v.known j);
          })
    ]

init_helper-Inv :
    (soc : Soc) (w : World) (i : ℕ) (a : Args)
    → i < w.fresh
    → Inv soc w
    → Inv soc (init_helper soc w i a).1
unfolding init_helper
init_helper-Inv soc w i a lt v = elim (Option-cases (period_of a)) [
  | inl bad ↦
      rw (bad, init_helper)
        (record {
          holds = λ j h e. ground (arith, v.holds j h);
          owned = λ j h e. ground (arith, v.owned j h);
          known = λ j le. ground (arith, v.known j);
        })
  | inr (p, good) ↦ elim (Option-cases ((w.timer i).hw_id)) [
    | inl unheld ↦
        rw (good, unheld, init_helper)
          (allocate-Inv soc w i a p lt unheld (period_of-IsPeriod a p good) v)
    | inr (id, held) ↦
        rw (good, held, init_helper)
          (record {
            holds = λ j h e. ground (arith, v.holds j h, period_of-IsPeriod a p good);
            owned = λ j h e. ground (arith, v.owned j h);
            known = λ j le. ground (arith, v.known j);
          })
  ]
]

with_new-Inv :
    (soc : Soc) (w : World) (virtual_id : ℤ) → Inv soc w → Inv soc (with_new w virtual_id)
with_new-Inv soc w virtual_id v = record {
  holds = λ j h e. ground (arith, v.holds j h);
  owned = λ j h e. ground (arith, v.owned j h, v.known j);
  known = λ j le. ground (arith, v.known j);
}

deinit-Inv : (soc : Soc) (w : World) (i : ℕ) → Inv soc w → Inv soc (deinit w i)
unfolding deinit
deinit-Inv soc w i v = elim (Option-cases ((w.timer i).hw_id)) [
  | inl unheld ↦ rw (unheld, deinit) v
  | inr (id, held) ↦
      rw (held, deinit)
        (record {
          holds = λ j h e. ground (arith, v.holds j h, v.holds i id);
          owned = λ j h e. ground (arith, v.owned j h);
          known = λ j le. ground (arith, v.known j);
        })
]

-- The world at boot, with no object.
abbrev pub empty_world : World
empty_world = record { timer = λ i. new_timer (ℤ.pos 0); fresh = 0; slots = λ h. none; calls = [] }

-- One call from Python, on an object that exists.
pub data Step (soc : Soc) (w w' : World) : Type 0 where
  makes : (virtual_id : ℤ) (a : Option Args) → (make_new soc w virtual_id a).1 ≡ w' → Step soc w w'
  inits : (i : ℕ) (a : Args) → i < w.fresh → (init_helper soc w i a).1 ≡ w' → Step soc w w'
  deinits : (i : ℕ) → deinit w i ≡ w' → Step soc w w'

pub data Reach (soc : Soc) : World → Type 0 where
  at_boot : Reach soc empty_world
  next : {w w' : World} → Reach soc w → Step soc w w' → Reach soc w'

made-world : (i : ℕ) (out : Result (Unit {0}) × World) → out.1 ≡ (made i out).1
made-world i (ok x, w) = refl
made-world i (raise e, w) = refl

make_new-Inv :
    (soc : Soc) (w : World) (virtual_id : ℤ) (a : Option Args)
    → Inv soc w
    → Inv soc (make_new soc w virtual_id a).1
unfolding make_new
make_new-Inv soc w virtual_id none v = with_new-Inv soc w virtual_id v
make_new-Inv soc w virtual_id (some a) v =
    subst (Inv soc) (made-world w.fresh (init_helper soc (with_new w virtual_id) w.fresh a)) (
      init_helper-Inv soc (with_new w virtual_id) w.fresh a (omega arith)
        (with_new-Inv soc w virtual_id v))

Step-Inv : {soc : Soc} {w w' : World} → Step soc w w' → Inv soc w → Inv soc w'
Step-Inv {soc} {w} (makes virtual_id a e) v = subst (Inv soc) e (make_new-Inv soc w virtual_id a v)
Step-Inv {soc} {w} (inits i a lt e) v = subst (Inv soc) e (init_helper-Inv soc w i a lt v)
Step-Inv {soc} {w} (deinits i e) v = subst (Inv soc) e (deinit-Inv soc w i v)

pub Reach-Inv : {soc : Soc} {w : World} → Reach soc w → Inv soc w
Reach-Inv at_boot = record { holds = λ i h e. cc; owned = λ i h e. cc; known = λ i le. refl }
Reach-Inv (next r s) = Step-Inv s (Reach-Inv r)

-- After any sequence of constructions, initialisations and deinitialisations, errors included, an
-- object that holds a hardware timer holds one of the pool, stands in its slot of the table, has a
-- period that the hardware takes, and is the only object that holds it.
pub Reach-Holds :
    (soc : Soc) (w : World) (i j h : ℕ)
    → Reach soc w
    → (w.timer i).hw_id ≡ some h
    → Holds soc w i h × (((w.timer j).hw_id ≢ some h) ⊎ (j ≡ i))
Reach-Holds soc w i j h r e =
    let v = Reach-Inv r in
    (
      v.holds i h e,
      elim (Bool-cases (j == i)) [
        | inl same ↦ inr (ground arith)
        | inr other ↦ inl (λ k. ground (arith, v.holds i h e, v.holds j h k))
      ],
    )
