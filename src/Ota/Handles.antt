-- ===== src/Ota/Handles.antt =====
-- The handles of the sessions of modota.c, and the finaliser that meets them.
use ameba_micro_python.Prelude.{
  ℕ, ◌≡◌, ◌≢◌, Bool, true, false, none, some, List, [], arith, ◌⊎◌, ◌&&◌,
}
use ameba_micro_python.Py.{os_error, memory_error, ealready, ok, raise}
use ameba_micro_python.Ota.{
  Handle, null, deleted, Outcome, Session, World, Answers, put, is_busy, make_new, del, released,
  finish, write, unless_active,
}

-- NULL, or an object that exists.
abbrev pub is_usable : Handle → Bool
is_usable deleted = false
is_usable _ = true

-- A session whose finaliser can run.
abbrev pub IsSound : Session → Type 0
IsSound s = (is_usable s.stream ≡ true) × (is_usable s.sem_done ≡ true)

pub record Inv (w : World) : Type 0 where
  pub sound : (i : ℕ) → IsSound (w.session i)

-- Where the semaphore and the task can be created, or the earlier calls fail, or a session is
-- running, `make_new` keeps every session fit for its finaliser.
pub make_new-Inv :
    (w : World) (a : Answers)
    → Inv w
    → (a.init && a.stream) ≡ false ⊎ (a.semaphore && a.task) ≡ true
    → Inv (make_new w a).1
unfolding make_new
make_new-Inv w a v h = record { sound = λ i. ground (arith, v.sound i) }

-- Where every session's handles are NULL or exist, the finaliser uses no deleted object, keeps that
-- so, leaves both handles of its session NULL, and its session is not the active one any more.
pub del-Inv :
    (w : World) (i : ℕ) (later : Outcome)
    → Inv w
    → (w' : World) × (del w i later ≡ some w')
      × Inv w'
      × ((w'.session i).stream ≡ null)
      × ((w'.session i).sem_done ≡ null)
      × (w'.active ≢ some i)
unfolding del
del-Inv w i later v =
    let w' = record w {
      session = put w.session i (released (w.session i) later);
      active = unless_active w.active i;
    } in
    (
      w',
      ground (arith, v.sound i),
      record { sound = λ j. ground (arith, v.sound j) },
      ground arith,
      ground arith,
      ground arith,
    )

-- The finaliser of a session for which the semaphore, or after it the task, could not be created
-- uses an object of FreeRTOS that `make_new` has deleted: the error path leaves the deleted handles
-- in the object.
pub del-make_new :
    (w : World) (a : Answers) (later : Outcome)
    → is_busy w ≡ false
    → (a.init && a.stream) ≡ true
    → (a.semaphore && a.task) ≡ false
    → ((make_new w a).0 ≡ raise memory_error) × (del (make_new w a).1 w.fresh later ≡ none)
unfolding make_new del
del-make_new w a later h p q = ground arith

-- A second session cannot start while one is pending; any other start makes a session with a new
-- number, or an error.
pub make_new-busy :
    (w : World) (a : Answers) (i : ℕ)
    → (make_new w a).0 ≡ ok i
    → (is_busy w ≡ false)
      × (i ≡ w.fresh)
      × ((make_new w a).1.active ≡ some i)
      × (is_busy (make_new w a).1 ≡ true)
unfolding make_new
make_new-busy w a i h = ground arith

-- After `finish` the session takes no more data and no second `finish`: both raise EALREADY, whatever
-- the task reported.
pub finish-finish :
    (w : World) (i : ℕ) (later later' : Outcome) (ended : ℕ → Bool) (sent : ℕ → ℕ → ℕ) (fuel : ℕ)
    (bytes : List ℕ)
    → let w' = (finish w i later).1 in
      ((finish w' i later').0 ≡ raise (os_error ealready))
      × ((finish w' i later').1 ≡ w')
      × (write (w'.session i) ended sent fuel bytes ≡ some (raise (os_error ealready), []))
unfolding finish write
finish-finish w i later later' ended sent fuel bytes = ground arith
