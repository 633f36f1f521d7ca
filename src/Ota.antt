-- ===== src/Ota.antt =====
-- ports/ameba-rtos-m/src/modota.c: `ameba.OTA`, a firmware upgrade fed from Python.
-- A session owns a stream buffer and a semaphore of FreeRTOS; its fields keep the handles. The SDK's
-- task (`ota_start`) and FreeRTOS enter by their answers.
pub mod Handles
pub mod Pipe
pub mod Write
mod Tests
use ameba_micro_python.Prelude.{
  ℕ, zero, suc, ◌+◌, ◌-◌, Bool, true, false, not, Option, none, some, List, [], ◌++◌, ◌∷◌, ◌==◌,
  length, take, drop, if◌then◌else◌,
}
use ameba_micro_python.Py.{Exc, os_error, memory_error, eio, ebusy, ealready, Result, ok, raise}

-- A field that holds a handle: NULL, an object that exists, or one that was deleted while the field
-- kept its address.
pub data Handle : Type 0 where
  null live deleted : Handle

-- `OTA_RESULT_...`
pub data Outcome : Type 0 where
  pending done failed : Outcome

-- `ameba_ota_obj_t` without the SDK's context and the task's handle.
pub record Session : Type 0 where
  pub stream : Handle
  pub sem_done : Handle
  pub result : Outcome
  pub eof : Bool
  pub finished : Bool

-- The sessions by number, the number of the next one, and the root pointer `ota_active`.
pub record World : Type 0 where
  pub session : ℕ → Session
  pub fresh : ℕ
  pub active : Option ℕ

abbrev pub put : (ℕ → Session) → ℕ → Session → ℕ → Session
put f i s j = if j == i then s else f j

abbrev pub empty_session : Session
empty_session = record {
  stream = null;
  sem_done = null;
  result = pending;
  eof = false;
  finished = false;
}

-- Which of the calls in `ameba_ota_make_new` succeed.
pub record Answers : Type 0 where
  pub init : Bool
  pub stream : Bool
  pub semaphore : Bool
  pub task : Bool

abbrev pub is_pending : Outcome → Bool
is_pending pending = true
is_pending _ = false

-- `ota_active != NULL && ota_active->result == OTA_RESULT_PENDING`
abbrev pub is_busy : World → Bool
is_busy w = elim w.active [ none ↦ false | some i ↦ is_pending (w.session i).result ]

-- The world with the new object, whose number is `w.fresh`, in the state given.
abbrev pub allocate : World → Session → Option ℕ → World
allocate w s active = record {
  session = put w.session w.fresh s;
  fresh = w.fresh + 1;
  active = active;
}

-- `ameba_ota_make_new`. On an error the object stays, for the collector and its finaliser. The
-- handles that an error path deletes stay in the object's fields.
unfoldable pub make_new : World → Answers → Result ℕ × World
make_new w a =
    if is_busy w
    then (raise (os_error ebusy), w)
    else if not a.init
    then (raise (os_error eio), allocate w empty_session w.active)
    else if not a.stream
    then (raise memory_error, allocate w empty_session w.active)
    else if not a.semaphore
    then (raise memory_error, allocate w (record empty_session { stream = deleted }) w.active)
    else if not a.task
    then (
      raise memory_error,
      allocate w (record empty_session { stream = deleted; sem_done = deleted }) none,
    )
    else (
      ok w.fresh,
      allocate w (record empty_session { stream = live; sem_done = live }) (some w.fresh),
    )

-- A use of a handle that is not NULL; `none` is a use after its deletion.
abbrev pub use_unless_null : Handle → Option (Unit {0})
use_unless_null null = some tt
use_unless_null live = some tt
use_unless_null deleted = none

-- The wait of `ameba_ota_del` for a session that is pending: it wakes the task through the stream
-- and takes the semaphore.
abbrev pub abort_uses : Session → Option (Unit {0})
abort_uses s = elim (is_pending s.result) [
  | false ↦ some tt
  | true ↦ elim (use_unless_null s.stream) [ none ↦ none | some _ ↦ use_unless_null s.sem_done ]
]

-- The deletion of the semaphore and of the stream.
abbrev pub release_uses : Session → Option (Unit {0})
release_uses s = elim (use_unless_null s.sem_done) [
  | none ↦ none
  | some _ ↦ use_unless_null s.stream
]

-- The session after `ameba_ota_del`: `later` is the result when its wait is over.
abbrev pub released : Session → Outcome → Session
released s later = elim (is_pending s.result) [
  | true ↦ record s { stream = null; sem_done = null; eof = true; result = later }
  | false ↦ record s { stream = null; sem_done = null }
]

abbrev pub unless_active : Option ℕ → ℕ → Option ℕ
unless_active none i = none
unless_active (some a) i = if a == i then none else some a

-- `ameba_ota_del`, the finaliser; `none` is a use of a deleted object of FreeRTOS.
pub del : World → ℕ → Outcome → Option World
del w i later = elim (abort_uses (w.session i)) [
  | none ↦ none
  | some _ ↦ elim (release_uses (w.session i)) [
    | none ↦ none
    | some _ ↦ some (record w {
      session = put w.session i (released (w.session i) later);
      active = unless_active w.active i;
    })
  ]
]

-- `ameba_ota_finish`: `later` is the task's result when the semaphore has been taken.
pub finish : World → ℕ → Outcome → Result (Unit {0}) × World
finish w i later =
    let s = w.session i in
    let w' = record w {
      session = put w.session i (record s { finished = true; eof = true; result = later });
      active = unless_active w.active i;
    } in
    if s.finished
    then (raise (os_error ealready), w)
    else elim later [ done ↦ (ok tt, w') | _ ↦ (raise (os_error eio), w') ]

-- The loop of `ameba_ota_write`, from round `i`, with what the stream has taken: `failed i` tells
-- whether the task has ended before the round, `sent i n` how much of `n` bytes the stream takes.
-- `none` means that the loop is still running when the fuel is used up.
pub write_loop :
    (ℕ → Bool) → (ℕ → ℕ → ℕ) → ℕ → ℕ → List ℕ → List ℕ → Option (Result (Unit {0}) × List ℕ)
write_loop ended sent zero i bytes taken = none
write_loop ended sent (suc fuel) i bytes taken = elim bytes [
  | [] ↦ some (ok tt, taken)
  | b ∷ bs ↦ elim (ended i) [
    | true ↦ some (raise (os_error eio), taken)
    | false ↦
        let n = sent i (length (b ∷ bs)) in
        write_loop ended sent fuel (i + 1) (drop n (b ∷ bs)) (taken ++ take n (b ∷ bs))
  ]
]

-- `ameba_ota_write`
unfoldable pub write :
    Session → (ℕ → Bool) → (ℕ → ℕ → ℕ) → ℕ → List ℕ → Option (Result (Unit {0}) × List ℕ)
unfolding write_loop
write s ended sent fuel bytes =
    let out = write_loop ended sent fuel 0 bytes [] in
    if s.finished
    then some (raise (os_error ealready), [])
    else if is_pending s.result
    then out
    else some (raise (os_error eio), [])

-- `ameba_ota_cur_slot`, from the index that the SDK returns.
pub cur_slot : ℕ → ℕ
cur_slot index = index + 1
