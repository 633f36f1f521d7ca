-- ===== src/Timer.antt =====
-- ports/ameba-rtos-m/src/machine_timer.c: `machine.Timer` over the SoC's hardware timers.
-- The SDK's `gtimer_...` calls are recorded in order; the table `machine_timer_obj` of the port is
-- `slots`, from the number of a hardware timer to the object that holds it.
pub mod Slots
pub mod Init
mod Tests
use ameba_micro_python.Prelude.{
  ℕ, zero, suc, ◌+◌, ◌*◌, ◌-◌, ◌/◌, ◌%◌, ◌^◌, Bool, true, false, ◌||◌, Option, none, some, List, [],
  ◌∷◌, ◌++◌, ◌==◌, ltb, if◌then◌else◌, ℤ, pos, negsuc, ltb_ℤ, pos_part,
}
use ameba_micro_python.Py.{Exc, os_error, value_error, enodev, Result, ok, raise}

-- The two builds: AmebaDplus, and the other SoCs.
pub data Soc : Type 0 where
  dplus green2 : Soc

abbrev pub machine_timer_min_period_us : ℕ
machine_timer_min_period_us = 62

-- `machine_timer_pool`
abbrev pub machine_timer_pool : Soc → List ℕ
machine_timer_pool dplus = 10 ∷ 11 ∷ 0 ∷ 1 ∷ 2 ∷ 3 ∷ 4 ∷ 5 ∷ 6 ∷ 7 ∷ []
machine_timer_pool green2 = 0 ∷ 1 ∷ 2 ∷ 3 ∷ []

-- `machine_timer_obj_t`; `hw_id` is `none` for -1.
pub record Timer : Type 0 where
  pub hw_id : Option ℕ
  pub virtual_id : ℤ
  pub mode : ℕ
  pub period_us : ℕ
  pub callback : ℕ
  pub hard : Bool

-- The calls of the SDK: the hardware timer, and for a start the period and the object.
pub data Call : Type 0 where
  stop_call init_call deinit_call : ℕ → Call
  one_shot_call periodical_call : ℕ → ℕ → ℕ → Call

-- The objects by number, the number of the next one, the table, and the calls so far, latest first.
pub record World : Type 0 where
  pub timer : ℕ → Timer
  pub fresh : ℕ
  pub slots : ℕ → Option ℕ
  pub calls : List Call

-- The parsed arguments of `machine_timer_init_helper`; `mode` is the argument's machine word.
pub record Args : Type 0 where
  pub mode : ℕ
  pub callback : ℕ
  pub period : ℤ
  pub tick_hz : ℤ
  pub freq : Option ℤ
  pub hard : Bool

abbrev pub put {ℓ} : {A : Type ℓ} → (ℕ → A) → ℕ → A → ℕ → A
put f i x j = if j == i then x else f j

-- `machine_timer_alloc` on a pool: the first of its timers that is free.
unfoldable pub alloc : (ℕ → Option ℕ) → List ℕ → Option ℕ
alloc slots [] = none
alloc slots (id ∷ ids) = elim (slots id) [ none ↦ some id | some _ ↦ alloc slots ids ]

-- An argument that is tested for `<= 0`.
abbrev pub is_positive : ℤ → Bool
is_positive z = ltb_ℤ (pos 0) z

-- The period in microseconds before it is clamped; `none` is a ValueError.
unfoldable pub raw_period : Args → Option ℕ
raw_period a = elim a.freq [
  | some f ↦ if is_positive f then some (1000000 / pos_part f) else none
  | none ↦
      if is_positive a.tick_hz
      then if ltb_ℤ a.period (pos 0)
        then none
        else some (pos_part a.period * 1000000 / pos_part a.tick_hz)
      else none
]

abbrev pub clamp_period : ℕ → ℕ
clamp_period p = if ltb p machine_timer_min_period_us then machine_timer_min_period_us else p

-- The period that `machine_timer_init_helper` settles on; `none` is a ValueError.
unfoldable pub period_of : Args → Option ℕ
unfolding raw_period
period_of a = elim (raw_period a) [
  | none ↦ none
  | some p ↦ if ltb (2 ^ 32 - 1) (clamp_period p) then none else some (clamp_period p)
]

-- The start of the hardware timer `id` for the object `i`.
abbrev pub start_call : ℕ → ℕ → ℕ → ℕ → Call
start_call mode id period i =
    if mode == 0 then one_shot_call id period i else periodical_call id period i

-- The object with its new mode, period and callback.
abbrev pub configured : Timer → Args → ℕ → Timer
configured t a p = record t {
  hard = a.hard;
  mode = a.mode % 2 ^ 8;
  period_us = p;
  callback = a.callback;
}

-- The first allocation of a hardware timer for the object `i`, which the period has been stored in.
abbrev pub allocate : Soc → World → ℕ → Args → ℕ → Option ℕ → Result (Unit {0}) × World
allocate soc w i a p none =
    (raise (os_error enodev), record w { timer = put w.timer i (configured (w.timer i) a p) })
allocate soc w i a p (some id) = (
  ok tt,
  record w {
    timer = put w.timer i (record (configured (w.timer i) a p) { hw_id = some id });
    slots = put w.slots id (some i);
    calls = start_call (a.mode % 2 ^ 8) id p i ∷ init_call id ∷ w.calls;
  },
)

-- `machine_timer_init_helper` for the object `i`.
unfoldable pub init_helper : Soc → World → ℕ → Args → Result (Unit {0}) × World
init_helper soc w i a = elim (period_of a) [
  | none ↦
      (raise value_error, record w { timer = put w.timer i (record (w.timer i) { hard = a.hard }) })
  | some p ↦ elim ((w.timer i).hw_id) [
    | none ↦ allocate soc w i a p (alloc w.slots (machine_timer_pool soc))
    | some id ↦ (
      ok tt,
      record w {
        timer = put w.timer i (configured (w.timer i) a p);
        calls = start_call (a.mode % 2 ^ 8) id p i ∷ stop_call id ∷ w.calls;
      },
    )
  ]
]

-- The object before its first `init`.
abbrev pub new_timer : ℤ → Timer
new_timer virtual_id = record {
  hw_id = none;
  virtual_id = virtual_id;
  mode = 1;
  period_us = 0;
  callback = 0;
  hard = false;
}

abbrev pub with_new : World → ℤ → World
with_new w virtual_id = record w {
  timer = put w.timer w.fresh (new_timer virtual_id);
  fresh = w.fresh + 1;
}

-- The object, where its `init` has not raised an exception.
abbrev pub made : ℕ → Result (Unit {0}) × World → Result ℕ × World
made i (ok _, w) = (ok i, w)
made i (raise e, w) = (raise e, w)

-- `machine_timer_make_new`: the id, and the other arguments where there are any.
unfoldable pub make_new : Soc → World → ℤ → Option Args → Result ℕ × World
make_new soc w virtual_id none = (ok w.fresh, with_new w virtual_id)
make_new soc w virtual_id (some a) =
    made w.fresh (init_helper soc (with_new w virtual_id) w.fresh a)

-- `machine_timer_deinit`, also the finaliser.
unfoldable pub deinit : World → ℕ → World
deinit w i = elim ((w.timer i).hw_id) [
  | none ↦ w
  | some id ↦ record w {
    timer = put w.timer i (record (w.timer i) { hw_id = none });
    slots = put w.slots id none;
    calls = deinit_call id ∷ stop_call id ∷ w.calls;
  }
]
