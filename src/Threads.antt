-- ===== src/Threads.antt =====
-- ports/ameba-rtos-m/src/mpthreadport.c: the list of the Python threads, guarded by `thread_mutex`.
-- Each function below is what its C function does while it holds the mutex. A task of FreeRTOS is a
-- number; what `xTaskCreate` and `vTaskGetInfo` answer are arguments.
pub mod Laws
mod Tests
use ameba_micro_python.Prelude.{
  ℕ, zero, suc, ◌+◌, ◌*◌, ◌/◌, Bool, true, false, Option, none, some, List, [], ◌∷◌, ◌==◌, ltb,
  if◌then◌else◌,
}

-- `MP_THREAD_RUN_STATE_...`
pub data RunState : Type 0 where
  new running finished : RunState

-- `mp_thread_t`, without the link: `node` is the address of the structure.
pub record Thread : Type 0 where
  pub node : ℕ
  pub id : ℕ
  pub run_state : RunState
  pub arg : ℕ
  pub stack : ℕ
  pub stack_len : ℕ

-- `thread`, the head of the list, first to last.
abbrev pub Threads : Type 0
Threads = List Thread

abbrev pub min_stack_size : ℕ
min_stack_size = 4 * 1024

-- The address of `thread_entry0`.
abbrev pub entry0 : ℕ
entry0 = 0

-- `mp_thread_init` in the task `self`: the main thread.
pub init : ℕ → ℕ → ℕ → Threads
init self stack stack_len =
    record {
      node = entry0;
      id = self;
      run_state = running;
      arg = 0;
      stack = stack;
      stack_len = stack_len;
    }
    ∷ []

-- The loop of `mp_thread_start` and `mp_thread_finish`: the first node of the task.
pub set_run_state : ℕ → RunState → Threads → Threads
set_run_state self s [] = []
set_run_state self s (t ∷ ts) =
    if t.id == self then record t { run_state = s } ∷ ts else t ∷ set_run_state self s ts

-- `mp_thread_start` and `mp_thread_finish`
unfoldable pub start : ℕ → Threads → Threads
unfolding set_run_state
start self = set_run_state self running

unfoldable pub finish : ℕ → Threads → Threads
unfolding set_run_state
finish self = set_run_state self finished

-- The end of `freertos_entry`: the first node of the task is taken out.
unfoldable pub leave : ℕ → Threads → Threads
leave self [] = []
leave self (t ∷ ts) = if t.id == self then ts else t ∷ leave self ts

-- The stack size that `mp_thread_create_ex` settles on; the default adds the runtime's margin.
pub stack_size_of : ℕ → ℕ → ℕ
stack_size_of margin size =
    if size == 0
    then min_stack_size + margin
    else if ltb size min_stack_size
    then min_stack_size
    else size

-- `mp_thread_create_ex`: `node` is the new structure, `created` the task and the base of its stack
-- where `xTaskCreate` succeeds, `word` the size of a stack word. `none` is the OSError.
unfoldable pub create : ℕ → ℕ → ℕ → ℕ → ℕ → Option (ℕ × ℕ) → Threads → Option (ℕ × Threads)
unfolding stack_size_of
create margin word size node arg none ts = none
create margin word size node arg (some (id, base)) ts = some (
  id,
  record {
    node = node;
    id = id;
    run_state = new;
    arg = arg;
    stack = base;
    stack_len = stack_size_of margin size / word;
  }
      ∷ ts,
)

-- What `gc_collect_root` is given.
pub data Root : Type 0 where
  node_root arg_root : ℕ → Root
  stack_root : ℕ → ℕ → Root

abbrev pub is_running : RunState → Bool
is_running running = true
is_running _ = false

-- `mp_thread_gc_others` in the task `self`: the roots in the order of the calls.
unfoldable pub gc_others : ℕ → Threads → List Root
gc_others self [] = []
gc_others self (t ∷ ts) =
    let rest = gc_others self ts in
    node_root t.node
    ∷ arg_root t.arg
    ∷ (if t.id == self
        then rest
        else if is_running t.run_state
        then stack_root t.stack t.stack_len ∷ rest
        else rest)

-- The tasks that `mp_thread_deinit` deletes: those of all nodes but `thread_entry0`.
unfoldable pub deleted_tasks : Threads → List ℕ
deleted_tasks [] = []
deleted_tasks (t ∷ ts) =
    let rest = deleted_tasks ts in if t.node == entry0 then rest else t.id ∷ rest

-- The list from `thread_entry0` on, which is what `thread` points to afterwards.
from_entry0 : Threads → Threads
from_entry0 [] = []
from_entry0 (t ∷ ts) = if t.node == entry0 then t ∷ ts else from_entry0 ts

-- `mp_thread_deinit`: the tasks that it deletes, and the list that it leaves.
unfoldable pub deinit : Threads → List ℕ × Threads
unfolding deleted_tasks from_entry0
deinit ts = (deleted_tasks ts, from_entry0 ts)

-- `mp_thread_get_state`: the thread-local state of the task, or that of the main thread.
pub get_state : Option ℕ → ℕ → ℕ
get_state none main = main
get_state (some s) main = s
