-- ===== src/Threads/Tests.antt =====
-- The theorems on threads at concrete inputs.
use ameba_micro_python.Prelude.{◌≡◌, ◌++◌, refl, [], ◌∷◌, arith, map}
use ameba_micro_python.Threads.{
  RunState, new, running, Thread, Threads, init, start, create, stack_size_of, deinit,
}
use ameba_micro_python.Threads.Laws.{Reach, boot, next, creates, starts, Reach-deinit}

-- The main thread in task 7.
abbrev booted : Threads
booted = init 7 900 512

abbrev worker : RunState → Thread
worker s = record { node = 5; id = 8; run_state = s; arg = 3; stack = 4096; stack_len = 1024 }

abbrev forked : RunState → Threads
forked s = worker s ∷ booted

Reach-forked : Reach 7 900 512 (forked running)
unfolding init create start stack_size_of
Reach-forked =
    next {ts = forked new}
      (next {ts = booted} boot (creates 256 4 100 5 3 8 4096 (ground arith) (ground arith) refl))
      (starts 8 refl)

Reach-deinit_example :
    (t : Thread) × ((deinit (forked running)).1 ≡ t ∷ [])
    × (t.id ≡ 7)
    × ((deinit (forked running)).0 ++ 7 ∷ [] ≡ map (λ u. u.id) (forked running))
Reach-deinit_example = Reach-deinit 7 900 512 (forked running) Reach-forked
