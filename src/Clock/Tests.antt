-- ===== src/Clock/Tests.antt =====
-- The theorems about the wall clock and the delays of mphalport.c at one input each.
use ameba_micro_python.Prelude.{ℕ, ◌+◌, ◌-◌, ◌≡◌, refl, false, some, List, [], ◌∷◌, arith}
use ameba_micro_python.Py.{ok}
use ameba_micro_python.Clock.{
  WallClock, Read, delay_us, delay_us_loop, delay_ms, delay_ms_loop, delay_ms_rest,
}
use ameba_micro_python.Clock.Drift.{Call, run, last_time, between_reads, run-between_reads}

-- Set at 4294967290 ms, 6 ms before the counter wraps.
abbrev set_late : WallClock
set_late = record { base_ms = 5000; base_tick_ms = 4294967290 }

-- Two calls; the first takes 1 ms between its reads.
abbrev calls : List Call
calls = (4294967295, 4294967296) ∷ (4294967300, 4294967300) ∷ []

run-between_reads_example :
    (run set_late calls).base_ms + between_reads calls
    ≡ 5000 + (last_time 4294967290 calls - 4294967290)
run-between_reads_example =
    run-between_reads set_late 4294967290 calls refl
      (omega arith, omega arith, omega arith, (omega arith, omega arith, omega arith, tt))
      (omega arith)

abbrev read_at : ℕ → Read
read_at t = record { time = t; throws = false }

-- 2 ms from 0, with a tick of 1 ms: the wait for the tick, then the rest by the counter.
delay_ms-run :
    delay_ms 1000 2
      (read_at 0 ∷ read_at 500 ∷ read_at 1200 ∷ read_at 1300 ∷ read_at 1310 ∷ read_at 2010 ∷ [])
    ≡ some (ok tt, [])
unfolding delay_ms delay_ms_loop delay_ms_rest delay_us delay_us_loop
delay_ms-run = refl
