-- ===== src/Clock.antt =====
-- ports/ameba-rtos-m/src/mphalport.c: the wall clock (`_gettimeofday`, `_settimeofday`, of the
-- AmebaDplus) and the two delays. The counters of the hardware enter by the times at which they are
-- read, in ms or us from the start, before they wrap in `mp_uint_t`.
pub mod Drift
pub mod Delay
mod Tests
use ameba_micro_python.Prelude.{
  ℕ, ◌+◌, ◌-◌, ◌*◌, ◌/◌, ◌%◌, ◌^◌, Bool, true, false, ◌&&◌, Option, none, some, List, [], ◌∷◌, ltb,
  leb, if◌then◌else◌,
}
use ameba_micro_python.Py.{Exc, pending, Result, ok, raise}

-- `mp_hal_ticks_ms` and `mp_hal_ticks_us` at the time `t`: 32 bits of the counter.
abbrev pub ticks : ℕ → ℕ
ticks t = t % 2 ^ 32

-- Differences of machine integers.
abbrev pub sub_32 : ℕ → ℕ → ℕ
sub_32 a b = (a + 2 ^ 32 - b) % 2 ^ 32

abbrev pub sub_64 : ℕ → ℕ → ℕ
sub_64 a b = (a + 2 ^ 64 - b) % 2 ^ 64

-- `wall_clock_base_ms` and `wall_clock_base_tick_ms`
pub record WallClock : Type 0 where
  pub base_ms : ℕ
  pub base_tick_ms : ℕ

-- `wall_clock_now_ms`, which reads the counter at `t1` and again at `t2`.
unfoldable pub now_ms : WallClock → ℕ → ℕ → ℕ × WallClock
now_ms w t1 t2 =
    let elapsed_ms = sub_32 (ticks t1) w.base_tick_ms in
    let now = (w.base_ms + elapsed_ms) % 2 ^ 64 in
    (now, record { base_ms = now; base_tick_ms = ticks t2 })

-- `struct timeval`, of a time from 1970 on
pub record Timeval : Type 0 where
  pub tv_sec : ℕ
  pub tv_usec : ℕ

-- `_gettimeofday`
unfoldable pub gettimeofday : WallClock → ℕ → ℕ → Timeval × WallClock
unfolding now_ms
gettimeofday w t1 t2 =
    let (now, w') = now_ms w t1 t2 in
    (record { tv_sec = now / 1000; tv_usec = now % 1000 * 1000 }, w')

-- `_settimeofday` at the time `t`
unfoldable pub settimeofday : WallClock → Timeval → ℕ → WallClock
settimeofday w tv t = record {
  base_ms = (tv.tv_sec * 1000 + tv.tv_usec / 1000) % 2 ^ 64;
  base_tick_ms = ticks t;
}

-- One read of the microsecond counter, and whether the run of `mp_handle_pending(true)` beside it
-- throws.
pub record Read : Type 0 where
  pub time : ℕ
  pub throws : Bool

abbrev pub this_overhead : ℕ
this_overhead = 5

abbrev pub pend_overhead : ℕ
pend_overhead = 150

-- How a wait ends, and the reads that it has not used; `none` where the reads end before it.
abbrev pub Wait : Type 0
Wait = Option (Result (Unit {0}) × List Read)

-- The loop of `mp_hal_delay_us`, with `us` without the overhead and `t0` the first read.
unfoldable pub delay_us_loop : ℕ → ℕ → List Read → Wait
delay_us_loop us t0 [] = none
delay_us_loop us t0 (r ∷ reads) =
    let rest = delay_us_loop us t0 reads in
    let dt = sub_64 (ticks r.time) (ticks t0) in
    if leb us dt
    then some (ok tt, reads)
    else if ltb (dt + pend_overhead) us && r.throws
    then some (raise pending, reads)
    else rest

-- `mp_hal_delay_us`
unfoldable pub delay_us : ℕ → List Read → Wait
unfolding delay_us_loop
delay_us us [] = if ltb us this_overhead then some (ok tt, []) else none
delay_us us (r ∷ reads) =
    if ltb us this_overhead
    then some (ok tt, r ∷ reads)
    else delay_us_loop (us - this_overhead) r.time reads

-- The end of `mp_hal_delay_ms`: the read after `taskYIELD`, and the rest of the delay.
unfoldable pub delay_ms_rest : ℕ → ℕ → List Read → Wait
unfolding delay_us
delay_ms_rest us t0 [] = none
delay_ms_rest us t0 (r ∷ reads) =
    let dt = sub_64 (ticks r.time) (ticks t0) in
    if ltb dt us then delay_us (sub_64 us dt % 2 ^ 32) reads else some (ok tt, reads)

-- The loop of `mp_hal_delay_ms`; `tick_us` is `portTICK_PERIOD_MS * 1000`, and the exception of a
-- round is thrown before its read.
unfoldable pub delay_ms_loop : ℕ → ℕ → ℕ → List Read → Wait
unfolding delay_ms_rest
delay_ms_loop tick_us us t0 [] = none
delay_ms_loop tick_us us t0 (r ∷ reads) =
    let again = delay_ms_loop tick_us us t0 reads in
    let dt = sub_64 (ticks r.time) (ticks t0) in
    if r.throws
    then some (raise pending, r ∷ reads)
    else if leb us ((dt + tick_us) % 2 ^ 64)
    then delay_ms_rest us t0 reads
    else again

-- `mp_hal_delay_ms`
unfoldable pub delay_ms : ℕ → ℕ → List Read → Wait
unfolding delay_ms_loop
delay_ms tick_us ms [] = none
delay_ms tick_us ms (r ∷ reads) = delay_ms_loop tick_us (ms * 1000 % 2 ^ 64) r.time reads
