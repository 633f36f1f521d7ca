-- ===== src/Clock/Drift.antt =====
-- The wall clock of mphalport.c against the time that has passed.
use ameba_micro_python.Prelude.{
  ℕ, ◌+◌, ◌-◌, ◌*◌, ◌/◌, ◌%◌, ◌^◌, ◌≤◌, ◌<◌, ◌≡◌, refl, List, [], ◌∷◌, arith, ap, ◌∙◌, sym,
}
use mathlib.Core.Path.{ap₂}
use ameba_micro_python.Clock.{ticks, sub_32, WallClock, now_ms, Timeval, gettimeofday, settimeofday}

-- One call of `_gettimeofday`: the times of its two reads of the counter.
abbrev pub Call : Type 0
Call = ℕ × ℕ

abbrev pub run : WallClock → List Call → WallClock
run w [] = w
run w ((t1, t2) ∷ calls) = run (gettimeofday w t1 t2).1 calls

-- Calls one after another from the time `t` on, less than the 49.7 days of a wrap apart.
abbrev pub InOrder : ℕ → List Call → Type 0
InOrder t [] = Unit {0}
InOrder t ((t1, t2) ∷ calls) = (t ≤ t1) × (t1 - t < 2 ^ 32) × (t1 ≤ t2) × InOrder t2 calls

abbrev pub last_time : ℕ → List Call → ℕ
last_time t [] = t
last_time t ((t1, t2) ∷ calls) = last_time t2 calls

-- The time between the two reads, over all calls.
abbrev pub between_reads : List Call → ℕ
between_reads [] = 0
between_reads ((t1, t2) ∷ calls) = (t2 - t1) + between_reads calls

last_time-le : (t : ℕ) (calls : List Call) → InOrder t calls → t ≤ last_time t calls
last_time-le t [] h = omega arith
last_time-le t ((t1, t2) ∷ calls) (a, b, c, h) = omega (arith, last_time-le t2 calls h, a, c)

sub_32-elapsed : (t t1 : ℕ) → t ≤ t1 → t1 - t < 2 ^ 32 → sub_32 (ticks t1) (ticks t) ≡ t1 - t
sub_32-elapsed t t1 h k = omega arith

-- After any calls of `_gettimeofday`, in order and each less than a wrap of the counter after the one
-- before, the clock shows the time that it was set to and the time that has passed since, less the
-- times that passed between the two reads of the counter in each call: it loses these and nothing
-- else, however many times the counter wraps.
pub run-between_reads :
    (w : WallClock) (t : ℕ) (calls : List Call)
    → w.base_tick_ms ≡ ticks t
    → InOrder t calls
    → w.base_ms + (last_time t calls - t) < 2 ^ 64
    → (run w calls).base_ms + between_reads calls ≡ w.base_ms + (last_time t calls - t)
unfolding gettimeofday now_ms
run-between_reads w t [] e h b = omega arith
run-between_reads w t ((t1, t2) ∷ calls) e (le, near, le', h) b =
    let w' : WallClock = (gettimeofday w t1 t2).1 in
    let step : sub_32 (ticks t1) w.base_tick_ms ≡ t1 - t =
      ap (sub_32 (ticks t1)) e ∙ sub_32-elapsed t t1 le near in
    let later = last_time-le t2 calls h in
    let base : w'.base_ms ≡ w.base_ms + (t1 - t) =
      ap (λ d. (w.base_ms + d) % 2 ^ 64) step ∙ omega (arith, b, later, le') in
    let ih = run-between_reads w' t2 calls refl h (omega (arith, base, b, later, le, le')) in
    omega (arith, ih, base, later, le, le')

abbrev timeval_of : ℕ → Timeval
timeval_of now = record { tv_sec = now / 1000; tv_usec = now % 1000 * 1000 }

timeval_of-lem :
    (sec usec : ℕ)
    → usec < 1000000
    → timeval_of (sec * 1000 + usec / 1000) ≡ record { tv_sec = sec; tv_usec = usec / 1000 * 1000 }
timeval_of-lem sec usec h =
    ap₂ (λ a b. record { tv_sec = a; tv_usec = b }) (omega (arith, h)) (omega (arith, h))

-- A time that is set is read back at the same moment, its microseconds rounded down to the
-- millisecond; and setting the clock to what was read leaves it as it is.
pub gettimeofday-settimeofday :
    (w : WallClock) (tv : Timeval) (t t2 : ℕ)
    → tv.tv_usec < 1000000
    → tv.tv_sec * 1000 + 1000 < 2 ^ 64
    → let out = gettimeofday (settimeofday w tv t) t t2 in
      (out.0 ≡ record { tv_sec = tv.tv_sec; tv_usec = tv.tv_usec / 1000 * 1000 })
      × (settimeofday out.1 out.0 t2 ≡ out.1)
unfolding gettimeofday settimeofday now_ms
gettimeofday-settimeofday w tv t t2 h b =
    let n : ℕ = tv.tv_sec * 1000 + tv.tv_usec / 1000 in
    let same : sub_32 (ticks t) (ticks t) ≡ 0 = omega arith in
    let now : (n % 2 ^ 64 + sub_32 (ticks t) (ticks t)) % 2 ^ 64 ≡ n = omega (arith, h, b, same) in
    (
      ap timeval_of now ∙ timeval_of-lem tv.tv_sec tv.tv_usec h,
      ap (λ m. settimeofday (record { base_ms = m; base_tick_ms = ticks t2 }) (timeval_of m) t2) now
          ∙ set_back n (omega (arith, h, b))
          ∙ ap (λ m. record { base_ms = m; base_tick_ms = ticks t2 }) (sym now),
    )
  where
    set_back :
        (n : ℕ)
        → n < 2 ^ 64
        → settimeofday (record { base_ms = n; base_tick_ms = ticks t2 }) (timeval_of n) t2
          ≡ record { base_ms = n; base_tick_ms = ticks t2 }
    set_back n k = ap (λ m. record { base_ms = m; base_tick_ms = ticks t2 }) (omega (arith, k))
