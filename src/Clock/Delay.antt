-- ===== src/Clock/Delay.antt =====
-- `mp_hal_delay_us` of mphalport.c against the clock.
use ameba_micro_python.Prelude.{
  ℕ, ◌+◌, ◌-◌, ◌/◌, ◌^◌, ◌≤◌, ◌<◌, ◌≡◌, refl, false, ◌&&◌, none, some, List, [], ◌∷◌, ltb, leb,
  if◌then◌else◌, arith,
}
use ameba_micro_python.Py.{ok, raise, pending}
use ameba_micro_python.Clock.{ticks, sub_64, Read, Wait, delay_us_loop, delay_us}

-- Reads from the time `t0` on that throw nothing, before the 32 bits of the counter wrap.
abbrev pub Steady : ℕ → List Read → Type 0
Steady t0 [] = Unit {0}
Steady t0 (r ∷ reads) =
    (t0 ≤ r.time) × (r.time / 2 ^ 32 ≡ t0 / 2 ^ 32) × (r.throws ≡ false) × Steady t0 reads

-- The wait that ends with the first read at the time `t` or later.
abbrev pub until : ℕ → List Read → Wait
until t [] = none
until t (r ∷ reads) = if leb t r.time then some (ok tt, reads) else until t reads

sub_64-elapsed :
    (t0 t : ℕ) → t0 ≤ t → t / 2 ^ 32 ≡ t0 / 2 ^ 32 → sub_64 (ticks t) (ticks t0) ≡ t - t0
sub_64-elapsed t0 t h k = omega arith

delay_us_loop-until :
    (us t0 : ℕ) (reads : List Read)
    → Steady t0 reads
    → delay_us_loop us t0 reads ≡ until (t0 + us) reads
unfolding delay_us_loop
delay_us_loop-until us t0 [] h = refl
delay_us_loop-until us t0 (r ∷ reads) (le, near, calm, h) =
    rw (delay_us_loop-until us t0 reads h, sub_64-elapsed t0 r.time le near, calm)
      (choose (until (t0 + us) reads))
  where
    choose :
        (rest : Wait)
        → (if leb us (r.time - t0)
            then some (ok tt, reads)
            else if ltb (r.time - t0 + 150) us && false
            then some (raise pending, reads)
            else rest)
          ≡ (if leb (t0 + us) r.time then some (ok tt, reads) else rest)
    choose rest = ground (arith, le)

-- A delay of 5 us or more, with no exception and no wrap of the counter, ends with the first read of
-- the clock that is `us - 5` us or more after the read it starts with; a shorter one reads nothing.
delay_us-until :
    (us : ℕ) (r : Read) (reads : List Read)
    → Steady r.time reads
    → delay_us us (r ∷ reads)
      ≡ (if ltb us 5 then some (ok tt, r ∷ reads) else until (r.time + (us - 5)) reads)
unfolding delay_us
delay_us-until us r reads h = rw (delay_us_loop-until (us - 5) r.time reads h) refl

-- Once the counter has wrapped after the start, the delay ends, however long it was to be.
pub delay_us-wrap :
    (us : ℕ) (r0 r : Read) (reads : List Read)
    → us < 2 ^ 32
    → ticks r.time < ticks r0.time
    → 5 ≤ us
    → delay_us us (r0 ∷ r ∷ reads) ≡ some (ok tt, reads)
unfolding delay_us delay_us_loop
delay_us-wrap us r0 r reads h w k = ground arith
