-- ===== src/Bitstream/Tests.antt =====
-- Runs of the definitions of machine_bitstream.c on concrete buffers.
use ameba_micro_python.Prelude.{◌≡◌, ◌⊎◌, refl, true, false, some, [], ◌∷◌, arith}
use ameba_micro_python.Py.{ok, raise, memory_error}
use ameba_micro_python.Bitstream.{
  Timing, software_timing, ledc_timing, pack, wait_done, given, raises, by_software, ledc_bits,
  high_low,
}
use ameba_micro_python.Bitstream.Paths.{high_low-cases}

-- The timing of a WS2812, in nanoseconds.
abbrev neopixel : Timing
neopixel = record { high_0 = 400; low_0 = 850; high_1 = 800; low_1 = 450 }

-- The second entry of each pair becomes the period.
software_timing_run :
    software_timing 100 neopixel ≡ record { high_0 = 40; low_0 = 125; high_1 = 80; low_1 = 125 }
unfolding software_timing
software_timing_run = refl

ledc_timing_run : ledc_timing neopixel ≡ record { high_0 = 16; low_0 = 34; high_1 = 32; low_1 = 18 }
unfolding ledc_timing
ledc_timing_run = refl

pack_run : pack (1 ∷ 2 ∷ 3 ∷ []) ≡ 66051 ∷ []
unfolding pack
pack_run = refl

-- The flag is set at the second look, and not within 100 ms.
wait_done_run : wait_done 10 ((false, 50) ∷ (true, 60) ∷ []) ≡ some true
unfolding wait_done
wait_done_run = refl

wait_done_late : wait_done 10 ((false, 50) ∷ (false, 100011) ∷ (true, 0) ∷ []) ≡ some false
unfolding wait_done
wait_done_late = refl

-- A transfer that does not finish in time returns as one that does.
high_low_late :
    high_low ledc_bits true true given false (1 ∷ 2 ∷ 3 ∷ [])
    ≡ (ok tt, record { bits = []; held = false })
unfolding high_low
high_low_late = refl

-- One LED, by the controller.
high_low-cases_example :
    (high_low ledc_bits true true given true (1 ∷ 2 ∷ 3 ∷ [])
      ≡ (ok tt, by_software (1 ∷ 2 ∷ 3 ∷ [])))
    ⊎ ((given ≡ raises)
        × (high_low ledc_bits true true given true (1 ∷ 2 ∷ 3 ∷ [])
            ≡ (raise memory_error, record { bits = []; held = true })))
high_low-cases_example =
    high_low-cases ledc_bits (λ words. refl) true true given (1 ∷ 2 ∷ 3 ∷ [])
      (omega arith, (omega arith, (omega arith, tt)))
