-- ===== src/Bitstream.antt =====
-- ports/ameba-rtos-m/src/machine_bitstream.c: `machine.bitstream`, which sends bytes as pulses of two
-- widths, by the LED controller of the AmebaDplus or by a loop of the processor. The allocators of the
-- DMA channel and of memory, and the controller with the time that it takes, are arguments.
pub mod Paths
mod Tests
use ameba_micro_python.Prelude.{
  ℕ, zero, suc, ◌+◌, ◌-◌, ◌*◌, ◌/◌, ◌%◌, ◌^◌, Bool, true, false, ◌&&◌, Option, none, some, List, [],
  ◌∷◌, ◌++◌, length, ltb, leb, ◌==◌, if◌then◌else◌,
}
use ameba_micro_python.Py.{Exc, memory_error, Result, ok, raise}

-- The macros of the file.
abbrev pub ns_cycles_overhead : ℕ
ns_cycles_overhead = 0

abbrev pub bitstream_ledc_max_leds : ℕ
bitstream_ledc_max_leds = 1024

abbrev pub bitstream_ledc_ns_per_tick : ℕ
bitstream_ledc_ns_per_tick = 25

abbrev pub bitstream_ledc_timeout_us : ℕ
bitstream_ledc_timeout_us = 100000

-- `timing_ns`: the width of the pulse and of the rest, for a 0 and for a 1.
pub record Timing : Type 0 where
  pub high_0 : ℕ
  pub low_0 : ℕ
  pub high_1 : ℕ
  pub low_1 : ℕ

-- One entry in cycles, less the overhead.
abbrev pub cycles : ℕ → ℕ → ℕ
cycles mhz ns =
    let t = mhz * ns % 2 ^ 32 / 1000 in
    if ltb (2 * ns_cycles_overhead) t then t - ns_cycles_overhead else 0

-- An entry of a rest becomes that of the whole period.
abbrev pub period : ℕ → ℕ → ℕ
period high low = (low + (high + 2 ^ 32 - ns_cycles_overhead) % 2 ^ 32) % 2 ^ 32

-- The start of `bitstream_software_fallback`: it writes the cycles to the caller's array.
unfoldable pub software_timing : ℕ → Timing → Timing
software_timing mhz t = record {
  high_0 = cycles mhz t.high_0;
  low_0 = period (cycles mhz t.high_0) (cycles mhz t.low_0);
  high_1 = cycles mhz t.high_1;
  low_1 = period (cycles mhz t.high_1) (cycles mhz t.low_1);
}

-- The timing of `bitstream_ledc_configure`.
unfoldable pub ledc_timing : Timing → Timing
ledc_timing t = record {
  high_0 = t.high_0 / bitstream_ledc_ns_per_tick;
  low_0 = t.low_0 / bitstream_ledc_ns_per_tick;
  high_1 = t.high_1 / bitstream_ledc_ns_per_tick;
  low_1 = t.low_1 / bitstream_ledc_ns_per_tick;
}

-- The inner loop of the software path: the top bit chooses the pulse, then the byte is shifted.
unfoldable pub byte_bits : ℕ → ℕ → List Bool
byte_bits zero b = []
byte_bits (suc n) b = leb 128 b ∷ byte_bits n (b * 2 % 256)

-- Its outer loop.
unfoldable pub software_bits : List ℕ → List Bool
unfolding byte_bits
software_bits [] = []
software_bits (b ∷ buf) = byte_bits 8 b ++ software_bits buf

-- `bitstream_ledc_pack`: a word of each three bytes; a byte is below 256, so that the sum is the `|`.
unfoldable pub pack : List ℕ → List ℕ
pack (a ∷ b ∷ c ∷ buf) = (a * 65536 + b * 256 + c) ∷ pack buf
pack buf = []

-- The order that the packing relies on: the controller sends a word from bit 23 to bit 0.
unfoldable pub ledc_word : ℕ → ℕ → List Bool
ledc_word zero w = []
ledc_word (suc n) w = (w / 2 ^ n % 2 == 1) ∷ ledc_word n w

unfoldable pub ledc_bits : List ℕ → List Bool
unfolding ledc_word
ledc_bits [] = []
ledc_bits (w ∷ words) = ledc_word 24 w ++ ledc_bits words

-- `bitstream_ledc_wait_done` over the looks at the flag, each with the time read after it where it is
-- not set; `none` where the looks end.
unfoldable pub wait_done : ℕ → List (Bool × ℕ) → Option Bool
wait_done start [] = none
wait_done start ((finished, now) ∷ looks) =
    let rest = wait_done start looks in
    if finished
    then some true
    else if ltb bitstream_ledc_timeout_us ((now + 2 ^ 32 - start) % 2 ^ 32)
    then some false
    else rest

-- What `m_new` does: the MicroPython core raises MemoryError where there is no memory; the code also
-- tests for NULL.
pub data Memory : Type 0 where
  given null raises : Memory

-- What has been sent, and whether the DMA channel is still allocated.
pub record Sent : Type 0 where
  pub bits : List Bool
  pub held : Bool

-- The controller sends all of its words where it finishes in time; where it does not, what it has sent is
-- not known and `bits` stays empty.
abbrev pub by_ledc : (List ℕ → List Bool) → Bool → List ℕ → Sent
by_ledc ledc finished words = record { bits = if finished then ledc words else []; held = false }

abbrev pub by_software : List ℕ → Sent
by_software buf = record { bits = software_bits buf; held = false }

-- The rest of the entry with a channel.
abbrev pub with_channel : (List ℕ → List Bool) → Memory → Bool → List ℕ → Result (Unit {0}) × Sent
with_channel ledc given finished buf = (ok tt, by_ledc ledc finished (pack buf))
with_channel ledc null finished buf = (ok tt, by_software buf)
with_channel ledc raises finished buf = (raise memory_error, record { bits = []; held = true })

-- `machine_bitstream_high_low`; `ledc` is what the controller sends for
-- its words, `dplus` holds in the build that has it, `channel` tells whether
-- `GDMA_ChnlAlloc` gives one.
unfoldable pub high_low :
    (List ℕ → List Bool) → Bool → Bool → Memory → Bool → List ℕ → Result (Unit {0}) × Sent
high_low ledc dplus channel memory finished [] = (ok tt, record { bits = []; held = false })
high_low ledc dplus channel memory finished (b ∷ buf) =
    let len = length (b ∷ buf) in
    if dplus
      && (len % 3 == 0 && (ltb 0 (len / 3) && (leb (len / 3) bitstream_ledc_max_leds && channel)))
    then with_channel ledc memory finished (b ∷ buf)
    else (ok tt, by_software (b ∷ buf))
