-- ===== src/I2s/Tests.antt =====
-- Runs of an I2S object and of its two directions, with halves of two bytes.
use ameba_micro_python.Prelude.{
  ℕ, ◌/◌, ◌*◌, ◌%◌, ◌≤◌, ◌<◌, ◌≡◌, ◌⊎◌, refl, true, false, none, List, [], ◌∷◌, ◌++◌,
}
use ameba_micro_python.RingBuf.Tests.{three, three-IsQueue}
use ameba_micro_python.I2s.{Args, I2s, Memory, instance_for, init_helper, dma_size}
use ameba_micro_python.I2s.Life.{boots, InitOutcome, WholeOption, Reach-init, dma_size-halves}
use ameba_micro_python.I2s.Transmit.{half_at, start_tx, Line, started, starts, next, pushes}
use ameba_micro_python.I2s.Transmit.Order.{Delivers, Reach-Delivers}
use ameba_micro_python.I2s.Receive.{
  Captures, Reach-Captures, filled, fills, starts as listens, next as hears, started as listening,
  Line as Input,
}

abbrev speaker : Args
speaker = record { mode = 1; bits = 16; format = 0; rate = 44100; ibuf = 1000 }

abbrev all_well : Memory
all_well = record { dma = true; lli = true; ring = true }

Reach-init_example :
    WholeOption none × InitOutcome (init_helper 0 1 (instance_for none) true speaker all_well)
Reach-init_example = Reach-init 0 1 none true speaker all_well boots

-- An object whose construction has failed for want of memory.
abbrev starved : I2s
starved = record (instance_for none) { args = speaker; dma_buffer_size = 192 }

dma_size-halves_example :
    (dma_size 1000 / 2 % 32 ≡ 0)
    × (64 ≤ dma_size 1000 / 2)
    × (dma_size 1000 / 2 * 2 ≡ dma_size 1000)
    × ((1000 < 512) ⊎ (dma_size 1000 * 4 ≤ 1000))
dma_size-halves_example = dma_size-halves 1000

abbrev line : Line three
line = started three 2 []

abbrev pushed_line : Line three
pushed_line = record line { tx = record (line.tx) { ring = 7 ∷ [] }; pushed = 7 ∷ [] }

Reach-Delivers_example :
    (pushed_line.playing ≡ pushed_line.tx.dma_half)
    × (audio : List ℕ) × Delivers 2
        ((pushed_line.wire ++ half_at three pushed_line false) ++ half_at three pushed_line true)
        audio
    × (audio ++ 7 ∷ [] ≡ 7 ∷ [])
unfolding start_tx
Reach-Delivers_example =
    Reach-Delivers three three-IsQueue 2 [] pushed_line refl
      (next starts (pushes 7 (7 ∷ []) refl refl))

-- Two blocks in, of which the second finds too little room.
abbrev first : Input three
first = filled three 2 (1 ∷ 2 ∷ []) (listening three [])

abbrev second : Input three
second = filled three 2 (3 ∷ 4 ∷ []) first

Reach-Captures_example :
    (second.filling ≡ second.rx.dma_half)
    × Captures 2 (1 ∷ 2 ∷ 3 ∷ 4 ∷ []) (second.taken ++ second.rx.ring)
Reach-Captures_example =
    Reach-Captures three three-IsQueue 2 [] second refl
      (hears (hears listens (fills (1 ∷ 2 ∷ []) refl refl)) (fills (3 ∷ 4 ∷ []) refl refl))
