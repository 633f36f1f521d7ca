-- ===== src/Uart/Tests.antt =====
-- The theorems on the serial port at concrete inputs.
use ameba_micro_python.Prelude.{
  ℕ, zero, suc, ◌+◌, ◌<◌, ◌≤◌, ◌≡◌, ◌≢◌, ◌⊎◌, ◌++◌, refl, true, false, none, some, List, [], ◌∷◌,
  length, arith, pos, negsuc,
}
use ameba_micro_python.Py.{os_error, eagain, Result, ok, raise}
use ameba_micro_python.RingBuf.Tests.{three, three-IsQueue}
use ameba_micro_python.PinName.{number}
use ameba_micro_python.Uart.{Config, Uart, Args, init_helper}
use ameba_micro_python.Uart.Init.{at_boot, next, inits, at_reset, Reach-IsValid}
use ameba_micro_python.Uart.Read.{read, read_loop, flow}
use ameba_micro_python.Uart.Read.Takes.{read-Takes}
use ameba_micro_python.Uart.Read.Total.{read-total}
use ameba_micro_python.Uart.Init.Checks.{IsValid}
use ameba_micro_python.Uart.Transmit
use ameba_micro_python.Uart.Transmit.{
  Tx, idle, queue_byte, end_queueing, feed_byte, fill_tx_fifo, txdone,
}

abbrev nothing_given : Args
nothing_given = record {
  baudrate = negsuc 0;
  bits = negsuc 0;
  parity = none;
  stop = negsuc 0;
  tx = none;
  rx = none;
  timeout = negsuc 0;
  timeout_char = negsuc 0;
  rxbuf = negsuc 0;
  txbuf = negsuc 0;
}

abbrev running : Uart
running = (init_helper 1 at_reset nothing_given true).1

Reach-IsValid_example :
    ((running.initialized ≡ false) × (running.driver ≡ none))
    ⊎ ((c : Config) × (running.initialized ≡ true) × (running.driver ≡ some c) × IsValid c)
Reach-IsValid_example = Reach-IsValid 1 running (next at_boot (inits nothing_given true refl))

-- The port after a refused `init(tx=0)`.
abbrev misconfigured : Uart
misconfigured = (init_helper 1 running (record nothing_given { tx = some (number (pos 0)) }) true).1

-- Nothing arrives but one byte before look 1.
abbrev late_byte : ℕ → List ℕ
late_byte zero = []
late_byte (suc zero) = 9 ∷ []
late_byte (suc (suc i)) = []

abbrev clock : ℕ → ℕ
clock i = 100 + i

read-Takes_example :
    (bytes : List ℕ) × (k : ℕ) × (length bytes ≤ 2)
    × (bytes ++ [] ≡ (4 ∷ []) ++ flow late_byte 0 k)
    × (((bytes ≡ []) × (◌≡◌ {A = Result (List ℕ)} (ok (4 ∷ 9 ∷ [])) (raise (os_error eagain))))
        ⊎ ((0 < length bytes) × (ok (4 ∷ 9 ∷ []) ≡ ok bytes)))
unfolding read read_loop ameba_micro_python.RingBuf.Fill.put_all
read-Takes_example =
    read-Takes three three-IsQueue late_byte clock 20 5 (4 ∷ []) 99 5 1 (ok (4 ∷ 9 ∷ []), [])
      (omega arith) refl

read-total_example : read three late_byte clock 0 200000 (4 ∷ []) 99 5 2 ≢ none
read-total_example =
    read-total three three-IsQueue late_byte clock 0 65536 200000 (4 ∷ []) 99 5 2
      (λ j. (omega arith, omega arith)) (λ j. omega arith) (omega arith) (omega arith) (omega arith)
      (omega arith) (omega arith)

-- Two bytes written, of which the FIFO has taken one.
abbrev writing : Tx (List ℕ)
writing = queue_byte three (queue_byte three (idle three []) 1) 2

abbrev one_sent : Tx (List ℕ)
one_sent = Transmit.put_next three (Transmit.get_next three (end_queueing three writing)) 1

-- The interrupt is armed, and comes while the thread holds the byte 2 of the next write.
abbrev crossing : Tx (List ℕ)
crossing =
    Transmit.interrupted three
      (Transmit.get_next three (
        end_queueing three
          (queue_byte three (queue_byte three (Transmit.fill_end three one_sent) 3) 4)))
      1

-- The byte 3 has been sent before the byte 2.
crossing_run : crossing.wire ≡ 1 ∷ 3 ∷ []
unfolding fill_tx_fifo
crossing_run = refl
