-- ===== src/Usb/Tests.antt =====
-- The theorems on the USB port at concrete inputs.
use ameba_micro_python.Prelude.{◌≡◌, refl, Bool, true, false, [], ◌∷◌}
use ameba_micro_python.Py.{ok}
use ameba_micro_python.Usb.{
  Answers, Hal, hal_ok, hal_busy, Link, Schedule, transmit_blocking, received, read,
}
use ameba_micro_python.Usb.Transmit.{transmit_blocking-true}
use ameba_micro_python.Usb.Receive.{read-received}
use ameba_micro_python.RingBuf.Tests.{three, three-IsQueue}

-- The endpoint takes one transfer at a time.
abbrev one_at_a_time : Bool → Hal
one_at_a_time false = hal_ok
one_at_a_time true = hal_busy

-- Completions in the two waits only, and one between the drain and the transmit.
abbrev in_waits : Schedule
in_waits = record {
  before_drain = false;
  before_transmit = false;
  in_busy = true;
  before_retry = false;
  in_wait = true;
}

abbrev early : Schedule
early = record in_waits { before_transmit = true; in_wait = false }

abbrev flying : Link
flying = record { in_flight = true; token = false }

transmit_blocking-true_example :
    (transmit_blocking one_at_a_time true in_waits flying).1.in_flight ≡ false
unfolding transmit_blocking
transmit_blocking-true_example =
    transmit_blocking-true one_at_a_time in_waits flying (λ e. cc) refl refl

abbrev no_mutex : Answers
no_mutex = record { sema = true; mutex = false; usbd = true; cdc_acm = true }

read-received_example :
    let b' = (received three (7 ∷ []) 0 (8 ∷ 9 ∷ 10 ∷ [])).0 in
    ((read three b' 2).0 ≡ ok (7 ∷ 8 ∷ [])) × ((read three b' 2).1 ≡ 9 ∷ [])
read-received_example = read-received three three-IsQueue (7 ∷ []) 0 2 (8 ∷ 9 ∷ 10 ∷ [])
