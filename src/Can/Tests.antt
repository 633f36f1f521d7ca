-- ===== src/Can/Tests.antt =====
-- Runs of the slots and of the counters.
use ameba_micro_python.Prelude.{
  ℕ, ◌≡◌, ◌≢◌, ◌⊎◌, some, refl, true, false, none, [], ◌∷◌, ◌==◌, arith,
}
use ameba_micro_python.Can.{Can, Status, Flags, send, scan, restart}
use ameba_micro_python.Can.Send.{World, written, starts, next, sends, Reach-Ordered}

abbrev idle : Can
idle = record {
  port = record { tx = λ j. none; irq_state_pending = false; error_passive = false };
  counters = record { rx_overruns = 0; num_passive = 0; num_warning = 0; num_bus_off = 0 };
  on_rx = false;
  on_tx = false;
  on_state = true;
  has_irq = false;
}

abbrev plain : Flags
plain = record { rtr = false; ext_id = false; unordered = false }

abbrev one_sent : Can
one_sent = record idle { port = (send idle.port 5 (1 ∷ []) plain).1 }

abbrev in_error : Status
in_error = record {
  rx_int = false;
  tx_int = true;
  err_int = true;
  busoff_int = false;
  overflow = false;
  done = λ j. j == 0;
  err = λ j. false;
  passive = true;
  warning = false;
}

-- The message 5, then the message 6, wait in the hardware.
abbrev two_wait : World
two_wait = record {
  can = record one_sent { port = (send one_sent.port 6 (2 ∷ []) plain).1 };
  hw =
      written (written (λ j. none) 5 (send idle.port 5 (1 ∷ []) plain).0) 6
        (send one_sent.port 6 (2 ∷ []) plain).0;
}

Reach-Ordered_example :
    (two_wait.can.port.tx 0 ≡ some 5) × ((two_wait.hw 1 ≢ some 5) ⊎ (◌≡◌ {A = ℕ} 0 1))
unfolding send scan restart
Reach-Ordered_example =
    Reach-Ordered idle two_wait 0 1 5
      (next (next starts (sends 5 (1 ∷ []) plain refl refl)) (sends 6 (2 ∷ []) plain refl refl))
      (omega arith) (omega arith) refl
