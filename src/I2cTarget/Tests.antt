-- ===== src/I2cTarget/Tests.antt =====
-- A write of one byte and a read of one byte.
use ameba_micro_python.Prelude.{◌≡◌, refl, Bool, true, false, Option, none, some, List, [], ◌∷◌}
use ameba_micro_python.I2cTarget.{Target, Input, State, Call, inactive, idle, reading, writing}
use ameba_micro_python.I2cTarget.Trace.{IsIdle, follow_all, run}

abbrev new_target : Target
new_target = record { state = idle; stop_pending = false; rx_full_on = true; calls = [] }

abbrev quiet : Input
quiet = record {
  rx_done = false;
  stop_det = false;
  rx_full = false;
  rd_req = false;
  has_byte = false;
  has_byte_after = false;
  addr_matched = false;
}

abbrev transfers : List Input
transfers =
    record quiet { rx_full = true }
    ∷ record quiet { stop_det = true }
    ∷ record quiet { rd_req = true }
    ∷ record quiet { rx_done = true; stop_det = true }
    ∷ []

-- The extmod side of these transfers, which is idle where they keep to the protocol and have ended.
abbrev is_idle : Option State → Bool
is_idle (some idle) = true
is_idle _ = false

abbrev data_idle : List Call → Bool
data_idle cs = is_idle (follow_all (some idle) cs)

data_idle-IsIdle : IsIdle data_idle
data_idle-IsIdle cs e = of_idle (follow_all (some idle) cs) e
  where
    of_idle : (o : Option State) → is_idle o ≡ true → o ≡ some idle
    of_idle (some idle) e = refl
    of_idle (some inactive) e = cc
    of_idle (some reading) e = cc
    of_idle (some writing) e = cc
    of_idle none e = cc

abbrev after : Target
after = run data_idle data_idle-IsIdle new_target transfers
