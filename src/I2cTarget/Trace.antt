-- ===== src/I2cTarget/Trace.antt =====
-- The order of the calls that the interrupt of an I2C target makes.
use ameba_micro_python.Prelude.{◌≡◌, refl, Bool, true, false, Option, none, some, List, [], ◌∷◌}
use ameba_micro_python.I2cTarget.{
  State, idle, reading, writing, Call, addr_match, read_request, write_request, restart_or_stop,
  Target, Input, on_stop, handler,
}

-- The protocol: a transfer begins with an address match, or goes on with the match of a repeated start in
-- the other direction; its requests go in the direction of the match; and a stop, which may come at any
-- time, ends it. `none` is a request outside of its transfer, or a match of a transfer that runs.
abbrev pub follow : State → Call → Option State
follow reading (addr_match true) = none
follow p (addr_match true) = some reading
follow writing (addr_match false) = none
follow p (addr_match false) = some writing
follow reading read_request = some reading
follow writing write_request = some writing
follow p read_request = none
follow p write_request = none
follow p restart_or_stop = some idle

abbrev pub follow_from : Option State → Call → Option State
follow_from none c = none
follow_from (some p) c = follow p c

unfoldable pub follow_all : Option State → List Call → Option State
follow_all p [] = p
follow_all p (c ∷ cs) = follow_all (follow_from p c) cs

-- The calls so far keep to the protocol, and are in the state of the object.
abbrev pub InStep : Target → Type 0
InStep self = follow_all (some idle) self.calls ≡ some self.state

-- What the extmod side calls idle: no transfer has begun since the last stop.
abbrev pub IsIdle : (List Call → Bool) → Type 0
IsIdle data_idle = (cs : List Call) → data_idle cs ≡ true → follow_all (some idle) cs ≡ some idle

module _ (data_idle : List Call → Bool) (law : IsIdle data_idle) where
  unfoldable pub run : Target → List Input → Target
  unfolding handler
  run self [] = self
  run self (i ∷ is) = run (handler data_idle self i) is

  -- The stop of a read, with the request for its last byte in the same interrupt.
  abbrev pub last_of_read : Input
  last_of_read = record {
    rx_done = true;
    stop_det = true;
    rx_full = false;
    rd_req = false;
    has_byte = false;
    has_byte_after = false;
    addr_matched = false;
  }

-- A stop that waits for a byte in the FIFO, with the request of a next read in the same interrupt: the
-- stop is passed on after the match of the next read, which is left without its state, so that the
-- next byte of that read is taken for a third transfer.
late_stop :
    (data_idle : List Call → Bool) (self : Target)
    → self.state ≡ writing
    → self.calls ≡ []
    → let i : Input = record {
      rx_done = false;
      stop_det = true;
      rx_full = true;
      rd_req = true;
      has_byte = true;
      has_byte_after = false;
      addr_matched = false;
    } in
      ((handler data_idle self i).calls
        ≡ write_request ∷ addr_match true ∷ read_request ∷ restart_or_stop ∷ [])
      × ((handler data_idle self i).state ≡ idle)
unfolding handler on_stop
late_stop data_idle self e f = rw (e, f) (refl, refl)
