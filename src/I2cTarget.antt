-- ===== src/I2cTarget.antt =====
-- ports/ameba-rtos-m/src/machine_i2c_target.c: the interrupt of `machine.I2CTarget`, between the
-- controller and the state machine of extmod/machine_i2c_target.c, of which the calls are recorded in
-- order. What that side does in a call, `read_bytes` among it, is a step of its own after the interrupt.
pub mod Trace
mod Tests
use ameba_micro_python.Prelude.{
  ℕ, zero, suc, Bool, true, false, not, ◌&&◌, List, [], ◌∷◌, ◌++◌, if◌then◌else◌,
}

-- `state` of the object; INACTIVE is the state after `deinit`.
pub data State : Type 0 where
  inactive idle reading writing : State

-- The calls of `machine_i2c_target_data_...`: addr_match (true for a read), read_request,
-- write_request and restart_or_stop.
pub data Call : Type 0 where
  addr_match : Bool → Call
  read_request write_request restart_or_stop : Call

-- The object, with the calls so far, latest last; `rx_full_on` is the mask bit of RX_FULL.
pub record Target : Type 0 where
  pub state : State
  pub stop_pending : Bool
  pub rx_full_on : Bool
  pub calls : List Call

-- What one interrupt reads: its pending bits, whether the RX FIFO has a byte when the stop is looked
-- at and at the end, and whether the address has matched.
pub record Input : Type 0 where
  pub rx_done : Bool
  pub stop_det : Bool
  pub rx_full : Bool
  pub rd_req : Bool
  pub has_byte : Bool
  pub has_byte_after : Bool
  pub addr_matched : Bool

abbrev pub is_reading : State → Bool
is_reading reading = true
is_reading _ = false

abbrev pub is_writing : State → Bool
is_writing writing = true
is_writing _ = false

abbrev pub call : Target → Call → Target
call self c = record self { calls = self.calls ++ c ∷ [] }

-- A request of the master to read or to write, with the address match at its start.
abbrev pub begin_read : Target → Target
begin_read self =
    if is_reading self.state then self else call (record self { state = reading }) (addr_match true)

abbrev pub request_read : Target → Target
request_read self = call (begin_read self) read_request

abbrev pub begin_write : Target → Target
begin_write self =
    if is_writing self.state
    then self
    else call (record self { state = writing }) (addr_match false)

abbrev pub request_write : Target → Target
request_write self = call (begin_write (record self { rx_full_on = false })) write_request

-- The end of a transfer.
abbrev pub finish : Target → Target
finish self = record (call self restart_or_stop) { state = idle }

-- The branch of STOP_DET.
unfoldable pub on_stop : Target → Bool → Bool → Target
on_stop self has_byte is_probe =
    if has_byte
    then record self { stop_pending = true }
    else if is_probe
    then finish (call self (addr_match false))
    else finish self

abbrev pub when : Bool → Target → Target → Target
when b self' self = if b then self' else self

-- `i2c_target_irq_handler`; `data_idle` tells from the calls so far whether the extmod side is in
-- STATE_IDLE.
unfoldable pub handler : (List Call → Bool) → Target → Input → Target
unfolding on_stop
handler data_idle self i =
    let a : Target = when i.rx_done (request_read self) self in
    let b : Target =
      when i.stop_det (on_stop a i.has_byte (data_idle a.calls && i.addr_matched)) a in
    let c : Target = when i.rx_full (request_write b) b in
    let d : Target = when i.rd_req (request_read c) c in
    when (d.stop_pending && not i.has_byte_after) (finish (record d { stop_pending = false })) d

-- `mp_machine_i2c_target_read_bytes` of `len` bytes: the bytes, what is left in the FIFO, and the
-- object; and `mp_machine_i2c_target_write_bytes`, where the FIFO has room for `room` bytes: what is
-- sent.
unfoldable pub read_fifo : ℕ → List ℕ → List ℕ × List ℕ
read_fifo zero fifo = ([], fifo)
read_fifo (suc n) [] = ([], [])
read_fifo (suc n) (c ∷ fifo) = let (cs, rest) = read_fifo n fifo in (c ∷ cs, rest)

abbrev pub read_bytes : Target → ℕ → List ℕ → List ℕ × List ℕ × Target
read_bytes self len fifo =
    let (cs, rest) = read_fifo len fifo in (cs, rest, record self { rx_full_on = true })

unfoldable pub write_bytes : ℕ → List ℕ → List ℕ
write_bytes room [] = []
write_bytes zero (c ∷ cs) = []
write_bytes (suc room) (c ∷ cs) = c ∷ write_bytes room cs

-- `mp_machine_i2c_target_deinit`
abbrev pub deinit : Target → Bool → Target × Bool
deinit self false = (self, false)
deinit self true = (record self { state = inactive; rx_full_on = false }, false)
