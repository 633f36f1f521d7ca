-- ===== src/Can.antt =====
-- ports/ameba-rtos-m/src/machine_can.c: the controller's side of `machine.CAN`. The registers of the
-- hardware enter by what is read from them; a mask of message buffers is a function of the bit. The
-- widths of the counters are those of extmod/machine_can.c.
pub mod Slots
pub mod Send
pub mod Frames
pub mod Errors
mod Tests
use ameba_micro_python.Prelude.{
  ℕ, zero, suc, ◌+◌, ◌-◌, ◌/◌, ◌%◌, Bool, true, false, not, ◌&&◌, ◌||◌, Option, none, some, List,
  [], length, take, ◌==◌, ltb, if◌then◌else◌,
}

abbrev pub can_tx_queue_len : ℕ
can_tx_queue_len = 8

-- `machine_can_port`: `tx` is the id of each slot, `none` being TX_EMPTY.
pub record Port : Type 0 where
  pub tx : ℕ → Option ℕ
  pub irq_state_pending : Bool
  pub error_passive : Bool

pub record Counters : Type 0 where
  pub rx_overruns : ℕ
  pub num_passive : ℕ
  pub num_warning : ℕ
  pub num_bus_off : ℕ

-- The object: which of the three triggers are set, and whether there is a handler.
pub record Can : Type 0 where
  pub port : Port
  pub counters : Counters
  pub on_rx : Bool
  pub on_tx : Bool
  pub on_state : Bool
  pub has_irq : Bool

-- What the interrupt reads: the pending interrupts, the overflow of the FIFO, the buffers that are
-- done and those that have failed, and the two error states.
pub record Status : Type 0 where
  pub rx_int : Bool
  pub tx_int : Bool
  pub err_int : Bool
  pub busoff_int : Bool
  pub overflow : Bool
  pub done : ℕ → Bool
  pub err : ℕ → Bool
  pub passive : Bool
  pub warning : Bool

-- `__builtin_ctz` of a mask, from bit `i` on; `none` is a mask of no bits.
unfoldable pub ctz : (ℕ → Bool) → ℕ → ℕ → Option ℕ
ctz mask zero i = none
ctz mask (suc n) i = let rest = ctz mask n (i + 1) in if mask i then some i else rest

abbrev pub without : (ℕ → Bool) → ℕ → ℕ → Bool
without mask idx j = if j == idx then false else mask j

abbrev pub emptied : (ℕ → Option ℕ) → ℕ → ℕ → Option ℕ
emptied tx idx j = if j == idx then none else tx j

-- The buffers that have been sent or have failed.
abbrev pub finished : Status → ℕ → Bool
finished s j = (s.done j || s.err j) && ltb j can_tx_queue_len

-- The loop of the interrupt over the finished buffers.
unfoldable pub free_loop : ℕ → (ℕ → Bool) → (ℕ → Option ℕ) → ℕ → Option ℕ
unfolding ctz
free_loop zero mask tx = tx
free_loop (suc n) mask tx = elim (ctz mask can_tx_queue_len 0) [
  | none ↦ tx
  | some idx ↦ free_loop n (without mask idx) (emptied tx idx)
]

-- The branches of `can_port_isr`, with `call_irq`.
abbrev pub rx_branch : Can → Status → Can × Bool
rx_branch self s =
    if s.rx_int
    then (
      record self {
        counters = record (self.counters) {
          rx_overruns =
              if s.overflow then self.counters.rx_overruns + 1 else self.counters.rx_overruns;
        };
      },
      self.on_rx,
    )
    else (self, false)

abbrev pub with_tx : Can → (ℕ → Option ℕ) → Can
with_tx self tx = record self { port = record (self.port) { tx = tx } }

unfoldable pub tx_branch : Can × Bool → Status → Can × Bool
unfolding free_loop
tx_branch (self, call) s =
    if s.tx_int
    then if self.on_tx
      then (self, true)
      else (with_tx self (free_loop can_tx_queue_len (finished s) self.port.tx), call)
    else (self, call)

-- The error counters, the state that is remembered, and whether it has changed.
unfoldable pub count_error : Port → Counters → Bool → Bool → Port × Counters × Bool
count_error port c passive warning =
    if passive
    then (
      record port { error_passive = true },
      (if port.error_passive then c else record c { num_passive = c.num_passive + 1 }),
      not port.error_passive,
    )
    else if warning
    then (record port { error_passive = false }, record c { num_warning = c.num_warning + 1 }, true)
    else (record port { error_passive = false }, c, false)

abbrev pub mark_state : Can → Bool → Bool → Can × Bool
mark_state self changed call =
    if changed && self.on_state
    then (record self { port = record (self.port) { irq_state_pending = true } }, true)
    else (self, call)

unfoldable pub err_branch : Can × Bool → Status → Can × Bool
unfolding count_error
err_branch (self, call) s =
    let (port, counters, changed) = count_error self.port self.counters s.passive s.warning in
    if s.err_int
    then mark_state (record self { port = port; counters = counters }) changed call
    else (self, call)

unfoldable pub busoff_branch : Can × Bool → Status → Can × Bool
busoff_branch (self, call) s =
    if s.busoff_int
    then mark_state
        (record self {
          port = record (self.port) { error_passive = false };
          counters = record (self.counters) { num_bus_off = self.counters.num_bus_off + 1 };
        })
        true call
    else (self, call)

-- `can_port_isr`: the object, and whether the handler is called.
unfoldable pub isr : Can → Status → Can × Bool
unfolding tx_branch err_branch busoff_branch
isr self s =
    let (self', call) = busoff_branch (err_branch (tx_branch (rx_branch self s) s) s) s in
    (self', call && self'.has_irq)

-- A difference in 8 bits.
abbrev pub minus_u8 : ℕ → ℕ → ℕ
minus_u8 a b = (a + 256 - b) % 256

abbrev pub clamp_prop : ℕ → ℕ
clamp_prop n = if ltb n 2 then 2 else if ltb 6 n then 6 else n

-- `machine_can_port_split_tseg1`, from a number of 8 bits.
unfoldable pub split_tseg1 : ℕ → ℕ × ℕ
split_tseg1 tseg1 =
    let prop : ℕ = clamp_prop (tseg1 / 2) in
    let phase1 : ℕ = minus_u8 tseg1 prop in
    if ltb phase1 2
    then (minus_u8 tseg1 2, 2)
    else if ltb 8 phase1
    then (minus_u8 tseg1 8, 8)
    else (prop, phase1)

-- The flags of a message: CAN_MSG_FLAG_RTR, CAN_MSG_FLAG_EXT_ID and CAN_MSG_FLAG_UNORDERED.
pub record Flags : Type 0 where
  pub rtr : Bool
  pub ext_id : Bool
  pub unordered : Bool

-- A message as the driver takes it and gives it; the field for the other kind of id is 0.
pub record Frame : Type 0 where
  pub ide : Bool
  pub rtr : Bool
  pub std_id : ℕ
  pub ext_id : ℕ
  pub dlc : ℕ
  pub bytes : List ℕ

-- One round of the loop of `machine_can_port_send` over the slots: `idx_empty` after it; `none` is the
-- slot of the same id that makes it return -1.
abbrev pub scan_slot : Option ℕ → ℕ → Bool → Option ℕ → ℕ → Option (Option ℕ)
scan_slot none id unordered none i = some (some i)
scan_slot none id unordered (some first) i = some (some first)
scan_slot (some tx_id) id unordered empty i =
    if tx_id == id && not unordered then none else some empty

unfoldable pub scan : (ℕ → Option ℕ) → ℕ → Bool → ℕ → ℕ → Option ℕ → Option (Option ℕ)
scan tx id unordered zero i empty = some empty
scan tx id unordered (suc n) i empty = elim (scan_slot (tx i) id unordered empty i) [
  | none ↦ none
  | some empty' ↦ scan tx id unordered n (i + 1) empty'
]

abbrev pub frame_of : ℕ → List ℕ → Flags → Frame
frame_of id bytes flags = record {
  ide = flags.ext_id;
  rtr = flags.rtr;
  std_id = if flags.ext_id then 0 else id;
  ext_id = if flags.ext_id then id else 0;
  dlc = length bytes;
  bytes = if flags.rtr then [] else bytes;
}

abbrev pub filled : (ℕ → Option ℕ) → ℕ → ℕ → ℕ → Option ℕ
filled tx idx id j = if j == idx then some id else tx j

abbrev pub sent_to : Port → ℕ → Frame → Option (Option ℕ) → Option (ℕ × Frame) × Port
sent_to port id frame none = (none, port)
sent_to port id frame (some none) = (none, port)
sent_to port id frame (some (some idx)) =
    (some (idx, frame), record port { tx = filled port.tx idx id })

-- `machine_can_port_send`: the buffer with what is written to it, `none` being the result -1.
unfoldable pub send : Port → ℕ → List ℕ → Flags → Option (ℕ × Frame) × Port
unfolding scan
send port id bytes flags =
    sent_to port id (frame_of id bytes flags)
      (scan port.tx id flags.unordered can_tx_queue_len 0 none)

-- What `machine_can_port_recv` takes from a frame: the id, the length, the bytes that it copies (none
-- for a remote frame) and the two flags; and the two states of the FIFO that it reads afterwards.
pub record Message : Type 0 where
  pub id : ℕ
  pub dlen : ℕ
  pub bytes : Option (List ℕ)
  pub rtr : Bool
  pub ext_id : Bool
  pub overrun : Bool
  pub full : Bool

-- The FIFO gives a frame, or is empty.
unfoldable pub recv : Option Frame → Bool → Bool → Option Message
recv none overrun full = none
recv (some rx) overrun full = some (record {
  id = if rx.ide then rx.ext_id else rx.std_id;
  dlen = rx.dlc;
  bytes = if rx.rtr then none else some (take rx.dlc rx.bytes);
  rtr = rx.rtr;
  ext_id = rx.ide;
  overrun = overrun;
  full = full;
})

-- The two parts of `machine_can_port_irq_flags` that change the object: the state that is pending, and
-- for a handler of IRQ_TX the lowest finished buffer.
abbrev pub take_state : Can → Bool → Can
take_state self false = self
take_state self true = record self { port = record (self.port) { irq_state_pending = false } }

abbrev pub take_finished : Can → Bool → (ℕ → Bool) → Option ℕ → Option (ℕ × Bool) × Can
take_finished self false err found = (none, self)
take_finished self true err none = (none, self)
take_finished self true err (some idx) =
    (some (idx, err idx), with_tx self (emptied self.port.tx idx))

-- `machine_can_port_irq_flags`: the flags for the state, for a message to read, and the finished buffer
-- with whether it has failed.
unfoldable pub irq_flags : Can → Status → Bool → (Bool × Bool × Option (ℕ × Bool)) × Can
unfolding ctz
irq_flags self s is_empty =
    let is_state : Bool = self.on_state && self.port.irq_state_pending in
    let (found, self') =
      take_finished (take_state self is_state) self.on_tx s.err
        (ctz (finished s) can_tx_queue_len 0) in
    ((is_state, self.on_rx && not is_empty, found), self')

-- `machine_can_port_restart`, and the slots of `machine_can_port_init`.
unfoldable pub restart : Can → Can
restart self = record self {
  port = record { tx = λ j. none; irq_state_pending = false; error_passive = false };
}

-- The states of `machine_can_port_get_state`.
pub data State : Type 0 where
  bus_off passive warning active : State

abbrev pub get_state : Bool → Bool → Bool → State
get_state is_busoff is_passive is_warning =
    if is_busoff
    then bus_off
    else if is_passive
    then passive
    else if is_warning
    then warning
    else active

-- `tx_pending` of `machine_can_port_update_counters`.
unfoldable pub tx_pending : (ℕ → Option ℕ) → ℕ → ℕ → ℕ
tx_pending tx zero i = 0
tx_pending tx (suc n) i = elim (tx i) [
  | none ↦ tx_pending tx n (i + 1)
  | some _ ↦ 1 + tx_pending tx n (i + 1)
]
