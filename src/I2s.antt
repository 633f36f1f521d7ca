-- ===== src/I2s.antt =====
-- ports/ameba-rtos-m/src/machine_i2s.c: `machine.I2S`, audio through a buffer of two halves that the
-- DMA controller plays or fills in turn. This file has the object and its life; the children have the
-- two directions. The ring buffer is that of extmod/machine_i2s.c.
pub mod Life
pub mod Transmit
pub mod Receive
mod Tests
use ameba_micro_python.Prelude.{
  ℕ, zero, suc, ◌+◌, ◌*◌, ◌-◌, ◌/◌, ◌%◌, ◌^◌, Bool, true, false, not, ◌&&◌, ◌||◌, Option, none,
  some, ◌==◌, ltb, leb, if◌then◌else◌, ℤ, pos, negsuc,
}
use ameba_micro_python.Py.{Exc, value_error, os_error, enomem, Result, ok, raise}

abbrev pub tx_mode : ℕ
tx_mode = 1

abbrev pub rx_mode : ℕ
rx_mode = 2

-- The arguments of the constructor, as machine words; `mono` and `stereo` are the numbers of
-- extmod/machine_i2s.c.
pub record Args : Type 0 where
  pub mode : ℕ
  pub bits : ℕ
  pub format : ℕ
  pub rate : ℕ
  pub ibuf : ℕ

-- The part of `machine_i2s_obj_t` that its life is about: which of the three blocks of memory it
-- holds, and the state of the transfer. `dma_buffer` and `gdma_lli` are views of the first two.
pub record I2s : Type 0 where
  pub args : Args
  pub dma_buffer_size : ℕ
  pub dma_buffer_raw : Bool
  pub gdma_lli_raw : Bool
  pub ring_buffer_ptr : Bool
  pub dma_active : Bool
  pub gdma_initted : Bool
  pub dma_half : ℕ
  pub non_blocking : Bool
  pub callback : Option ℕ
  pub copy_in_progress : Bool

-- What `malloc` answers for the three blocks.
pub record Memory : Type 0 where
  pub dma : Bool
  pub lli : Bool
  pub ring : Bool

-- A quarter of the ring buffer in whole cache lines for each half, and at least two of them for each.
unfoldable pub dma_size : ℕ → ℕ
dma_size ibuf = let size : ℕ = ibuf / 4 / 64 * 64 in if ltb size 128 then 128 else size

-- `get_frame_mapping_index`
abbrev pub frame_index : ℕ → ℕ → ℕ → ℕ → ℕ
frame_index mono stereo bits format =
    if bits == 16 && format == mono
    then 0
    else if bits == 16 && format == stereo
    then 1
    else if bits == 32 && format == mono
    then 2
    else 3

-- `mp_machine_i2s_deinit`
abbrev pub stop_transfer : I2s → I2s
stop_transfer self =
    if self.dma_active then record self { gdma_initted = false; dma_active = false } else self

unfoldable pub deinit : I2s → I2s
deinit self = record (stop_transfer self) {
  ring_buffer_ptr = false;
  dma_buffer_raw = false;
  gdma_lli_raw = false;
}

-- `start_transfer`; `none` is an access to a block that the object does not hold.
unfoldable pub start_transfer : I2s → Option I2s
start_transfer self =
    if self.gdma_lli_raw && self.dma_buffer_raw
    then some (record self { dma_half = 0; gdma_initted = true; dma_active = true })
    else none

-- The checks of `init_helper`.
unfoldable pub args_ok : ℕ → ℕ → Args → Bool
args_ok mono stereo a =
    (a.mode == tx_mode || a.mode == rx_mode)
    && (a.bits == 16 || a.bits == 32)
    && (a.format == mono || a.format == stereo)
    && not (ltb a.ibuf 256)

-- The allocations of `init_helper`, each of which gives back what the ones before it got.
unfoldable pub allocate : I2s → Memory → Bool × I2s
unfolding dma_size
allocate self memory =
    let sized : I2s = record self {
      dma_buffer_size = dma_size self.args.ibuf;
      dma_buffer_raw = memory.dma;
    } in
    if not memory.dma
    then (false, sized)
    else if not memory.lli
    then (false, record sized { gdma_lli_raw = false; dma_buffer_raw = false })
    else if not memory.ring
    then (
      false,
      record sized { ring_buffer_ptr = false; dma_buffer_raw = false; gdma_lli_raw = false },
    )
    else (true, record sized { gdma_lli_raw = true; ring_buffer_ptr = true })

-- The rest of `init_helper` after the allocations.
unfoldable pub finish_init : Bool × I2s → Option (Result (Unit {0}) × I2s)
unfolding start_transfer
finish_init (false, self) = some (raise (os_error enomem), self)
finish_init (true, self) = elim (start_transfer self) [
  | none ↦ none
  | some self' ↦ some (ok tt, self')
]

-- `mp_machine_i2s_init_helper`, with the numbers of MONO and STEREO, and whether the pins are found.
unfoldable pub init_helper : ℕ → ℕ → I2s → Bool → Args → Memory → Option (Result (Unit {0}) × I2s)
unfolding args_ok allocate finish_init
init_helper mono stereo self false a memory = some (raise value_error, self)
init_helper mono stereo self true a memory =
    if args_ok mono stereo a
    then finish_init (allocate (record self { args = a }) memory)
    else some (raise value_error, record self { args = a })

-- `mp_machine_i2s_irq_update`
unfoldable pub irq_update : I2s → Option I2s
unfolding start_transfer
irq_update self = if not self.dma_active then start_transfer self else some self

-- The fields that `make_new_instance` sets, on a new object or on the one of the port.
abbrev pub reset : I2s → I2s
reset self = record self {
  dma_active = false;
  dma_buffer_raw = false;
  ring_buffer_ptr = false;
  gdma_initted = false;
  dma_half = 0;
  gdma_lli_raw = false;
  non_blocking = false;
  callback = none;
  copy_in_progress = false;
}

abbrev pub zeroed : I2s
zeroed = record {
  args = record { mode = 0; bits = 0; format = 0; rate = 0; ibuf = 0 };
  dma_buffer_size = 0;
  dma_buffer_raw = false;
  gdma_lli_raw = false;
  ring_buffer_ptr = false;
  dma_active = false;
  gdma_initted = false;
  dma_half = 0;
  non_blocking = false;
  callback = none;
  copy_in_progress = false;
}

-- The object of a port that exists, where `mp_machine_i2s_make_new_instance` gets to it.
unfoldable pub instance_for : Option I2s → I2s
unfolding deinit
instance_for none = reset zeroed
instance_for (some self) = reset (deinit self)

abbrev pub i2s_id_count : ℕ
i2s_id_count = 2

-- `mp_machine_i2s_make_new_instance` on the table of the ports; `none` is the ValueError.
unfoldable pub make_new_instance : (ℕ → Option I2s) → ℤ → Option (I2s × (ℕ → Option I2s))
unfolding instance_for
make_new_instance ports (negsuc n) = none
make_new_instance ports (pos id) =
    if leb i2s_id_count id
    then none
    else some
        (instance_for (ports id), λ j. if j == id then some (instance_for (ports id)) else ports j)

abbrev pub torn_down : Option I2s → Option I2s
torn_down none = none
torn_down (some self) = some (deinit self)

-- `machine_i2s_deinit_all`: the objects as they are left, and the table.
abbrev pub deinit_all : (ℕ → Option I2s) → (ℕ → Option I2s) × (ℕ → Option I2s)
deinit_all ports = (
  λ j. if ltb j i2s_id_count then torn_down (ports j) else ports j,
  λ j. if ltb j i2s_id_count then none else ports j,
)
