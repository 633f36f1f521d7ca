-- ===== src/Spi.antt =====
-- ports/ameba-rtos-m/src/machine_spi.c: `machine.SPI`. The HAL's controller is seen by the setting that
-- it was started with, the pads by whether they are routed to the controller, and the exchange of one
-- byte, `spi_master_write`, is a parameter.
pub mod Init
pub mod Exchange
mod Tests
use ameba_micro_python.Prelude.{
  ℕ, zero, suc, ◌+◌, ◌*◌, ◌%◌, ◌^◌, Bool, true, false, not, ◌&&◌, ◌||◌, Option, none, some, List,
  [], ◌∷◌, get_or, set, ◌==◌, leb, if◌then◌else◌, ℤ, pos, negsuc, ltb_ℤ,
}
use ameba_micro_python.Py.{
  Exc, os_error, value_error, not_implemented_error, einval, Result, ok, raise,
}

-- What the controller runs with: the mode number of `spi_format`, the rate and the pads.
pub record Setting : Type 0 where
  pub mode : ℕ
  pub rate : ℕ
  pub pads : ℕ × ℕ × ℕ

-- `machine_spi_obj_t`, with the controller, and the pads that are routed to it.
pub record Spi : Type 0 where
  pub polarity : ℕ
  pub phase : ℕ
  pub bits : ℕ
  pub firstbit : ℕ
  pub baudrate : ℕ
  pub sck : ℕ
  pub mosi : ℕ
  pub miso : ℕ
  pub cs : ℕ
  pub initialized : Bool
  pub driver : Option Setting
  pub muxed : ℕ → Bool

-- The default pads, which a board may set by macros.
pub record Board : Type 0 where
  pub sck : ℕ
  pub mosi : ℕ
  pub miso : ℕ
  pub cs : ℕ

-- `MICROPY_PY_MACHINE_SPI_MSB`
abbrev pub msb : ℕ
msb = 0

-- The arguments; a pin is `none` where it is absent, `some none` where `machine_spi_get_pin` raises.
pub record Args : Type 0 where
  pub baudrate : ℤ
  pub polarity : ℤ
  pub phase : ℤ
  pub bits : ℤ
  pub firstbit : ℤ
  pub sck : Option (Option ℕ)
  pub mosi : Option (Option ℕ)
  pub miso : Option (Option ℕ)

-- The first-time defaults; later calls keep what was stored.
abbrev pub with_defaults : Board → Spi → Spi
with_defaults d s = if s.initialized then s else record s {
  baudrate = 1000000;
  polarity = 0;
  phase = 0;
  bits = 8;
  firstbit = msb;
  sck = d.sck;
  mosi = d.mosi;
  miso = d.miso;
  cs = d.cs;
}

-- `if (arg > 0) field = arg`
abbrev pub positive_or : ℤ → ℕ → ℕ
positive_or (pos zero) old = old
positive_or (pos (suc n)) old = suc n
positive_or (negsuc n) old = old

-- `if (arg >= 0) field = arg ? 1 : 0`
abbrev pub flag_or : ℤ → ℕ → ℕ
flag_or (pos zero) old = 0
flag_or (pos (suc n)) old = 1
flag_or (negsuc n) old = old

-- A value that may only be absent or `n`.
abbrev pub only : ℤ → ℕ → Bool
only (pos m) n = m == n
only (negsuc m) n = true

-- The field of a pin, a `uint16_t`; `none` where the argument raises.
abbrev pub pin_or : Option (Option ℕ) → ℕ → Option ℕ
pin_or none old = some old
pin_or (some none) old = none
pin_or (some (some p)) old = some (p % 2 ^ 16)

-- The three pins in order; an error keeps the ones before it.
abbrev pub set_miso : Args → Spi → Bool × Spi
set_miso a s = elim (pin_or a.miso s.miso) [
  | none ↦ (false, s)
  | some p ↦ (true, record s { miso = p })
]

abbrev pub set_mosi : Args → Spi → Bool × Spi
set_mosi a s = elim (pin_or a.mosi s.mosi) [
  | none ↦ (false, s)
  | some p ↦ set_miso a (record s { mosi = p })
]

abbrev pub set_sck : Args → Spi → Bool × Spi
set_sck a s = elim (pin_or a.sck s.sck) [
  | none ↦ (false, s)
  | some p ↦ set_mosi a (record s { sck = p })
]

-- The pads that `spi_init` routes, and that stay so: it also routes `cs`, which is released at once.
abbrev pub route : Spi → ℕ → Bool
route s p = not (p == s.cs) && ((p == s.sck) || ((p == s.mosi) || ((p == s.miso) || s.muxed p)))

-- The end of `mp_machine_spi_init_helper`, after the arguments.
abbrev pub start : Spi → Spi
start s = record s {
  initialized = true;
  driver = some (record {
    mode = s.polarity * 2 + s.phase;
    rate = s.baudrate;
    pads = (s.sck, s.mosi, s.miso);
  });
  muxed = route s;
}

abbrev pub start_if : Bool × Spi → Result (Unit {0}) × Spi
start_if (true, s) = (ok tt, start s)
start_if (false, s) = (raise value_error, s)

-- `mp_machine_spi_init_helper`; an error keeps what was stored before it.
unfoldable pub init_helper : Board → Spi → Args → Result (Unit {0}) × Spi
init_helper d s a =
    let s0 = with_defaults d s in
    let s1 = record s0 {
      baudrate = positive_or a.baudrate s0.baudrate;
      polarity = flag_or a.polarity s0.polarity;
      phase = flag_or a.phase s0.phase;
    } in
    if only a.bits 8
    then (if only a.firstbit msb
        then start_if (set_sck a s1)
        else (raise not_implemented_error, s1))
    else (raise not_implemented_error, s1)

-- `machine_spi_pins_release`
abbrev pub pins_release : Spi → ℕ → Bool
pins_release s p =
    not (p == s.sck) && (not (p == s.mosi) && (not (p == s.miso) && (not (p == s.cs) && s.muxed p)))

-- `machine_spi_deinit`, and one step of `machine_spi_deinit_all`
unfoldable pub deinit : Spi → Spi
deinit s =
    if s.initialized
    then record s { initialized = false; driver = none; muxed = pins_release s }
    else s

unfoldable pub deinit_all : List Spi → List Spi
unfolding deinit
deinit_all [] = []
deinit_all (s ∷ objs) = deinit s ∷ deinit_all objs

-- Where the bytes to send come from: no buffer, a buffer of its own, or the one that is read into.
pub data Src : Type 0 where
  null in_place : Src
  buffer : List ℕ → Src

abbrev pub out_byte : Src → List ℕ → ℕ → ℕ
out_byte null dest i = 255
out_byte in_place dest i = get_or dest i 255
out_byte (buffer src) dest i = get_or src i 255

module _ {D : Type 0} (master_write : D → ℕ → ℕ × D) where
  -- The loop of `machine_spi_transfer` from byte `i` on, `keep` telling whether `dest` is not NULL.
  unfoldable pub transfer_loop : Bool → Src → D → List ℕ → ℕ → ℕ → List ℕ × D
  transfer_loop keep src d dest i zero = (dest, d)
  transfer_loop keep src d dest i (suc n) =
      let (in_, d') = master_write d (out_byte src dest i) in
      transfer_loop keep src d' (if keep then set dest i (in_ % 256) else dest) (i + 1) n

  -- `machine_spi_transfer`
  unfoldable pub transfer : Spi → Bool → Src → D → List ℕ → ℕ → Result (Unit {0}) × List ℕ × D
  unfolding transfer_loop
  transfer s keep src d dest len =
      let (dest', d') = transfer_loop keep src d dest 0 len in
      if s.initialized then (ok tt, dest', d') else (raise (os_error einval), dest, d)
