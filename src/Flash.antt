-- ===== src/Flash.antt =====
-- ports/ameba-rtos-m/src/ameba_flash.c: the block device `Flash` over the VFS1 region.
-- The SDK's flash driver (`flash_stream_read`, `flash_stream_write`, `flash_erase_sector`) is the
-- parameter `Device`; the laws that the file system relies on are `IsNor`.
pub mod Erase
pub mod Range
pub mod RoundTrip
mod Tests
use ameba_micro_python.Prelude.{
  ℕ, zero, suc, ◌+◌, ◌*◌, ◌/◌, ◌%◌, ◌^◌, ◌≤◌, ◌<◌, ◌≡◌, ◌⊎◌, ◌||◌, not, Option, none, some, List,
  [], ◌∷◌, Bool, false, ℤ, pos, ◌+ℤ◌, ◌*ℤ◌, ltb_ℤ, pos_part, ltb, ◌==◌, if◌then◌else◌, length,
  get_or,
}
use ameba_micro_python.Py.{Exc, os_error, value_error, eio, Result, ok, raise}

abbrev pub sector_size_flash : ℕ
sector_size_flash = 4096

abbrev pub u32 : ℕ → ℕ
u32 n = n % 2 ^ 32

-- `flash_obj_t` without its type pointer.
pub record FlashObj : Type 0 where
  pub block_size : ℕ
  pub start : ℕ
  pub len : ℕ

-- The driver: a memory, and calls that return the driver's status beside the data or the new memory.
pub record Device : Type 1 where
  pub Mem : Type 0
  pub byte : Mem → ℕ → ℕ
  pub erase_sector : Mem → ℕ → Mem
  pub stream_read : Mem → ℕ → ℕ → ℕ × List ℕ
  pub stream_write : Mem → ℕ → List ℕ → ℕ × Mem

-- The sum `block_num * self->block_size + offset` in `int64_t`; the factors are 32-bit integers.
abbrev pub byte_offset : FlashObj → ℤ → Option ℤ → ℤ
byte_offset self block none = block *ℤ pos self.block_size
byte_offset self block (some o) = block *ℤ pos self.block_size +ℤ o

-- The guard `offset < 0 || (uint64_t)offset + bufinfo.len > self->len`.
abbrev pub out_of_range : FlashObj → ℤ → ℕ → Bool
out_of_range self offset n = ltb_ℤ offset (pos 0) || ltb self.len (pos_part offset + n)

-- `self->start + (uint32_t)offset`, for an offset that the guard has let through.
abbrev pub stream_addr : FlashObj → ℤ → ℕ
stream_addr self offset = u32 (self.start + u32 (pos_part offset))

-- `self->start + (uint32_t)(block_num + i) * SECTOR_SIZE_FLASH`
abbrev pub erase_addr : FlashObj → ℕ → ℕ
erase_addr self block = u32 (self.start + u32 (u32 block * sector_size_flash))

-- `bufinfo.len % self->block_size != 0`, tested where no byte offset is given.
pub misaligned : FlashObj → Option ℤ → ℕ → Bool
misaligned self none n = not (n % self.block_size == 0)
misaligned self (some _) n = false

module _ (d : Device) where
  open d use {Mem, erase_sector, stream_read, stream_write}

  -- `amb_flash_readblocks`: the bytes that land in the caller's buffer of `n` bytes.
  pub readblocks : FlashObj → Mem → ℤ → Option ℤ → ℕ → Result (List ℕ)
  readblocks self m block off n =
      let offset = byte_offset self block off in
      let (res, bytes) = stream_read m (stream_addr self offset) n in
      if out_of_range self offset n
      then raise (os_error eio)
      else if res == 1
      then ok bytes
      else raise (os_error eio)

  -- The `for` loop of `amb_flash_writeblocks`: `rounds` sectors from `block` on.
  pub erase_blocks : FlashObj → ℕ → ℕ → Mem → Mem
  erase_blocks self zero block m = m
  erase_blocks self (suc rounds) block m =
      erase_blocks self rounds (block + 1) (erase_sector m (erase_addr self block))

  -- The loop runs only where no byte offset is given (`n_args != 4`).
  pub erase_before_write : FlashObj → ℤ → Option ℤ → ℕ → Mem → Mem
  erase_before_write self block none n m =
      erase_blocks self (n / self.block_size) (pos_part block) m
  erase_before_write self block (some _) n m = m

  -- `amb_flash_writeblocks`: the result, and the memory that it leaves.
  pub writeblocks : FlashObj → Mem → ℤ → Option ℤ → List ℕ → Result (Unit {0}) × Mem
  writeblocks self m block off bytes =
      let offset = byte_offset self block off in
      let erased = erase_before_write self block off (length bytes) m in
      let (res, written) = stream_write erased (stream_addr self offset) bytes in
      if misaligned self off (length bytes)
      then (raise value_error, m)
      else if out_of_range self offset (length bytes)
      then (raise (os_error eio), m)
      else if res == 1
      then (ok tt, written)
      else (raise (os_error eio), written)

-- The commands of `amb_flash_ioctl`, `MP_BLOCKDEV_IOCTL_...`; any other number returns None.
pub data Ioctl : Type 0 where
  init deinit sync block_count block_size other : Ioctl
  block_erase : ℤ → Ioctl

-- `amb_flash_ioctl`; `none` is None.
pub ioctl : (d : Device) → FlashObj → d.Mem → Ioctl → Result (Option ℕ) × d.Mem
ioctl d self m init = (ok (some 0), m)
ioctl d self m deinit = (ok (some 0), m)
ioctl d self m sync = (ok (some 0), m)
ioctl d self m block_count = (ok (some (self.len / self.block_size)), m)
ioctl d self m block_size = (ok (some self.block_size), m)
ioctl d self m other = (ok none, m)
ioctl d self m (block_erase n) =
    if ltb_ℤ n (pos 0) || ltb self.len ((pos_part n + 1) * sector_size_flash)
    then (raise (os_error eio), m)
    else (ok (some 0), d.erase_sector m (erase_addr self (pos_part n)))

-- The region is made of whole sectors inside the 32-bit address space.
pub record IsValid (self : FlashObj) : Type 0 where
  pub sectors : self.block_size ≡ sector_size_flash
  pub aligned : self.start % sector_size_flash ≡ 0
  pub fits : self.start + self.len < 2 ^ 32

-- What the SDK documents of a NOR flash: erasing sets the bytes of one sector to 0xff and touches no
-- other; a write touches only its range, and succeeds in storing bytes where the flash is erased; a
-- read that succeeds returns the bytes of its range.
pub record IsNor (d : Device) : Type 0 where
  pub erase_in :
      (m : d.Mem) (sector a : ℕ)
      → sector % sector_size_flash ≡ 0
      → sector ≤ a
      → a < sector + sector_size_flash
      → d.byte (d.erase_sector m sector) a ≡ 0xff
  pub erase_out :
      (m : d.Mem) (sector a : ℕ)
      → sector % sector_size_flash ≡ 0
      → (a < sector) ⊎ (sector + sector_size_flash ≤ a)
      → d.byte (d.erase_sector m sector) a ≡ d.byte m a
  pub write_out :
      (m : d.Mem) (addr : ℕ) (bytes : List ℕ) (a : ℕ)
      → (a < addr) ⊎ (addr + length bytes ≤ a)
      → d.byte (d.stream_write m addr bytes).1 a ≡ d.byte m a
  pub write_in :
      (m : d.Mem) (addr : ℕ) (bytes : List ℕ) (i : ℕ)
      → (d.stream_write m addr bytes).0 ≡ 1
      → i < length bytes
      → d.byte m (addr + i) ≡ 0xff
      → d.byte (d.stream_write m addr bytes).1 (addr + i) ≡ get_or bytes i 0
  pub read_in :
      (m : d.Mem) (addr n i : ℕ)
      → (d.stream_read m addr n).0 ≡ 1
      → i < n
      → get_or (d.stream_read m addr n).1 i 0 ≡ d.byte m (addr + i)
  pub read_length :
      (m : d.Mem) (addr n : ℕ)
      → (d.stream_read m addr n).0 ≡ 1
      → length (d.stream_read m addr n).1 ≡ n
