-- ===== src/SdCard.antt =====
-- ports/ameba-rtos-m/src/machine_sdcard.c: `machine.SDCard`, a block device over the SD driver of the
-- SDK, which is the parameter `card`.
pub mod Blocks
mod Tests
use ameba_micro_python.Prelude.{
  ℕ, suc, ◌+◌, ◌*◌, ◌/◌, ◌<◌, ◌≤◌, ◌≡◌, ◌⊎◌, Bool, true, false, Option, none, some, List, [], ◌∷◌,
  ◌++◌, length, take, drop, ◌==◌, if◌then◌else◌, ℤ, pos, negsuc,
}
use ameba_micro_python.Py.{Exc, value_error, Errno, eio, Result, ok, raise}

-- The driver: `SD_Init`, `SD_DeInit`, `SD_ReadBlocks` and `SD_WriteBlocks` of a number of blocks,
-- `SD_GetCapacity` and `SD_GetSectorSize` (`none` where they fail). A read answers the bytes; of the
-- state one can see the bytes of the card.
pub record Card : Type 1 where
  pub State : Type 0
  pub init : State → Bool × State
  pub deinit : State → State
  pub read : State → ℕ → ℕ → Option (List ℕ)
  pub write : State → ℕ → List ℕ → Bool × State
  pub capacity : State → Option ℕ
  pub sector_size : State → Option ℕ
  pub bytes : State → List ℕ

-- `SD_BLOCK_SIZE`
abbrev pub sd_block_size : ℕ
sd_block_size = 512

-- A read answers the blocks' bytes of the card, and a write that succeeds replaces them.
pub record IsCard (card : Card) : Type 0 where
  pub read_bytes :
      (s : card.State) (block count : ℕ) (l : List ℕ)
      → card.read s block count ≡ some l
      → l ≡ take (count * 512) (drop (block * 512) (card.bytes s))
  pub write_bytes :
      (s s' : card.State) (block : ℕ) (l : List ℕ)
      → card.write s block l ≡ (true, s')
      → (block * 512 + length l ≤ length (card.bytes s))
        × (card.bytes s'
            ≡ take (block * 512) (card.bytes s)
              ++ (l ++ drop (block * 512 + length l) (card.bytes s)))

-- What a call of the block device answers: a number, the negative of an errno, or None.
pub data Answer : Type 0 where
  number : ℕ → Answer
  failed : Errno → Answer
  nothing : Answer

-- MP_BLOCKDEV_IOCTL_...
pub data Request : Type 0 where
  init_request deinit_request sync block_count block_size other : Request

module _ (card : Card) where
  open card use {State}

  -- `machine_sdcard_initialized`, with the driver.
  pub record SdCard : Type 0 where
    pub initialized : Bool
    pub state : State

  abbrev pub init_result : SdCard → Bool × State → Bool × SdCard
  init_result c (r, s) = (r, record { initialized = r; state = s })

  -- `machine_sdcard_try_init`
  unfoldable pub try_init : SdCard → Bool × SdCard
  try_init c = if c.initialized then (true, c) else init_result c (card.init c.state)

  -- `machine_sdcard_make_new`; a card that cannot be set up is no error.
  unfoldable pub make_new : SdCard → ℤ → Result (Unit {0}) × SdCard
  unfolding try_init
  make_new c (pos n) = if n == 1 then (ok tt, (try_init c).1) else (raise value_error, c)
  make_new c (negsuc n) = (raise value_error, c)

  -- `machine_sdcard_deinit`
  unfoldable pub deinit : SdCard → SdCard
  deinit c = record { initialized = false; state = card.deinit c.state }

  -- The size and the sector size of `machine_sdcard_info`.
  abbrev pub info_of : Option ℕ → Option ℕ → Option (ℕ × ℕ)
  info_of (some count) (some size) = some (count * size, size)
  info_of count size = none

  -- `machine_sdcard_info`
  unfoldable pub info : SdCard → Option (ℕ × ℕ)
  info c =
      if c.initialized then info_of (card.capacity c.state) (card.sector_size c.state) else none

  -- The blocks that a buffer holds whole.
  abbrev pub count_of : List ℕ → ℕ
  count_of buf = length buf / sd_block_size

  -- The buffer after a read: what was read, and the rest as it was.
  abbrev pub read_result : List ℕ → Option (List ℕ) → Answer × List ℕ
  read_result buf none = (failed eio, buf)
  read_result buf (some l) = (number 0, l ++ drop (length l) buf)

  -- `machine_sdcard_readblocks`
  unfoldable pub readblocks : SdCard → ℕ → List ℕ → Answer × List ℕ
  readblocks c block buf = read_result buf (card.read c.state block (count_of buf))

  abbrev pub write_result : SdCard → Bool × State → Answer × SdCard
  write_result c (true, s) = (number 0, record c { state = s })
  write_result c (false, s) = (failed eio, record c { state = s })

  -- `machine_sdcard_writeblocks`: the driver is given the whole blocks of the buffer.
  unfoldable pub writeblocks : SdCard → ℕ → List ℕ → Answer × SdCard
  writeblocks c block buf =
      write_result c (card.write c.state block (take (count_of buf * sd_block_size) buf))

  abbrev pub number_or_fail : Option ℕ → Answer
  number_or_fail none = failed eio
  number_or_fail (some n) = number n

  -- `machine_sdcard_ioctl`
  unfoldable pub ioctl : SdCard → Request → Answer × SdCard
  unfolding try_init deinit
  ioctl c init_request = let (r, c') = try_init c in (if r then number 0 else failed eio, c')
  ioctl c deinit_request = (number 0, deinit c)
  ioctl c sync = (number 0, c)
  ioctl c block_count =
      (if c.initialized then number_or_fail (card.capacity c.state) else failed eio, c)
  ioctl c block_size =
      (if c.initialized then number_or_fail (card.sector_size c.state) else failed eio, c)
  ioctl c other = (nothing, c)
