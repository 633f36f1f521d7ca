-- ===== src/Flash/Range.antt =====
-- The bounds of the block device: what a request may touch, and how a bad one is refused.
use ameba_micro_python.Prelude.{
  ℕ, ◌+◌, ◌*◌, ◌/◌, ◌≤◌, ◌<◌, ◌≡◌, ◌≢◌, ◌∙◌, ◌⊎◌, inl, inr, refl, ap, true, false, Option, none,
  some, List, ℤ, *ℤ-pos, pos_part, neg_part, length, Bool-cases, arith, ◌↔◌, ltb, leb,
  if◌then◌else◌, ◌&&◌,
}
use ameba_micro_python.Py.{ok}
use ameba_micro_python.Flash.{
  FlashObj, Device, IsValid, IsNor, sector_size_flash, byte_offset, out_of_range, misaligned,
  stream_addr, erase_addr, erase_before_write, writeblocks, block_erase, ioctl,
}
use ameba_micro_python.Flash.Erase.{erase_blocks-frame, erase_addr_exact, erase_addr_aligned}

-- A request of `n` bytes at `offset` lies in the region.
abbrev pub InRegion : FlashObj → ℤ → ℕ → Type 0
InRegion self offset n = (neg_part offset ≡ 0) × (pos_part offset + n ≤ self.len)

pub in_region :
    (self : FlashObj) (offset : ℤ) (n : ℕ)
    → out_of_range self offset n ≡ false
    → InRegion self offset n
in_region self offset n h = ground arith

pub stream_addr_exact :
    {self : FlashObj} (offset : ℤ) (n : ℕ)
    → IsValid self
    → InRegion self offset n
    → stream_addr self offset ≡ self.start + pos_part offset
stream_addr_exact offset n v h = omega arith

-- A block number times the sector size, where the product is not negative.
pub byte_offset_exact :
    {self : FlashObj} (block : ℤ)
    → IsValid self
    → neg_part (byte_offset self block none) ≡ 0
    → pos_part (byte_offset self block none) ≡ pos_part block * sector_size_flash
byte_offset_exact {self} block v h =
    omega (arith, *ℤ-pos block self.block_size, ap (λ (t : ℕ). pos_part block * t) v.sectors)

-- What a request that passes both tests does: sector by sector, the blocks that hold the range.
pub blocks_of_bytes :
    {self : FlashObj} (block : ℤ) (n : ℕ)
    → IsValid self
    → misaligned self none n ≡ false
    → n / self.block_size * sector_size_flash ≡ n
unfolding misaligned
blocks_of_bytes block n v h = ground arith

module _ (d : Device) (nor : IsNor d) {self : FlashObj} (v : IsValid self) where
  erase_before_write-frame :
      (block : ℤ) (off : Option ℤ) (n : ℕ) (m : d.Mem) (a : ℕ)
      → misaligned self off n ≡ false
      → InRegion self (byte_offset self block off) n
      → (a < self.start) ⊎ (self.start + self.len ≤ a)
      → d.byte (erase_before_write d self block off n m) a ≡ d.byte m a
  unfolding erase_before_write
  erase_before_write-frame block none n m a al r o =
      erase_blocks-frame d nor v (n / self.block_size) (pos_part block) m a
        (omega (arith, byte_offset_exact block v r.0, blocks_of_bytes block n v al))
        (omega (arith, byte_offset_exact block v r.0, blocks_of_bytes block n v al))
  erase_before_write-frame block (some x) n m a al r o = refl

  -- On a driver that behaves as a NOR flash (`IsNor`) and for a region of whole sectors (`IsValid`),
  -- whatever `writeblocks` is given, and whether it returns or raises, it changes no byte of the flash
  -- outside the region.
  pub writeblocks-frame :
      (m : d.Mem) (block : ℤ) (off : Option ℤ) (bytes : List ℕ) (a : ℕ)
      → (a < self.start) ⊎ (self.start + self.len ≤ a)
      → d.byte (writeblocks d self m block off bytes).1 a ≡ d.byte m a
  unfolding writeblocks
  writeblocks-frame m block off bytes a o = elim (Bool-cases (misaligned self off n)) [
    | inl bad ↦ rw bad
    | inr al ↦ elim (Bool-cases (out_of_range self offset n)) [
      | inl out ↦ ground arith
      | inr fits ↦
          let r : InRegion self offset n = in_region self offset n fits in
          let w : d.byte (d.stream_write erased (stream_addr self offset) bytes).1 a ≡ d.byte m a =
            nor.write_out erased (stream_addr self offset) bytes a
              (omega (arith, stream_addr_exact offset n v r))
            ∙ erase_before_write-frame block off n m a al r o in
          ground arith
    ]
  ]
    where
      n : ℕ
      n = length bytes

      offset : ℤ
      offset = byte_offset self block off

      erased : d.Mem
      erased = erase_before_write d self block off n m

  -- For a region of whole sectors, `writeblocks` succeeds exactly when the request lies in the region, is a whole number of blocks
  -- where no byte offset is given, and the driver reports success.
  pub writeblocks-ok_iff :
      (m : d.Mem) (block : ℤ) (off : Option ℤ) (bytes : List ℕ)
      → let offset = byte_offset self block off in
        let erased = erase_before_write d self block off (length bytes) m in
        ((writeblocks d self m block off bytes).0 ≡ ok tt) ↔ (
          (misaligned self off (length bytes) ≡ false)
          × InRegion self offset (length bytes)
          × ((d.stream_write erased (stream_addr self offset) bytes).0 ≡ 1))
  unfolding writeblocks
  writeblocks-ok_iff m block off bytes = (λ h. ground arith, λ h. ground arith)

  -- A request with a partial block or outside the region is refused, and leaves the flash as it was.
  pub writeblocks-refused :
      (m : d.Mem) (block : ℤ) (off : Option ℤ) (bytes : List ℕ)
      → (misaligned self off (length bytes) ≡ true)
        ⊎ (0 < neg_part (byte_offset self block off))
        ⊎ (self.len < pos_part (byte_offset self block off) + length bytes)
      → ((writeblocks d self m block off bytes).0 ≢ ok tt)
        × ((writeblocks d self m block off bytes).1 ≡ m)
  unfolding writeblocks
  writeblocks-refused m block off bytes h = (λ e. ground arith, ground arith)

  -- `ioctl` erases a block of the region: it reads 0xff afterwards, and no other byte of the flash
  -- changes.
  pub ioctl-block_erase :
      (m : d.Mem) (n : ℤ) (a : ℕ)
      → neg_part n ≡ 0
      → (pos_part n + 1) * sector_size_flash ≤ self.len
      → let (res, m') = ioctl d self m (block_erase n) in
        let first = self.start + pos_part n * sector_size_flash in
        (res ≡ ok (some 0))
        × (d.byte m' a
            ≡ (if leb first a && ltb a (first + sector_size_flash) then 0xff else d.byte m a))
  unfolding ioctl
  ioctl-block_erase m n a hn h = ground (
    arith,
    nor.erase_in m (erase_addr self (pos_part n)) a,
    nor.erase_out m (erase_addr self (pos_part n)) a,
    erase_addr_exact (pos_part n) v,
    erase_addr_aligned (pos_part n) v,
  )
