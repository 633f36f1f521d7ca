-- ===== src/Flash/Erase.antt =====
-- The erase loop of `amb_flash_writeblocks`.
use ameba_micro_python.Prelude.{ℕ, zero, suc, ◌+◌, ◌*◌, ◌%◌, ◌≤◌, ◌<◌, ◌≡◌, ◌∙◌, ◌⊎◌, refl, arith}
use native.Mathlib.Decide.{dec_lt}
use ameba_micro_python.Flash.{
  FlashObj, Device, IsValid, IsNor, sector_size_flash, erase_addr, erase_blocks,
}

-- No wrap in the address of a sector inside the region.
pub erase_addr_exact :
    {self : FlashObj} (block : ℕ)
    → IsValid self
    → (block + 1) * sector_size_flash ≤ self.len
    → erase_addr self block ≡ self.start + block * sector_size_flash
erase_addr_exact block v h = omega arith

pub erase_addr_aligned :
    {self : FlashObj} (block : ℕ)
    → IsValid self
    → (block + 1) * sector_size_flash ≤ self.len
    → erase_addr self block % sector_size_flash ≡ 0
erase_addr_aligned block v h = omega arith

module _ (d : Device) (nor : IsNor d) {self : FlashObj} (v : IsValid self) where
  -- Bytes outside the erased blocks stay.
  pub erase_blocks-frame :
      (rounds block : ℕ) (m : d.Mem) (a : ℕ)
      → (block + rounds) * sector_size_flash ≤ self.len
      → (a < self.start + block * sector_size_flash)
        ⊎ (self.start + (block + rounds) * sector_size_flash ≤ a)
      → d.byte (erase_blocks d self rounds block m) a ≡ d.byte m a
  unfolding erase_blocks
  erase_blocks-frame zero block m a h o = refl
  erase_blocks-frame (suc rounds) block m a h o =
      erase_blocks-frame rounds (block + 1) (d.erase_sector m (erase_addr self block)) a
        (omega arith) (omega arith)
      ∙ nor.erase_out m (erase_addr self block) a (omega arith) (omega arith)

  -- Bytes inside them read 0xff afterwards.
  pub erase_blocks-erased :
      (rounds block : ℕ) (m : d.Mem) (a : ℕ)
      → (block + rounds) * sector_size_flash ≤ self.len
      → self.start + block * sector_size_flash ≤ a
      → a < self.start + (block + rounds) * sector_size_flash
      → d.byte (erase_blocks d self rounds block m) a ≡ 0xff
  unfolding erase_blocks
  erase_blocks-erased zero block m a h lo hi = absurd (omega arith)
  erase_blocks-erased (suc rounds) block m a h lo hi =
      let m' : d.Mem = d.erase_sector m (erase_addr self block) in
      elim (dec_lt a (self.start + (block + 1) * sector_size_flash)) [
        | yes p ↦
            erase_blocks-frame rounds (block + 1) m' a (omega arith) (omega arith)
            ∙ nor.erase_in m (erase_addr self block) a (omega arith) (omega arith) (omega arith)
        | no p ↦
            erase_blocks-erased rounds (block + 1) m' a (omega arith) (omega arith) (omega arith)
      ]
