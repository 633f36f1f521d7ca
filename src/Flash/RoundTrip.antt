-- ===== src/Flash/RoundTrip.antt =====
-- `readblocks` after `writeblocks`, of ameba_flash.c.
use ameba_micro_python.Prelude.{
  ℕ, ◌+◌, ◌/◌, ◌<◌, ◌≡◌, ◌∙◌, ap, false, none, List, ℤ, pos_part, length, eq_of_get_or, arith,
}
use ameba_micro_python.Py.{ok}
use ameba_micro_python.Flash.{
  FlashObj, Device, IsValid, IsNor, byte_offset, misaligned, stream_addr, erase_before_write,
  writeblocks, readblocks,
}
use ameba_micro_python.Flash.Erase.{erase_blocks-erased}
use ameba_micro_python.Flash.Range.{
  InRegion, stream_addr_exact, byte_offset_exact, blocks_of_bytes, writeblocks-ok_iff,
}

module _ (d : Device) (nor : IsNor d) {self : FlashObj} (v : IsValid self) where
  -- Before the write every byte of its range is erased.
  erase_before_write-erased :
      (block : ℤ) (n : ℕ) (m : d.Mem) (i : ℕ)
      → misaligned self none n ≡ false
      → InRegion self (byte_offset self block none) n
      → i < n
      → d.byte
          (erase_before_write d self block none n m)
          (stream_addr self (byte_offset self block none) + i)
        ≡ 0xff
  unfolding erase_before_write
  erase_before_write-erased block n m i al r lt =
      erase_blocks-erased d nor v (n / self.block_size) (pos_part block) m _
        (omega (arith, byte_offset_exact block v r.0, blocks_of_bytes block n v al))
        (omega (arith, byte_offset_exact block v r.0, stream_addr_exact _ n v r))
        (omega (
          arith,
          byte_offset_exact block v r.0,
          blocks_of_bytes block n v al,
          stream_addr_exact _ n v r,
        ))

  writeblocks-memory :
      (m : d.Mem) (block : ℤ) (bytes : List ℕ)
      → (writeblocks d self m block none bytes).0 ≡ ok tt
      → (writeblocks d self m block none bytes).1
        ≡ (d.stream_write
            (erase_before_write d self block none (length bytes) m)
            (stream_addr self (byte_offset self block none))
            bytes).1
  unfolding writeblocks
  writeblocks-memory m block bytes w = ground arith

  -- On a driver that behaves as a NOR flash (`IsNor`) and for a region of whole sectors (`IsValid`),
  -- after a `writeblocks` without byte offset that succeeds, `readblocks` of the same block and length
  -- returns the bytes written, wherever the driver's read succeeds.
  pub readblocks-writeblocks :
      (m : d.Mem) (block : ℤ) (bytes : List ℕ)
      → let (res, m') = writeblocks d self m block none bytes in
        (res ≡ ok tt)
        → (d.stream_read m' (stream_addr self (byte_offset self block none)) (length bytes)).0 ≡ 1
        → readblocks d self m' block none (length bytes) ≡ ok bytes
  unfolding readblocks
  readblocks-writeblocks m block bytes w r =
      let (al, reg, done) = (writeblocks-ok_iff d nor v m block none bytes).0 w in
      let e : (writeblocks d self m block none bytes).1 ≡ written =
        writeblocks-memory m block bytes w in
      let same : (d.stream_read m' addr n).1 ≡ bytes =
        eq_of_get_or 0 _ bytes (nor.read_length m' addr n r) (λ i lt.
          nor.read_in m' addr n i r lt
          ∙ ap (λ x. d.byte x (addr + i)) e
          ∙ nor.write_in _ addr bytes i done lt
              (erase_before_write-erased block n m i al reg lt)) in
      ground arith
    where
      n : ℕ
      n = length bytes

      addr : ℕ
      addr = stream_addr self (byte_offset self block none)

      written : d.Mem
      written = (d.stream_write (erase_before_write d self block none n m) addr bytes).1

      m' : d.Mem
      m' = (writeblocks d self m block none bytes).1
