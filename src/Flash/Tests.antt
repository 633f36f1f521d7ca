-- ===== src/Flash/Tests.antt =====
-- A flash of bytes that meets the laws of the driver, and the theorems on it.
use ameba_micro_python.Prelude.{
  ℕ, zero, suc, ◌+◌, ◌-◌, ◌<◌, ◌≡◌, refl, ap, none, some, List, [], ◌∷◌, pos, negsuc, length,
  get_or, replicate, ltb, leb, if◌then◌else◌, ◌&&◌, arith, inl, ◌*ℤ◌, ◌+ℤ◌,
}
use ameba_micro_python.Py.{ok, raise, os_error, eio}
use ameba_micro_python.Flash.{
  FlashObj, Device, IsValid, IsNor, sector_size_flash, readblocks, writeblocks, misaligned,
}
use ameba_micro_python.Flash.Range.{writeblocks-frame}
use ameba_micro_python.Flash.RoundTrip.{readblocks-writeblocks}

abbrev Bytes : Type 0
Bytes = ℕ → ℕ

abbrev window : Bytes → ℕ → ℕ → List ℕ
window m a zero = []
window m a (suc n) = m a ∷ window m (a + 1) n

abbrev ram : Device
ram = record {
  Mem = Bytes;
  byte = λ m a. m a;
  erase_sector = λ m s a. if leb s a && ltb a (s + sector_size_flash) then 0xff else m a;
  stream_read = λ m a n. (1, window m a n);
  stream_write = λ m s bytes.
      (1, λ a. if leb s a && ltb a (s + length bytes) then get_or bytes (a - s) 0 else m a);
}

length-window : (m : Bytes) (a n : ℕ) → length (window m a n) ≡ n
length-window m a zero = refl
length-window m a (suc n) = ap suc (length-window m (a + 1) n)

get_or-window : (m : Bytes) (a n i : ℕ) → i < n → get_or (window m a n) i 0 ≡ m (a + i)
get_or-window m a zero i h = absurd (omega arith)
get_or-window m a (suc n) zero h = ap m (omega arith)
get_or-window m a (suc n) (suc i) h =
    rw (get_or-window m (a + 1) n i (omega arith)) (ap m (omega arith))

ram_written :
    (m : Bytes) (addr : ℕ) (bytes : List ℕ) (i : ℕ)
    → i < length bytes
    → (ram.stream_write m addr bytes).1 (addr + i) ≡ get_or bytes i 0
ram_written m addr bytes i h = let e : addr + i - addr ≡ i = omega arith in ground (arith, e)

ram-IsNor : IsNor ram
ram-IsNor = record {
  erase_in = λ m sector a al lo hi. ground arith;
  erase_out = λ m sector a al o. ground arith;
  write_out = λ m addr bytes a o. ground arith;
  write_in = λ m addr bytes i r h e. ram_written m addr bytes i h;
  read_in = λ m addr n i r h. get_or-window m addr n i h;
  read_length = λ m addr n r. length-window m addr n;
}

-- Four sectors, from the third on.
abbrev region : FlashObj
region = record { block_size = 4096; start = 0x2000; len = 0x4000 }

region-IsValid : IsValid region
region-IsValid = record { sectors = refl; aligned = refl; fits = omega arith }

abbrev dirty : Bytes
dirty a = 0

abbrev sector : List ℕ
sector = replicate 4096 7

writeblocks-frame_example : ram.byte (writeblocks ram region dirty (pos 1) none sector).1 0x1fff ≡ 0
writeblocks-frame_example =
    writeblocks-frame ram ram-IsNor region-IsValid dirty (pos 1) none sector 0x1fff
      (inl (omega arith))

readblocks-writeblocks_example :
    readblocks ram region (writeblocks ram region dirty (pos 1) none sector).1 (pos 1) none 4096
    ≡ ok sector
unfolding writeblocks misaligned ◌*ℤ◌
readblocks-writeblocks_example =
    readblocks-writeblocks ram ram-IsNor region-IsValid dirty (pos 1) sector refl refl

readblocks_past_the_end : readblocks ram region dirty (pos 4) none 1 ≡ raise (os_error eio)
unfolding readblocks ◌*ℤ◌
readblocks_past_the_end = refl

readblocks_before_the_start :
    readblocks ram region dirty (negsuc 0) (some (pos 4095)) 1 ≡ raise (os_error eio)
unfolding readblocks ◌*ℤ◌ ◌+ℤ◌
readblocks_before_the_start = refl
