-- ===== src/SdCard/Tests.antt =====
-- A card of its own, and the theorem about machine_sdcard.c at one input.
use ameba_micro_python.Prelude.{
  ℕ, ◌+◌, ◌*◌, ◌/◌, ◌≤◌, ◌≡◌, refl, Bool, true, false, none, some, List, ◌++◌, length, take, drop,
  replicate, leb, leb→le, if◌then◌else◌,
}
use ameba_micro_python.Py.{eio}
use ameba_micro_python.SdCard.{
  Card, IsCard, SdCard, number, failed, readblocks, writeblocks, ioctl, init_request, block_count,
  try_init, deinit,
}
use ameba_micro_python.SdCard.Blocks.{readblocks-writeblocks_whole}

-- The bytes of a card; a read or a write past the end fails.
abbrev written : Bool → List ℕ → ℕ → List ℕ → Bool × List ℕ
written true s block l = (true, take (block * 512) s ++ (l ++ drop (block * 512 + length l) s))
written false s block l = (false, s)

abbrev plain : Card
plain = record {
  State = List ℕ;
  init = λ s. (true, s);
  deinit = λ s. s;
  read = λ s block count.
      if leb (block * 512 + count * 512) (length s)
      then some (take (count * 512) (drop (block * 512) s))
      else none;
  write = λ s block l. written (leb (block * 512 + length l) (length s)) s block l;
  capacity = λ s. some (length s / 512);
  sector_size = λ s. some 512;
  bytes = λ s. s;
}

plain-IsCard : IsCard plain
plain-IsCard = record {
  read_bytes = λ s block count l e.
      read_of (leb (block * 512 + count * 512) (length s))
        (take (count * 512) (drop (block * 512) s)) l e;
  write_bytes =
      λ s s' block l e. write_of (leb (block * 512 + length l) (length s)) s s' block l refl e;
}
  where
    read_of : (b : Bool) (t l : List ℕ) → (if b then some t else none) ≡ some l → l ≡ t
    read_of true t l e = cc
    read_of false t l e = cc

    write_of :
        (b : Bool) (s s' : List ℕ) (block : ℕ) (l : List ℕ)
        → leb (block * 512 + length l) (length s) ≡ b
        → written b s block l ≡ (true, s')
        → (block * 512 + length l ≤ length s)
          × (s' ≡ take (block * 512) s ++ (l ++ drop (block * 512 + length l) s))
    write_of true s s' block l h e = (leb→le (block * 512 + length l) (length s) h, cc)
    write_of false s s' block l h e = cc

-- Two blocks of zeros, set up.
abbrev blank : SdCard plain
blank = record { initialized = true; state = replicate 1024 0 }

-- A buffer of 513 bytes.
abbrev sevens : List ℕ
sevens = replicate 513 7

readblocks-writeblocks_whole_example :
    (readblocks plain (writeblocks plain blank 1 sevens).1 1 (replicate 513 9)).1
    ≡ take (length sevens / 512 * 512) sevens ++ drop (length sevens / 512 * 512) (replicate 513 9)
unfolding readblocks writeblocks
readblocks-writeblocks_whole_example =
    readblocks-writeblocks_whole plain plain-IsCard blank 1 sevens (replicate 513 9) refl refl refl

-- Without a set-up the size is refused; an `init` request makes it known.
ioctl-run :
    ((ioctl plain (record blank { initialized = false }) block_count).0 ≡ failed eio)
    × ((ioctl plain
          (ioctl plain (record blank { initialized = false }) init_request).1
          block_count).0
        ≡ number 2)
unfolding ioctl try_init deinit
ioctl-run = (refl, refl)
