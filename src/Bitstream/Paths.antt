-- ===== src/Bitstream/Paths.antt =====
-- The two paths of machine_bitstream.c send the same bits.
use ameba_micro_python.Prelude.{
  ℕ, ◌+◌, ◌*◌, ◌/◌, ◌%◌, ◌<◌, ◌≡◌, ◌⊎◌, ◌∙◌, ap, refl, inl, inr, Bool, true, false, ◌&&◌, List, [],
  ◌∷◌, ◌++◌, length, ltb, leb, ◌==◌, if◌then◌else◌, arith,
}
use mathlib.Core.Path.{ap₂}
use mathlib.Core.List.{append_assoc}
use ameba_micro_python.Py.{ok, raise, memory_error}
use ameba_micro_python.Bitstream.{
  byte_bits, software_bits, pack, ledc_word, ledc_bits, Memory, given, null, raises, by_software,
  with_channel, high_low,
}

-- Bytes.
abbrev pub AreBytes : List ℕ → Type 0
AreBytes [] = Unit {0}
AreBytes (b ∷ buf) = (b < 256) × AreBytes buf

same : {x y : ℕ} {r s : List Bool} → y < 256 → x ≡ y / 128 → r ≡ s → (x == 1) ∷ r ≡ leb 128 y ∷ s
same {x} {y} h e k = ap₂ (λ c l. c ∷ l) (test x y h e) k
  where
    test : (x y : ℕ) → y < 256 → x ≡ y / 128 → (x == 1) ≡ leb 128 y
    test x y h e = ground arith

word-bits :
    (a b c : ℕ)
    → a < 256
    → b < 256
    → c < 256
    → ledc_word 24 (a * 65536 + b * 256 + c) ≡ byte_bits 8 a ++ (byte_bits 8 b ++ byte_bits 8 c)
unfolding ledc_word byte_bits
word-bits a b c h k l = same (omega arith) (omega arith) (
    same (omega arith) (omega arith) (
      same (omega arith) (omega arith) (
        same (omega arith) (omega arith) (
          same (omega arith) (omega arith) (
            same (omega arith) (omega arith) (
              same (omega arith) (omega arith) (
                same (omega arith) (omega arith) (
                  same (omega arith) (omega arith) (
                    same (omega arith) (omega arith) (
                      same (omega arith) (omega arith) (
                        same (omega arith) (omega arith) (
                          same (omega arith) (omega arith) (
                            same (omega arith) (omega arith) (
                              same (omega arith) (omega arith) (
                                same (omega arith) (omega arith) (
                                  same (omega arith) (omega arith) (
                                    same (omega arith) (omega arith) (
                                      same (omega arith) (omega arith) (
                                        same (omega arith) (omega arith) (
                                          same (omega arith) (omega arith) (
                                            same (omega arith) (omega arith) (
                                              same (omega arith) (omega arith) (
                                                same (omega arith) (omega arith)
                                                  (refl))))))))))))))))))))))))

ledc_bits-pack :
    (buf : List ℕ) → AreBytes buf → length buf % 3 ≡ 0 → ledc_bits (pack buf) ≡ software_bits buf
unfolding pack ledc_bits software_bits
ledc_bits-pack [] h m = refl
ledc_bits-pack (a ∷ []) h m = absurd (omega arith)
ledc_bits-pack (a ∷ b ∷ []) h m = absurd (omega arith)
ledc_bits-pack (a ∷ b ∷ c ∷ buf) (h, (k, (l, hs))) m =
    ap₂ (λ xs ys. xs ++ ys) (word-bits a b c h k l) (ledc_bits-pack buf hs (omega arith))
    ∙ (append_assoc (byte_bits 8 a) (byte_bits 8 b ++ byte_bits 8 c) (software_bits buf)
        ∙ ap (λ xs. byte_bits 8 a ++ xs)
            (append_assoc (byte_bits 8 b) (byte_bits 8 c) (software_bits buf)))

-- Where the LED controller sends each word from bit 23 to bit 0 and its transfer finishes in time, a call with bytes ends in
-- one of two ways. Either it returns, has sent the bits of the buffer as the software path does, each byte
-- from its top bit, whichever path it took, and holds no DMA channel; or `m_new` has raised, MemoryError
-- goes on to the caller with nothing sent, and the DMA channel stays allocated.
pub high_low-cases :
    (ledc : List ℕ → List Bool)
    → ((words : List ℕ) → ledc words ≡ ledc_bits words)
    → (dplus channel : Bool) (memory : Memory) (buf : List ℕ) → AreBytes buf
    → (high_low ledc dplus channel memory true buf ≡ (ok tt, by_software buf))
      ⊎ ((memory ≡ raises)
          × (high_low ledc dplus channel memory true buf
              ≡ (raise memory_error, record { bits = []; held = true })))
unfolding high_low software_bits
high_low-cases ledc order dplus channel memory [] hs = inl refl
high_low-cases ledc order dplus channel memory (b ∷ buf) hs =
    go
      (dplus
        && (length (b ∷ buf) % 3 == 0
            && (ltb 0 (length (b ∷ buf) / 3) && (leb (length (b ∷ buf) / 3) 1024 && channel))))
      (λ e. ground arith)
  where
    sent :
        (memory : Memory)
        → length (b ∷ buf) % 3 ≡ 0
        → (with_channel ledc memory true (b ∷ buf) ≡ (ok tt, by_software (b ∷ buf)))
          ⊎ ((memory ≡ raises)
              × (with_channel ledc memory true (b ∷ buf)
                  ≡ (raise memory_error, record { bits = []; held = true })))
    sent given m = inl (
        ap (λ l. (ok tt, record { bits = l; held = false }))
          (order (pack (b ∷ buf)) ∙ ledc_bits-pack (b ∷ buf) hs m))
    sent null m = inl refl
    sent raises m = inr (refl, refl)

    go :
        (c : Bool)
        → (c ≡ true → length (b ∷ buf) % 3 ≡ 0)
        → ((if c then with_channel ledc memory true (b ∷ buf) else (ok tt, by_software (b ∷ buf)))
            ≡ (ok tt, by_software (b ∷ buf)))
          ⊎ ((memory ≡ raises)
              × ((if c
                    then with_channel ledc memory true (b ∷ buf)
                    else (ok tt, by_software (b ∷ buf)))
                  ≡ (raise memory_error, record { bits = []; held = true })))
    go true m = sent memory (m refl)
    go false m = inl refl
