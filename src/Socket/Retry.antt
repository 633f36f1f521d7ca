-- ===== src/Socket/Retry.antt =====
-- The loop of modsocket.c that waits in slices: `for (int i = 0; i <= sock->retries; i++)`.
-- The counter is compared as an unsigned 32-bit number, so with `retries` = UINT_MAX the test never
-- fails. Fuel bounds the rounds; `none` means that the loop is still running when it is used up.
use ameba_micro_python.Prelude.{
  ℕ, zero, suc, ◌+◌, ◌%◌, ◌^◌, ◌≤◌, ◌<◌, ◌≡◌, ◌≢◌, refl, ap, ◌∙◌, true, false, Option, none, some,
  leb, arith, Bool-cases, inl, inr, ◌⊎◌,
}
use native.Mathlib.Decide.{ℕ_discrete, dec_lt}
use ameba_micro_python.Socket.{uint_max}

pub data Try {ℓ} (A : Type ℓ) : Type ℓ where
  stop : A → Try A
  again : Try A

abbrev pub u32 : ℕ → ℕ
u32 n = n % 2 ^ 32

Try-cases {ℓ} : {A : Type ℓ} (t : Try A) → ((a : A) × (t ≡ stop a)) ⊎ (t ≡ again)
Try-cases (stop a) = inl (a, refl)
Try-cases again = inr refl

module _ {ℓ} {A : Type ℓ} (retries : ℕ) (body : ℕ → Try A) (after : A) where
  unfoldable pub retry_loop : ℕ → ℕ → Option A
  retry_loop zero i = none
  retry_loop (suc fuel) i = elim (leb (u32 i) retries) [
    | true ↦ elim (body i) [ stop a ↦ some a | again ↦ retry_loop fuel (i + 1) ]
    | false ↦ some after
  ]

  -- With a finite number of retries the loop ends.
  pub retry_loop-total :
      (fuel i : ℕ)
      → retries < uint_max
      → i ≤ retries + 1
      → retries + 2 ≤ fuel + i
      → retry_loop fuel i ≢ none
  unfolding retry_loop
  retry_loop-total zero i h hi hf = absurd (omega arith)
  retry_loop-total (suc fuel) i h hi hf = ground (arith, retry_loop-total fuel (i + 1))

  -- The first round that stops gives the result.
  pub retry_loop-stop :
      (fuel i k : ℕ) (a : A)
      → i ≤ k
      → k ≤ retries
      → retries ≤ uint_max
      → k < fuel + i
      → ((j : ℕ) → j < k → body j ≡ again)
      → body k ≡ stop a
      → retry_loop fuel i ≡ some a
  unfolding retry_loop
  retry_loop-stop zero i k a hi hk hr hf hb hs = absurd (omega arith)
  retry_loop-stop (suc fuel) i k a hi hk hr hf hb hs = elim (ℕ_discrete i k) [
    | yes e ↦ let stops : body i ≡ stop a = ap body e ∙ hs in ground arith
    | no ne ↦ ground (
      arith,
      hb i (omega arith),
      retry_loop-stop fuel (i + 1) k a (omega arith) hk hr (omega arith) hb hs,
    )
  ]

  -- Where no round stops, the loop ends with what follows it.
  pub retry_loop-exhausted :
      (fuel i : ℕ)
      → retries < uint_max
      → i ≤ retries + 1
      → retries + 2 ≤ fuel + i
      → ((j : ℕ) → j ≤ retries → body j ≡ again)
      → retry_loop fuel i ≡ some after
  unfolding retry_loop
  retry_loop-exhausted zero i h hi hf hb = absurd (omega arith)
  retry_loop-exhausted (suc fuel) i h hi hf hb = elim (dec_lt retries i) [
    | yes p ↦ let e : leb (u32 i) retries ≡ false = ground arith in rw (e, retry_loop)
    | no p ↦
        let e : leb (u32 i) retries ≡ true = ground arith in
        rw (e, hb i (omega arith), retry_loop)
          (retry_loop-exhausted fuel (i + 1) h (omega arith) (omega arith) hb)
  ]

  -- With UINT_MAX retries and no round that stops, it never ends.
  pub retry_loop-forever :
      (fuel i : ℕ) → retries ≡ uint_max → ((j : ℕ) → body j ≡ again) → retry_loop fuel i ≡ none
  unfolding retry_loop
  retry_loop-forever zero i h hb = refl
  retry_loop-forever (suc fuel) i h hb = ground (arith, hb i, retry_loop-forever fuel (i + 1))

  -- A result comes from a round, or from the end of the loop.
  pub retry_loop-cases :
      (fuel i : ℕ) (r : A)
      → retry_loop fuel i ≡ some r
      → (after ≡ r) ⊎ ((k : ℕ) × (body k ≡ stop r))
  unfolding retry_loop
  retry_loop-cases zero i r e = cc
  retry_loop-cases (suc fuel) i r e = elim (Bool-cases (leb (u32 i) retries)) [
    | inl t ↦ elim (Try-cases (body i)) [
      | inl (a, s) ↦ let e' : some a ≡ some r = rw (t, s, retry_loop) at e in inr (i, s ∙ cc)
      | inr g ↦ retry_loop-cases fuel (i + 1) r (rw (t, g, retry_loop) at e)
    ]
    | inr f ↦ let e' : some after ≡ some r = rw (f, retry_loop) at e in inl (cc)
  ]
