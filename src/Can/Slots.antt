-- ===== src/Can/Slots.antt =====
-- The transmit slots of machine_can.c: what the interrupt frees, and what `send` takes.
use ameba_micro_python.Prelude.{
  ℕ, zero, suc, ◌+◌, ◌≤◌, ◌<◌, ◌≡◌, ◌≢◌, ◌⊎◌, ◌∙◌, refl, sym, Bool, true, false, ◌||◌, Option, none,
  some, ◌==◌, ltb, if◌then◌else◌, arith, Bool-cases, Option-cases, inl, inr,
}
use mathlib.Core.Path.{subst}
use ameba_micro_python.Can.{
  Status, can_tx_queue_len, ctz, without, emptied, finished, free_loop, scan, scan_slot,
}

pub ctz-some :
    (mask : ℕ → Bool) (n i idx : ℕ)
    → ctz mask n i ≡ some idx
    → (i ≤ idx) × (idx < i + n) × (mask idx ≡ true)
unfolding ctz
ctz-some mask zero i idx e = cc
ctz-some mask (suc n) i idx e = elim (Bool-cases (mask i)) [
  | inl set ↦
      let same : i ≡ idx = ground arith in
      (omega arith, omega arith, subst (λ k. mask k ≡ true) same set)
  | inr clear ↦
      let (lo, hi, m) = ctz-some mask n (i + 1) idx (ground arith) in (omega arith, omega arith, m)
]

-- No bit below the one found.
ctz-first :
    (mask : ℕ → Bool) (n i idx j : ℕ) → ctz mask n i ≡ some idx → i ≤ j → j < idx → mask j ≡ false
unfolding ctz
ctz-first mask zero i idx j e lo hi = cc
ctz-first mask (suc n) i idx j e lo hi = elim (Bool-cases (mask i)) [
  | inl set ↦ let same : i ≡ idx = ground arith in absurd (omega arith)
  | inr clear ↦ elim (Bool-cases (i == j)) [
    | inl same ↦ subst (λ k. mask k ≡ false) (ground arith) clear
    | inr apart ↦ ctz-first mask n (i + 1) idx j (ground arith) (ground arith) hi
  ]
]

ctz-none : (mask : ℕ → Bool) (n i j : ℕ) → ctz mask n i ≡ none → i ≤ j → j < i + n → mask j ≡ false
unfolding ctz
ctz-none mask zero i j e lo hi = absurd (omega arith)
ctz-none mask (suc n) i j e lo hi = elim (Bool-cases (mask i)) [
  | inl set ↦ absurd (ground arith)
  | inr clear ↦ elim (Bool-cases (i == j)) [
    | inl same ↦ subst (λ k. mask k ≡ false) (ground arith) clear
    | inr apart ↦ ctz-none mask n (i + 1) j (ground arith) (ground arith) (omega arith)
  ]
]

-- With no bit below `8 - n`, `n` rounds of the loop are enough.
free_loop-lem :
    (n : ℕ) (mask : ℕ → Bool) (tx : ℕ → Option ℕ) (j : ℕ)
    → n ≤ can_tx_queue_len
    → ((k : ℕ) → k + n < can_tx_queue_len → mask k ≡ false)
    → j < can_tx_queue_len
    → free_loop n mask tx j ≡ (if mask j then none else tx j)
unfolding free_loop
free_loop-lem zero mask tx j h low hj = rw (low j (omega arith)) refl
free_loop-lem (suc n) mask tx j h low hj = elim (Option-cases (ctz mask can_tx_queue_len 0)) [
  | inl e ↦ rw (e, free_loop, ctz-none mask can_tx_queue_len 0 j e (omega arith) (omega arith)) refl
  | inr (idx, e) ↦
      let (lo, hi, set) = ctz-some mask can_tx_queue_len 0 idx e in
      rw (e, free_loop)
        (free_loop-lem n (without mask idx) (emptied tx idx) j (omega arith)
            (λ k hk. cleared idx e (ctz-some mask can_tx_queue_len 0 idx e).2 k hk) hj
          ∙ same_slot idx set)
]
  where
    cleared :
        (idx : ℕ)
        → ctz mask can_tx_queue_len 0 ≡ some idx
        → mask idx ≡ true
        → (k : ℕ) → k + n < can_tx_queue_len
        → without mask idx k ≡ false
    cleared idx e set k hk = elim (Bool-cases (k == idx)) [
      | inl is ↦ ground arith
      | inr apart ↦ elim (Bool-cases (ltb (k + suc n) can_tx_queue_len)) [
        | inl below ↦ ground (arith, low k)
        | inr last ↦ elim (Bool-cases (ltb k idx)) [
          | inl before ↦
              let off = ctz-first mask can_tx_queue_len 0 idx k e (omega arith) (ground arith) in
              ground arith
          | inr after ↦ absurd (ground (arith, low idx))
        ]
      ]
    ]

    same_slot :
        (idx : ℕ)
        → mask idx ≡ true
        → (if without mask idx j then none else emptied tx idx j) ≡ (if mask j then none else tx j)
    same_slot idx set = elim (Bool-cases (j == idx)) [
      | inl is ↦
          let on = (let e : idx ≡ j = ground arith in subst (λ k. mask k ≡ true) e set) in
          ground arith
      | inr apart ↦ ground arith
    ]

-- The loop of the interrupt empties exactly the slots of the buffers that have been sent or have
-- failed: none of them is left, and no other slot changes.
pub free_loop-finished :
    (s : Status) (tx : ℕ → Option ℕ) (j : ℕ)
    → j < can_tx_queue_len
    → free_loop can_tx_queue_len (finished s) tx j ≡ (if s.done j || s.err j then none else tx j)
free_loop-finished s tx j h =
    free_loop-lem can_tx_queue_len (finished s) tx j (omega arith) (λ k hk. absurd (omega arith)) h
    ∙ ground arith

-- One slot of the scan.
scan_slot-some :
    (slot : Option ℕ) (id : ℕ) (unordered : Bool) (empty : Option ℕ) (i : ℕ) (empty' : Option ℕ)
    → scan_slot slot id unordered empty i ≡ some empty'
    → ((empty ≡ none) × (slot ≡ none) × (empty' ≡ some i))
      ⊎ ((empty' ≡ empty) × ((empty ≡ none → slot ≢ none)) × (unordered ≡ false → slot ≢ some id))
scan_slot-some none id unordered none i empty' e = inl (refl, refl, cc)
scan_slot-some none id unordered (some first) i empty' e = inr (cc, (λ h. cc), (λ h. cc))
scan_slot-some (some t) id unordered empty i empty' e =
    inr (ground arith, (λ h k. cc), (λ h k. ground arith))

scan_slot-none :
    (slot : Option ℕ) (id : ℕ) (unordered : Bool) (empty : Option ℕ) (i : ℕ)
    → scan_slot slot id unordered empty i ≡ none
    → (unordered ≡ false) × (slot ≡ some id)
scan_slot-none none id unordered none i e = cc
scan_slot-none none id unordered (some first) i e = cc
scan_slot-none (some t) id unordered empty i e = ground arith

-- The empty slot that is known after a scan: the one from before, or one that it has passed.
pub scan-found :
    (tx : ℕ → Option ℕ) (id : ℕ) (unordered : Bool) (n i : ℕ) (empty found : Option ℕ)
    → scan tx id unordered n i empty ≡ some found
    → (found ≡ empty) ⊎ ((idx : ℕ) × (found ≡ some idx) × (idx < i + n) × (tx idx ≡ none))
unfolding scan
scan-found tx id unordered zero i empty found e = inl cc
scan-found tx id unordered (suc n) i empty found e =
    elim (Option-cases (scan_slot (tx i) id unordered empty i)) [
      | inl stop ↦ absurd (none-some (rw (stop, scan) at e))
      | inr (empty', go) ↦
          elim (scan-found tx id unordered n (i + 1) empty' found (rw (go, scan) at e)) [
            | inl same ↦ elim (scan_slot-some (tx i) id unordered empty i empty' go) [
              | inl (a, b, c) ↦ inr (i, same ∙ c, omega arith, b)
              | inr (a, b, c) ↦ inl (same ∙ a)
            ]
            | inr (idx, a, b, c) ↦ inr (idx, a, omega arith, c)
          ]
    ]
  where
    none-some : ◌≡◌ {A = Option (Option ℕ)} none (some found) → ⊥
    none-some h = cc

-- A scan that ends has passed no slot of the id, where order matters, and none that is empty, where it
-- knows of none.
pub scan-passed :
    (tx : ℕ → Option ℕ) (id : ℕ) (unordered : Bool) (n i j : ℕ) (empty found : Option ℕ)
    → scan tx id unordered n i empty ≡ some found
    → i ≤ j
    → j < i + n
    → (unordered ≡ false → tx j ≢ some id) × (found ≡ none → tx j ≢ none)
unfolding scan
scan-passed tx id unordered zero i j empty found e lo hi = absurd (omega arith)
scan-passed tx id unordered (suc n) i j empty found e lo hi =
    elim (Option-cases (scan_slot (tx i) id unordered empty i)) [
      | inl stop ↦ absurd (none-some (rw (stop, scan) at e))
      | inr (empty', go) ↦ elim (Bool-cases (i == j)) [
        | inl at ↦
            subst (λ k. (unordered ≡ false → tx k ≢ some id) × (found ≡ none → tx k ≢ none))
              (ground arith) (here empty' go (rw (go, scan) at e))
        | inr apart ↦
            scan-passed tx id unordered n (i + 1) j empty' found (rw (go, scan) at e) (ground arith)
              (omega arith)
      ]
    ]
  where
    none-some : ◌≡◌ {A = Option (Option ℕ)} none (some found) → ⊥
    none-some h = cc

    here :
        (empty' : Option ℕ)
        → scan_slot (tx i) id unordered empty i ≡ some empty'
        → scan tx id unordered n (i + 1) empty' ≡ some found
        → (unordered ≡ false → tx i ≢ some id) × (found ≡ none → tx i ≢ none)
    here empty' go e' = elim (scan_slot-some (tx i) id unordered empty i empty' go) [
      | inl (a, b, c) ↦ (
        (λ o h. some_none (sym h ∙ b)),
        (λ f. elim (scan-found tx id unordered n (i + 1) empty' found e') [
          | inl same ↦ absurd (some_none (sym c ∙ sym same ∙ f))
          | inr (idx, x, y, z) ↦ absurd (some_none (sym x ∙ f))
        ]),
      )
      | inr (a, b, c) ↦ (
        c,
        (λ f. elim (scan-found tx id unordered n (i + 1) empty' found e') [
          | inl same ↦ b (sym a ∙ sym same ∙ f)
          | inr (idx, x, y, z) ↦ absurd (some_none (sym x ∙ f))
        ]),
      )
    ]
      where
        some_none : {k : ℕ} → ◌≡◌ {A = Option ℕ} (some k) none → ⊥
        some_none h = cc

-- A scan that gives up has met the id.
pub scan-stop :
    (tx : ℕ → Option ℕ) (id : ℕ) (unordered : Bool) (n i : ℕ) (empty : Option ℕ)
    → scan tx id unordered n i empty ≡ none
    → (k : ℕ) × (k < i + n) × (unordered ≡ false) × (tx k ≡ some id)
unfolding scan
scan-stop tx id unordered zero i empty e = cc
scan-stop tx id unordered (suc n) i empty e =
    elim (Option-cases (scan_slot (tx i) id unordered empty i)) [
      | inl stop ↦
          let (o, same) = scan_slot-none (tx i) id unordered empty i stop in
          (i, omega arith, o, same)
      | inr (empty', go) ↦
          let (k, hi, o, same) = scan-stop tx id unordered n (i + 1) empty' (rw (go, scan) at e) in
          (k, omega arith, o, same)
    ]
