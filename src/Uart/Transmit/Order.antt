-- ===== src/Uart/Transmit/Order.antt =====
-- What the port of machine_uart.c sends, and when it says that it is done.
use ameba_micro_python.Prelude.{
  ℕ, ◌≡◌, ◌<◌, ◌∙◌, ◌⊎◌, ap, ◌+◌, Bool, true, false, not, Option, none, some, List, [], ◌∷◌, ◌++◌,
  ◌==◌, if◌then◌else◌, arith, inl, inr, Option-cases,
}
use ameba_micro_python.RingBuf.{RingBuf, IsQueue}
use ameba_micro_python.RingBuf.Fill.{or_same}
use ameba_micro_python.Uart.Transmit.{Tx, fill_end, feed_byte, txdone}

-- How often a byte is in a list.
abbrev pub count : ℕ → List ℕ → ℕ
count c [] = 0
count c (x ∷ xs) = (if x == c then 1 else 0) + count c xs

module _ (ring : RingBuf) (queue : IsQueue ring) where
  open ring use {Buf, contents, capacity, put, get, avail, free}

  -- What is sent and then what is queued.
  abbrev pub line : Tx Buf → List ℕ
  line t = t.wire ++ contents t.queue

  -- What the interrupt's fill keeps, and that it leaves a busy port armed.
  abbrev pub Filled : Tx Buf → Tx Buf → Type 0
  Filled t t' =
      (line t' ≡ line t)
      × (t'.busy ≡ t.busy)
      × (t'.taken ≡ t.taken)
      × (t'.hand ≡ t.hand)
      × (t.busy ≡ true → t'.armed ≡ true)

  -- The byte that the thread holds.
  abbrev pub held : Option ℕ → List ℕ
  held none = []
  held (some c) = c ∷ []

  pub record Inv (t : Tx Buf) : Type 0 where
    pub each : (c : ℕ) → count c (line t) + count c (held t.hand) ≡ count c t.taken
    pub order : (t.crossed ≡ true) ⊎ (t.wire ++ (held t.hand ++ contents t.queue) ≡ t.taken)
    pub waits : t.busy ≡ true → (t.armed ≡ true) ⊎ (t.filling ≡ true)

  -- The queue with a byte more.
  grown :
      (t : Tx Buf) (x : ℕ)
      → 0 < free t.queue
      → contents (or_same ring t.queue (put t.queue x)) ≡ contents t.queue ++ x ∷ []
  grown t x room = elim (Option-cases (put t.queue x)) [
    | inl full ↦ absurd (omega (arith, queue.put_none t.queue x full, queue.free_rest t.queue))
    | inr (b, e) ↦ ap (λ o. contents (or_same ring t.queue o)) e ∙ queue.put_some t.queue b x e
  ]

  -- Where the interrupt has found the queue empty before a long `write` goes on, and the FIFO of the
  -- hardware has no room, so that its fill ends at once, the byte put next stays in the queue with the interrupt not armed, while
  -- `txdone` says yes.
  pub feed_byte-stalls :
      (t : Tx Buf) (x : ℕ)
      → contents t.queue ≡ []
      → t.busy ≡ false
      → t.armed ≡ false
      → 0 < free t.queue
      → let t' = fill_end ring (feed_byte ring t x) in
        (contents t'.queue ≡ x ∷ []) × (t'.armed ≡ false) × (txdone ring t' ≡ true)
  feed_byte-stalls t x empty idle_ unarmed room = elim (Option-cases (put t.queue x)) [
    | inl full ↦ absurd (omega (arith, queue.put_none t.queue x full, queue.free_rest t.queue))
    | inr (b, e) ↦
        let grown : contents b ≡ x ∷ [] =
          queue.put_some t.queue b x e ∙ ap (λ l. l ++ x ∷ []) empty in
        stalls t.busy idle_ (put t.queue x) (ap (λ o. contents (or_same ring t.queue o)) e ∙ grown)
  ]
    where
      stalls :
          (busy : Bool)
          → busy ≡ false
          → (o : Option Buf) → contents (or_same ring t.queue o) ≡ x ∷ []
          → let t' =
              (if busy
                then record t {
                  queue = or_same ring t.queue o;
                  taken = t.taken ++ x ∷ [];
                  armed = true;
                  filling = true;
                }
                else record t {
                  queue = or_same ring t.queue o;
                  taken = t.taken ++ x ∷ [];
                  filling = true;
                }) in
            (contents t'.queue ≡ x ∷ []) × (t'.armed ≡ false) × (not t'.busy ≡ true)
      stalls true h o g = cc
      stalls false h o g = (g, unarmed, ground arith)
