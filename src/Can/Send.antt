-- ===== src/Can/Send.antt =====
-- `machine_can_port_send`, and the order of the messages of one id over any sequence of calls and
-- interrupts.
use ameba_micro_python.Prelude.{
  ℕ, ◌+◌, ◌<◌, ◌≡◌, ◌≢◌, ◌⊎◌, ◌∙◌, refl, sym, ap, Bool, true, false, ◌&&◌, ◌||◌, Option, none, some,
  List, ◌==◌, if◌then◌else◌, arith, Bool-cases, Option-cases, inl, inr,
}
use mathlib.Core.Path.{subst}
use ameba_micro_python.Can.{
  Can, Frame, Port, Counters, Status, Flags, can_tx_queue_len, ctz, emptied, finished, scan, filled,
  sent_to, frame_of, send, isr, rx_branch, tx_branch, err_branch, busoff_branch, irq_flags,
  take_state, take_finished, restart, mark_state, count_error,
}
use ameba_micro_python.Can.Slots.{ctz-some, free_loop-finished, scan-found, scan-passed, scan-stop}

-- A `send` that succeeds takes a slot that was empty, of the eight, leaves the other slots alone, and,
-- unless order does not matter, finds the id in none of them; a `send` that returns -1 changes nothing,
-- and either each slot is taken, or order matters and a slot has the id.
pub send-cases :
    (port : Port) (id : ℕ) (bytes : List ℕ) (flags : Flags) (j : ℕ)
    → j < can_tx_queue_len
    → let (r, port') = send port id bytes flags in
      ((idx : ℕ) × (idx < can_tx_queue_len)
        × (r ≡ some (idx, frame_of id bytes flags))
        × (port.tx idx ≡ none)
        × (port'.tx j ≡ filled port.tx idx id j)
        × ((flags.unordered ≡ true) ⊎ (port.tx j ≢ some id)))
      ⊎ ((r ≡ none)
          × (port' ≡ port)
          × ((port.tx j ≢ none)
              ⊎ ((k : ℕ) × (k < can_tx_queue_len)
                  × (flags.unordered ≡ false)
                  × (port.tx k ≡ some id))))
unfolding send
send-cases port id bytes flags j hj =
    let found : Option (Option ℕ) = scan port.tx id flags.unordered can_tx_queue_len 0 none in
    elim (Option-cases found) [
      | inl stop ↦
          rw (stop, scan)
            (inr
              (refl, refl, inr (scan-stop port.tx id flags.unordered can_tx_queue_len 0 none stop)))
      | inr (none, full) ↦
          let passed =
            scan-passed port.tx id flags.unordered can_tx_queue_len 0 j none none full (omega arith)
              (omega arith) in
          rw (full, scan) (inr (refl, refl, inl (passed.1 refl)))
      | inr (some idx, e) ↦
          let (other, _) =
            scan-passed port.tx id flags.unordered can_tx_queue_len 0 j none (some idx) e
              (omega arith) (omega arith) in
          elim (scan-found port.tx id flags.unordered can_tx_queue_len 0 none (some idx) e) [
            | inl no_ ↦ absurd (cc)
            | inr (k, same, hk, free_) ↦
                rw (e, scan)
                  (inl (
                    idx,
                    omega (arith, same_index k same),
                    refl,
                    subst (λ i. port.tx i ≡ none) (sym (same_index k same)) free_,
                    refl,
                    by_order flags.unordered other,
                  ))
          ]
    ]
  where
    same_index : {i : ℕ} (k : ℕ) → ◌≡◌ {A = Option ℕ} (some i) (some k) → i ≡ k
    same_index k h = cc

    by_order : (u : Bool) → (u ≡ false → port.tx j ≢ some id) → (u ≡ true) ⊎ (port.tx j ≢ some id)
    by_order true h = inl refl
    by_order false h = inr (h refl)

-- What the interrupt and the flags do to the slots: a slot stays as it is, or is emptied where the
-- status says that its message is done or has failed.
abbrev pub Shrinks : Status → Can → Can → ℕ → Type 0
Shrinks s self self' j =
    (self'.port.tx j ≡ self.port.tx j) ⊎ ((self'.port.tx j ≡ none) × ((s.done j || s.err j) ≡ true))

tx_branch-Shrinks :
    (self : Can) (call : Bool) (s : Status) (j : ℕ)
    → j < can_tx_queue_len
    → Shrinks s self (tx_branch (self, call) s).0 j
unfolding tx_branch
tx_branch-Shrinks self call s j h =
    let freed = free_loop-finished s self.port.tx j h in
    elim (Bool-cases s.tx_int) [
      | inr off ↦ rw (off, tx_branch) (inl refl)
      | inl is_on ↦ elim (Bool-cases self.on_tx) [
        | inl listens ↦ rw (is_on, listens, tx_branch) (inl refl)
        | inr alone ↦ elim (Bool-cases (s.done j || s.err j)) [
          | inl gone ↦
              rw (is_on, alone, tx_branch)
                (inr (freed ∙ ap (λ b. if b then none else self.port.tx j) gone, gone))
          | inr kept ↦
              rw (is_on, alone, tx_branch)
                (inl (freed ∙ ap (λ b. if b then none else self.port.tx j) kept))
        ]
      ]
    ]

mark_state-tx :
    (self : Can) (changed call : Bool) (j : ℕ)
    → (mark_state self changed call).0.port.tx j ≡ self.port.tx j
mark_state-tx self changed call j = ground arith

count_error-tx :
    (port : Port) (c : Counters) (passive warning : Bool) (j : ℕ)
    → (count_error port c passive warning).0.tx j ≡ port.tx j
unfolding count_error
count_error-tx port c true warning j = refl
count_error-tx port c false true j = refl
count_error-tx port c false false j = refl

err_branch-tx :
    (self : Can) (call : Bool) (s : Status) (j : ℕ)
    → (err_branch (self, call) s).0.port.tx j ≡ self.port.tx j
unfolding err_branch
err_branch-tx self call s j = go s.err_int
  where
    out : Port × Counters × Bool
    out = count_error self.port self.counters s.passive s.warning

    go :
        (b : Bool)
        → (if b
              then mark_state (record self { port = out.0; counters = out.1 }) out.2 call
              else (self, call)).0.port.tx
            j
          ≡ self.port.tx j
    go true =
        mark_state-tx (record self { port = out.0; counters = out.1 }) out.2 call j
        ∙ count_error-tx self.port self.counters s.passive s.warning j
    go false = refl

busoff_branch-tx :
    (self : Can) (call : Bool) (s : Status) (j : ℕ)
    → (busoff_branch (self, call) s).0.port.tx j ≡ self.port.tx j
unfolding busoff_branch
busoff_branch-tx self call s j = go s.busoff_int
  where
    at_bus_off : Can
    at_bus_off = record self {
      port = record (self.port) { error_passive = false };
      counters = record (self.counters) { num_bus_off = self.counters.num_bus_off + 1 };
    }

    go :
        (b : Bool)
        → (if b then mark_state at_bus_off true call else (self, call)).0.port.tx j ≡ self.port.tx j
    go true = mark_state-tx at_bus_off true call j
    go false = refl

rx_branch-tx : (self : Can) (s : Status) (j : ℕ) → (rx_branch self s).0.port.tx j ≡ self.port.tx j
rx_branch-tx self s j = ground arith

isr-Shrinks :
    (self : Can) (s : Status) (j : ℕ) → j < can_tx_queue_len → Shrinks s self (isr self s).0 j
unfolding isr
isr-Shrinks self s j h =
    let a : Can × Bool = rx_branch self s in
    let b : Can × Bool = tx_branch a s in
    let c : Can × Bool = err_branch b s in
    let e = busoff_branch-tx c.0 c.1 s j ∙ err_branch-tx b.0 b.1 s j in
    elim (tx_branch-Shrinks a.0 a.1 s j h) [
      | inl same ↦ inl (e ∙ same ∙ rx_branch-tx self s j)
      | inr (gone, ended) ↦ inr (e ∙ gone, ended)
    ]

take_state-tx : (self : Can) (b : Bool) (j : ℕ) → (take_state self b).port.tx j ≡ self.port.tx j
take_state-tx self true j = refl
take_state-tx self false j = refl

take_finished-Shrinks :
    (self : Can) (on : Bool) (s : Status) (found : Option ℕ) (j : ℕ)
    → ((idx : ℕ) → found ≡ some idx → (s.done idx || s.err idx) ≡ true)
    → Shrinks s self (take_finished self on s.err found).1 j
take_finished-Shrinks self false s found j h = inl refl
take_finished-Shrinks self true s none j h = inl refl
take_finished-Shrinks self true s (some idx) j h = emptied-cases self.port.tx
  where
    emptied-cases :
        (tx : ℕ → Option ℕ)
        → (emptied tx idx j ≡ tx j) ⊎ ((emptied tx idx j ≡ none) × ((s.done j || s.err j) ≡ true))
    emptied-cases tx = elim (Bool-cases (j == idx)) [
      | inl same ↦ inr (
        rw same refl,
        subst (λ k. (s.done k || s.err k) ≡ true) (sym (ground (arith, same))) (h idx refl),
      )
      | inr apart ↦ inl (rw apart refl)
    ]

irq_flags-Shrinks :
    (self : Can) (s : Status) (is_empty : Bool) (j : ℕ)
    → Shrinks s self (irq_flags self s is_empty).1 j
unfolding irq_flags
irq_flags-Shrinks self s is_empty j =
    let is_state : Bool = self.on_state && self.port.irq_state_pending in
    let e = take_state-tx self is_state j in
    elim (take_finished-Shrinks (take_state self is_state) self.on_tx s
      (ctz (finished s) can_tx_queue_len 0) j
      (λ idx f.
        let (lo, hi, set) = ctz-some (finished s) can_tx_queue_len 0 idx f in ground arith)) [
          | inl same ↦ inl (same ∙ e)
          | inr gone ↦ inr gone
        ]

-- The port with the hardware: the identifiers of the messages that wait in its buffers.
pub record World : Type 0 where
  pub can : Can
  pub hw : ℕ → Option ℕ

-- The buffer that `send` has written.
abbrev pub written : (ℕ → Option ℕ) → ℕ → Option (ℕ × Frame) → ℕ → Option ℕ
written hw id none = hw
written hw id (some (idx, frame)) = filled hw idx id

-- The status of the hardware says of no message that waits that it is done or has failed.
abbrev pub IsStatus : Status → (ℕ → Option ℕ) → Type 0
IsStatus s hw = (j : ℕ) → j < can_tx_queue_len → (s.done j || s.err j) ≡ true → hw j ≡ none

-- A call of `send` without UNORDERED; the end of a message in the hardware; an interrupt; a call of the
-- flags; and a restart while no message waits.
pub data Step (w w' : World) : Type 0 where
  sends :
      (id : ℕ) (bytes : List ℕ) (flags : Flags)
      → flags.unordered ≡ false
      → record {
        can = record w.can { port = (send w.can.port id bytes flags).1 };
        hw = written w.hw id (send w.can.port id bytes flags).0;
      }
        ≡ w'
      → Step w w'
  finishes : (j : ℕ) → record w { hw = emptied w.hw j } ≡ w' → Step w w'
  interrupts : (s : Status) → IsStatus s w.hw → record w { can = (isr w.can s).0 } ≡ w' → Step w w'
  asks :
      (s : Status) (is_empty : Bool)
      → IsStatus s w.hw
      → record w { can = (irq_flags w.can s is_empty).1 } ≡ w'
      → Step w w'
  restarts :
      ((j : ℕ) → j < can_tx_queue_len → w.hw j ≡ none)
      → record w { can = restart w.can } ≡ w'
      → Step w w'

abbrev pub at_start : Can → World
at_start start = record { can = restart start; hw = λ j. none }

pub data Reach (start : Can) : World → Type 0 where
  starts : Reach start (at_start start)
  next : {w w' : World} → Reach start w → Step w w' → Reach start w'

-- No id is in two slots.
abbrev pub Ordered : Can → Type 0
Ordered self =
    (i j id : ℕ)
    → i < can_tx_queue_len
    → j < can_tx_queue_len
    → self.port.tx i ≡ some id
    → self.port.tx j ≡ some id
    → i ≡ j

Shrinks-Ordered :
    (s : Status) (self self' : Can)
    → ((j : ℕ) → j < can_tx_queue_len → Shrinks s self self' j)
    → Ordered self
    → Ordered self'
Shrinks-Ordered st self self' s o i j id hi hj ei ej = elim (s i hi) [
  | inr (gone, ended) ↦ absurd (cc)
  | inl same ↦ elim (s j hj) [
    | inr (gone, ended) ↦ absurd (cc)
    | inl same' ↦ o i j id hi hj (sym same ∙ ei) (sym same' ∙ ej)
  ]
]

same_index : (i j idx : ℕ) → (i == idx) ≡ true → (j == idx) ≡ true → i ≡ j
same_index i j idx at at' = ground arith

send-Ordered :
    (self : Can) (id : ℕ) (bytes : List ℕ) (flags : Flags)
    → flags.unordered ≡ false
    → Ordered self
    → Ordered (record self { port = (send self.port id bytes flags).1 })
unfolding send
send-Ordered self id bytes flags u o =
    go (scan self.port.tx id flags.unordered can_tx_queue_len 0 none) refl
  where
    tx : ℕ → Option ℕ
    tx = self.port.tx

    go :
        (found : Option (Option ℕ))
        → scan tx id flags.unordered can_tx_queue_len 0 none ≡ found
        → Ordered (record self { port = (sent_to self.port id (frame_of id bytes flags) found).1 })
    go none e = o
    go (some none) e = o
    go (some (some idx)) e = λ i j x hi hj ei ej. elim (Bool-cases (i == idx)) [
      | inl at ↦ elim (Bool-cases (j == idx)) [
        | inl at' ↦ same_index i j idx at at'
        | inr apart' ↦ absurd ((other j hj).0 u (ej' j x ej apart' ∙ sym (at_idx i x ei at)))
      ]
      | inr apart ↦ elim (Bool-cases (j == idx)) [
        | inl at' ↦ absurd ((other i hi).0 u (ej' i x ei apart ∙ sym (at_idx j x ej at')))
        | inr apart' ↦ o i j x hi hj (ej' i x ei apart) (ej' j x ej apart')
      ]
    ]
      where
        other :
            (j : ℕ)
            → j < can_tx_queue_len
            → (flags.unordered ≡ false → tx j ≢ some id) × (some idx ≡ none → tx j ≢ none)
        other j h =
            scan-passed tx id flags.unordered can_tx_queue_len 0 j none (some idx) e (omega arith)
              (omega arith)

        at_idx : (j x : ℕ) → filled tx idx id j ≡ some x → (j == idx) ≡ true → some id ≡ some x
        at_idx j x h same = rw same at h

        ej' : (j x : ℕ) → filled tx idx id j ≡ some x → (j == idx) ≡ false → tx j ≡ some x
        ej' j x h apart = rw apart at h

restart-Ordered : (self : Can) → Ordered (restart self)
unfolding restart
restart-Ordered self i j id hi hj ei ej = cc

-- A message that waits in the hardware has its slot.
abbrev pub Covered : World → Type 0
Covered w = (j id : ℕ) → j < can_tx_queue_len → w.hw j ≡ some id → w.can.port.tx j ≡ some id

Shrinks-Covered :
    (s : Status) (w : World) (self' : Can)
    → IsStatus s w.hw
    → ((j : ℕ) → j < can_tx_queue_len → Shrinks s w.can self' j)
    → Covered w
    → Covered (record w { can = self' })
Shrinks-Covered st w self' tells s c j id h e = elim (s j h) [
  | inl same ↦ same ∙ c j id h e
  | inr (gone, ended) ↦ absurd (cc (tells j h ended, e))
]

filled-Covered :
    (tx hw : ℕ → Option ℕ) (idx id j x : ℕ)
    → (hw j ≡ some x → tx j ≡ some x)
    → filled hw idx id j ≡ some x
    → filled tx idx id j ≡ some x
filled-Covered tx hw idx id j x h e = elim (Bool-cases (j == idx)) [
  | inl at ↦ rw at (rw at at e)
  | inr apart ↦ rw apart (h (rw apart at e))
]

send-Covered :
    (w : World) (id : ℕ) (bytes : List ℕ) (flags : Flags)
    → Covered w
    → Covered (record {
      can = record w.can { port = (send w.can.port id bytes flags).1 };
      hw = written w.hw id (send w.can.port id bytes flags).0;
    })
unfolding send
send-Covered w id bytes flags c = go (scan w.can.port.tx id flags.unordered can_tx_queue_len 0 none)
  where
    go :
        (found : Option (Option ℕ))
        → let out = sent_to w.can.port id (frame_of id bytes flags) found in
          Covered (record { can = record w.can { port = out.1 }; hw = written w.hw id out.0 })
    go none = c
    go (some none) = c
    go (some (some idx)) = λ j x h e. filled-Covered w.can.port.tx w.hw idx id j x (c j x h) e

finish-Covered : (w : World) (j : ℕ) → Covered w → Covered (record w { hw = emptied w.hw j })
finish-Covered w j c i id h e = elim (Bool-cases (i == j)) [
  | inl at ↦ absurd (none_some (rw at at e))
  | inr apart ↦ c i id h (rw apart at e)
]
  where
    none_some : {x : ℕ} → ◌≡◌ {A = Option ℕ} none (some x) → ⊥
    none_some e = cc

abbrev Sound : World → Type 0
Sound w = Ordered w.can × Covered w

Step-Sound : {w w' : World} → Step w w' → Sound w → Sound w'
Step-Sound {w} (sends id bytes flags u e) (o, c) =
    subst Sound e (send-Ordered w.can id bytes flags u o, send-Covered w id bytes flags c)
Step-Sound {w} (finishes j e) (o, c) = subst Sound e (o, finish-Covered w j c)
Step-Sound {w} (interrupts s t e) (o, c) = subst Sound e (
  Shrinks-Ordered s w.can (isr w.can s).0 (isr-Shrinks w.can s) o,
  Shrinks-Covered s w (isr w.can s).0 t (isr-Shrinks w.can s) c,
)
Step-Sound {w} (asks s is_empty t e) (o, c) =
    let shrinks = λ (j : ℕ) (h : j < can_tx_queue_len). irq_flags-Shrinks w.can s is_empty j in
    subst Sound e (
      Shrinks-Ordered s w.can (irq_flags w.can s is_empty).1 shrinks o,
      Shrinks-Covered s w (irq_flags w.can s is_empty).1 t shrinks c,
    )
Step-Sound {w} (restarts idle e) (o, c) =
    subst Sound e (restart-Ordered w.can, λ j id h f. absurd (cc (idle j h, f)))

-- As long as order matters for each message, no two of the hardware's eight buffers hold messages of one
-- id that wait at the same time, each of them in its slot of the driver; with interrupts and calls of the
-- flags in between, whose status says of no waiting message that it is done or has failed, and with
-- restarts while no message waits. So the hardware, which picks among the buffers, cannot send two
-- messages of one id in the wrong order.
pub Reach-Ordered :
    (start : Can) (w : World) (i j id : ℕ)
    → Reach start w
    → i < can_tx_queue_len
    → j < can_tx_queue_len
    → w.hw i ≡ some id
    → (w.can.port.tx i ≡ some id) × ((w.hw j ≢ some id) ⊎ (i ≡ j))
Reach-Ordered start w i j id r hi hj ei =
    let (o, c) = sound r in
    (
      c i id hi ei,
      elim (Bool-cases (i == j)) [
        | inl same ↦ inr (ground arith)
        | inr apart ↦ inl (λ ej. ground (arith, o i j id hi hj (c i id hi ei) (c j id hj ej)))
      ],
    )
  where
    sound : {w : World} → Reach start w → Sound w
    sound starts = (restart-Ordered start, λ j id h e. cc)
    sound (next r s) = Step-Sound s (sound r)
