-- ===== src/Can/Errors.antt =====
-- The error counters of machine_can.c over a sequence of interrupts.
use ameba_micro_python.Prelude.{
  ℕ, ◌+◌, ◌≡◌, ◌∙◌, refl, ap, Bool, true, false, not, ◌&&◌, List, [], ◌∷◌, if◌then◌else◌, arith,
}
use ameba_micro_python.Can.{
  Can, Port, Counters, Status, free_loop, finished, can_tx_queue_len, with_tx, rx_branch, tx_branch,
  count_error, mark_state, err_branch, busoff_branch, isr,
}

abbrev pub one_if : Bool → ℕ
one_if b = if b then 1 else 0

-- What is remembered of the error-passive state, and how often it has been counted.
abbrev pub view : Can → Bool × ℕ
view self = (self.port.error_passive, self.counters.num_passive)

abbrev pub view_of : Can × Bool → Bool × ℕ
view_of out = view out.0

abbrev pub after_error : Status → Bool × ℕ → Bool × ℕ
after_error s (b, n) =
    (if s.err_int then s.passive else b, n + one_if (s.err_int && s.passive && not b))

abbrev pub after_busoff : Status → Bool × ℕ → Bool × ℕ
after_busoff s (b, n) = (if s.busoff_int then false else b, n)

rx_branch-view : (self : Can) (s : Status) → view (rx_branch self s).0 ≡ view self
rx_branch-view self s = go s.rx_int
  where
    counted : Can
    counted = record self {
      counters = record (self.counters) {
        rx_overruns =
            if s.overflow then self.counters.rx_overruns + 1 else self.counters.rx_overruns;
      };
    }

    go : (b : Bool) → view_of (if b then (counted, self.on_rx) else (self, false)) ≡ view self
    go true = refl
    go false = refl

tx_branch-view :
    (self : Can) (call : Bool) (s : Status) → view (tx_branch (self, call) s).0 ≡ view self
unfolding tx_branch
tx_branch-view self call s = go s.tx_int self.on_tx
  where
    freed : Can
    freed = with_tx self (free_loop can_tx_queue_len (finished s) self.port.tx)

    go :
        (b on : Bool)
        → view_of (if b then if on then (self, true) else (freed, call) else (self, call))
          ≡ view self
    go true true = refl
    go true false = refl
    go false on = refl

mark_state-view :
    (self : Can) (changed call : Bool) → view (mark_state self changed call).0 ≡ view self
mark_state-view self changed call = go (changed && self.on_state)
  where
    go :
        (b : Bool)
        → view_of (
            if b
            then (record self { port = record (self.port) { irq_state_pending = true } }, true)
            else (self, call))
          ≡ view self
    go true = refl
    go false = refl

count_error-view :
    (port : Port) (c : Counters) (passive warning : Bool)
    → let (port', c', changed) = count_error port c passive warning in
      (port'.error_passive ≡ passive)
      × (c'.num_passive ≡ c.num_passive + one_if (passive && not port.error_passive))
unfolding count_error
count_error-view port c true warning = (refl, go port.error_passive)
  where
    go :
        (b : Bool)
        → (if b then c else record c { num_passive = c.num_passive + 1 }).num_passive
          ≡ c.num_passive + one_if (not b)
    go true = omega arith
    go false = refl
count_error-view port c false true = (refl, omega arith)
count_error-view port c false false = (refl, omega arith)

err_branch-view :
    (self : Can) (call : Bool) (s : Status)
    → view (err_branch (self, call) s).0 ≡ after_error s (view self)
unfolding err_branch
err_branch-view self call s = go s.err_int
  where
    out : Port × Counters × Bool
    out = count_error self.port self.counters s.passive s.warning

    go :
        (b : Bool)
        → view
            (if b
              then mark_state (record self { port = out.0; counters = out.1 }) out.2 call
              else (self, call)).0
          ≡ (
            if b then s.passive else self.port.error_passive,
            self.counters.num_passive + one_if (b && s.passive && not self.port.error_passive),
          )
    go true =
        let (p, n) = count_error-view self.port self.counters s.passive s.warning in
        mark_state-view (record self { port = out.0; counters = out.1 }) out.2 call
        ∙ ap (λ b. (b, out.1.num_passive)) p
        ∙ ap (λ k. (s.passive, k)) n
    go false = ap (λ k. (self.port.error_passive, k)) (omega arith)

busoff_branch-view :
    (self : Can) (call : Bool) (s : Status)
    → view (busoff_branch (self, call) s).0 ≡ after_busoff s (view self)
unfolding busoff_branch
busoff_branch-view self call s = go s.busoff_int
  where
    at_bus_off : Can
    at_bus_off = record self {
      port = record (self.port) { error_passive = false };
      counters = record (self.counters) { num_bus_off = self.counters.num_bus_off + 1 };
    }

    go :
        (b : Bool)
        → view (if b then mark_state at_bus_off true call else (self, call)).0
          ≡ (if b then false else self.port.error_passive, self.counters.num_passive)
    go true = mark_state-view at_bus_off true call
    go false = refl

isr-view :
    (self : Can) (s : Status) → view (isr self s).0 ≡ after_busoff s (after_error s (view self))
unfolding isr
isr-view self s =
    let a : Can × Bool = rx_branch self s in
    let b : Can × Bool = tx_branch a s in
    let c : Can × Bool = err_branch b s in
    busoff_branch-view c.0 c.1 s
    ∙ ap (after_busoff s) (
        err_branch-view b.0 b.1 s
        ∙ ap (after_error s) (tx_branch-view a.0 a.1 s ∙ rx_branch-view self s))

-- The interrupts one after another.
unfoldable pub run : Can → List Status → Can
unfolding isr
run self [] = self
run self (s ∷ ss) = run (isr self s).0 ss

-- How often the controller enters the error-passive state, from whether it is in it: by an error
-- interrupt that finds it there, where the one before did not; bus-off leaves the state.
unfoldable pub entries : Bool → List Status → ℕ
entries b [] = 0
entries b (s ∷ ss) =
    one_if (s.err_int && s.passive && not b)
    + entries (if s.busoff_int then false else if s.err_int then s.passive else b) ss

-- After any sequence of interrupts, `num_passive` has grown by the number of times that the controller
-- has entered the error-passive state.
pub run-num_passive :
    (self : Can) (ss : List Status)
    → (run self ss).counters.num_passive
      ≡ self.counters.num_passive + entries self.port.error_passive ss
unfolding run entries
run-num_passive self [] = omega arith
run-num_passive self (s ∷ ss) =
    let e = isr-view self s in
    run-num_passive (isr self s).0 ss ∙ ap (λ v. v.1 + entries v.0 ss) e ∙ omega arith
