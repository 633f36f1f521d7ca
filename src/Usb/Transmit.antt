-- ===== src/Usb/Transmit.antt =====
-- The completions that `usbserial_transmit_blocking` of machine_usbserial.c waits for.
use ameba_micro_python.Prelude.{◌≡◌, ◌≢◌, ◌⊎◌, ◌||◌, ◌&&◌, refl, Bool, true, false, arith, inl, inr}
use ameba_micro_python.Usb.{Hal, hal_ok, hal_busy, hal_err, Link, Schedule, transmit_blocking}

pub Hal-cases : (h : Hal) → (h ≡ hal_ok) ⊎ ((h ≡ hal_busy) ⊎ (h ≡ hal_err))
Hal-cases hal_ok = inl refl
Hal-cases hal_busy = inr (inl refl)
Hal-cases hal_err = inr (inr refl)

module _ (sdk : Bool → Hal) where
  -- Where the driver takes no transfer beside another, a transmit that reports success has been
  -- completed, so that its buffer is free again, if no earlier transfer was in flight at its start or
  -- none completes between the drain and the transmit or before the second transmit.
  pub transmit_blocking-true :
      (s : Schedule) (l : Link)
      → sdk true ≢ hal_ok
      → (l.in_flight && (s.before_transmit || s.before_retry)) ≡ false
      → (transmit_blocking sdk true s l).0 ≡ true
      → (transmit_blocking sdk true s l).1.in_flight ≡ false
  unfolding transmit_blocking
  transmit_blocking-true s l one race e = elim (Hal-cases (sdk true)) [
    | inl both ↦ absurd (one both)
    | inr (inl busy) ↦ ground arith
    | inr (inr err) ↦ ground arith
  ]

  -- Where no transfer is in flight, a token left behind is never taken for the new transfer: the
  -- answer tells whether the new transfer completes in the wait.
  pub transmit_blocking-idle :
      (s : Schedule) (l : Link)
      → l.in_flight ≡ false
      → sdk false ≡ hal_ok
      → (transmit_blocking sdk true s l).0 ≡ s.in_wait
  unfolding transmit_blocking
  transmit_blocking-idle s l idle accepts = ground arith

  -- Where an earlier transfer, in flight at the start, completes between the drain and the transmit,
  -- and not before, and an idle endpoint takes a transfer, its token is taken for the
  -- new transfer: the answer is success while the new transfer is still in flight.
  pub transmit_blocking-race :
      (s : Schedule) (l : Link)
      → sdk false ≡ hal_ok
      → l.in_flight ≡ true
      → s.before_drain ≡ false
      → s.before_transmit ≡ true
      → ((transmit_blocking sdk true s l).0 ≡ true)
        × ((transmit_blocking sdk true s l).1.in_flight ≡ true)
  unfolding transmit_blocking
  transmit_blocking-race s l accepts flying late early = ground arith
