-- ===== src/Usb/Lifecycle.antt =====
-- The driver's objects of machine_usbserial.c, over sequences of calls.
use ameba_micro_python.Prelude.{
  ℕ, ◌≡◌, ◌↔◌, ◌&&◌, refl, Bool, true, false, arith, Bool-cases, inl, inr, ◌==◌, if◌then◌else◌,
}
use mathlib.Core.Path.{subst}
use ameba_micro_python.Usb.{Core, Answers, init0, make_new, deinit, status_changed}

-- All four objects of the SDK exist where the driver is ready, and none of them where it is not.
pub record Inv (c : Core) : Type 0 where
  pub sema_ready : c.sema ≡ c.core_ready
  pub mutex_ready : c.mutex ≡ c.core_ready
  pub usbd_ready : c.usbd ≡ c.core_ready
  pub cdc_acm_ready : c.cdc_acm ≡ c.core_ready

abbrev pub at_reset : Core
at_reset = record {
  core_ready = false;
  attached = false;
  sema = false;
  mutex = false;
  usbd = false;
  cdc_acm = false;
}

-- A call at boot or from Python, or the callback on a change of the attach status.
pub data Step (c c' : Core) : Type 0 where
  inits : (a : Answers) → init0 c a ≡ c' → Step c c'
  makes : (id : ℕ) (a : Answers) → (make_new c id a).1 ≡ c' → Step c c'
  deinits : deinit c ≡ c' → Step c c'
  changes : (now_attached : Bool) → status_changed c now_attached ≡ c' → Step c c'

pub data Reach : Core → Type 0 where
  at_boot : Reach at_reset
  next : {c c' : Core} → Reach c → Step c c' → Reach c'

init0-Inv : (c : Core) (a : Answers) → Inv c → Inv (init0 c a)
unfolding init0
init0-Inv c a v = record {
  sema_ready = ground (arith, v.sema_ready);
  mutex_ready = ground (arith, v.mutex_ready);
  usbd_ready = ground (arith, v.usbd_ready);
  cdc_acm_ready = ground (arith, v.cdc_acm_ready);
}

make_new-Inv : (c : Core) (id : ℕ) (a : Answers) → Inv c → Inv (make_new c id a).1
unfolding make_new
make_new-Inv c id a v = elim (Bool-cases (id == 0)) [
  | inl e ↦ rw e (init0-Inv c a v)
  | inr e ↦ rw e v
]

deinit-Inv : (c : Core) → Inv c → Inv (deinit c)
unfolding deinit
deinit-Inv c v = record {
  sema_ready = ground (arith, v.sema_ready);
  mutex_ready = ground (arith, v.mutex_ready);
  usbd_ready = ground (arith, v.usbd_ready);
  cdc_acm_ready = ground (arith, v.cdc_acm_ready);
}

status_changed-Inv : (c : Core) (now_attached : Bool) → Inv c → Inv (status_changed c now_attached)
status_changed-Inv c now_attached v = record {
  sema_ready = v.sema_ready;
  mutex_ready = v.mutex_ready;
  usbd_ready = v.usbd_ready;
  cdc_acm_ready = v.cdc_acm_ready;
}

Step-Inv : {c c' : Core} → Step c c' → Inv c → Inv c'
Step-Inv {c} (inits a e) v = subst Inv e (init0-Inv c a v)
Step-Inv {c} (makes id a e) v = subst Inv e (make_new-Inv c id a v)
Step-Inv {c} (deinits e) v = subst Inv e (deinit-Inv c v)
Step-Inv {c} (changes now_attached e) v = subst Inv e (status_changed-Inv c now_attached v)

Reach-Inv : {c : Core} → Reach c → Inv c
Reach-Inv at_boot = record {
  sema_ready = refl;
  mutex_ready = refl;
  usbd_ready = refl;
  cdc_acm_ready = refl;
}
Reach-Inv (next r s) = Step-Inv s (Reach-Inv r)

-- After any calls, whichever of them failed, the four objects of the SDK exist exactly where the
-- driver is ready; and a new `init0` then makes the driver ready exactly where it was ready before
-- or all four calls succeed.
pub Reach-init0 :
    (c : Core) (a : Answers)
    → Reach c
    → ((c.sema ≡ c.core_ready)
        × (c.mutex ≡ c.core_ready)
        × (c.usbd ≡ c.core_ready)
        × (c.cdc_acm ≡ c.core_ready))
      × (((init0 c a).core_ready ≡ true)
          ↔ ((if c.core_ready then true else a.sema && (a.mutex && (a.usbd && a.cdc_acm))) ≡ true))
unfolding init0
Reach-init0 c a r =
    let v = Reach-Inv r in
    ((v.sema_ready, v.mutex_ready, v.usbd_ready, v.cdc_acm_ready), ground arith)
