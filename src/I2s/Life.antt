-- ===== src/I2s/Life.antt =====
-- The memory and the transfer of an I2S object over its calls.
use ameba_micro_python.Prelude.{
  ℕ, ◌*◌, ◌/◌, ◌%◌, ◌≤◌, ◌<◌, ◌≡◌, ◌≢◌, ◌↔◌, ◌⊎◌, ◌∙◌, sym, refl, Bool, true, false, Option, none,
  some, arith, Bool-cases, inl, inr,
}
use mathlib.Core.Path.{subst}
use ameba_micro_python.Py.{Exc, value_error, os_error, enomem, Result, ok, raise}
use ameba_micro_python.I2s.{
  Args, I2s, Memory, dma_size, deinit, start_transfer, args_ok, allocate, finish_init, init_helper,
  irq_update, instance_for,
}

-- The halves are whole cache lines of 32 bytes, at least two, and both together are no longer than a
-- quarter of the ring buffer, where that has 512 bytes.
pub dma_size-halves :
    (ibuf : ℕ)
    → let half = dma_size ibuf / 2 in
      (half % 32 ≡ 0)
      × (64 ≤ half)
      × (half * 2 ≡ dma_size ibuf)
      × ((ibuf < 512) ⊎ (dma_size ibuf * 4 ≤ ibuf))
unfolding dma_size
dma_size-halves ibuf = ground arith

-- An object has all its blocks and a running transfer, or none of them.
pub data Whole (self : I2s) : Type 0 where
  running :
      self.dma_buffer_raw ≡ true
      → self.gdma_lli_raw ≡ true
      → self.ring_buffer_ptr ≡ true
      → self.gdma_initted ≡ true
      → self.dma_active ≡ true
      → Whole self
  idle :
      self.dma_buffer_raw ≡ false
      → self.gdma_lli_raw ≡ false
      → self.ring_buffer_ptr ≡ false
      → self.gdma_initted ≡ false
      → self.dma_active ≡ false
      → Whole self

-- No block and no transfer, as `init_helper` finds it.
abbrev pub IsIdle : I2s → Type 0
IsIdle self =
    (self.dma_buffer_raw ≡ false)
    × (self.gdma_lli_raw ≡ false)
    × (self.ring_buffer_ptr ≡ false)
    × (self.gdma_initted ≡ false)
    × (self.dma_active ≡ false)

deinit-IsIdle : (self : I2s) → Whole self → IsIdle (deinit self)
unfolding deinit
deinit-IsIdle self (running a b c d e) = ground arith
deinit-IsIdle self (idle a b c d e) = ground arith

instance_for-IsIdle : (o : Option I2s) → IsIdle (instance_for o)
unfolding instance_for
instance_for-IsIdle none = ground arith
instance_for-IsIdle (some self) = ground arith

idle-Whole : (self : I2s) → IsIdle self → Whole self
idle-Whole self (a, b, c, d, e) = idle a b c d e

-- What the constructor or `init` gives, from an object without blocks.
abbrev pub InitOutcome : Option (Result (Unit {0}) × I2s) → Type 0
InitOutcome out =
    (r : Result (Unit {0})) × (self : I2s) × (out ≡ some (r, self))
    × Whole self
    × (((r ≡ ok tt) × (self.dma_active ≡ true)) ⊎ ((r ≢ ok tt) × (self.dma_active ≡ false)))

refused : (e : Exc) (self : I2s) → IsIdle self → InitOutcome (some (raise e, self))
refused e self h = (raise e, self, refl, idle-Whole self h, inr ((λ f. cc), h.4))

-- The allocations, and the start where all have succeeded.
finish_init-Outcome :
    (self : I2s) (memory : Memory) → IsIdle self → InitOutcome (finish_init (allocate self memory))
unfolding finish_init allocate start_transfer
finish_init-Outcome self memory h = go memory.dma memory.lli memory.ring
  where
    sized : I2s
    sized = record self { dma_buffer_size = dma_size self.args.ibuf }

    given_back : I2s
    given_back = record sized { gdma_lli_raw = false; dma_buffer_raw = false }

    go :
        (dma lli ring : Bool)
        → InitOutcome (finish_init (allocate self (record { dma = dma; lli = lli; ring = ring })))
    go false lli ring =
        refused (os_error enomem) (record sized { dma_buffer_raw = false })
          (refl, h.1, h.2, h.3, h.4)
    go true false ring = refused (os_error enomem) given_back (refl, refl, h.2, h.3, h.4)
    go true true false =
        refused (os_error enomem) (record given_back { ring_buffer_ptr = false })
          (refl, refl, refl, h.3, h.4)
    go true true true = (
      ok tt,
      record sized {
        dma_buffer_raw = true;
        gdma_lli_raw = true;
        ring_buffer_ptr = true;
        dma_half = 0;
        gdma_initted = true;
        dma_active = true;
      },
      refl,
      running refl refl refl refl refl,
      inl (refl, refl),
    )

init_helper-Outcome :
    (mono stereo : ℕ) (self : I2s) (pins : Bool) (a : Args) (memory : Memory)
    → IsIdle self
    → InitOutcome (init_helper mono stereo self pins a memory)
unfolding init_helper
init_helper-Outcome mono stereo self false a memory h = refused value_error self h
init_helper-Outcome mono stereo self true a memory h = elim (Bool-cases (args_ok mono stereo a)) [
  | inr bad ↦ rw (bad, init_helper) (refused value_error (record self { args = a }) h)
  | inl good ↦ rw (good, init_helper) (finish_init-Outcome (record self { args = a }) memory h)
]

-- The construction on a port, a later `init` of the object, `deinit`, and the registration of a
-- callback, which sets the mode before `irq_update`.
pub data Step (mono stereo : ℕ) (o o' : Option I2s) : Type 0 where
  makes :
      (pins : Bool) (a : Args) (memory : Memory) (r : Result (Unit {0})) (self' : I2s)
      → init_helper mono stereo (instance_for o) pins a memory ≡ some (r, self')
      → some self' ≡ o'
      → Step mono stereo o o'
  inits :
      (self : I2s) (pins : Bool) (a : Args) (memory : Memory) (r : Result (Unit {0})) (self' : I2s)
      → o ≡ some self
      → init_helper mono stereo (deinit self) pins a memory ≡ some (r, self')
      → some self' ≡ o'
      → Step mono stereo o o'
  deinits : (self : I2s) → o ≡ some self → some (deinit self) ≡ o' → Step mono stereo o o'
  registers :
      (self self' : I2s) (handler : Option ℕ) (is_non_blocking : Bool)
      → o ≡ some self
      → irq_update (record self { callback = handler; non_blocking = is_non_blocking }) ≡ some self'
      → some self' ≡ o'
      → Step mono stereo o o'
  resets : none ≡ o' → Step mono stereo o o'

pub data Reach (mono stereo : ℕ) : Option I2s → Type 0 where
  boots : Reach mono stereo none
  next : {o o' : Option I2s} → Reach mono stereo o → Step mono stereo o o' → Reach mono stereo o'

abbrev pub WholeOption : Option I2s → Type 0
WholeOption none = Unit
WholeOption (some self) = Whole self

outcome-Whole :
    (out : Option (Result (Unit {0}) × I2s)) (r : Result (Unit {0})) (self : I2s)
    → InitOutcome out
    → out ≡ some (r, self)
    → Whole self
outcome-Whole out r self (r', s, e, w, x) f = subst Whole (same (sym e ∙ f)) w
  where
    same : ◌≡◌ {A = Option (Result (Unit {0}) × I2s)} (some (r', s)) (some (r, self)) → s ≡ self
    same h = cc

irq_update-Whole : (self self' : I2s) → Whole self → irq_update self ≡ some self' → Whole self'
unfolding irq_update start_transfer
irq_update-Whole self self' (running a b c d e) h =
    subst Whole (same (sym unchanged ∙ h)) (running a b c d e)
  where
    unchanged : irq_update self ≡ some self
    unchanged = ground arith

    same : ◌≡◌ {A = Option I2s} (some self) (some self') → self ≡ self'
    same h = cc
irq_update-Whole self self' (idle a b c d e) h = absurd (ground arith)

Step-Whole :
    {mono stereo : ℕ} {o o' : Option I2s} → Step mono stereo o o' → WholeOption o → WholeOption o'
Step-Whole {mono} {stereo} {o} (makes pins a memory r self' e f) w = subst WholeOption f (
    outcome-Whole _ r self'
      (init_helper-Outcome mono stereo (instance_for o) pins a memory (instance_for-IsIdle o)) e)
Step-Whole {mono} {stereo} (inits self pins a memory r self' g e f) w = subst WholeOption f (
    outcome-Whole _ r self'
      (init_helper-Outcome mono stereo (deinit self) pins a memory
        (deinit-IsIdle self (subst WholeOption g w)))
      e)
Step-Whole (deinits self g f) w =
    subst WholeOption f (idle-Whole (deinit self) (deinit-IsIdle self (subst WholeOption g w)))
Step-Whole (registers self self' handler nb g e f) w =
    subst WholeOption f (irq_update-Whole _ self' (marked (subst WholeOption g w)) e)
  where
    marked : Whole self → Whole (record self { callback = handler; non_blocking = nb })
    marked (running a b c d e) = running a b c d e
    marked (idle a b c d e) = idle a b c d e
Step-Whole (resets f) w = subst WholeOption f tt

Reach-Whole : {mono stereo : ℕ} {o : Option I2s} → Reach mono stereo o → WholeOption o
Reach-Whole boots = tt
Reach-Whole (next r s) = Step-Whole s (Reach-Whole r)

-- After any sequence of calls an object has all three blocks of memory and a running transfer, or none
-- of them; and a construction, whatever memory there is, ends with a result and such an object, whose
-- transfer runs exactly where the result is not an error.
pub Reach-init :
    (mono stereo : ℕ) (o : Option I2s) (pins : Bool) (a : Args) (memory : Memory)
    → Reach mono stereo o
    → WholeOption o × InitOutcome (init_helper mono stereo (instance_for o) pins a memory)
Reach-init mono stereo o pins a memory r = (
  Reach-Whole r,
  init_helper-Outcome mono stereo (instance_for o) pins a memory (instance_for-IsIdle o),
)

-- In each state that can be reached, the registration of a callback reaches for memory that the object
-- does not hold exactly where its transfer is stopped: after `deinit`, and after an `init` that failed.
pub Reach-irq_update :
    (mono stereo : ℕ) (self : I2s)
    → Reach mono stereo (some self)
    → (irq_update self ≡ none) ↔ (self.dma_active ≡ false)
unfolding irq_update start_transfer
Reach-irq_update mono stereo self r = by_case (Reach-Whole r)
  where
    by_case : Whole self → (irq_update self ≡ none) ↔ (self.dma_active ≡ false)
    by_case (running a b c d e) = ((λ h. absurd (ground arith)), (λ h. absurd (ground arith)))
    by_case (idle a b c d e) = ((λ h. e), (λ h. ground arith))
