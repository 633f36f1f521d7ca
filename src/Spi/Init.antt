-- ===== src/Spi/Init.antt =====
-- The settings that `init` of machine_spi.c starts the controller with.
use ameba_micro_python.Prelude.{
  ℕ, zero, suc, ◌+◌, ◌*◌, ◌≤◌, ◌<◌, ◌≡◌, ◌⊎◌, refl, inl, inr, Bool, true, false, none, some, arith,
  Bool-cases, Option-cases, if◌then◌else◌, ℤ, pos, negsuc,
}
use mathlib.Core.Path.{subst}
use ameba_micro_python.Spi.{
  Setting, Spi, Board, Args, with_defaults, positive_or, flag_or, only, pin_or, set_sck, set_mosi,
  set_miso, start_if, init_helper, deinit, msb, pins_release,
}

-- The stored mode and rate.
abbrev pub IsStored : Spi → Type 0
IsStored s = (s.polarity ≤ 1) × (s.phase ≤ 1) × (0 < s.baudrate)

-- The controller runs where the object is set up, in one of the four modes.
abbrev pub Runs : Spi → Type 0
Runs s =
    ((s.initialized ≡ false) × (s.driver ≡ none))
    ⊎ ((st : Setting) × (s.initialized ≡ true)
        × (s.driver ≡ some st)
        × (st.mode < 4)
        × (0 < st.rate)
        × IsStored s)

flag_or-bound : (z : ℤ) (old : ℕ) → old ≤ 1 → flag_or z old ≤ 1
flag_or-bound (pos zero) old h = omega arith
flag_or-bound (pos (suc n)) old h = omega arith
flag_or-bound (negsuc n) old h = h

positive_or-bound : (z : ℤ) (old : ℕ) → 0 < old → 0 < positive_or z old
positive_or-bound (pos zero) old h = h
positive_or-bound (pos (suc n)) old h = omega arith
positive_or-bound (negsuc n) old h = h

-- What has become of an object whose fields are being set: it still runs as before, where it ran.
abbrev Keeps : Spi → Type 0
Keeps s = Runs s × IsStored s

stored-Runs :
    (s : Spi) (mode rate phase' sck' mosi' miso' cs' bits' first' : ℕ)
    → mode ≤ 1
    → phase' ≤ 1
    → 0 < rate
    → Runs s
    → Keeps (record s {
      polarity = mode;
      baudrate = rate;
      phase = phase';
      sck = sck';
      mosi = mosi';
      miso = miso';
      cs = cs';
      bits = bits';
      firstbit = first';
    })
stored-Runs s mode rate phase' sck' mosi' miso' cs' bits' first' a b c (inl (off, d)) =
    (inl (off, d), (a, b, c))
stored-Runs s mode rate phase' sck' mosi' miso' cs' bits' first' a b c
      (inr (st, is_on, d, m, r, v)) =
    (inr (st, is_on, d, m, r, (a, b, c)), (a, b, c))

with_defaults-Keeps : (b : Board) (s : Spi) → Runs s → Keeps (with_defaults b s)
with_defaults-Keeps b s w = go s.initialized w (stored w)
  where
    go :
        (is_on : Bool)
        → Runs s
        → (is_on ≡ true → IsStored s)
        → Keeps (
            if is_on then s else record s {
              baudrate = 1000000;
              polarity = 0;
              phase = 0;
              bits = 8;
              firstbit = msb;
              sck = b.sck;
              mosi = b.mosi;
              miso = b.miso;
              cs = b.cs;
            })
    go true w v = (w, v refl)
    go false w v =
        stored-Runs s 0 1000000 0 b.sck b.mosi b.miso b.cs 8 0 (omega arith) (omega arith)
          (omega arith) w

    stored : Runs s → s.initialized ≡ true → IsStored s
    stored (inl (off, d)) e = cc
    stored (inr (st, is_on, d, m, r, v)) e = v

pins-Keeps :
    (s : Spi) (sck' mosi' miso' : ℕ)
    → Keeps s
    → Keeps (record s { sck = sck'; mosi = mosi'; miso = miso' })
pins-Keeps s sck' mosi' miso' (w, (a, b, c)) =
    stored-Runs s s.polarity s.baudrate s.phase sck' mosi' miso' s.cs s.bits s.firstbit a b c w

set_miso-Keeps : (a : Args) (s : Spi) → Keeps s → Keeps (set_miso a s).1
set_miso-Keeps a s w = elim (Option-cases (pin_or a.miso s.miso)) [
  | inl bad ↦ rw (bad, set_miso) w
  | inr (p, good) ↦ rw (good, set_miso) (pins-Keeps s s.sck s.mosi p w)
]

set_mosi-Keeps : (a : Args) (s : Spi) → Keeps s → Keeps (set_mosi a s).1
set_mosi-Keeps a s w = elim (Option-cases (pin_or a.mosi s.mosi)) [
  | inl bad ↦ rw (bad, set_mosi) w
  | inr (p, good) ↦
      rw (good, set_mosi) (set_miso-Keeps a (record s { mosi = p }) (pins-Keeps s s.sck p s.miso w))
]

set_sck-Keeps : (a : Args) (s : Spi) → Keeps s → Keeps (set_sck a s).1
set_sck-Keeps a s w = elim (Option-cases (pin_or a.sck s.sck)) [
  | inl bad ↦ rw (bad, set_sck) w
  | inr (p, good) ↦
      rw (good, set_sck) (set_mosi-Keeps a (record s { sck = p }) (pins-Keeps s p s.mosi s.miso w))
]

start_if-Runs : (out : Bool × Spi) → Keeps out.1 → Runs (start_if out).1
start_if-Runs (false, s) (w, v) = w
start_if-Runs (true, s) (w, (a, b, c)) = inr (
  record { mode = s.polarity * 2 + s.phase; rate = s.baudrate; pads = (s.sck, s.mosi, s.miso) },
  refl,
  refl,
  omega (arith, a, b),
  c,
  (a, b, c),
)

init_helper-Runs : (b : Board) (s : Spi) (a : Args) → Runs s → Runs (init_helper b s a).1
unfolding init_helper
init_helper-Runs b s a w =
    let s0 : Spi = with_defaults b s in
    let (w0, (v0, v1, v2)) = with_defaults-Keeps b s w in
    let s1 : Spi = record s0 {
      baudrate = positive_or a.baudrate s0.baudrate;
      polarity = flag_or a.polarity s0.polarity;
      phase = flag_or a.phase s0.phase;
    } in
    let k1 : Keeps s1 =
      stored-Runs s0 (flag_or a.polarity s0.polarity) (positive_or a.baudrate s0.baudrate)
        (flag_or a.phase s0.phase) s0.sck s0.mosi s0.miso s0.cs s0.bits s0.firstbit
        (flag_or-bound a.polarity s0.polarity v0) (flag_or-bound a.phase s0.phase v1)
        (positive_or-bound a.baudrate s0.baudrate v2) w0 in
    elim (Bool-cases (only a.bits 8)) [
      | inr bad ↦ rw bad k1.0
      | inl good ↦ elim (Bool-cases (only a.firstbit msb)) [
        | inr bad ↦ rw (good, bad) k1.0
        | inl fine ↦ rw (good, fine) (start_if-Runs (set_sck a s1) (set_sck-Keeps a s1 k1))
      ]
    ]

deinit-Runs : (s : Spi) → Runs s → Runs (deinit s)
unfolding deinit
deinit-Runs s w = go s.initialized
  where
    go :
        (is_on : Bool)
        → Runs (
            if is_on
            then record s { initialized = false; driver = none; muxed = pins_release s }
            else s)
    go true = inl (refl, refl)
    go false = w

-- One call from Python, or the soft reset.
pub data Step (b : Board) (s s' : Spi) : Type 0 where
  inits : (a : Args) → (init_helper b s a).1 ≡ s' → Step b s s'
  deinits : deinit s ≡ s' → Step b s s'

pub data Reach (b : Board) : Spi → Type 0 where
  at_boot : (s : Spi) → s.initialized ≡ false → s.driver ≡ none → Reach b s
  next : {s s' : Spi} → Reach b s → Step b s s' → Reach b s'

-- After any sequence of calls, failing ones included, the controller runs exactly where the object is
-- set up, and then in one of the four SPI modes and at a positive rate, as the stored polarity, phase and
-- rate will be for the next start.
pub Reach-Runs : (b : Board) (s : Spi) → Reach b s → Runs s
Reach-Runs b s (at_boot s' off d) = inl (off, d)
Reach-Runs b s (next {s = s'} r (inits a e)) =
    subst Runs e (init_helper-Runs b s' a (Reach-Runs b s' r))
Reach-Runs b s (next {s = s'} r (deinits e)) = subst Runs e (deinit-Runs s' (Reach-Runs b s' r))
