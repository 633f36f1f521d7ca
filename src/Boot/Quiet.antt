-- ===== src/Boot/Quiet.antt =====
-- What the soft reset of mp_main.c leaves running.
use ameba_micro_python.Prelude.{
  ℕ, zero, suc, ◌∙◌, Option-cases, ◌+◌, ◌-◌, ◌*◌, ◌^◌, ◌≤◌, ◌<◌, ◌≡◌, ◌⊎◌, refl, inl, inr, Bool,
  true, false, none, some, List, [], ◌∷◌, arith, if◌then◌else◌,
}
use native.Mathlib.Decide.{dec_lt}
use ameba_micro_python.Uart.{Uart}
use ameba_micro_python.Uart as Uart
use ameba_micro_python.Uart.Init as UartInit
use ameba_micro_python.I2c.{Controller, idle}
use ameba_micro_python.I2c as I2c
use ameba_micro_python.I2c.Reset as I2cReset
use ameba_micro_python.Spi.{Spi}
use ameba_micro_python.Spi as Spi
use ameba_micro_python.Spi.Init as SpiInit
use ameba_micro_python.Pwm.{Driver, Bank, Channel}
use ameba_micro_python.Pwm as Pwm
use ameba_micro_python.Timer as Timer
use ameba_micro_python.Timer.Slots as Slots
use ameba_micro_python.Threads.{Thread}
use ameba_micro_python.Threads.Laws as Laws
use ameba_micro_python.Boot.{Machine, uart_deinit_all, sweep, soft_reset, gc_get_max_new_split}

-- `P` holds of each element.
abbrev pub All {ℓ} : {A : Type ℓ} → (A → Type 0) → List A → Type 0
All P [] = Unit {0}
All P (x ∷ xs) = P x × All P xs

-- A state that the driver's own calls lead to.
abbrev pub UsedUart : Uart → Type 0
UsedUart u = (id : ℕ) × UartInit.Reach id u

abbrev pub UsedSpi : Spi → Type 0
UsedSpi s = (b : Spi.Board) × SpiInit.Reach b s

abbrev pub QuietUart : Uart → Type 0
QuietUart u = (u.driver ≡ none) × (u.irq_obj ≡ none)

abbrev pub QuietPort : Controller → Type 0
QuietPort c = (c.role ≡ idle) × (c.irq ≡ false)

abbrev pub QuietSpi : Spi → Type 0
QuietSpi s = s.driver ≡ none

deinit-QuietUart : (u : Uart) → UsedUart u → QuietUart (Uart.deinit u)
unfolding Uart.deinit
deinit-QuietUart u (id, r) = (stopped (UartInit.Reach-IsValid id u r), refl)
  where
    stopped :
        ((u.initialized ≡ false) × (u.driver ≡ none))
          ⊎ ((c : Uart.Config) × (u.initialized ≡ true)
              × (u.driver ≡ some c)
              × UartInit.Checks.IsValid c)
        → (if u.initialized then none else u.driver) ≡ none
    stopped (inl (off, d)) = rw off d
    stopped (inr (c, is_on, d, v)) = rw is_on refl

uarts-Quiet : (us : List Uart) → All UsedUart us → All QuietUart (uart_deinit_all us)
unfolding uart_deinit_all
uarts-Quiet [] h = tt
uarts-Quiet (u ∷ us) (r, h) = (deinit-QuietUart u r, uarts-Quiet us h)

ports-Quiet :
    (cs : List Controller)
    → All I2cReset.Reach cs
    → All QuietPort (I2c.target_deinit_all (I2c.deinit_all cs))
unfolding I2c.target_deinit_all I2c.deinit_all
ports-Quiet [] h = tt
ports-Quiet (c ∷ cs) (r, h) = (I2cReset.reset-idle c (I2cReset.Reach-Owned r), ports-Quiet cs h)

deinit-QuietSpi : (s : Spi) → UsedSpi s → QuietSpi (Spi.deinit s)
unfolding Spi.deinit
deinit-QuietSpi s (b, r) = stopped (SpiInit.Reach-Runs b s r)
  where
    by_case :
        (b : Bool)
        → (b ≡ false → s.driver ≡ none)
        → (if b
            then record s { initialized = false; driver = none; muxed = Spi.pins_release s }
            else s).driver
          ≡ none
    by_case true h = refl
    by_case false h = h refl

    off : SpiInit.Runs s → s.initialized ≡ false → s.driver ≡ none
    off (inl (e, d)) f = d
    off (inr (st, e, d, mode, rate, v)) f = cc

    stopped : SpiInit.Runs s → (Spi.deinit s).driver ≡ none
    stopped w = by_case s.initialized (off w)

spis-Quiet : (ss : List Spi) → All UsedSpi ss → All QuietSpi (Spi.deinit_all ss)
unfolding Spi.deinit_all
spis-Quiet [] h = tt
spis-Quiet (s ∷ ss) (r, h) = (deinit-QuietSpi s r, spis-Quiet ss h)

-- A channel that has been stopped is not active, so the clean-up of the eight leaves none.
stopped-active : (driver : Driver) (c : Channel driver.Out) → (Pwm.stopped driver c).active ≡ false
stopped-active driver c = go c.active refl
  where
    go :
        (b : Bool)
        → c.active ≡ b
        → (if b then record c { pwm = driver.free c.pwm; active = false } else c).active ≡ false
    go true e = refl
    go false e = e

abbrev pub channels : List ℕ
channels = 0 ∷ 1 ∷ 2 ∷ 3 ∷ 4 ∷ 5 ∷ 6 ∷ 7 ∷ []

-- No PWM channel drives its pin.
abbrev pub QuietPwm : {Out : Type 0} → Bank Out → Type 0
QuietPwm bank = All (λ i. (bank.channel i).active ≡ false) channels

pwm-Quiet : (driver : Driver) (bank : Bank driver.Out) → QuietPwm (Pwm.deinit_all driver 8 0 bank)
unfolding Pwm.deinit_all Pwm.deinit
pwm-Quiet driver bank = (at 0, (at 1, (at 2, (at 3, (at 4, (at 5, (at 6, (at 7, tt))))))))
  where
    at : (i : ℕ) → (Pwm.stopped driver (bank.channel i)).active ≡ false
    at i = stopped-active driver (bank.channel i)

sweep-Reach :
    (soc : Timer.Soc) (n : ℕ) (w : Timer.World) → Slots.Reach soc w → Slots.Reach soc (sweep n w)
unfolding sweep
sweep-Reach soc zero w r = r
sweep-Reach soc (suc n) w r = Slots.next (sweep-Reach soc n w r) (Slots.deinits n refl)

deinit-hw_id :
    (w : Timer.World) (i j : ℕ)
    → ((w.timer j).hw_id ≡ none) ⊎ (j ≡ i)
    → ((Timer.deinit w i).timer j).hw_id ≡ none
unfolding Timer.deinit
deinit-hw_id w i j h = elim (Option-cases ((w.timer i).hw_id)) [
  | inl e ↦ ground arith
  | inr (id, e) ↦ ground arith
]

deinit-fresh : (w : Timer.World) (i : ℕ) → (Timer.deinit w i).fresh ≡ w.fresh
unfolding Timer.deinit
deinit-fresh w i = elim (Option-cases ((w.timer i).hw_id)) [
  | inl e ↦ ground arith
  | inr (id, e) ↦ ground arith
]

sweep-fresh : (n : ℕ) (w : Timer.World) → (sweep n w).fresh ≡ w.fresh
unfolding sweep
sweep-fresh zero w = refl
sweep-fresh (suc n) w = deinit-fresh (sweep n w) n ∙ sweep-fresh n w

sweep-hw_id : (n : ℕ) (w : Timer.World) (j : ℕ) → j < n → ((sweep n w).timer j).hw_id ≡ none
unfolding sweep
sweep-hw_id zero w j h = absurd (omega arith)
sweep-hw_id (suc n) w j h =
    deinit-hw_id (sweep n w) n j
      (elim (dec_lt j n) [ yes lt ↦ inl (sweep-hw_id n w j lt) | no ge ↦ inr (omega arith) ])

-- No timer holds hardware, and no slot of the table is taken.
abbrev pub QuietTimers : Timer.World → Type 0
QuietTimers w = ((i : ℕ) → (w.timer i).hw_id ≡ none) × ((h : ℕ) → w.slots h ≡ none)

sweep-QuietTimers :
    (soc : Timer.Soc) (w : Timer.World) → Slots.Reach soc w → QuietTimers (sweep w.fresh w)
sweep-QuietTimers soc w r = (
  free,
  λ h. elim (Option-cases ((sweep w.fresh w).slots h)) [
    | inl e ↦ e
    | inr (i, e) ↦ absurd (held i h e)
  ],
)
  where
    v : Slots.Inv soc (sweep w.fresh w)
    v = Slots.Reach-Inv (sweep-Reach soc w.fresh w r)

    free : (i : ℕ) → ((sweep w.fresh w).timer i).hw_id ≡ none
    free i = elim (dec_lt i w.fresh) [
      | yes lt ↦ sweep-hw_id w.fresh w i lt
      | no ge ↦ v.known i (omega (arith, sweep-fresh w.fresh w))
    ]

    held : (i h : ℕ) → (sweep w.fresh w).slots h ≡ some i → ⊥
    held i h e = cc (v.owned i h e, free i)

-- The soft reset, from any state that the drivers' own calls lead to, leaves no UART driver and no UART
-- handler, no I2C controller set up and no target interrupt, no SPI controller running, no PWM channel
-- active, no I2S object in the table, no RTC alarm set and no RTC handler, no hardware timer held by an
-- object or taken in the table, and the main thread alone.
pub soft_reset-Quiet :
    {driver : Driver} {Alarm Can : Type 0} (soc : Timer.Soc) (can_deinit_all : Can → Can)
    (m : Machine driver Alarm Can) (main stack stack_len : ℕ)
    → All UsedUart m.uarts
    → All I2cReset.Reach m.ports
    → All UsedSpi m.spis
    → Laws.Reach main stack stack_len m.threads
    → Slots.Reach soc m.timers
    → let m' = soft_reset can_deinit_all m in
      All QuietUart m'.uarts
      × All QuietPort m'.ports
      × All QuietSpi m'.spis
      × QuietPwm m'.pwm
      × (m'.i2s 0 ≡ none)
      × (m'.i2s 1 ≡ none)
      × (m'.rtc.armed ≡ none)
      × (m'.rtc.irq ≡ none)
      × ((t : Thread) × (m'.threads ≡ t ∷ []) × (t.id ≡ main))
      × QuietTimers m'.timers
unfolding soft_reset
soft_reset-Quiet {driver} soc can_deinit_all m main stack stack_len u p s r slots =
    let (t, e, same, rest) = Laws.Reach-deinit main stack stack_len m.threads r in
    (
      uarts-Quiet m.uarts u,
      ports-Quiet m.ports p,
      spis-Quiet m.spis s,
      pwm-Quiet driver m.pwm,
      refl,
      refl,
      refl,
      refl,
      (t, e, same),
      sweep-QuietTimers soc m.timers slots,
    )

-- The heap may grow by what is left of the largest free block after its header and 16 KB, and not at
-- all where that is nothing; a block smaller than its header is an exception, which makes the
-- difference wrap to nearly 4 GB.
pub gc_get_max_new_split-cases :
    (header free largest : ℕ)
    → header < 2 ^ 15
    → largest < 2 ^ 32
    → ((largest < header)
        × ((free < 1)
            ⊎ (gc_get_max_new_split header free largest ≡ largest + 2 ^ 32 - header - 16 * 1024)))
      ⊎ ((header ≤ largest)
          × ((free < 1)
              ⊎ (gc_get_max_new_split header free largest ≡ largest - header - 16 * 1024)))
unfolding gc_get_max_new_split
gc_get_max_new_split-cases header free largest h k = ground arith
