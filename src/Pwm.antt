-- ===== src/Pwm.antt =====
-- ports/ameba-rtos-m/src/machine_pwm.c: `machine.PWM`, eight channels on one timer (the AmebaDplus
-- build). The objects of the SDK's `pwmout_...` functions and its floating-point duty are parameters.
pub mod Period
pub mod Shared
pub mod Channels
pub mod Tests
use ameba_micro_python.Prelude.{
  ℕ, zero, suc, ◌+◌, ◌*◌, ◌-◌, ◌/◌, ◌%◌, ◌^◌, Bool, true, false, not, ◌&&◌, ◌||◌, Option, none,
  some, ◌==◌, ltb, leb, if◌then◌else◌, ℤ, pos, negsuc, ltb_ℤ, pos_part,
}
use ameba_micro_python.Py.{Exc, value_error, Result, ok, raise}

-- The driver: `pwmout_t` is `Out`, with its field `period` and the assignment to it, and `Duty` the
-- type float; `frac` is the quotient of a number and 65535.
pub record Driver : Type 1 where
  pub Out : Type 0
  pub Duty : Type 0
  pub period : Out → ℕ
  pub with_period : Out → ℕ → Out
  pub init : Out → ℕ → Out
  pub free : Out → Out
  pub period_us : Out → ℕ → Out
  pub pulsewidth_us : Out → ℕ → Out
  pub read : Out → Duty
  pub write : Out → Duty → Out
  pub frac : ℕ → Duty

abbrev pub pwm_channel_max : ℕ
pwm_channel_max = 8

abbrev pub pwm_timer_clk_mhz : ℕ
pwm_timer_clk_mhz = 40

abbrev pub pa_6 : ℕ
pa_6 = 6

-- `machine_pwm_obj_t`; its `pwm_idx` is its index in the table.
pub record Channel (Out : Type 0) : Type 0 where
  pub pwm : Out
  pub pin : ℕ
  pub active : Bool

-- `machine_pwm_obj`, the SDK's global `prescaler`, and the prescaler in the register of the timer.
pub record Bank (Out : Type 0) : Type 0 where
  pub channel : ℕ → Channel Out
  pub prescaler : ℕ
  pub psc : ℕ

-- The arguments of `init`; a number below 0 is one that is not given.
pub record Args : Type 0 where
  pub freq : ℤ
  pub duty_u16 : ℤ
  pub duty_ns : ℤ

-- `machine_pwm_alloc_channel` and `machine_pwm_find_by_pin`, with `n` channels to look at from `i` on;
-- `none` is -1 and NULL.
unfoldable pub alloc_channel {ℓ} : {A : Type ℓ} → (A → Bool) → (ℕ → A) → ℕ → ℕ → Option ℕ
alloc_channel active channel zero i = none
alloc_channel active channel (suc n) i =
    let rest = alloc_channel active channel n (i + 1) in
    if not (active (channel i)) then some i else rest

unfoldable pub find_by_pin {ℓ} :
    {A : Type ℓ} → (A → Bool) → (A → ℕ) → (ℕ → A) → ℕ → ℕ → ℕ → Option ℕ
find_by_pin active pin_of channel pin zero i = none
find_by_pin active pin_of channel pin (suc n) i =
    let rest = find_by_pin active pin_of channel pin n (i + 1) in
    if active (channel i) && pin_of (channel i) == pin then some i else rest

-- The period in microseconds and the prescaler of a frequency, by the steps of
-- `mp_machine_pwm_freq_set`.
abbrev pub period_of : ℕ → ℕ
period_of freq = 1000000 / freq

abbrev pub ticks : ℕ → ℕ
ticks period = period * pwm_timer_clk_mhz % 2 ^ 32

abbrev pub prescaler_of : ℕ → ℕ
prescaler_of period = if ltb 0x10000 (ticks period) then ticks period / 0x10000 else 0

unfoldable pub clamp_setup : ℕ → ℕ × ℕ
clamp_setup period =
    if ltb 0xff (prescaler_of period)
    then (0x10000 * (0xff + 1) / pwm_timer_clk_mhz, 0xff)
    else (period, prescaler_of period)

unfoldable pub timer_setup : ℕ → ℕ × ℕ
unfolding clamp_setup
timer_setup freq = clamp_setup (period_of freq)

-- A longer duty in nanoseconds is the whole period; the product has 32 bits.
abbrev pub pulse_of : ℕ → ℤ → ℕ
pulse_of period duty_ns =
    let max_ns : ℕ = period * 1000 % 2 ^ 32 in
    let ns : ℕ = pos_part duty_ns in (if ltb max_ns ns then max_ns else ns) / 1000

abbrev pub clamp_u16 : ℤ → ℕ
clamp_u16 duty = if ltb 65535 (pos_part duty) then 65535 else pos_part duty

module _ (driver : Driver) where
  open driver use {
    Out, Duty, period, with_period, init, free, period_us, pulsewidth_us, read, write, frac,
  }

  abbrev pub set_channel : Bank Out → ℕ → Channel Out → Bank Out
  set_channel bank i c = record bank { channel = λ j. if j == i then c else bank.channel j }

  -- Another channel than `idx` that is active.
  abbrev pub is_other : (ℕ → Channel Out) → ℕ → ℕ → Bool
  is_other channel idx i = not (i == idx) && (channel i).active

  -- The first loop: `saved_duty`, where `none` is an element that is not set, and `n_saved`.
  unfoldable pub save :
      (ℕ → Channel Out) → ℕ → ℕ → ℕ → (ℕ → Option Duty) → ℕ → (ℕ → Option Duty) × ℕ
  save channel idx zero i saved count = (saved, count)
  save channel idx (suc n) i saved count =
      let kept =
        save channel idx n (i + 1) (λ j. if j == i then some (read (channel i).pwm) else saved j)
          (count + 1) in
      let skipped = save channel idx n (i + 1) saved count in
      if is_other channel idx i then kept else skipped

  -- `pwmout_write` of a saved duty. The code never writes an element that is not set.
  abbrev pub write_saved : Out → Option Duty → Out
  write_saved out none = out
  write_saved out (some d) = write out d

  abbrev pub restored : Channel Out → ℕ → Option Duty → Channel Out
  restored c n saved = record c { pwm = write_saved (with_period c.pwm n) saved }

  -- The last loop.
  unfoldable pub restore : ℕ → ℕ → (ℕ → Option Duty) → ℕ → ℕ → (ℕ → Channel Out) → ℕ → Channel Out
  restore idx period saved zero i channel = channel
  restore idx period saved (suc n) i channel =
      let done =
        restore idx period saved n (i + 1)
          (λ j. if j == i then restored (channel i) period (saved i) else channel j) in
      let skipped = restore idx period saved n (i + 1) channel in
      if is_other channel idx i then done else skipped

  -- The change of the shared period, between the two loops and with the last one.
  abbrev pub set_period : (ℕ → Channel Out) → ℕ → ℕ → (ℕ → Option Duty) × ℕ → ℕ → Channel Out
  set_period channel idx n (saved, count) =
      let c = channel idx in
      let channel' : ℕ → Channel Out =
        λ j. if j == idx then record c { pwm = period_us c.pwm n } else channel j in
      if ltb 0 count then restore idx n saved pwm_channel_max 0 channel' else channel'

  -- The part of `freq_set` after the check of its argument. A prescaler that has not changed is not
  -- written again.
  unfoldable pub apply_freq : Bank Out → ℕ → ℕ → Bank Out
  unfolding timer_setup save restore
  apply_freq bank idx freq = record {
    channel =
        set_period bank.channel idx (timer_setup freq).0
          (save bank.channel idx pwm_channel_max 0 (λ j. none) 0);
    prescaler = (timer_setup freq).1;
    psc = if (timer_setup freq).1 == bank.prescaler then bank.psc else (timer_setup freq).1;
  }

  -- `mp_machine_pwm_freq_set`
  unfoldable pub freq_set : Bank Out → ℕ → ℤ → Result (Unit {0}) × Bank Out
  unfolding apply_freq
  freq_set bank idx freq =
      if ltb_ℤ (pos 0) freq
      then (ok tt, apply_freq bank idx (pos_part freq))
      else (raise value_error, bank)

  -- `mp_machine_pwm_freq_get`
  abbrev pub freq_get : Bank Out → ℕ → ℕ
  freq_get bank idx =
      let p : ℕ = period (bank.channel idx).pwm in if ltb 0 p then 1000000 / p else 0

  abbrev pub set_pwm : Bank Out → ℕ → Out → Bank Out
  set_pwm bank idx out = set_channel bank idx (record (bank.channel idx) { pwm = out })

  -- `mp_machine_pwm_duty_set_u16` and `mp_machine_pwm_duty_set_ns`
  unfoldable pub duty_set_u16 : Bank Out → ℕ → ℤ → Bank Out
  duty_set_u16 bank idx duty =
      set_pwm bank idx (write (bank.channel idx).pwm (frac (clamp_u16 duty)))

  unfoldable pub duty_set_ns : Bank Out → ℕ → ℤ → Bank Out
  duty_set_ns bank idx duty =
      let out = (bank.channel idx).pwm in
      set_pwm bank idx (pulsewidth_us out (pulse_of (period out) duty))

  -- `mp_machine_pwm_init_helper`, with the arguments parsed.
  abbrev pub set_duty : Bank Out → ℕ → Args → Bank Out
  set_duty bank idx a =
      if ltb_ℤ (negsuc 0) a.duty_u16
      then duty_set_u16 bank idx a.duty_u16
      else if ltb_ℤ (negsuc 0) a.duty_ns
      then duty_set_ns bank idx a.duty_ns
      else bank

  unfoldable pub init_helper : Bank Out → ℕ → Args → Bank Out
  unfolding freq_set duty_set_u16 duty_set_ns
  init_helper bank idx a =
      set_duty (if ltb_ℤ (pos 0) a.freq then (freq_set bank idx a.freq).1 else bank) idx a

  -- The start of a channel on a pin.
  abbrev pub start_channel : Bank Out → ℕ → ℕ → Bank Out
  start_channel bank idx pin =
      set_channel bank idx
        (record { pwm = init (bank.channel idx).pwm pin; pin = pin; active = true })

  -- The end of `make_new` on a channel, where the arguments may be refused by the parser.
  abbrev pub with_args : Bank Out → ℕ → Result Args → Result ℕ × Bank Out
  with_args bank idx (raise e) = (raise e, bank)
  with_args bank idx (ok a) = (ok idx, init_helper bank idx a)

  abbrev pub on_fresh : Bank Out → Option ℕ → ℕ → Result Args → Result ℕ × Bank Out
  on_fresh bank none pin args = (raise value_error, bank)
  on_fresh bank (some idx) pin args = with_args (start_channel bank idx pin) idx args

  abbrev pub on_channel : Bank Out → Option ℕ → ℕ → Result Args → Result ℕ × Bank Out
  on_channel bank (some idx) pin args = with_args bank idx args
  on_channel bank none pin args =
      on_fresh bank (alloc_channel (λ c. c.active) bank.channel pwm_channel_max 0) pin args

  -- `mp_machine_pwm_make_new` of a pin that has been resolved.
  unfoldable pub make_new : Bank Out → ℕ → Result Args → Result ℕ × Bank Out
  unfolding alloc_channel find_by_pin init_helper
  make_new bank pin args =
      if ltb pin pa_6
      then (raise value_error, bank)
      else on_channel bank
          (find_by_pin (λ c. c.active) (λ c. c.pin) bank.channel pin pwm_channel_max 0) pin args

  -- `mp_machine_pwm_deinit`, and the loop of `machine_pwm_deinit_all`.
  abbrev pub stopped : Channel Out → Channel Out
  stopped c = if c.active then record c { pwm = free c.pwm; active = false } else c

  unfoldable pub deinit : Bank Out → ℕ → Bank Out
  deinit bank idx = set_channel bank idx (stopped (bank.channel idx))

  unfoldable pub deinit_all : ℕ → ℕ → Bank Out → Bank Out
  unfolding deinit
  deinit_all zero i bank = bank
  deinit_all (suc n) i bank = deinit_all n (i + 1) (deinit bank i)
