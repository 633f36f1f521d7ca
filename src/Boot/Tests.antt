-- ===== src/Boot/Tests.antt =====
-- The theorems about mp_main.c at one input each.
use ameba_micro_python.Prelude.{ℕ, ◌≡◌, refl, false, none, some, [], ◌∷◌, pos}
use ameba_micro_python.Pwm.Tests.{plain, empty}
use ameba_micro_python.Rtc.{machine_rtc_obj}
use ameba_micro_python.I2c.{Controller, idle}
use ameba_micro_python.I2c.Reset as I2cReset
use ameba_micro_python.Spi.{Spi, Board}
use ameba_micro_python.Spi.Init as SpiInit
use ameba_micro_python.Uart.Init as UartInit
use ameba_micro_python.Threads.{Thread, init}
use ameba_micro_python.Threads.Laws as Laws
use ameba_micro_python.Timer as Timer
use ameba_micro_python.Timer.Slots as Slots
use ameba_micro_python.Boot.{Machine, soft_reset}
use ameba_micro_python.Boot.Quiet.{
  All, QuietUart, QuietPort, QuietSpi, QuietPwm, QuietTimers, soft_reset-Quiet,
}

abbrev a_timer : Timer.Args
a_timer = record {
  mode = 1;
  callback = 9;
  period = pos 100;
  tick_hz = pos 1000;
  freq = none;
  hard = false;
}

abbrev controller : Controller
controller = record {
  master = record { scl = 0; sda = 0; freq = 0; timeout = 0; initialized = false };
  target = record { scl = 0; sda = 0; initialized = false; handler = false };
  role = idle;
  irq = false;
}

abbrev spi : Spi
spi = record {
  polarity = 0;
  phase = 0;
  bits = 0;
  firstbit = 0;
  baudrate = 0;
  sck = 0;
  mosi = 0;
  miso = 0;
  cs = 0;
  initialized = false;
  driver = none;
  muxed = λ p. false;
}

abbrev board : Board
board = record { sck = 26; mosi = 27; miso = 28; cs = 12 }

-- One port of each kind, unused, one timer that runs, an alarm's type of numbers, and the main thread with number 7.
abbrev machine : Machine plain ℕ ℕ
machine = record {
  uarts = UartInit.at_reset ∷ [];
  ports = controller ∷ [];
  spis = spi ∷ [];
  pwm = empty;
  i2s = λ j. none;
  rtc = machine_rtc_obj;
  can = 0;
  timers = (Timer.make_new Timer.dplus Slots.empty_world (pos 1) (some a_timer)).1;
  threads = init 7 900 512;
}

soft_reset-Quiet_example :
    let m' = soft_reset (λ c. c) machine in
    All QuietUart m'.uarts
    × All QuietPort m'.ports
    × All QuietSpi m'.spis
    × QuietPwm m'.pwm
    × (m'.i2s 0 ≡ none)
    × (m'.i2s 1 ≡ none)
    × (m'.rtc.armed ≡ none)
    × (m'.rtc.irq ≡ none)
    × ((t : Thread) × (m'.threads ≡ t ∷ []) × (t.id ≡ 7))
    × QuietTimers m'.timers
soft_reset-Quiet_example =
    soft_reset-Quiet Timer.dplus (λ c. c) machine 7 900 512 ((0, UartInit.at_boot), tt)
      (I2cReset.at_boot controller refl refl, tt) ((board, SpiInit.at_boot spi refl refl), tt)
      Laws.boot (Slots.next Slots.at_boot (Slots.makes (pos 1) (some a_timer) refl))
