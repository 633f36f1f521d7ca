-- ===== src/Boot.antt =====
-- ports/ameba-rtos-m/src/mp_main.c: the soft reset, which calls the clean-ups of the drivers before the
-- heap is swept with the finalisers of its objects, `gc_collect`, and `gc_get_max_new_split`. The state of
-- the drivers that the reset touches is gathered here; of the objects with a finaliser, the timers. `machine_can_deinit_all` is code of
-- the MicroPython core, and a parameter.
pub mod Quiet
mod Tests
use ameba_micro_python.Prelude.{
  ℕ, zero, suc, ◌+◌, ◌-◌, ◌*◌, ◌%◌, ◌^◌, Bool, true, false, Option, none, some, List, [], ◌∷◌, ◌++◌,
  map, ltb, ◌==◌, if◌then◌else◌,
}
use ameba_micro_python.Uart.{Uart}
use ameba_micro_python.Uart as Uart
use ameba_micro_python.I2c.{Controller}
use ameba_micro_python.I2c as I2c
use ameba_micro_python.Spi.{Spi}
use ameba_micro_python.Spi as Spi
use ameba_micro_python.Pwm.{Driver, Bank}
use ameba_micro_python.Pwm as Pwm
use ameba_micro_python.I2s.{I2s}
use ameba_micro_python.I2s as I2s
use ameba_micro_python.Rtc.{Rtc}
use ameba_micro_python.Rtc as Rtc
use ameba_micro_python.Timer as Timer
use ameba_micro_python.Threads.{Threads, Root, gc_others}
use ameba_micro_python.Threads as Threads

-- The drivers' static objects and the tables of the root pointers, which survive the reset.
pub record Machine (driver : Driver) (Alarm Can : Type 0) : Type 0 where
  pub uarts : List Uart
  pub ports : List Controller
  pub spis : List Spi
  pub pwm : Bank driver.Out
  pub i2s : ℕ → Option I2s
  pub rtc : Rtc Alarm
  pub can : Can
  pub timers : Timer.World
  pub threads : Threads

-- `machine_uart_deinit_all` of machine_uart.c: as `deinit`, for every port.
unfoldable pub uart_deinit_all : List Uart → List Uart
uart_deinit_all [] = []
uart_deinit_all (u ∷ uarts) = Uart.deinit u ∷ uart_deinit_all uarts

-- The finalisers of the timers in `gc_sweep_all`: `__del__` of each of the `n` objects.
unfoldable pub sweep : ℕ → Timer.World → Timer.World
sweep zero w = w
sweep (suc n) w = Timer.deinit (sweep n w) n

-- `soft_reset_exit` of `mp_main`, up to `goto soft_reset`.
unfoldable pub soft_reset :
    {driver : Driver} {Alarm Can : Type 0}
    → (Can → Can)
    → Machine driver Alarm Can
    → Machine driver Alarm Can
unfolding uart_deinit_all sweep
soft_reset {driver} can_deinit_all m =
    let m1 = record m { uarts = uart_deinit_all m.uarts } in
    let m2 = record m1 { ports = I2c.deinit_all m1.ports } in
    let m3 = record m2 { ports = I2c.target_deinit_all m2.ports } in
    let m4 = record m3 { spis = Spi.deinit_all m3.spis } in
    let m5 = record m4 { pwm = Pwm.deinit_all driver Pwm.pwm_channel_max 0 m4.pwm } in
    let m6 = record m5 { i2s = (I2s.deinit_all m5.i2s).1 } in
    let m7 = record m6 { rtc = Rtc.deinit_all m6.rtc } in
    let m8 = record m7 { can = can_deinit_all m7.can } in
    let m9 = record m8 { timers = sweep m8.timers.fresh m8.timers } in
    record m9 { threads = (Threads.deinit m9.threads).1 }

-- `gc_collect` in the task `self`: the roots of the task's own registers and stack, then those of the
-- others.
abbrev pub gc_collect : {A : Type 0} → List A → (Root → A) → ℕ → Threads → List A
gc_collect own of_root self threads = own ++ map of_root (gc_others self threads)

-- `gc_get_max_new_split`: from the free size of the heap and its largest free block, with the size of a
-- block's header; the difference is that of `size_t`.
unfoldable pub gc_get_max_new_split : ℕ → ℕ → ℕ → ℕ
gc_get_max_new_split header free largest =
    let available = (largest + 2 ^ 32 - header) % 2 ^ 32 in
    if free == 0 then 0 else if ltb (16 * 1024) available then available - 16 * 1024 else 0
