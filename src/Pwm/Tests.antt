-- ===== src/Pwm/Tests.antt =====
-- Runs of the PWM table, on a driver whose objects are the period, the width of the pulse and the duty
-- as a number.
use ameba_micro_python.Prelude.{ℕ, refl, pos, negsuc}
use ameba_micro_python.Py.{ok}
use ameba_micro_python.Pwm.{Driver, Bank, Args, make_new}
use ameba_micro_python.Pwm.Shared.{KeepsPeriod}
use ameba_micro_python.Pwm.Channels.{Reach, boots, next, makes, Inv, at_boot, Reach-Inv}

-- The period and the duty.
abbrev pub plain : Driver
plain = record {
  Out = ℕ × ℕ;
  Duty = ℕ;
  period = λ o. o.0;
  with_period = λ o n. (n, o.1);
  init = λ o pin. (20000, 0);
  free = λ o. o;
  period_us = λ o n. (n, o.1);
  pulsewidth_us = λ o n. (o.0, n);
  read = λ o. o.1;
  write = λ o d. (o.0, d);
  frac = λ n. n;
}

plain-KeepsPeriod : KeepsPeriod plain
plain-KeepsPeriod = record {
  with_period_period = λ o n. refl;
  period_us_period = λ o n. refl;
  write_period = λ o d. refl;
}

abbrev half : Args
half = record { freq = pos 50; duty_u16 = pos 32768; duty_ns = negsuc 0 }

abbrev pub empty : Bank (ℕ × ℕ)
empty = at_boot plain (0, 0)

abbrev one : Bank (ℕ × ℕ)
one = (make_new plain empty 18 (ok half)).1

Reach-one : Reach plain (0, 0) one
Reach-one = next boots (makes 18 (ok half) refl)

Reach-Inv_example : Inv plain one
Reach-Inv_example = Reach-Inv plain (0, 0) one Reach-one
