-- ===== src/I2c/Tests.antt =====
-- The theorem about machine_i2c.c at one input, and runs.
use ameba_micro_python.Prelude.{
  ℕ, ◌≡◌, refl, true, false, none, some, ℤ, pos, negsuc, ◌==◌, if◌then◌else◌,
}
use ameba_micro_python.Py.{raise, value_error, einval, eio, enodev}
use ameba_micro_python.I2c.{
  Controller, Args, TargetArgs, idle, as_master, init_helper, set_args, target_make_new,
  target_deinit, deinit, count, failed, transfer_single,
}
use ameba_micro_python.I2c.Roles.{here, next, inits, Leads-refused}

abbrev unused : Controller
unused = record {
  master = record { scl = 0; sda = 0; freq = 0; timeout = 0; initialized = false };
  target = record { scl = 0; sda = 0; initialized = false; handler = false };
  role = idle;
  irq = false;
}

abbrev pins_26_27 : Args
pins_26_27 = record {
  freq = pos 100000;
  scl = some (some 26);
  sda = some (some 27);
  timeout = negsuc 0;
}

abbrev target_66 : TargetArgs
target_66 = record {
  addr = 66;
  addrsize = pos 7;
  scl = none;
  sda = none;
  default_scl = 26;
  default_sda = 27;
}

abbrev as_i2c : Controller
as_i2c = (init_helper pins_26_27 unused).1

abbrev retuned : Controller
retuned = (init_helper (record pins_26_27 { sda = some none }) as_i2c).1

as_i2c-initialized : as_i2c.master.initialized ≡ true
unfolding init_helper set_args
as_i2c-initialized = refl

Leads-refused_example :
    (target_make_new target_66 retuned ≡ (raise value_error, retuned))
    × ((deinit retuned).master.initialized ≡ false)
Leads-refused_example =
    Leads-refused as_i2c retuned target_66 as_i2c-initialized
      (next here (inits (record pins_26_27 { sda = some none }) refl))

-- The other way round nothing is refused: the controller of a target becomes a master's, with the
-- target still set up and its interrupt registered.
abbrev both : Controller
both = (init_helper pins_26_27 (target_make_new target_66 unused).1).1

both-run :
    (both.master.initialized ≡ true)
    × (both.target.initialized ≡ true)
    × (both.irq ≡ true)
    × (both.role ≡ as_master 26 27 100000)
unfolding init_helper set_args target_make_new target_deinit
both-run = (refl, refl, refl, refl)

-- PA_0 has the number 0, which stands for a pin that is not given.
pa_0-run : (init_helper (record pins_26_27 { scl = some (some 0) }) unused).0 ≡ raise value_error
unfolding init_helper set_args
pa_0-run = refl

-- A device at address 66 that answers every length.
abbrev device_66 : ℕ → ℕ → ℕ → ℤ
device_66 addr len timeout = if addr == 66 then pos len else negsuc 0

transfer_single-run :
    (transfer_single device_66 device_66 as_i2c.master 66 4 true ≡ count 4)
    × (transfer_single device_66 device_66 as_i2c.master 9 4 false ≡ failed eio)
    × (transfer_single device_66 device_66 as_i2c.master 9 0 false ≡ failed enodev)
    × (transfer_single device_66 device_66 unused.master 66 4 true ≡ failed einval)
unfolding init_helper set_args transfer_single
transfer_single-run = (refl, refl, refl, refl)
