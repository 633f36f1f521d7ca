-- ===== src/Py.antt =====
-- What the port's C functions hand back to the MicroPython runtime: a value, or a raised exception
-- (`mp_raise_OSError`, `mp_raise_ValueError`, `mp_raise_msg`).
use ameba_micro_python.Prelude.{ℕ}

-- `errno` values and the `MP_E...` constants of py/mperrno.h. EWOULDBLOCK is EAGAIN in both.
pub data Errno : Type 0 where
  eio eagain ebusy einval enodev enomem enotconn etimedout ealready einprogress enonet eacces :
      Errno
  -- a name that is not known, and the negative codes of `getaddrinfo`
  noname : Errno
  negative : ℕ → Errno

pub data Exc : Type 0 where
  os_error : Errno → Exc
  value_error type_error memory_error not_implemented_error : Exc
  -- what `mp_handle_pending(true)` throws: a KeyboardInterrupt, or a scheduled exception
  pending : Exc

pub data Result {ℓ} (A : Type ℓ) : Type ℓ where
  ok : A → Result A
  raise : Exc → Result A
