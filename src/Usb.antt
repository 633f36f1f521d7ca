-- ===== src/Usb.antt =====
-- ports/ameba-rtos-m/src/machine_usbserial.c: `machine.USBSerial`, a serial port over USB.
-- The ring buffer is the parameter `RingBuf`; the SDK's USB driver and its semaphores enter by their
-- answers.
pub mod Lifecycle
pub mod Receive
pub mod Transmit
mod Tests
use ameba_micro_python.Prelude.{
  ℕ, zero, suc, ◌+◌, ◌%◌, ◌^◌, ◌<◌, ◌≤◌, ◌≡◌, Bool, true, false, not, ◌&&◌, ◌||◌, Option, none,
  some, List, [], ◌∷◌, ◌++◌, length, if◌then◌else◌, ◌==◌,
}
use ameba_micro_python.Py.{
  Exc, Errno, os_error, value_error, eagain, eio, einval, Result, ok, raise,
}
use ameba_micro_python.RingBuf.{RingBuf}

-- The SDK's objects that exist, beside `usbserial_core_ready` and `usbserial_attached`.
pub record Core : Type 0 where
  pub core_ready : Bool
  pub attached : Bool
  pub sema : Bool
  pub mutex : Bool
  pub usbd : Bool
  pub cdc_acm : Bool

-- Which of the calls in `machine_usbserial_init0` succeed.
pub record Answers : Type 0 where
  pub sema : Bool
  pub mutex : Bool
  pub usbd : Bool
  pub cdc_acm : Bool

-- `machine_usbserial_init0`
unfoldable pub init0 : Core → Answers → Core
init0 c a =
    let c1 = record c { sema = true } in
    let c2 = record c1 { mutex = true } in
    let c3 = record c2 { usbd = true } in
    if c.core_ready
    then c
    else if not a.sema
    then c
    else if not a.mutex
    then record c1 { sema = false }
    else if not a.usbd
    then record c2 { mutex = false; sema = false }
    else if not a.cdc_acm
    then record c3 { usbd = false; mutex = false; sema = false }
    else record c3 { cdc_acm = true; core_ready = true }

-- `machine_usbserial_make_new`
unfoldable pub make_new : Core → ℕ → Answers → Result (Unit {0}) × Core
unfolding init0
make_new c id a = if id == 0 then (ok tt, init0 c a) else (raise value_error, c)

-- `machine_usbserial_deinit`
unfoldable pub deinit : Core → Core
deinit c =
    if c.core_ready
    then record c {
      cdc_acm = false;
      usbd = false;
      mutex = false;
      sema = false;
      core_ready = false;
      attached = false;
    }
    else c

-- `usbserial_cb_status_changed`
abbrev pub status_changed : Core → Bool → Core
status_changed c now_attached = record c { attached = now_attached }

-- What `usbd_cdc_acm_transmit` answers.
pub data Hal : Type 0 where
  hal_ok hal_busy hal_err : Hal

-- A transfer of the endpoint that is not complete, and the count of the semaphore (0 or 1).
pub record Link : Type 0 where
  pub in_flight : Bool
  pub token : Bool

-- The callback `usbserial_cb_transmitted`, where the transfer in flight completes.
abbrev pub complete_if : Bool → Link → Link
complete_if happens l =
    if happens && l.in_flight then record { in_flight = false; token = true } else l

-- `rtos_sema_take`: at once where there is a token, else where a completion happens in time.
abbrev pub take : Bool → Link → Bool × Link
take happens l =
    if l.token
    then (true, record l { token = false })
    else (happens && l.in_flight, record (complete_if happens l) { token = false })

-- Where a completion happens in a run of `usbserial_transmit_blocking`: before the drain, between
-- the drain and the transmit, in the wait for a busy endpoint, before the second transmit, in the
-- last wait.
pub record Schedule : Type 0 where
  pub before_drain : Bool
  pub before_transmit : Bool
  pub in_busy : Bool
  pub before_retry : Bool
  pub in_wait : Bool

-- The answer of `usbd_cdc_acm_transmit`, which depends on a transfer in flight.
module _ (sdk : Bool → Hal) where
  -- The link after a transmit.
  abbrev pub submit : Link → Link
  submit l = elim (sdk l.in_flight) [ hal_ok ↦ record l { in_flight = true } | _ ↦ l ]

  -- The end of `usbserial_transmit_blocking`, from the answer of the last transmit.
  abbrev pub wait_done : Schedule → Hal → Link → Bool × Link
  wait_done s hal_ok l = take s.in_wait l
  wait_done s _ l = (false, l)

  -- `usbserial_transmit_blocking`; `locked` tells whether the mutex was taken in time.
  unfoldable pub transmit_blocking : Bool → Schedule → Link → Bool × Link
  transmit_blocking locked s l =
      let drained = record (complete_if s.before_drain l) { token = false } in
      let ready = complete_if s.before_transmit drained in
      let again = complete_if s.before_retry (take s.in_busy ready).1 in
      if locked
      then elim (sdk ready.in_flight) [
        | hal_ok ↦ take s.in_wait (submit ready)
        | hal_err ↦ (false, ready)
        | hal_busy ↦ wait_done s (sdk again.in_flight) (submit again)
      ]
      else (false, l)

  -- `machine_usbserial_stream_write` of `n` bytes
  unfoldable pub write : Core → Bool → Schedule → Link → ℕ → Result ℕ × Link
  unfolding transmit_blocking
  write c locked s l n =
      let (sent, l') = transmit_blocking locked s l in
      if not c.core_ready || not c.attached
      then (ok 0, l)
      else if sent
      then (ok n, l')
      else (raise (os_error eio), l')

module _ (ring : RingBuf) where
  open ring use {Buf, put, get, peek}

  -- `usbserial_cb_received`: the buffer, and the counter of lost bytes.
  unfoldable pub received : Buf → ℕ → List ℕ → Buf × ℕ
  received b overflow [] = (b, overflow)
  received b overflow (x ∷ xs) = elim (put b x) [
    | some b' ↦ received b' overflow xs
    | none ↦ received b ((overflow + 1) % 2 ^ 32) xs
  ]

  -- The loop of `machine_usbserial_stream_read` for `size` more bytes.
  unfoldable pub read_loop : Buf → ℕ → List ℕ × Buf
  read_loop b zero = ([], b)
  read_loop b (suc size) = elim (get b) [
    | none ↦ ([], b)
    | some (c, b') ↦ let (rest, b'') = read_loop b' size in (c ∷ rest, b'')
  ]

  abbrev pub got_or_again : List ℕ × Buf → Result (List ℕ) × Buf
  got_or_again ([], b) = (raise (os_error eagain), b)
  got_or_again (x ∷ xs, b) = (ok (x ∷ xs), b)

  -- `machine_usbserial_stream_read`
  pub read : Buf → ℕ → Result (List ℕ) × Buf
  unfolding read_loop
  read b size = got_or_again (read_loop b size)

  -- `mp_usbserial_poll`, also the poll of `machine_usbserial_stream_ioctl`: whether it can be read
  -- and written, from the flags asked for.
  unfoldable pub poll : Buf → Bool → Bool → Bool × Bool
  poll b rd wr = (rd && elim (peek b) [ none ↦ false | some _ ↦ true ], wr)
