-- ===== src/Uart/Init/Checks.antt =====
-- The checks of `init` of machine_uart.c: what each of its steps does to the stored configuration.
use ameba_micro_python.Prelude.{
  ℕ, ◌+◌, ◌%◌, ◌^◌, ◌≤◌, ◌<◌, ◌≡◌, ◌≢◌, ◌⊎◌, refl, Bool, true, false, ◌&&◌, ℤ, pos, negsuc, ltb_ℤ,
  arith, Bool-cases, Option-cases, inl, inr,
}
use ameba_micro_python.Uart.{
  Config, Args, min_buf, max_buf, default_config, set_config, set_stop, set_pins, set_rx,
  set_numbers, set_baudrate, check_pins, pin_ok, pin_or, buf_or, is_one_of, given_or, parity_or,
}

-- A length of a queue: with the slot that stays free it fits the 16 bits of `ringbuf_t.size`, and is
-- not 0 there.
abbrev pub IsBufLen : ℕ → Type 0
IsBufLen n = (min_buf ≤ n) × (n ≤ max_buf) × ((n + 1) % 2 ^ 16 ≡ n + 1)

-- A configuration that the driver may be started with.
pub record IsValid (c : Config) : Type 0 where
  pub bits_ok : (c.bits ≡ 7) ⊎ (c.bits ≡ 8)
  pub stop_ok : (c.stop ≡ 1) ⊎ (c.stop ≡ 2)
  pub baudrate_ok : 0 < c.baudrate
  pub tx_ok : (6 ≤ c.tx) × (c.tx ≢ 44)
  pub rx_ok : (6 ≤ c.rx) × (c.rx ≢ 44)
  pub rxbuf_ok : IsBufLen c.rxbuf_len
  pub txbuf_ok : IsBufLen c.txbuf_len

-- The parts of `IsValid` that hold of a stored configuration in every state, refused ones included.
pub record IsStored (c : Config) : Type 0 where
  pub bits_ok : (c.bits ≡ 7) ⊎ (c.bits ≡ 8)
  pub stop_ok : (c.stop ≡ 1) ⊎ (c.stop ≡ 2)
  pub baudrate_ok : 0 < c.baudrate
  pub rxbuf_ok : IsBufLen c.rxbuf_len
  pub txbuf_ok : IsBufLen c.txbuf_len

buf_or-IsBufLen : (z : ℤ) (old : ℕ) → IsBufLen old → IsBufLen (buf_or z old)
buf_or-IsBufLen (pos n) old h = ground arith
buf_or-IsBufLen (negsuc n) old h = h

is_one_of-given_or :
    (z : ℤ) (a b old : ℕ)
    → is_one_of z a b ≡ true
    → (old ≡ a) ⊎ (old ≡ b)
    → (given_or z old ≡ a) ⊎ (given_or z old ≡ b)
is_one_of-given_or (pos n) a b old h k = ground arith
is_one_of-given_or (negsuc n) a b old h k = k

pub default_config-IsStored : (id : ℕ) → IsStored (default_config id)
default_config-IsStored id = record {
  bits_ok = inr refl;
  stop_ok = inl refl;
  baudrate_ok = omega arith;
  rxbuf_ok = ground arith;
  txbuf_ok = ground arith;
}

set_numbers-IsStored : (c : Config) (a : Args) → IsStored c → IsStored (set_numbers c a)
set_numbers-IsStored c a v = record {
  bits_ok = v.bits_ok;
  stop_ok = v.stop_ok;
  baudrate_ok = v.baudrate_ok;
  rxbuf_ok = buf_or-IsBufLen a.rxbuf c.rxbuf_len v.rxbuf_ok;
  txbuf_ok = buf_or-IsBufLen a.txbuf c.txbuf_len v.txbuf_ok;
}

-- A step of `init`: what it reaches is stored, and valid where no check failed.
abbrev pub Checked : Bool × Config → Type 0
Checked out = IsStored out.1 × ((out.0 ≡ false) ⊎ IsValid out.1)

check_pins-Checked : (c : Config) → IsStored c → Checked (check_pins c)
unfolding pin_ok
check_pins-Checked c v = elim (Bool-cases (pin_ok c.tx && pin_ok c.rx)) [
  | inr bad ↦ (v, inl bad)
  | inl good ↦ (
    v,
    inr (record {
      bits_ok = v.bits_ok;
      stop_ok = v.stop_ok;
      baudrate_ok = v.baudrate_ok;
      tx_ok = ground arith;
      rx_ok = ground arith;
      rxbuf_ok = v.rxbuf_ok;
      txbuf_ok = v.txbuf_ok;
    }),
  )
]

with_pins-IsStored :
    (c : Config) (tx rx : ℕ) → IsStored c → IsStored (record c { tx = tx; rx = rx })
with_pins-IsStored c tx rx v = record {
  bits_ok = v.bits_ok;
  stop_ok = v.stop_ok;
  baudrate_ok = v.baudrate_ok;
  rxbuf_ok = v.rxbuf_ok;
  txbuf_ok = v.txbuf_ok;
}

set_rx-Checked : (c : Config) (a : Args) → IsStored c → Checked (set_rx c a)
unfolding set_rx
set_rx-Checked c a v = elim (Option-cases (pin_or a.rx c.rx)) [
  | inl bad ↦ rw (bad, set_rx) (v, inl refl)
  | inr (p, good) ↦
      rw (good, set_rx)
        (check_pins-Checked (set_numbers (record c { rx = p }) a)
          (set_numbers-IsStored (record c { rx = p }) a (with_pins-IsStored c c.tx p v)))
]

set_pins-Checked : (c : Config) (a : Args) → IsStored c → Checked (set_pins c a)
unfolding set_pins
set_pins-Checked c a v = elim (Option-cases (pin_or a.tx c.tx)) [
  | inl bad ↦ rw (bad, set_pins) (v, inl refl)
  | inr (p, good) ↦
      rw (good, set_pins) (set_rx-Checked (record c { tx = p }) a (with_pins-IsStored c p c.rx v))
]

set_stop-Checked : (c : Config) (a : Args) → IsStored c → Checked (set_stop c a)
unfolding set_stop
set_stop-Checked c a v = elim (Bool-cases (is_one_of a.stop 1 2)) [
  | inr bad ↦ rw (bad, set_stop) (v, inl refl)
  | inl good ↦
      rw (good, set_stop)
        (set_pins-Checked (record c { stop = given_or a.stop c.stop }) a
          (record {
            bits_ok = v.bits_ok;
            stop_ok = is_one_of-given_or a.stop 1 2 c.stop good v.stop_ok;
            baudrate_ok = v.baudrate_ok;
            rxbuf_ok = v.rxbuf_ok;
            txbuf_ok = v.txbuf_ok;
          }))
]

set_baudrate-IsStored : (c : Config) (a : Args) → IsStored c → IsStored (set_baudrate c a)
set_baudrate-IsStored c a v = elim (Bool-cases (ltb_ℤ (pos 0) a.baudrate)) [
  | inr absent ↦ rw absent v
  | inl given ↦ rw given (record {
    bits_ok = v.bits_ok;
    stop_ok = v.stop_ok;
    baudrate_ok = ground arith;
    rxbuf_ok = v.rxbuf_ok;
    txbuf_ok = v.txbuf_ok;
  })
]

pub set_config-Checked : (c : Config) (a : Args) → IsStored c → Checked (set_config c a)
unfolding set_config
set_config-Checked c a v =
    let c' : Config = set_baudrate c a in
    let w : IsStored c' = set_baudrate-IsStored c a v in
    elim (Bool-cases (is_one_of a.bits 7 8)) [
      | inr bad ↦ rw (bad, set_config) (w, inl refl)
      | inl good ↦
          rw (good, set_config)
            (set_stop-Checked
              (record c' { bits = given_or a.bits c'.bits; parity = parity_or a.parity c'.parity })
              a
              (record {
                bits_ok = is_one_of-given_or a.bits 7 8 c'.bits good w.bits_ok;
                stop_ok = w.stop_ok;
                baudrate_ok = w.baudrate_ok;
                rxbuf_ok = w.rxbuf_ok;
                txbuf_ok = w.txbuf_ok;
              }))
    ]
