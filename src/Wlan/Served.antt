-- ===== src/Wlan/Served.antt =====
-- The access point of network_wlan.c over any sequence of calls.
use ameba_micro_python.Prelude.{
  ℕ, ◌<◌, ◌≤◌, ◌≡◌, ◌⊎◌, refl, inl, inr, ◌≢◌, Bool, true, false, not, ◌&&◌, Option, none, some,
  List, length, take, ◌==◌, if◌then◌else◌, arith, Bool-cases, length-take, ◌∙◌, ap, sym,
}
use mathlib.Core.Path.{subst}
use ameba_micro_python.Py.{os_error, eio, Result, ok, raise}
use ameba_micro_python.Wlan.Sdk.{WifiSdk, IsAp, SoftapInfo}
use ameba_micro_python.Wlan.Fits.{Fits, others-Fits, loop-Fits, loop-requested}
use ameba_micro_python.Wlan.{
  WlanIf, Setting, Out, ap_cfg, config_loop, ap_clear, ap_started, ap_start, active, ap_active,
  config, config_start, security_open,
}

-- A network that the driver may be asked to send.
pub record IsSized (c : SoftapInfo) : Type 0 where
  pub named : 0 < length c.ssid
  pub ssid_fits : length c.ssid ≤ 32
  pub key_fits : (k : List ℕ) → c.password ≡ some k → length k ≤ 128

-- A network is sent only where it was asked for, and with the DHCP server.
abbrev pub Serves : (sdk : WifiSdk) → WlanIf → sdk.Dev → Type 0
Serves sdk self d =
    (sdk.broadcast d ≡ none)
    ⊎ ((c : SoftapInfo) × (sdk.broadcast d ≡ some c)
        × (self.ap_active_requested ≡ true)
        × (sdk.serving d ≡ true)
        × IsSized c)

-- The object and the device after a call.
abbrev pub Inv : (sdk : WifiSdk) → Out sdk → Type 0
Inv sdk (r, self, d) = Fits self × Serves sdk self d

module _ (sdk : WifiSdk) (law : IsAp sdk) where
  pub clear-off :
      (d : sdk.Dev)
      → (sdk.broadcast (ap_clear sdk d) ≡ none) × (sdk.serving (ap_clear sdk d) ≡ false)
  clear-off d = (
    law.stop (sdk.clear_ap_ip (sdk.dhcps_deinit d)),
    law.stop_serving (sdk.clear_ap_ip (sdk.dhcps_deinit d))
        ∙ (law.clear_ap_ip_keeps (sdk.dhcps_deinit d)).1
        ∙ law.dhcps_deinit_off d,
  )

  -- `wlan_ap_start` sends the object's network with a DHCP server, or raises and leaves neither.
  pub ap_start-cases :
      (self : WlanIf) (d : sdk.Dev)
      → let (r, self', d') = ap_start sdk self d in
        (self' ≡ self)
        × (((r ≡ ok tt) × (sdk.broadcast d' ≡ some (ap_cfg self)) × (sdk.serving d' ≡ true))
            ⊎ ((r ≡ raise (os_error eio)) × (sdk.broadcast d' ≡ none) × (sdk.serving d' ≡ false)))
  unfolding ap_start
  ap_start-cases self d = go (sdk.start_ap (ap_cfg self) (ap_clear sdk d)) refl
    where
      go :
          (out : Bool × sdk.Dev)
          → sdk.start_ap (ap_cfg self) (ap_clear sdk d) ≡ out
          → let (r, self', d') = ap_started sdk self out in
            (self' ≡ self)
            × (((r ≡ ok tt) × (sdk.broadcast d' ≡ some (ap_cfg self)) × (sdk.serving d' ≡ true))
                ⊎ ((r ≡ raise (os_error eio))
                    × (sdk.broadcast d' ≡ none)
                    × (sdk.serving d' ≡ false)))
      go (false, d') e =
          let (b, s) = law.start_fail (ap_cfg self) (ap_clear sdk d) d' e in
          let (b0, s0) = clear-off d in (refl, inr (refl, b ∙ b0, s ∙ s0))
      go (true, d') e =
          let (b, s) = law.start_ok (ap_cfg self) (ap_clear sdk d) d' e in
          let d1 = sdk.alloc_ap_ip d' in
          let d2 = sdk.dhcps_init d1 in
          (
            refl,
            inl (
              refl,
              law.dhcps_start_broadcast d2
                  ∙ (law.dhcps_init_keeps d1).0
                  ∙ (law.alloc_ap_ip_keeps d').0
                  ∙ b,
              law.dhcps_start_on d2,
            ),
          )

  ap_cfg-IsSized : (self : WlanIf) → Fits self → self.ap_ssid_len ≢ 0 → IsSized (ap_cfg self)
  unfolding ap_cfg
  ap_cfg-IsSized self v h = record {
    named = omega (arith, length-take self.ap_ssid_len self.ap_ssid, v.ssid_room, v.ssid_len, h);
    ssid_fits = omega (arith, length-take self.ap_ssid_len self.ap_ssid, v.ssid_len);
    key_fits = λ k e. fits_key (self.ap_security == security_open) k e;
  }
    where
      fits_key :
          (b : Bool) (k : List ℕ)
          → (if b then none else some (take self.ap_key_len self.ap_key)) ≡ some k
          → length k ≤ 128
      fits_key true k e = cc
      fits_key false k e =
          subst (λ o. size_of o ≤ 128) e
            (omega (arith, length-take self.ap_key_len self.ap_key, v.key_len))
        where
          size_of : Option (List ℕ) → ℕ
          size_of none = 0
          size_of (some l) = length l

  ap_start-Serves :
      (self : WlanIf) (d : sdk.Dev)
      → Fits self
      → self.ap_active_requested ≡ true
      → self.ap_ssid_len ≢ 0
      → Fits (ap_start sdk self d).1 × Serves sdk (ap_start sdk self d).1 (ap_start sdk self d).2
  ap_start-Serves self d v q h =
      let (same, out) = ap_start-cases self d in
      (
        subst Fits (sym same) v,
        elim out [
          | inl (r, b, s) ↦
              inr (
                ap_cfg self,
                b,
                ap (λ o. o.ap_active_requested) same ∙ q,
                s,
                ap_cfg-IsSized self v h,
              )
          | inr (r, b, s) ↦ inl b
        ],
      )

  named-Inv :
      (self : WlanIf) (d : sdk.Dev) (out : Out sdk)
      → Fits self
      → self.ap_active_requested ≡ true
      → (self.ap_ssid_len ≡ 0 → Inv sdk out)
      → Inv sdk (if self.ap_ssid_len == 0 then out else ap_start sdk self d)
  named-Inv self d out v q h = elim (Bool-cases (self.ap_ssid_len == 0)) [
    | inl zero_ ↦ rw zero_ (h (ground arith))
    | inr some_ ↦ rw some_ (ap_start-Serves self d v q (λ e. ground arith))
  ]

  requested-Serves :
      (self self' : WlanIf) (d : sdk.Dev)
      → (self.ap_active_requested ≡ true → self'.ap_active_requested ≡ true)
      → Serves sdk self d
      → Serves sdk self' d
  requested-Serves self self' d h (inl off) = inl off
  requested-Serves self self' d h (inr (c, b, q, s, z)) = inr (c, b, h q, s, z)

  pub active-Inv :
      (self : WlanIf) (d : sdk.Dev) (b : Bool)
      → Inv sdk (ok tt, self, d)
      → Inv sdk (active sdk self d b)
  unfolding active ap_active
  active-Inv self d true (v, w) =
      let self' : WlanIf = record self { ap_active_requested = true } in
      let v' : Fits self' =
        others-Fits self true self.ap_channel self.ap_security self.ap_hidden v in
      rw (v.is_ap, ap_active)
        (named-Inv self' d (ok tt, self', d) v' refl
          (λ e. (v', requested-Serves self self' d (λ q. refl) w)))
  active-Inv self d false (v, w) =
      rw (v.is_ap, ap_active)
        (
          record {
            is_ap = v.is_ap;
            ssid_room = v.ssid_room;
            ssid_len = omega arith;
            key_room = v.key_room;
            key_len = v.key_len;
            key_nul = v.key_nul;
          },
          inl (clear-off d).0,
        )

  start-Inv :
      (self : WlanIf) (d : sdk.Dev) (b : Bool)
      → Inv sdk (ok tt, self, d)
      → (b ≡ true → (self.ap_active_requested ≡ true) × (self.ap_ssid_len ≢ 0))
      → Inv sdk (if b then ap_start sdk self d else (ok tt, self, d))
  start-Inv self d false w h = w
  start-Inv self d true (v, w) h = let (q, n) = h refl in ap_start-Serves self d v q n

  config_start-Inv :
      (d : sdk.Dev) (out : Result (Unit {0}) × WlanIf)
      → Inv sdk (ok tt, out.1, d)
      → Inv sdk (config_start sdk d out)
  config_start-Inv d (raise e, self) w = w
  config_start-Inv d (ok u, self) w =
      start-Inv self d
        (self.ap_active_requested && (not (self.ap_ssid_len == 0) && not (sdk.is_running d))) w
        (λ e. ground arith)

  pub config-Inv :
      (self : WlanIf) (d : sdk.Dev) (kwargs : List (Option Setting))
      → Inv sdk (ok tt, self, d)
      → Inv sdk (config sdk self d kwargs)
  unfolding config
  config-Inv self d kwargs (v, w) =
      rw (v.is_ap, config_start)
        (config_start-Inv d (config_loop self kwargs) (
          loop-Fits self kwargs v,
          requested-Serves self (config_loop self kwargs).1 d (λ q. loop-requested self kwargs ∙ q)
              w,
        ))
