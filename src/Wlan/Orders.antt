-- ===== src/Wlan/Orders.antt =====
-- `config` and `active(True)` of network_wlan.c in either order.
use ameba_micro_python.Prelude.{
  ◌≡◌, ◌≢◌, refl, true, false, Option, none, some, List, [], ◌∷◌, ◌==◌, arith, ◌∙◌, ap,
}
use ameba_micro_python.Py.{Result, ok, raise}
use ameba_micro_python.Wlan.Sdk.{WifiSdk}
use ameba_micro_python.Wlan.Fits.{loop-keeps, loop-requested}
use ameba_micro_python.Wlan.{
  WlanIf, Setting, ssid, key, channel, security, hidden, unexpected, ap_start, active, ap_active,
  config, config_start, is_sta, apply_setting, config_loop, and_then,
}

abbrev pub request : WlanIf → WlanIf
request self = record self { ap_active_requested = true }

abbrev requested_out : Result (Unit {0}) × WlanIf → Result (Unit {0}) × WlanIf
requested_out (r, self) = (r, request self)

-- The settings do not look at the request.
setting-request :
    (self : WlanIf) (s : Setting)
    → apply_setting (request self) s ≡ requested_out (apply_setting self s)
unfolding apply_setting
setting-request self (ssid none) = refl
setting-request self (ssid (some s)) = ground arith
setting-request self (key none) = refl
setting-request self (key (some s)) = ground arith
setting-request self (channel none) = refl
setting-request self (channel (some n)) = refl
setting-request self (security none) = refl
setting-request self (security (some n)) = refl
setting-request self (hidden b) = refl
setting-request self unexpected = refl

loop-request :
    (self : WlanIf) (kwargs : List (Option Setting))
    → config_loop (request self) kwargs ≡ requested_out (config_loop self kwargs)
unfolding config_loop
loop-request self [] = refl
loop-request self (none ∷ kwargs) = loop-request self kwargs
loop-request self (some s ∷ kwargs) =
    ap (λ out. and_then out (λ self'. config_loop self' kwargs)) (setting-request self s)
    ∙ after (apply_setting self s) (λ self'. loop-request self' kwargs)
  where
    after :
        (out : Result (Unit {0}) × WlanIf)
        → ((self' : WlanIf)
            → config_loop (request self') kwargs ≡ requested_out (config_loop self' kwargs))
        → and_then (requested_out out) (λ self'. config_loop self' kwargs)
          ≡ requested_out (and_then out (λ self'. config_loop self' kwargs))
    after (ok u, self') h = h self'
    after (raise e, self') h = refl

module _ (sdk : WifiSdk) where
  -- The two ends of the orders, on the outcome of the loop.
  config_start-unrequested :
      (d : sdk.Dev) (out : Result (Unit {0}) × WlanIf)
      → out.0 ≡ ok tt
      → out.1.ap_active_requested ≡ false
      → config_start sdk d out ≡ (ok tt, out.1, d)
  config_start-unrequested d (ok u, self) e q = rw q refl
  config_start-unrequested d (raise x, self) e q = cc

  config_start-requested :
      (d : sdk.Dev) (out : Result (Unit {0}) × WlanIf)
      → out.0 ≡ ok tt
      → (out.1.ap_ssid_len == 0) ≡ false
      → sdk.is_running d ≡ false
      → config_start sdk d (requested_out out) ≡ ap_start sdk (request out.1) d
  config_start-requested d (ok u, self) e n off = rw (n, off) refl
  config_start-requested d (raise x, self) e n off = cc

  active-unnamed :
      (self : WlanIf) (d : sdk.Dev)
      → is_sta self.if_id ≡ false
      → (self.ap_ssid_len == 0) ≡ true
      → active sdk self d true ≡ (ok tt, request self, d)
  unfolding active ap_active
  active-unnamed self d a n = rw (a, ap_active, n) refl

  active-named :
      (self : WlanIf) (d : sdk.Dev)
      → is_sta self.if_id ≡ false
      → (self.ap_ssid_len == 0) ≡ false
      → active sdk self d true ≡ ap_start sdk (request self) d
  unfolding active ap_active
  active-named self d a n = rw (a, ap_active, n) refl

  pub config-ap :
      (self : WlanIf) (d : sdk.Dev) (kwargs : List (Option Setting))
      → is_sta self.if_id ≡ false
      → config sdk self d kwargs ≡ config_start sdk d (config_loop self kwargs)
  unfolding config
  config-ap self d kwargs a = rw a refl

  setting-if_id :
      (self : WlanIf) (s : Setting) → is_sta (apply_setting self s).1.if_id ≡ is_sta self.if_id
  unfolding apply_setting
  setting-if_id self s = ground arith

  loop-if_id :
      (self : WlanIf) (kwargs : List (Option Setting))
      → is_sta (config_loop self kwargs).1.if_id ≡ is_sta self.if_id
  loop-if_id self kwargs =
      loop-keeps (λ self'. is_sta self'.if_id ≡ is_sta self.if_id)
        (λ self' s e. setting-if_id self' s ∙ e) self kwargs refl

  -- For an access point that is off and has no name yet, `config` with settings that raise no error
  -- and give a name, and `active(True)`, may be called in either order: the first call succeeds and
  -- leaves the driver alone, and the second ends in the same outcome, object and driver, which is that
  -- of the one start with the new settings.
  pub config-active :
      (self : WlanIf) (d : sdk.Dev) (kwargs : List (Option Setting))
      → is_sta self.if_id ≡ false
      → self.ap_active_requested ≡ false
      → self.ap_ssid_len ≡ 0
      → sdk.is_running d ≡ false
      → (config_loop self kwargs).0 ≡ ok tt
      → (config_loop self kwargs).1.ap_ssid_len ≢ 0
      → (config sdk self d kwargs ≡ (ok tt, (config_loop self kwargs).1, d))
        × (active sdk self d true ≡ (ok tt, request self, d))
        × (active sdk (config_loop self kwargs).1 d true
            ≡ ap_start sdk (request (config_loop self kwargs).1) d)
        × (config sdk (request self) d kwargs
            ≡ ap_start sdk (request (config_loop self kwargs).1) d)
  config-active self d kwargs a q n off good named =
      let out : Result (Unit {0}) × WlanIf = config_loop self kwargs in
      let unnamed : (self.ap_ssid_len == 0) ≡ true = ground arith in
      let given : (out.1.ap_ssid_len == 0) ≡ false = ground arith in
      (
        config-ap self d kwargs a
            ∙ config_start-unrequested d out good (loop-requested self kwargs ∙ q),
        active-unnamed self d a unnamed,
        active-named out.1 d (loop-if_id self kwargs ∙ a) given,
        config-ap (request self) d kwargs a
            ∙ ap (config_start sdk d) (loop-request self kwargs)
            ∙ config_start-requested d out good given off,
      )
