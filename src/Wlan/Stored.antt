-- ===== src/Wlan/Stored.antt =====
-- What `config` of network_wlan.c stores, and what it does to an access point that runs.
use ameba_micro_python.Prelude.{
  ℕ, ◌≤◌, ◌%◌, ◌^◌, ◌≡◌, refl, Bool, true, false, not, ◌&&◌, Option, some, List, [], ◌∷◌, length,
  take, ◌==◌, leb, if◌then◌else◌, arith, ◌∙◌, ap, pos,
}
use ameba_micro_python.Py.{Result, ok, raise, type_error}
use ameba_micro_python.Wlan.Sdk.{WifiSdk}
use ameba_micro_python.Wlan.Strings.{take-copy_string}
use ameba_micro_python.Wlan.Orders.{config-ap}
use ameba_micro_python.Wlan.{
  WlanIf, Setting, ssid, channel, security, ap_start, ap_started, config, config_start, is_sta,
  copy_string, apply_setting, config_loop, and_then, to_unsigned, ap_cfg, ap_clear, config_get,
  query_ssid, query_channel, query_security, text, number,
}

module _ (sdk : WifiSdk) where
  -- The object that `wlan_ap_start` and the end of `config` leave is the one of the loop.
  ap_start_self : (self : WlanIf) (d : sdk.Dev) → (ap_start sdk self d).1 ≡ self
  unfolding ap_start
  ap_start_self self d = go (sdk.start_ap (ap_cfg self) (ap_clear sdk d))
    where
      go : (out : Bool × sdk.Dev) → (ap_started sdk self out).1 ≡ self
      go (true, d') = refl
      go (false, d') = refl

  config_start_self :
      (d : sdk.Dev) (out : Result (Unit {0}) × WlanIf) → (config_start sdk d out).1 ≡ out.1
  config_start_self d (raise e, self) = refl
  config_start_self d (ok u, self) =
      go (self.ap_active_requested && (not (self.ap_ssid_len == 0) && not (sdk.is_running d)))
    where
      go : (b : Bool) → (if b then ap_start sdk self d else (ok tt, self, d)).1 ≡ self
      go true = ap_start_self self d
      go false = refl

  -- What `config` has stored, `config` reads back, whether the start of the network succeeds or not: a
  -- name of at most 32 bytes as it was given, whatever name the array held before, and of the channel
  -- and the security the low 8 and 32 bits.
  pub config_get-config :
      (self : WlanIf) (d : sdk.Dev) (name : List ℕ) (n m : ℕ)
      → is_sta self.if_id ≡ false
      → length name ≤ 32
      → let self' =
          (config sdk self d (
            some (ssid (some name))
            ∷ some (channel (some (pos n)))
            ∷ some (security (some (pos m)))
            ∷ [])).1 in
        (config_get self' query_ssid ≡ text name)
        × (config_get self' query_channel ≡ number (n % 256))
        × (config_get self' query_security ≡ number (m % 2 ^ 32))
  unfolding config_loop apply_setting config_get to_unsigned
  config_get-config self d name n m a h =
      let kwargs : List (Option Setting) =
        some (ssid (some name))
        ∷ some (channel (some (pos n)))
        ∷ some (security (some (pos m)))
        ∷ [] in
      let stored : WlanIf = record self {
        ap_ssid = copy_string self.ap_ssid name;
        ap_ssid_len = length name % 256;
        ap_channel = n % 256;
        ap_security = m % 2 ^ 32;
      } in
      let short : leb (length name) 32 ≡ true = ground arith in
      let looped : (config_loop self kwargs).1 ≡ stored = rw (short, and_then) refl in
      let e : (config sdk self d kwargs).1 ≡ stored =
        ap (λ o. o.1) (config-ap sdk self d kwargs a)
        ∙ config_start_self d (config_loop self kwargs)
        ∙ looped in
      let len : length name % 256 ≡ length name = ground arith in
      (
        ap (λ t. config_get t query_ssid) e
            ∙ ap (λ k. text (take k (copy_string self.ap_ssid name))) len
            ∙ ap text (take-copy_string self.ap_ssid name),
        ap (λ t. config_get t query_channel) e,
        ap (λ t. config_get t query_security) e,
      )

  -- Settings given to an access point that runs are stored, and the driver goes on as it was.
  pub config-running :
      (self : WlanIf) (d : sdk.Dev) (kwargs : List (Option Setting))
      → sdk.is_running d ≡ true
      → (config sdk self d kwargs).2 ≡ d
  unfolding config
  config-running self d kwargs h = go (is_sta self.if_id) (started (config_loop self kwargs))
    where
      go :
          (b : Bool)
          → (config_start sdk d (config_loop self kwargs)).2 ≡ d
          → (if b
              then (raise type_error, self, d)
              else config_start sdk d (config_loop self kwargs)).2
            ≡ d
      go true e = refl
      go false e = e

      started : (out : Result (Unit {0}) × WlanIf) → (config_start sdk d out).2 ≡ d
      started (raise e, self') = refl
      started (ok u, self') = rw h (off self'.ap_active_requested (self'.ap_ssid_len == 0))
        where
          off :
              (q n : Bool)
              → (if q && (not n && not true) then ap_start sdk self' d else (ok tt, self', d)).2 ≡ d
          off q n = ground arith
