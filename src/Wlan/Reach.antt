-- ===== src/Wlan/Reach.antt =====
-- The states that calls of `network.WLAN` lead to, for the access point of network_wlan.c.
use ameba_micro_python.Prelude.{
  ℕ, ◌<◌, ◌≡◌, refl, inl, inr, Bool, true, Option, none, some, List, [], ◌∷◌, length, get_elem?,
  arith, ◌∙◌,
}
use mathlib.Core.Path.{subst}
use ameba_micro_python.Py.{ok}
use ameba_micro_python.Wlan.Sdk.{WifiSdk, IsAp}
use ameba_micro_python.Wlan.{WlanIf, Setting, wlan_ap_obj, Out, active, config, ifconfig_set}
use ameba_micro_python.Wlan.Fits.{Fits}
use ameba_micro_python.Wlan.Served.{Serves, Inv, active-Inv, config-Inv}

-- One step: a call on the access point's object, or anything that leaves the access point alone.
pub data Step (sdk : WifiSdk) (self self' : WlanIf) (d d' : sdk.Dev) : Type 0 where
  activates :
      (b : Bool)
      → (active sdk self d b).1 ≡ self'
      → (active sdk self d b).2 ≡ d'
      → Step sdk self self' d d'
  configures :
      (kwargs : List (Option Setting))
      → (config sdk self d kwargs).1 ≡ self'
      → (config sdk self d kwargs).2 ≡ d'
      → Step sdk self self' d d'
  addresses :
      (items : List (Option ℕ))
      → (ifconfig_set sdk self d items).1 ≡ self'
      → (ifconfig_set sdk self d items).2 ≡ d'
      → Step sdk self self' d d'
  elsewhere :
      self ≡ self'
      → sdk.broadcast d' ≡ sdk.broadcast d
      → sdk.serving d' ≡ sdk.serving d
      → Step sdk self self' d d'

pub data Reach (sdk : WifiSdk) : WlanIf → sdk.Dev → Type 0 where
  at_boot : (d : sdk.Dev) → sdk.broadcast d ≡ none → Reach sdk wlan_ap_obj d
  next :
      {self self' : WlanIf} {d d' : sdk.Dev}
      → Reach sdk self d
      → Step sdk self self' d d'
      → Reach sdk self' d'

wlan_ap_obj-Fits : Fits wlan_ap_obj
wlan_ap_obj-Fits = record {
  is_ap = refl;
  ssid_room = refl;
  ssid_len = omega arith;
  key_room = refl;
  key_len = omega arith;
  key_nul = refl;
}

module _ (sdk : WifiSdk) (law : IsAp sdk) where
  -- A device that differs in neither of the two views.
  like-Serves :
      (self : WlanIf) (d d' : sdk.Dev)
      → sdk.broadcast d' ≡ sdk.broadcast d
      → (sdk.serving d ≡ true → sdk.serving d' ≡ true)
      → Serves sdk self d
      → Serves sdk self d'
  like-Serves self d d' b s (inl off) = inl (b ∙ off)
  like-Serves self d d' b s (inr (c, e, q, h, z)) = inr (c, b ∙ e, q, s h, z)

  -- A new address for the access point restarts its DHCP server.
  ifconfig-Inv :
      (self : WlanIf) (d : sdk.Dev) (items : List (Option ℕ))
      → Inv sdk (ok tt, self, d)
      → Inv sdk (ifconfig_set sdk self d items)
  unfolding ifconfig_set
  ifconfig-Inv self d (some ip ∷ some netmask ∷ some gw ∷ dns ∷ []) (v, w) =
      let d1 = sdk.dhcps_deinit d in
      let d2 = sdk.set_ap_ip (sdk.htonl ip) (sdk.htonl netmask) (sdk.htonl gw) d1 in
      let d3 = sdk.dhcps_init d2 in
      rw v.is_ap (
        v,
        like-Serves self d (sdk.dhcps_start d3)
            (law.dhcps_start_broadcast d3
              ∙ (law.dhcps_init_keeps d2).0
              ∙ (law.set_ap_ip_keeps (sdk.htonl ip) (sdk.htonl netmask) (sdk.htonl gw) d1).0
              ∙ law.dhcps_deinit_broadcast d)
            (λ h. law.dhcps_start_on d3) w,
      )
  ifconfig-Inv self d items w = w

  moved :
      (out : Out sdk) (self' : WlanIf) (d' : sdk.Dev)
      → out.1 ≡ self'
      → out.2 ≡ d'
      → Inv sdk out
      → Inv sdk (ok tt, self', d')
  moved out self' d' e f w =
      subst (λ d. Inv sdk (ok tt, self', d)) f (subst (λ s. Inv sdk (ok tt, s, out.2)) e w)

  Step-Inv :
      {self self' : WlanIf} {d d' : sdk.Dev}
      → Step sdk self self' d d'
      → Inv sdk (ok tt, self, d)
      → Inv sdk (ok tt, self', d')
  Step-Inv {self} {self'} {d} {d'} (activates b e f) w =
      moved (active sdk self d b) self' d' e f (active-Inv sdk law self d b w)
  Step-Inv {self} {self'} {d} {d'} (configures kwargs e f) w =
      moved (config sdk self d kwargs) self' d' e f (config-Inv sdk law self d kwargs w)
  Step-Inv {self} {self'} {d} {d'} (addresses items e f) w =
      moved (ifconfig_set sdk self d items) self' d' e f (ifconfig-Inv self d items w)
  Step-Inv {self} {self'} {d} {d'} (elsewhere e b s) (v, w) =
      subst (λ t. Inv sdk (ok tt, t, d')) e (v, like-Serves self d d' b (λ h. s ∙ h) w)

  Reach-Inv : {self : WlanIf} {d : sdk.Dev} → Reach sdk self d → Inv sdk (ok tt, self, d)
  Reach-Inv (at_boot d off) = (wlan_ap_obj-Fits, inl off)
  Reach-Inv (next r s) = Step-Inv s (Reach-Inv r)

  -- After any sequence of calls, failing ones included, the access point either sends no network, or
  -- `active(True)` is in force, its DHCP server runs, and the network that it sends has a name of 1 to
  -- 32 bytes and a password, if any, of at most 128.
  pub Reach-Serves : (self : WlanIf) (d : sdk.Dev) → Reach sdk self d → Serves sdk self d
  Reach-Serves self d r = (Reach-Inv r).1

  -- After any sequence of calls the name's length fits its array of 33 bytes with its NUL, the key's
  -- fits its array of 129, each in the 8 bits of its field, and the key ends in a NUL.
  pub Reach-fits :
      (self : WlanIf) (d : sdk.Dev)
      → Reach sdk self d
      → (self.ap_ssid_len < length self.ap_ssid)
        × (length self.ap_ssid ≡ 33)
        × (self.ap_key_len < length self.ap_key)
        × (length self.ap_key ≡ 129)
        × (get_elem? self.ap_key self.ap_key_len ≡ some 0)
  Reach-fits self d r =
      let v : Fits self = (Reach-Inv r).0 in
      (
        omega (arith, v.ssid_room, v.ssid_len),
        v.ssid_room,
        omega (arith, v.key_room, v.key_len),
        v.key_room,
        v.key_nul,
      )
