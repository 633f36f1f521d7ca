-- ===== src/Wlan.antt =====
-- ports/ameba-rtos-m/src/network_wlan.c and network_wlan.h: the `network.WLAN` object as an access
-- point (`active`, `config`, `ifconfig`). The child Station is about the station, Scan about `scan`
-- and `status`. The Wi-Fi driver, lwIP and the DHCP server of the SDK are the parameter `sdk`.
pub mod Sdk
pub mod Strings
pub mod Station
pub mod Connects
pub mod Scan
pub mod Fits
pub mod Served
pub mod Reach
pub mod Orders
pub mod Stored
mod Tests
use ameba_micro_python.Prelude.{
  ℕ, zero, suc, ◌%◌, ◌^◌, ◌+◌, Bool, true, false, not, ◌&&◌, Option, none, some, List, [], ◌∷◌,
  ◌++◌, length, take, drop, set, replicate, ◌==◌, leb, if◌then◌else◌, ℤ, pos, negsuc, ◌-◌,
}
use ameba_micro_python.Py.{Exc, os_error, value_error, type_error, eio, Result, ok, raise}
use ameba_micro_python.Wlan.Sdk.{WifiSdk, SoftapInfo}

-- `MOD_NETWORK_STA_IF` and `MOD_NETWORK_AP_IF`
pub data Interface : Type 0 where
  sta_if ap_if : Interface

abbrev pub is_sta : Interface → Bool
is_sta sta_if = true
is_sta ap_if = false

-- `RTW_ESSID_MAX_SIZE` and `RTW_MAX_PSK_LEN`, the sizes of the two arrays without their NUL.
abbrev pub essid_max_size : ℕ
essid_max_size = 32

abbrev pub max_psk_len : ℕ
max_psk_len = 128

-- `RTW_SECURITY_OPEN` and `RTW_SECURITY_WPA2_AES_PSK`
abbrev pub security_open : ℕ
security_open = 0

abbrev pub security_wpa2 : ℕ
security_wpa2 = 4194308

-- `wlan_if_obj_t`: the two arrays with every byte, also those after the string.
pub record WlanIf : Type 0 where
  pub if_id : Interface
  pub sta_active : Bool
  pub ap_active_requested : Bool
  pub ap_ssid : List ℕ
  pub ap_ssid_len : ℕ
  pub ap_key : List ℕ
  pub ap_key_len : ℕ
  pub ap_channel : ℕ
  pub ap_security : ℕ
  pub ap_hidden : Bool

-- The static objects: a field that the initializer does not name is zero.
abbrev pub wlan_if_obj : Interface → Bool → ℕ → WlanIf
wlan_if_obj id is_active security = record {
  if_id = id;
  sta_active = is_active;
  ap_active_requested = false;
  ap_ssid = replicate 33 0;
  ap_ssid_len = 0;
  ap_key = replicate 129 0;
  ap_key_len = 0;
  ap_channel = 6;
  ap_security = security;
  ap_hidden = false;
}

abbrev pub wlan_sta_obj : WlanIf
wlan_sta_obj = wlan_if_obj sta_if true security_open

abbrev pub wlan_ap_obj : WlanIf
wlan_ap_obj = wlan_if_obj ap_if false security_wpa2

-- `wlan_make_new`: the argument, where there is one, must be 0 or 1.
unfoldable pub make_new : Option ℤ → Result WlanIf
make_new none = ok wlan_sta_obj
make_new (some (pos zero)) = ok wlan_sta_obj
make_new (some (pos (suc zero))) = ok wlan_ap_obj
make_new (some (pos (suc (suc n)))) = raise value_error
make_new (some (negsuc n)) = raise value_error

-- The conversion of a Python integer to an unsigned field of `w` bits.
unfoldable pub to_unsigned : ℕ → ℤ → ℕ
to_unsigned w (pos n) = n % 2 ^ w
to_unsigned w (negsuc n) = 2 ^ w - 1 - n % 2 ^ w

-- `memcpy(buf, s, len); buf[len] = '\0'`
unfoldable pub copy_string : List ℕ → List ℕ → List ℕ
copy_string buf s = set (s ++ drop (length s) buf) (length s) 0

-- The driver's argument, made from the object.
unfoldable pub ap_cfg : WlanIf → SoftapInfo
ap_cfg self = record {
  ssid = take self.ap_ssid_len self.ap_ssid;
  password =
      if self.ap_security == security_open then none else some (take self.ap_key_len self.ap_key);
  channel = self.ap_channel;
  security_type = self.ap_security;
  hidden_ssid = self.ap_hidden;
}

-- A keyword argument of `config`, with what the core's conversion makes of its value: `none` where
-- `mp_obj_str_get_data` or `mp_obj_get_int` raises a TypeError. `essid` is `ssid`, `password` is
-- `key`.
pub data Setting : Type 0 where
  ssid key : Option (List ℕ) → Setting
  channel security : Option ℤ → Setting
  hidden : Bool → Setting
  unexpected : Setting

-- The body of the loop over the keyword arguments.
unfoldable pub apply_setting : WlanIf → Setting → Result (Unit {0}) × WlanIf
unfolding copy_string
apply_setting self (ssid none) = (raise type_error, self)
apply_setting self (ssid (some s)) =
    if leb (length s) essid_max_size
    then (ok tt, record self { ap_ssid = copy_string self.ap_ssid s; ap_ssid_len = length s % 256 })
    else (raise value_error, self)
apply_setting self (key none) = (raise type_error, self)
apply_setting self (key (some s)) =
    if leb (length s) max_psk_len
    then (ok tt, record self { ap_key = copy_string self.ap_key s; ap_key_len = length s % 256 })
    else (raise value_error, self)
apply_setting self (channel none) = (raise type_error, self)
apply_setting self (channel (some n)) = (ok tt, record self { ap_channel = to_unsigned 8 n })
apply_setting self (security none) = (raise type_error, self)
apply_setting self (security (some n)) = (ok tt, record self { ap_security = to_unsigned 32 n })
apply_setting self (hidden b) = (ok tt, record self { ap_hidden = b })
apply_setting self unexpected = (raise type_error, self)

-- The rest of the loop, where the setting did not raise.
abbrev pub and_then :
    Result (Unit {0}) × WlanIf → (WlanIf → Result (Unit {0}) × WlanIf) → Result (Unit {0}) × WlanIf
and_then (ok u, self) rest = rest self
and_then (raise e, self) rest = (raise e, self)

-- The loop: an empty slot of the table is passed over, and an error ends it.
unfoldable pub config_loop : WlanIf → List (Option Setting) → Result (Unit {0}) × WlanIf
config_loop self [] = (ok tt, self)
config_loop self (none ∷ kwargs) = config_loop self kwargs
config_loop self (some s ∷ kwargs) =
    and_then (apply_setting self s) (λ self'. config_loop self' kwargs)

module _ (sdk : WifiSdk) where
  -- The object, with the driver and the network stack.
  abbrev pub Out : Type 0
  Out = Result (Unit {0}) × WlanIf × sdk.Dev

  -- The three calls that take an access point down.
  abbrev pub ap_clear : sdk.Dev → sdk.Dev
  ap_clear d = sdk.stop_ap (sdk.clear_ap_ip (sdk.dhcps_deinit d))

  -- The end of `wlan_ap_start`, on the result of `wifi_start_ap`.
  abbrev pub ap_started : WlanIf → Bool × sdk.Dev → Out
  ap_started self (false, d) = (raise (os_error eio), self, d)
  ap_started self (true, d) = (ok tt, self, sdk.dhcps_start (sdk.dhcps_init (sdk.alloc_ap_ip d)))

  -- `wlan_ap_start`
  unfoldable pub ap_start : WlanIf → sdk.Dev → Out
  unfolding ap_cfg
  ap_start self d = ap_started self (sdk.start_ap (ap_cfg self) (ap_clear d))

  -- `wlan_active` with an argument, for the access point
  unfoldable pub ap_active : WlanIf → sdk.Dev → Bool → Out
  ap_active self d true =
      let self' = record self { ap_active_requested = true } in
      if self.ap_ssid_len == 0 then (ok tt, self', d) else ap_start self' d
  ap_active self d false =
      (ok tt, record self { ap_active_requested = false; ap_ssid_len = 0 }, ap_clear d)

  -- `wlan_active` with an argument: for the station it sets the flag only.
  unfoldable pub active : WlanIf → sdk.Dev → Bool → Out
  active self d b =
      if is_sta self.if_id then (ok tt, record self { sta_active = b }, d) else ap_active self d b

  -- `wlan_active` without one
  abbrev pub is_active : WlanIf → sdk.Dev → Bool
  is_active self d = if is_sta self.if_id then self.sta_active else sdk.is_running d

  -- The end of `wlan_config`, after the loop.
  abbrev pub config_start : sdk.Dev → Result (Unit {0}) × WlanIf → Out
  config_start d (raise e, self) = (raise e, self, d)
  config_start d (ok _, self) =
      if self.ap_active_requested && (not (self.ap_ssid_len == 0) && not (sdk.is_running d))
      then ap_start self d
      else (ok tt, self, d)

  -- `wlan_config` with keyword arguments
  unfoldable pub config : WlanIf → sdk.Dev → List (Option Setting) → Out
  config self d kwargs =
      if is_sta self.if_id
      then (raise type_error, self, d)
      else config_start d (config_loop self kwargs)

  -- The setter of `wlan_ifconfig`: the array must have four items; the first three, as
  -- `netutils_parse_ipv4_addr` reads them (`none` where it raises), are used.
  unfoldable pub ifconfig_set : WlanIf → sdk.Dev → List (Option ℕ) → Out
  ifconfig_set self d (some ip ∷ some netmask ∷ some gw ∷ dns ∷ []) =
      if is_sta self.if_id
      then (
        ok tt,
        self,
        sdk.set_sta_ip (sdk.htonl ip) (sdk.htonl netmask) (sdk.htonl gw)
            (sdk.use_static_ip (some (sdk.htonl ip, sdk.htonl netmask, sdk.htonl gw)) d),
      )
      else (
        ok tt,
        self,
        sdk.dhcps_start (
            sdk.dhcps_init (
              sdk.set_ap_ip (sdk.htonl ip) (sdk.htonl netmask) (sdk.htonl gw)
                (sdk.dhcps_deinit d))),
      )
  ifconfig_set self d items = (raise value_error, self, d)

-- `wlan_config` without keyword arguments, for the access point: the names of the settings that it
-- knows; for the station they are read of the driver.
pub data Query : Type 0 where
  query_ssid query_channel query_security : Query

pub data Answer : Type 0 where
  text : List ℕ → Answer
  number : ℕ → Answer

unfoldable pub config_get : WlanIf → Query → Answer
config_get self query_ssid = text (take self.ap_ssid_len self.ap_ssid)
config_get self query_channel = number self.ap_channel
config_get self query_security = number self.ap_security
