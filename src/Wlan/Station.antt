-- ===== src/Wlan/Station.antt =====
-- ports/ameba-rtos-m/src/network_wlan.c: the station (`connect`, `disconnect`).
use ameba_micro_python.Prelude.{
  ℕ, Bool, true, false, Option, none, some, List, length, leb, ◌==◌, if◌then◌else◌,
}
use ameba_micro_python.Py.{
  os_error, value_error, type_error, Errno, enonet, einval, eacces, etimedout, Result, ok, raise,
}
use ameba_micro_python.Wlan.Sdk.{
  WifiSdk, NetworkInfo, ConnectResult, connected, scan_fail, invalid_key, auth_password_wrong,
  password_4way_wrong, handshake_4way_fail,
}
use ameba_micro_python.Wlan.{WlanIf, is_sta, essid_max_size, max_psk_len}

-- The arguments of `connect`, as bytes; `security` is already a `u32`.
pub record ConnectArgs : Type 0 where
  pub ssid : List ℕ
  pub key : Option (List ℕ)
  pub bssid : Option (List ℕ)
  pub security : ℕ

-- A string, if there is one, of at most `n` bytes, or of 6.
abbrev pub fits : ℕ → Option (List ℕ) → Bool
fits n none = true
fits n (some s) = leb (length s) n

abbrev pub is_bssid : Option (List ℕ) → Bool
is_bssid none = true
is_bssid (some s) = length s == 6

-- `param`, where the three checks pass.
unfoldable pub network_info : ConnectArgs → Option NetworkInfo
network_info a =
    if leb (length a.ssid) essid_max_size
    then (if fits max_psk_len a.key
        then (if is_bssid a.bssid
            then some (record {
              ssid = a.ssid;
              password = a.key;
              security_type = a.security;
              bssid = a.bssid;
            })
            else none)
        else none)
    else none

-- The error of a `wifi_connect` that failed.
unfoldable pub connect_errno : ConnectResult → Errno
connect_errno scan_fail = enonet
connect_errno invalid_key = einval
connect_errno auth_password_wrong = eacces
connect_errno password_4way_wrong = eacces
connect_errno handshake_4way_fail = eacces
connect_errno r = etimedout

module _ (sdk : WifiSdk) where
  -- The end of `wlan_connect`, after `lwip_request_ip`.
  abbrev pub requested : Bool × sdk.Dev → Result (Unit {0}) × sdk.Dev
  requested (true, d) = (ok tt, d)
  requested (false, d) = (raise (os_error enonet), sdk.clear_sta_ip (sdk.disconnect d))

  -- After `wifi_connect`.
  abbrev pub joined_or : ConnectResult × sdk.Dev → Result (Unit {0}) × sdk.Dev
  joined_or (connected, d) = requested (sdk.request_ip d)
  joined_or (r, d) = (raise (os_error (connect_errno r)), d)

  abbrev pub connect_with : Option NetworkInfo → sdk.Dev → Result (Unit {0}) × sdk.Dev
  connect_with none d = (raise value_error, d)
  connect_with (some c) d = joined_or (sdk.connect c d)

  -- `wlan_connect`
  unfoldable pub connect : WlanIf → sdk.Dev → ConnectArgs → Result (Unit {0}) × sdk.Dev
  connect self d a =
      if is_sta self.if_id then connect_with (network_info a) d else (raise type_error, d)

  -- `wlan_disconnect`
  unfoldable pub disconnect : WlanIf → sdk.Dev → sdk.Dev
  disconnect self d =
      if is_sta self.if_id then sdk.clear_sta_ip (sdk.use_static_ip none (sdk.disconnect d)) else d
