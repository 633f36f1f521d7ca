-- ===== src/Wlan/Sdk.antt =====
-- What network_wlan.c calls of the SDK: the Wi-Fi driver (wifi_api.h), lwIP's interfaces
-- (lwip_netconf.h) and the DHCP server (dhcps.h). They are not code of the repository.
use ameba_micro_python.Prelude.{ℕ, ◌≡◌, Bool, true, false, Option, none, some, List}

-- `struct rtw_softap_info`: the password is `NULL` on an open network.
pub record SoftapInfo : Type 0 where
  pub ssid : List ℕ
  pub password : Option (List ℕ)
  pub channel : ℕ
  pub security_type : ℕ
  pub hidden_ssid : Bool

-- `struct rtw_network_info`
pub record NetworkInfo : Type 0 where
  pub ssid : List ℕ
  pub password : Option (List ℕ)
  pub security_type : ℕ
  pub bssid : Option (List ℕ)

-- The results of `wifi_connect`
pub data ConnectResult : Type 0 where
  connected scan_fail invalid_key : ConnectResult
  auth_password_wrong password_4way_wrong handshake_4way_fail : ConnectResult
  other_failure : ℕ → ConnectResult

abbrev pub is_some {ℓ} : {A : Type ℓ} → Option A → Bool
is_some none = false
is_some (some x) = true

-- `Dev` is the state of the driver and the stack, each function the call of that name. Of it one can
-- see the network that the access point sends, whether its DHCP server runs, whether the station has
-- joined a network, and whether it has an address.
pub record WifiSdk : Type 1 where
  pub Dev : Type 0
  pub start_ap : SoftapInfo → Dev → Bool × Dev
  pub stop_ap : Dev → Dev
  pub is_running : Dev → Bool
  pub alloc_ap_ip : Dev → Dev
  pub clear_ap_ip : Dev → Dev
  pub set_ap_ip : ℕ → ℕ → ℕ → Dev → Dev
  pub dhcps_init : Dev → Dev
  pub dhcps_start : Dev → Dev
  pub dhcps_deinit : Dev → Dev
  pub connect : NetworkInfo → Dev → ConnectResult × Dev
  pub disconnect : Dev → Dev
  pub request_ip : Dev → Bool × Dev
  pub clear_sta_ip : Dev → Dev
  pub set_sta_ip : ℕ → ℕ → ℕ → Dev → Dev
  -- the assignments to `user_static_ip`, `none` for `use_static_ip = 0`
  pub use_static_ip : Option (ℕ × ℕ × ℕ) → Dev → Dev
  -- `PP_HTONL`
  pub htonl : ℕ → ℕ
  pub broadcast : Dev → Option SoftapInfo
  pub serving : Dev → Bool
  pub joined : Dev → Bool
  pub has_ip : Dev → Bool

-- A call that leaves the access point and its DHCP server as they are.
abbrev pub KeepsAp : (sdk : WifiSdk) → (sdk.Dev → sdk.Dev) → Type 0
KeepsAp sdk f =
    (d : sdk.Dev) → (sdk.broadcast (f d) ≡ sdk.broadcast d) × (sdk.serving (f d) ≡ sdk.serving d)

-- Of the access point: a network is sent after a start that succeeds, and none after one that fails
-- where none was sent before; the DHCP server runs from its start to its end.
pub record IsAp (sdk : WifiSdk) : Type 0 where
  pub running : (d : sdk.Dev) → sdk.is_running d ≡ is_some (sdk.broadcast d)
  pub start_ok :
      (c : SoftapInfo) (d d' : sdk.Dev)
      → sdk.start_ap c d ≡ (true, d')
      → (sdk.broadcast d' ≡ some c) × (sdk.serving d' ≡ sdk.serving d)
  pub start_fail :
      (c : SoftapInfo) (d d' : sdk.Dev)
      → sdk.start_ap c d ≡ (false, d')
      → (sdk.broadcast d' ≡ sdk.broadcast d) × (sdk.serving d' ≡ sdk.serving d)
  pub stop : (d : sdk.Dev) → sdk.broadcast (sdk.stop_ap d) ≡ none
  pub stop_serving : (d : sdk.Dev) → sdk.serving (sdk.stop_ap d) ≡ sdk.serving d
  pub dhcps_deinit_off : (d : sdk.Dev) → sdk.serving (sdk.dhcps_deinit d) ≡ false
  pub dhcps_deinit_broadcast : (d : sdk.Dev) → sdk.broadcast (sdk.dhcps_deinit d) ≡ sdk.broadcast d
  pub dhcps_start_on : (d : sdk.Dev) → sdk.serving (sdk.dhcps_start d) ≡ true
  pub dhcps_start_broadcast : (d : sdk.Dev) → sdk.broadcast (sdk.dhcps_start d) ≡ sdk.broadcast d
  pub dhcps_init_keeps : KeepsAp sdk sdk.dhcps_init
  pub clear_ap_ip_keeps : KeepsAp sdk sdk.clear_ap_ip
  pub alloc_ap_ip_keeps : KeepsAp sdk sdk.alloc_ap_ip
  pub set_ap_ip_keeps : (ip netmask gw : ℕ) → KeepsAp sdk (sdk.set_ap_ip ip netmask gw)

-- Of the station: it has joined a network after a `connect` that succeeds, and a failing call joins
-- none; an address is there after a request that is answered.
pub record IsStation (sdk : WifiSdk) : Type 0 where
  pub connect_ok :
      (c : NetworkInfo) (d d' : sdk.Dev) → sdk.connect c d ≡ (connected, d') → sdk.joined d' ≡ true
  pub request_ok :
      (d d' : sdk.Dev)
      → sdk.request_ip d ≡ (true, d')
      → (sdk.has_ip d' ≡ true) × (sdk.joined d' ≡ sdk.joined d)
  pub disconnect_off : (d : sdk.Dev) → sdk.joined (sdk.disconnect d) ≡ false
  pub clear_off : (d : sdk.Dev) → sdk.has_ip (sdk.clear_sta_ip d) ≡ false
  pub clear_joined : (d : sdk.Dev) → sdk.joined (sdk.clear_sta_ip d) ≡ sdk.joined d
  pub static_keeps :
      (s : Option (ℕ × ℕ × ℕ)) (d : sdk.Dev)
      → (sdk.joined (sdk.use_static_ip s d) ≡ sdk.joined d)
        × (sdk.has_ip (sdk.use_static_ip s d) ≡ sdk.has_ip d)
