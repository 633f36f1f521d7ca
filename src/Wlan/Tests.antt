-- ===== src/Wlan/Tests.antt =====
-- A device of its own for the Wi-Fi driver, and the theorems about network_wlan.c at one input each.
use ameba_micro_python.Prelude.{
  ℕ, ◌<◌, ◌≡◌, ◌≢◌, ◌⊎◌, refl, Bool, true, false, Option, none, some, List, [], ◌∷◌, length,
  get_elem?, ◌==◌, arith,
}
use ameba_micro_python.Py.{ok, raise, value_error}
use ameba_micro_python.Wlan.Sdk.{
  WifiSdk, IsAp, IsStation, SoftapInfo, NetworkInfo, connected, is_some,
}
use ameba_micro_python.Wlan.{
  Setting, ssid, key, wlan_ap_obj, wlan_sta_obj, Out, ap_start, active, config, config_loop,
  apply_setting, ap_active,
}
use ameba_micro_python.Wlan.Served.{Serves}
use ameba_micro_python.Wlan.Reach.{
  Reach, at_boot, next, activates, configures, Reach-Serves, Reach-fits,
}
use ameba_micro_python.Wlan.Orders.{request, config-active}
use ameba_micro_python.Wlan.Station.{ConnectArgs, connect}
use ameba_micro_python.Wlan.Connects.{Bad, Joins, Ended, connect-cases}

-- A driver that starts every network but that on channel 0, and joins every network.
record Device : Type 0 where
  network : Option SoftapInfo
  dhcp : Bool
  is_joined : Bool
  address : Bool

abbrev idle : Device
idle = record { network = none; dhcp = false; is_joined = false; address = false }

abbrev start_unless : Bool → SoftapInfo → Device → Bool × Device
start_unless true c d = (false, d)
start_unless false c d = (true, record d { network = some c })

abbrev device_start : SoftapInfo → Device → Bool × Device
device_start c d = start_unless (c.channel == 0) c d

abbrev device : WifiSdk
device = record {
  Dev = Device;
  start_ap = device_start;
  stop_ap = λ d. record d { network = none };
  is_running = λ d. is_some d.network;
  alloc_ap_ip = λ d. d;
  clear_ap_ip = λ d. d;
  set_ap_ip = λ ip netmask gw d. d;
  dhcps_init = λ d. d;
  dhcps_start = λ d. record d { dhcp = true };
  dhcps_deinit = λ d. record d { dhcp = false };
  connect = λ c d. (connected, record d { is_joined = true });
  disconnect = λ d. record d { is_joined = false };
  request_ip = λ d. (true, record d { address = true });
  clear_sta_ip = λ d. record d { address = false };
  set_sta_ip = λ ip netmask gw d. record d { address = true };
  use_static_ip = λ s d. d;
  htonl = λ n. n;
  broadcast = λ d. d.network;
  serving = λ d. d.dhcp;
  joined = λ d. d.is_joined;
  has_ip = λ d. d.address;
}

device-IsAp : IsAp device
device-IsAp = record {
  running = λ d. refl;
  start_ok = λ c d d' e. started c d d' (c.channel == 0) e;
  start_fail = λ c d d' e. failed c d d' (c.channel == 0) e;
  stop = λ d. refl;
  stop_serving = λ d. refl;
  dhcps_deinit_off = λ d. refl;
  dhcps_deinit_broadcast = λ d. refl;
  dhcps_start_on = λ d. refl;
  dhcps_start_broadcast = λ d. refl;
  dhcps_init_keeps = λ d. (refl, refl);
  clear_ap_ip_keeps = λ d. (refl, refl);
  alloc_ap_ip_keeps = λ d. (refl, refl);
  set_ap_ip_keeps = λ ip netmask gw d. (refl, refl);
}
  where
    started :
        (c : SoftapInfo) (d d' : Device) (b : Bool)
        → start_unless b c d ≡ (true, d')
        → (d'.network ≡ some c) × (d'.dhcp ≡ d.dhcp)
    started c d d' true e = cc
    started c d d' false e = (cc, cc)

    failed :
        (c : SoftapInfo) (d d' : Device) (b : Bool)
        → start_unless b c d ≡ (false, d')
        → (d'.network ≡ d.network) × (d'.dhcp ≡ d.dhcp)
    failed c d d' true e = (cc, cc)
    failed c d d' false e = cc

device-IsStation : IsStation device
device-IsStation = record {
  connect_ok = λ c d d' e. cc;
  request_ok = λ d d' e. (cc, cc);
  disconnect_off = λ d. refl;
  clear_off = λ d. refl;
  clear_joined = λ d. refl;
  static_keeps = λ s d. (refl, refl);
}

-- "ab"
abbrev name : List ℕ
name = 97 ∷ 98 ∷ []

abbrev kwargs : List (Option Setting)
kwargs = some (ssid (some name)) ∷ none ∷ some (key (some (49 ∷ []))) ∷ []

abbrev started_out : Out device
started_out = config device (request wlan_ap_obj) idle kwargs

reached : Reach device started_out.1 started_out.2
unfolding active ap_active
reached = next (next (at_boot idle refl) (activates true refl refl)) (configures kwargs refl refl)

Reach-Serves_example : Serves device started_out.1 started_out.2
Reach-Serves_example = Reach-Serves device device-IsAp started_out.1 started_out.2 reached

Reach-fits_example :
    (started_out.1.ap_ssid_len < length started_out.1.ap_ssid)
    × (length started_out.1.ap_ssid ≡ 33)
    × (started_out.1.ap_key_len < length started_out.1.ap_key)
    × (length started_out.1.ap_key ≡ 129)
    × (get_elem? started_out.1.ap_key started_out.1.ap_key_len ≡ some 0)
Reach-fits_example = Reach-fits device device-IsAp started_out.1 started_out.2 reached

-- The settings, on the object at boot.
kwargs-ok : (config_loop wlan_ap_obj kwargs).0 ≡ ok tt
unfolding config_loop apply_setting
kwargs-ok = refl

kwargs-named : (config_loop wlan_ap_obj kwargs).1.ap_ssid_len ≢ 0
unfolding config_loop apply_setting
kwargs-named e = absurd (omega (arith, e))

config-active_example :
    (config device wlan_ap_obj idle kwargs ≡ (ok tt, (config_loop wlan_ap_obj kwargs).1, idle))
    × (active device wlan_ap_obj idle true ≡ (ok tt, request wlan_ap_obj, idle))
    × (active device (config_loop wlan_ap_obj kwargs).1 idle true
        ≡ ap_start device (request (config_loop wlan_ap_obj kwargs).1) idle)
    × (config device (request wlan_ap_obj) idle kwargs
        ≡ ap_start device (request (config_loop wlan_ap_obj kwargs).1) idle)
config-active_example =
    config-active device wlan_ap_obj idle kwargs refl refl refl refl kwargs-ok kwargs-named

abbrev to_join : ConnectArgs
to_join = record { ssid = name; key = none; bssid = none; security = 0 }

connect-cases_example :
    (Bad to_join × (connect device wlan_sta_obj idle to_join ≡ (raise value_error, idle)))
    ⊎ ((c : NetworkInfo) × Joins to_join c
        × Ended device c idle (connect device wlan_sta_obj idle to_join))
connect-cases_example = connect-cases device device-IsStation wlan_sta_obj idle to_join refl
