-- ===== src/Wlan/Scan.antt =====
-- ports/ameba-rtos-m/src/network_wlan.c: `scan` and `status`. What the driver finds is a parameter.
use ameba_micro_python.Prelude.{
  ℕ, suc, ◌+◌, ◌%◌, Bool, Option, none, some, List, [], ◌∷◌, length, replicate, set, map, leb, ◌==◌,
  if◌then◌else◌, ℤ, pos, take, drop, ◌++◌,
}
use ameba_micro_python.Py.{value_error, type_error, Result, ok, raise}
use ameba_micro_python.Wlan.{Interface, sta_if, ap_if, essid_max_size, to_unsigned}

-- `struct rtw_scan_param`: the channel list is a buffer of 14 bytes and the number of them in use.
pub record ScanParam : Type 0 where
  pub ssid : Option (List ℕ)
  pub channel_list : Option (List ℕ)
  pub channel_list_num : ℕ

-- `struct rtw_scan_result`: `val` is the array of the name, longer than `len`.
pub record ScanRecord : Type 0 where
  pub len : ℕ
  pub val : List ℕ
  pub bssid : List ℕ
  pub channel : ℕ
  pub signal_strength : ℤ
  pub security : ℕ
  pub wireless_mode : ℕ

-- One tuple of the result: name, address, channel, strength, security, hidden, mode.
pub record Found : Type 0 where
  pub name : List ℕ
  pub bssid : List ℕ
  pub channel : ℕ
  pub signal_strength : ℤ
  pub security : ℕ
  pub is_hidden : Bool
  pub wireless_mode : ℕ

abbrev pub found : ScanRecord → Found
found r = record {
  name = take r.len (set r.val r.len 0);
  bssid = r.bssid;
  channel = r.channel;
  signal_strength = r.signal_strength;
  security = r.security;
  is_hidden = r.len == 0;
  wireless_mode = r.wireless_mode;
}

-- The loop that fills `ch_buf` from index `i` on; `none` is an item that is not an integer.
unfoldable pub fill_channels : List ℕ → ℕ → List (Option ℤ) → Option (List ℕ)
fill_channels buf i [] = some buf
fill_channels buf i (none ∷ items) = none
fill_channels buf i (some n ∷ items) = fill_channels (set buf i (to_unsigned 8 n)) (i + 1) items

abbrev pub with_channels : Option (List ℕ) → ℕ → Option (List ℕ) → Result ScanParam
with_channels ssid n none = raise type_error
with_channels ssid n (some buf) =
    ok (record { ssid = ssid; channel_list = some buf; channel_list_num = n % 256 })

abbrev pub channels_param : Option (List ℕ) → Option (List (Option ℤ)) → Result ScanParam
channels_param ssid none = ok (record { ssid = ssid; channel_list = none; channel_list_num = 0 })
channels_param ssid (some items) =
    if leb (length items) 14
    then with_channels ssid (length items) (fill_channels (replicate 14 0) 0 items)
    else raise value_error

-- `scan_param` of `wlan_scan`, from its keyword arguments; the name is copied to a buffer of 33 bytes.
unfoldable pub scan_param : Option (List ℕ) → Option (List (Option ℤ)) → Result ScanParam
unfolding fill_channels
scan_param none channels = channels_param none channels
scan_param (some s) channels =
    if leb (length s) essid_max_size
    then channels_param (some (s ++ drop (length s) (replicate 33 0))) channels
    else raise value_error

-- The list of the result: empty where the scan fails or finds nothing (`ap_count <= 0`), and where the
-- records cannot be read (`none`); at most as many records as were counted come back.
abbrev pub scan_list : ℤ → Option (List ScanRecord) → List Found
scan_list (pos (suc n)) (some records) = map found records
scan_list ap_count records = []

-- `wlan_scan`: `scan_networks` is the driver's count, and `get_records` what it gives for that count.
unfoldable pub scan :
    (ScanParam → ℤ)
    → (ℤ → Option (List ScanRecord))
    → Option (List ℕ)
    → Option (List (Option ℤ))
    → Result (List Found)
scan scan_networks get_records ssid channels = elim (scan_param ssid channels) [
  | ok param ↦ let ap_count = scan_networks param in ok (scan_list ap_count (get_records ap_count))
  | raise e ↦ raise e
]

-- What `status` reads of the driver about one associated client.
pub record Client : Type 0 where
  pub mac : List ℕ
  -- `dhcps_search_client_ip`, 0 where there is none
  pub ip4 : ℕ
  pub data_rssi : ℤ

pub record Station : Type 0 where
  pub mac : List ℕ
  pub ip : List ℕ
  pub rssi : ℤ

-- One dictionary of the list: the address is that of the access point with its last byte replaced,
-- or 0.0.0.0 where either is not known (`lwip_get_ip` gave NULL).
unfoldable pub station_ip : Option (List ℕ) → ℕ → List ℕ
station_ip (some (a ∷ b ∷ c ∷ rest)) (suc n) = a ∷ b ∷ c ∷ suc n ∷ []
station_ip ap_ip ip4 = 0 ∷ 0 ∷ 0 ∷ 0 ∷ []

unfoldable pub station : Option (List ℕ) → Client → Station
unfolding station_ip
station ap_ip c = record { mac = c.mac; ip = station_ip ap_ip c.ip4; rssi = c.data_rssi }

-- The names that `status` knows.
pub data StatusParam : Type 0 where
  rssi data_rssi snr stations unknown : StatusParam

-- `struct rtw_phy_stats`, the part of the station.
pub record PhyStats : Type 0 where
  pub sta_rssi : ℤ
  pub sta_data_rssi : ℤ
  pub sta_snr : ℤ

pub data Status : Type 0 where
  number : ℤ → Status
  clients : List Station → Status

-- `wlan_status` with a name
unfoldable pub status_of :
    Interface → StatusParam → PhyStats → List Client → Option (List ℕ) → Result Status
status_of sta_if rssi stats list ap_ip = ok (number stats.sta_rssi)
status_of sta_if data_rssi stats list ap_ip = ok (number stats.sta_data_rssi)
status_of sta_if snr stats list ap_ip = ok (number stats.sta_snr)
status_of ap_if stations stats list ap_ip = ok (clients (map (station ap_ip) list))
status_of id param stats list ap_ip = raise value_error

-- `wlan_status` without one
unfoldable pub status : Interface → ℕ → List Client → Status
status sta_if join_status list = number (pos join_status)
status ap_if join_status list = number (pos (length list))
