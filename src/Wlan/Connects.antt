-- ===== src/Wlan/Connects.antt =====
-- How `connect` of network_wlan.c ends.
use ameba_micro_python.Prelude.{
  ℕ, ◌≤◌, ◌≡◌, ◌≢◌, ◌⊎◌, inl, inr, refl, ap, ◌<◌, Bool, true, false, Option, none, some, List,
  length, leb, arith, ◌∙◌, Bool-cases, leb→le,
}
use mathlib.Core.Path.{subst}
use ameba_micro_python.Py.{
  os_error, value_error, Errno, enonet, einval, eacces, etimedout, Result, ok, raise,
}
use ameba_micro_python.Wlan.Sdk.{
  WifiSdk, IsStation, NetworkInfo, ConnectResult, connected, scan_fail, invalid_key,
  auth_password_wrong, password_4way_wrong, handshake_4way_fail, other_failure,
}
use ameba_micro_python.Wlan.Station.{
  ConnectArgs, fits, is_bssid, network_info, connect_errno, requested, joined_or, connect,
}
use ameba_micro_python.Wlan.{WlanIf, is_sta}

-- What `wifi_connect` is asked to join: the arrays of its argument hold the name, the key and the
-- address of the station.
pub record Joins (a : ConnectArgs) (c : NetworkInfo) : Type 0 where
  pub ssid : (c.ssid ≡ a.ssid) × (length c.ssid ≤ 32)
  pub password : (k : List ℕ) → c.password ≡ some k → length k ≤ 128
  pub bssid : (b : List ℕ) → c.bssid ≡ some b → length b ≡ 6
  pub same : (c.password ≡ a.key) × (c.bssid ≡ a.bssid) × (c.security_type ≡ a.security)

fits-length :
    (n : ℕ) (o : Option (List ℕ)) (s : List ℕ) → fits n o ≡ true → o ≡ some s → length s ≤ n
fits-length n none s h e = cc
fits-length n (some t) s h e = subst (λ o. size_of o ≤ n) e (leb→le (length t) n h)
  where
    size_of : Option (List ℕ) → ℕ
    size_of none = 0
    size_of (some l) = length l

is_bssid-length : (o : Option (List ℕ)) (s : List ℕ) → is_bssid o ≡ true → o ≡ some s → length s ≡ 6
is_bssid-length none s h e = cc
is_bssid-length (some t) s h e = subst (λ o. size_of o ≡ 6) e (ground (arith, h))
  where
    size_of : Option (List ℕ) → ℕ
    size_of none = 0
    size_of (some l) = length l

-- A name or a key that is too long, or an address of another length than 6.
abbrev pub Bad : ConnectArgs → Type 0
Bad a =
    (32 < length a.ssid)
    ⊎ (((k : List ℕ) × (a.key ≡ some k) × (128 < length k))
        ⊎ ((b : List ℕ) × (a.bssid ≡ some b) × (length b ≢ 6)))

misfit :
    (n : ℕ) (o : Option (List ℕ)) → fits n o ≡ false → (s : List ℕ) × (o ≡ some s) × (n < length s)
misfit n none e = absurd (cc)
misfit n (some s) e = (s, refl, ground arith)

not_bssid :
    (o : Option (List ℕ)) → is_bssid o ≡ false → (s : List ℕ) × (o ≡ some s) × (length s ≢ 6)
not_bssid none e = absurd (cc)
not_bssid (some s) e = (s, refl, ground arith)

network_info-Joins :
    (a : ConnectArgs)
    → (Bad a × (network_info a ≡ none))
      ⊎ ((c : NetworkInfo) × (network_info a ≡ some c) × Joins a c)
unfolding network_info
network_info-Joins a = elim (Bool-cases (leb (length a.ssid) 32)) [
  | inr long ↦ inl (inl (ground arith), rw long refl)
  | inl short ↦ elim (Bool-cases (fits 128 a.key)) [
    | inr long ↦ inl (inr (inl (misfit 128 a.key long)), rw (short, long) refl)
    | inl fit ↦ elim (Bool-cases (is_bssid a.bssid)) [
      | inr bad ↦ inl (inr (inr (not_bssid a.bssid bad)), rw (short, fit, bad) refl)
      | inl six ↦
          let c : NetworkInfo = record {
            ssid = a.ssid;
            password = a.key;
            security_type = a.security;
            bssid = a.bssid;
          } in
          inr (
            c,
            rw (short, fit, six) refl,
            record {
              ssid = (refl, leb→le (length a.ssid) 32 short);
              password = λ k e. fits-length 128 a.key k fit e;
              bssid = λ b e. is_bssid-length a.bssid b six e;
              same = (refl, refl, refl);
            },
          )
    ]
  ]
]

-- The errors of the driver's failures.
pub data Refused : ConnectResult → Errno → Type 0 where
  not_found : Refused scan_fail enonet
  bad_key : Refused invalid_key einval
  wrong_auth : Refused auth_password_wrong eacces
  wrong_4way : Refused password_4way_wrong eacces
  failed_handshake : Refused handshake_4way_fail eacces
  failed : (n : ℕ) → Refused (other_failure n) etimedout

-- How a `connect` that passes its checks ends, after the driver was asked for the network `c`: joined, with
-- the address that was requested then; off the network and without an address, where the request fails; or
-- as the failing `wifi_connect` left the device.
abbrev pub Ended : (sdk : WifiSdk) → NetworkInfo → sdk.Dev → Result (Unit {0}) × sdk.Dev → Type 0
Ended sdk c d (r, d') =
    ((d1 : sdk.Dev) × (sdk.connect c d ≡ (connected, d1))
      × (((sdk.request_ip d1 ≡ (true, d'))
            × (r ≡ ok tt)
            × (sdk.joined d' ≡ true)
            × (sdk.has_ip d' ≡ true))
          ⊎ (((sdk.request_ip d1).0 ≡ false)
              × (r ≡ raise (os_error enonet))
              × (sdk.joined d' ≡ false)
              × (sdk.has_ip d' ≡ false))))
    ⊎ ((e : ConnectResult) × (x : Errno) × Refused e x
        × (sdk.connect c d ≡ (e, d'))
        × (r ≡ raise (os_error x)))

module _ (sdk : WifiSdk) (law : IsStation sdk) where
  requested-Ended :
      (c : NetworkInfo) (d d1 : sdk.Dev) (out : Bool × sdk.Dev)
      → sdk.connect c d ≡ (connected, d1)
      → sdk.request_ip d1 ≡ out
      → Ended sdk c d (requested sdk out)
  requested-Ended c d d1 (true, d2) j e =
      let (ip, same) = law.request_ok d1 d2 e in
      inl (d1, j, inl (e, refl, same ∙ law.connect_ok c d d1 j, ip))
  requested-Ended c d d1 (false, d2) j e = inl (
    d1,
    j,
    inr (
      ap (λ o. o.0) e,
      refl,
      law.clear_joined (sdk.disconnect d2) ∙ law.disconnect_off d2,
      law.clear_off (sdk.disconnect d2),
    ),
  )

  joined_or-Ended :
      (c : NetworkInfo) (d : sdk.Dev) (out : ConnectResult × sdk.Dev)
      → sdk.connect c d ≡ out
      → Ended sdk c d (joined_or sdk out)
  unfolding connect_errno
  joined_or-Ended c d (connected, d1) e = requested-Ended c d d1 (sdk.request_ip d1) e refl
  joined_or-Ended c d (scan_fail, d1) e = inr (scan_fail, enonet, not_found, e, refl)
  joined_or-Ended c d (invalid_key, d1) e = inr (invalid_key, einval, bad_key, e, refl)
  joined_or-Ended c d (auth_password_wrong, d1) e =
      inr (auth_password_wrong, eacces, wrong_auth, e, refl)
  joined_or-Ended c d (password_4way_wrong, d1) e =
      inr (password_4way_wrong, eacces, wrong_4way, e, refl)
  joined_or-Ended c d (handshake_4way_fail, d1) e =
      inr (handshake_4way_fail, eacces, failed_handshake, e, refl)
  joined_or-Ended c d (other_failure n, d1) e = inr (other_failure n, etimedout, failed n, e, refl)

  -- `connect` of the station either has a name over 32 bytes, a key over 128, or an address that is not
  -- of 6 bytes, raises ValueError and does nothing; or it asks the driver for exactly the network of its
  -- arguments. It then returns where the driver joins that network and an address is assigned; raises
  -- ENONET, off the network and without an address, where none is assigned; and where the driver fails,
  -- raises ENONET, EINVAL, EACCES or ETIMEDOUT by the kind of the failure.
  pub connect-cases :
      (self : WlanIf) (d : sdk.Dev) (a : ConnectArgs)
      → is_sta self.if_id ≡ true
      → (Bad a × (connect sdk self d a ≡ (raise value_error, d)))
        ⊎ ((c : NetworkInfo) × Joins a c × Ended sdk c d (connect sdk self d a))
  unfolding connect
  connect-cases self d a s = rw s (elim (network_info-Joins a) [
    | inl (why, bad) ↦ rw bad (inl (why, refl))
    | inr (c, e, j) ↦ rw e (inr (c, j, joined_or-Ended c d (sdk.connect c d) refl))
  ])
