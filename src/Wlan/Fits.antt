-- ===== src/Wlan/Fits.antt =====
-- What the settings of `config` of network_wlan.c do to the object's arrays.
use ameba_micro_python.Prelude.{
  ℕ, ◌<◌, ◌≤◌, ◌%◌, ◌≡◌, refl, inl, inr, Bool, false, Option, none, some, List, [], ◌∷◌, length,
  get_elem?, leb, arith, Bool-cases, ◌∙◌, sym,
}
use mathlib.Core.Path.{subst}
use ameba_micro_python.Py.{Result, ok, raise}
use ameba_micro_python.Wlan.Strings.{length-copy_string, copy_string-nul}
use ameba_micro_python.Wlan.{
  WlanIf, Setting, ssid, key, channel, security, hidden, unexpected, apply_setting, config_loop,
  and_then, is_sta, copy_string, to_unsigned,
}

-- The object is the access point's, each string is shorter than its array, and the key ends in NUL.
pub record Fits (self : WlanIf) : Type 0 where
  pub is_ap : is_sta self.if_id ≡ false
  pub ssid_room : length self.ap_ssid ≡ 33
  pub ssid_len : self.ap_ssid_len ≤ 32
  pub key_room : length self.ap_key ≡ 129
  pub key_len : self.ap_key_len ≤ 128
  pub key_nul : get_elem? self.ap_key self.ap_key_len ≡ some 0

pub others-Fits :
    (self : WlanIf) (requested : Bool) (channel' security' : ℕ) (hides : Bool)
    → Fits self
    → Fits (record self {
      ap_active_requested = requested;
      ap_channel = channel';
      ap_security = security';
      ap_hidden = hides;
    })
others-Fits self requested channel' security' hides v = record {
  is_ap = v.is_ap;
  ssid_room = v.ssid_room;
  ssid_len = v.ssid_len;
  key_room = v.key_room;
  key_len = v.key_len;
  key_nul = v.key_nul;
}

setting-Fits : (self : WlanIf) (s : Setting) → Fits self → Fits (apply_setting self s).1
unfolding apply_setting
setting-Fits self (ssid none) v = v
setting-Fits self (ssid (some s)) v = elim (Bool-cases (leb (length s) 32)) [
  | inr long ↦ rw long v
  | inl short ↦ rw short (record {
    is_ap = v.is_ap;
    ssid_room = length-copy_string self.ap_ssid s (ground (arith, v.ssid_room)) ∙ v.ssid_room;
    ssid_len = ground arith;
    key_room = v.key_room;
    key_len = v.key_len;
    key_nul = v.key_nul;
  })
]
setting-Fits self (key none) v = v
setting-Fits self (key (some s)) v = elim (Bool-cases (leb (length s) 128)) [
  | inr long ↦ rw long v
  | inl short ↦
      let room : length s < length self.ap_key = ground (arith, v.key_room) in
      let wrapped : length s % 256 ≡ length s = ground arith in
      rw short (record {
        is_ap = v.is_ap;
        ssid_room = v.ssid_room;
        ssid_len = v.ssid_len;
        key_room = length-copy_string self.ap_key s room ∙ v.key_room;
        key_len = ground arith;
        key_nul =
            subst (λ n. get_elem? (copy_string self.ap_key s) n ≡ some 0) (sym wrapped)
              (copy_string-nul self.ap_key s room);
      })
]
setting-Fits self (channel none) v = v
setting-Fits self (channel (some n)) v =
    others-Fits self self.ap_active_requested (to_unsigned 8 n) self.ap_security self.ap_hidden v
setting-Fits self (security none) v = v
setting-Fits self (security (some n)) v =
    others-Fits self self.ap_active_requested self.ap_channel (to_unsigned 32 n) self.ap_hidden v
setting-Fits self (hidden b) v =
    others-Fits self self.ap_active_requested self.ap_channel self.ap_security b v
setting-Fits self unexpected v = v

pub and_then-keeps :
    (P : WlanIf → Type 0) (out : Result (Unit {0}) × WlanIf)
    (rest : WlanIf → Result (Unit {0}) × WlanIf)
    → P out.1
    → ((self' : WlanIf) → P self' → P (rest self').1)
    → P (and_then out rest).1
and_then-keeps P (ok u, self) rest p h = h self p
and_then-keeps P (raise e, self) rest p h = p

-- A property of the object that every setting keeps is kept by the loop.
pub loop-keeps :
    (P : WlanIf → Type 0)
    → ((self : WlanIf) (s : Setting) → P self → P (apply_setting self s).1)
    → (self : WlanIf) (kwargs : List (Option Setting)) → P self
    → P (config_loop self kwargs).1
unfolding config_loop
loop-keeps P h self [] p = p
loop-keeps P h self (none ∷ kwargs) p = loop-keeps P h self kwargs p
loop-keeps P h self (some s ∷ kwargs) p =
    and_then-keeps P (apply_setting self s) (λ self'. config_loop self' kwargs) (h self s p)
      (λ self'. loop-keeps P h self' kwargs)

pub loop-Fits :
    (self : WlanIf) (kwargs : List (Option Setting)) → Fits self → Fits (config_loop self kwargs).1
loop-Fits = loop-keeps Fits setting-Fits

-- No setting asks for the network or takes the request back.
setting-requested :
    (self : WlanIf) (s : Setting)
    → (apply_setting self s).1.ap_active_requested ≡ self.ap_active_requested
unfolding apply_setting
setting-requested self s = ground arith

pub loop-requested :
    (self : WlanIf) (kwargs : List (Option Setting))
    → (config_loop self kwargs).1.ap_active_requested ≡ self.ap_active_requested
loop-requested self kwargs =
    loop-keeps (λ self'. self'.ap_active_requested ≡ self.ap_active_requested)
      (λ self' s e. setting-requested self' s ∙ e) self kwargs refl
