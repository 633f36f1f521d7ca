-- ===== src/Wlan/Strings.antt =====
-- The strings that `config` of network_wlan.c copies into the object's arrays.
use ameba_micro_python.Prelude.{
  ℕ, zero, suc, ◌<◌, ◌≤◌, ◌≡◌, refl, ap, some, List, [], ◌∷◌, ◌++◌, length, take, drop, set,
  get_elem?, length-append, length-drop, length-set, get_elem?-set_self, arith,
}
use ameba_micro_python.Wlan.{copy_string}

take-append : (s ys : List ℕ) → take (length s) (s ++ ys) ≡ s
take-append [] ys = refl
take-append (x ∷ s) ys = ap (λ t. x ∷ t) (take-append s ys)

take-set : (n : ℕ) (xs : List ℕ) (v : ℕ) → take n (set xs n v) ≡ take n xs
take-set zero xs v = refl
take-set (suc n) [] v = refl
take-set (suc n) (x ∷ xs) v = ap (λ t. x ∷ t) (take-set n xs v)

written : (buf s : List ℕ) → length s ≤ length buf → length (s ++ drop (length s) buf) ≡ length buf
written buf s h = omega (arith, length-append s (drop (length s) buf), length-drop (length s) buf)

-- The copy does not write past the array.
pub length-copy_string :
    (buf s : List ℕ) → length s < length buf → length (copy_string buf s) ≡ length buf
unfolding copy_string
length-copy_string buf s h =
    rw (length-set (s ++ drop (length s) buf) (length s) 0) (written buf s (omega arith))

pub copy_string-nul :
    (buf s : List ℕ) → length s < length buf → get_elem? (copy_string buf s) (length s) ≡ some 0
unfolding copy_string
copy_string-nul buf s h =
    get_elem?-set_self (s ++ drop (length s) buf) (length s) 0
      (omega (arith, written buf s (omega arith)))

pub take-copy_string : (buf s : List ℕ) → take (length s) (copy_string buf s) ≡ s
unfolding copy_string
take-copy_string buf s =
    rw (take-set (length s) (s ++ drop (length s) buf) 0) (take-append s (drop (length s) buf))
