-- ===== src/RingBuf/Tests.antt =====
-- A ring buffer that is a queue, for the theorems at concrete inputs.
use ameba_micro_python.Prelude.{
  ℕ, ◌-◌, ◌≡◌, refl, Option, none, some, List, [], ◌∷◌, ◌++◌, length, arith, ltb, if◌then◌else◌,
}
use ameba_micro_python.RingBuf.{RingBuf, IsQueue}

-- A queue of three bytes.
abbrev pub put_3 : List ℕ → ℕ → Option (List ℕ)
put_3 l x = if ltb (length l) 3 then some (l ++ x ∷ []) else none

abbrev pub get_3 : List ℕ → Option (ℕ × List ℕ)
get_3 [] = none
get_3 (x ∷ xs) = some (x, xs)

abbrev pub peek_3 : List ℕ → Option ℕ
peek_3 [] = none
peek_3 (x ∷ xs) = some x

abbrev pub three : RingBuf
three = record {
  Buf = List ℕ;
  contents = λ l. l;
  capacity = 3;
  put = put_3;
  get = get_3;
  peek = peek_3;
  avail = λ l. length l;
  free = λ l. 3 - length l;
}

get_3-some : (l l' : List ℕ) (x : ℕ) → get_3 l ≡ some (x, l') → l ≡ x ∷ l'
get_3-some [] l' x e = cc
get_3-some (y ∷ ys) l' x e = cc

get_3-none : (l : List ℕ) → get_3 l ≡ none → l ≡ []
get_3-none [] e = refl
get_3-none (y ∷ ys) e = cc

peek_3-none : (l : List ℕ) → peek_3 l ≡ none → l ≡ []
peek_3-none [] e = refl
peek_3-none (y ∷ ys) e = cc

peek_3-some : (l : List ℕ) (x : ℕ) → peek_3 l ≡ some x → (t : List ℕ) × (l ≡ x ∷ t)
peek_3-some [] x e = cc
peek_3-some (y ∷ ys) x e = (ys, cc)

pub three-IsQueue : IsQueue three
three-IsQueue = record {
  put_some = λ b b' x e. ground arith;
  put_none = λ b x e. ground arith;
  put_room = λ b b' x e. ground arith;
  get_some = λ b b' x e. get_3-some b b' x e;
  get_none = λ b e. get_3-none b e;
  avail_length = λ b. refl;
  free_rest = λ b. refl;
  peek_none = λ b e. peek_3-none b e;
  peek_some = λ b x e. peek_3-some b x e;
}
