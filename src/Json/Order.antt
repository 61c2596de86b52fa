-- ===== src/Json/Order.antt =====
-- The order of the keys of `canonicalize`'s result. `Object.keys(value).sort()` sorts by code points: for
-- keys without characters beyond U+FFFF this is JavaScript's order by code units. An object then lists
-- the keys that are array indices before the others, from the smallest on.
use Prim.Native.Char.{Char, code}
use text.Mathlib.TextEquality.{Char-path}
use auth_broker_tee.Base.{
  ℕ, suc, String, Bool, true, false, ◌≡◌, refl, ap₂, ltb, leb, ◌==◌, ◌&&◌, ◌||◌, if◌then◌else◌,
  arith,
}

unfoldable pub text_le : String → String → Bool
text_le String.[] t = true
text_le (String.◌∷◌ c s) String.[] = false
text_le (String.◌∷◌ c s) (String.◌∷◌ d t) =
    if ltb (code c) (code d) then true else if code c == code d then text_le s t else false

pub text_le-total : (s t : String) → text_le s t ≡ false → text_le t s ≡ true
unfolding text_le
text_le-total String.[] t h = ground arith
text_le-total (String.◌∷◌ c s) String.[] h = refl
text_le-total (String.◌∷◌ c s) (String.◌∷◌ d t) h = ground (arith, text_le-total s t)

pub text_le_antisymm : (s t : String) → text_le s t ≡ true → text_le t s ≡ true → s ≡ t
unfolding text_le
text_le_antisymm String.[] String.[] h k = refl
text_le_antisymm String.[] (String.◌∷◌ d t) h k = ground arith
text_le_antisymm (String.◌∷◌ c s) String.[] h k = ground arith
text_le_antisymm (String.◌∷◌ c s) (String.◌∷◌ d t) h k =
    ap₂ String.◌∷◌ (Char-path c d (ground arith))
      (text_le_antisymm s t (ground arith) (ground arith))

pub text_le_trans : (s t u : String) → text_le s t ≡ true → text_le t u ≡ true → text_le s u ≡ true
unfolding text_le
text_le_trans String.[] t u h k = refl
text_le_trans (String.◌∷◌ c s) String.[] u h k = ground arith
text_le_trans (String.◌∷◌ c s) (String.◌∷◌ d t) String.[] h k = ground arith
text_le_trans (String.◌∷◌ c s) (String.◌∷◌ d t) (String.◌∷◌ e u) h k =
    ground (arith, text_le_trans s t u)

pub text_le_refl : (s : String) → text_le s s ≡ true
unfolding text_le
text_le_refl String.[] = refl
text_le_refl (String.◌∷◌ c s) = ground (arith, text_le_refl s)

unfoldable pub is_digit : Char → Bool
is_digit c = leb b'0' (code c) && leb (code c) b'9'

unfoldable pub all_digits : String → Bool
unfolding is_digit
all_digits String.[] = true
all_digits (String.◌∷◌ c s) = is_digit c && all_digits s

unfoldable pub is_empty_text : String → Bool
is_empty_text String.[] = true
is_empty_text (String.◌∷◌ c s) = false

unfoldable pub digits : String → ℕ
digits String.[] = 0
digits (String.◌∷◌ c s) = suc (digits s)

-- Numerals by their numbers: by their lengths, and as texts where these are the same.
unfoldable pub numeral_le : String → String → Bool
unfolding digits text_le
numeral_le s t = ltb (digits s) (digits t) || ((digits s == digits t) && text_le s t)

-- A text of digits that is the text of its number.
unfoldable pub is_numeral : String → Bool
unfolding is_digit all_digits is_empty_text
is_numeral String.[] = false
is_numeral (String.◌∷◌ c s) = if code c == b'0' then is_empty_text s else is_digit c && all_digits s

-- An array index: a numeral up to 2 ^ 32 - 2.
unfoldable pub is_index : String → Bool
unfolding is_numeral numeral_le
is_index s = is_numeral s && numeral_le s "4294967294"

-- Indices come first, in one order, and the rest is in another.
unfoldable pub ranked : Bool → Bool → Bool → Bool → Bool
ranked true true numeral text = numeral
ranked true false numeral text = true
ranked false true numeral text = false
ranked false false numeral text = text

-- The order of `Object.keys(out)`, when the keys were put into `out` in the order of texts.
unfoldable pub key_le : String → String → Bool
unfolding ranked is_index numeral_le text_le
key_le s t = ranked (is_index s) (is_index t) (numeral_le s t) (text_le s t)

numeral_le-total : (s t : String) → numeral_le s t ≡ false → numeral_le t s ≡ true
unfolding numeral_le
numeral_le-total s t h = ground (arith, text_le-total s t)

numeral_le_antisymm : (s t : String) → numeral_le s t ≡ true → numeral_le t s ≡ true → s ≡ t
unfolding numeral_le
numeral_le_antisymm s t h k = text_le_antisymm s t (ground arith) (ground arith)

numeral_le_trans :
    (s t u : String) → numeral_le s t ≡ true → numeral_le t u ≡ true → numeral_le s u ≡ true
unfolding numeral_le
numeral_le_trans s t u h k = ground (arith, text_le_trans s t u)

pub key_le-total : (s t : String) → key_le s t ≡ false → key_le t s ≡ true
unfolding key_le
key_le-total s t h = ground (arith, numeral_le-total s t, text_le-total s t)

pub key_le_antisymm : (s t : String) → key_le s t ≡ true → key_le t s ≡ true → s ≡ t
unfolding key_le
key_le_antisymm s t h k = ground (arith, numeral_le_antisymm s t, text_le_antisymm s t)

ranked_trans :
    (a b c : Bool) {n m r t u v : Bool}
    → (n ≡ true → m ≡ true → r ≡ true)
    → (t ≡ true → u ≡ true → v ≡ true)
    → ranked a b n t ≡ true
    → ranked b c m u ≡ true
    → ranked a c r v ≡ true
unfolding ranked
ranked_trans true true true f g h k = f h k
ranked_trans true b false f g h k = refl
ranked_trans true false true f g h k = absurd (ground arith)
ranked_trans false true c f g h k = absurd (ground arith)
ranked_trans false false true f g h k = absurd (ground arith)
ranked_trans false false false f g h k = g h k

pub key_le_trans : (s t u : String) → key_le s t ≡ true → key_le t u ≡ true → key_le s u ≡ true
unfolding key_le
key_le_trans s t u h k =
    ranked_trans (is_index s) (is_index t) (is_index u) (numeral_le_trans s t u)
      (text_le_trans s t u) h k

pub key_le_refl : (s : String) → key_le s s ≡ true
unfolding key_le numeral_le
key_le_refl s = ground (arith, text_le_refl s)
