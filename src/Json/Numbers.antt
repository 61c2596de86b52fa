-- ===== src/Json/Numbers.antt =====
-- What JavaScript makes of a value as a number (`Number(value)`), and how such a number compares with a
-- natural number. Numbers are exact: they are not rounded to doubles.
use Prim.Native.Char.{code}
use Prim.Native.Nat.{◌%◌}
use auth_broker_tee.Base.{
  ℕ, zero, suc, ◌+◌, ◌-◌, ◌*◌, ◌/◌, String, Bool, true, false, Option, none, some, ◌||◌, not, ltb,
  leb, ◌==◌, str_eq, if◌then◌else◌,
}
use auth_broker_tee.Json.{Json, undefined, null, bool, num}
use auth_broker_tee.Patterns.{in_range, trim}
use auth_broker_tee.Json.Texts.{text_of}

-- A number, as far as comparisons with natural numbers need it: a natural number, one strictly between
-- a natural number and the next, a negative one, infinity, or none at all.
pub data Number : Type 0 where
  not_a_number negative infinite : Number
  natural_number between : ℕ → Number

unfoldable pub digit_value : ℕ → Option ℕ
unfolding in_range
digit_value n = if in_range b'0' b'9' n then some (n - b'0') else none

unfoldable pub hex_value : ℕ → Option ℕ
unfolding in_range digit_value
hex_value n =
    if in_range b'a' b'f' n
    then some (n - b'a' + 10)
    else if in_range b'A' b'F' n
    then some (n - b'A' + 10)
    else digit_value n

-- Digits below a base after a value: how many there are, the value with them, and what follows.
unfoldable pub read_digits : (ℕ → Option ℕ) → ℕ → ℕ → ℕ → String → ℕ × ℕ × String
read_digits value base count n String.[] = (count, n, String.[])
read_digits value base count n (String.◌∷◌ c s) = elim (value (code c)) [
  | none ↦ (count, n, String.◌∷◌ c s)
  | some d ↦
      if ltb d base
      then read_digits value base (count + 1) (n * base + d) s
      else (count, n, String.◌∷◌ c s)
]

unfoldable pub power : ℕ → ℕ
power zero = 1
power (suc k) = 10 * power k

-- n * 10 ** up / 10 ** down
unfoldable pub scaled : ℕ → ℕ → ℕ → Number
unfolding power
scaled n up down =
    let product = n * power up in
    let divisor = power down in
    if product % divisor == 0
    then natural_number (product / divisor)
    else between (product / divisor)

-- The digits of an exponent, which end the text.
unfoldable pub with_exponent : Bool → ℕ → ℕ → ℕ × ℕ × String → Number
unfolding scaled
with_exponent is_negative n places (count, e, rest) =
    if not (str_eq rest "") || (count == 0)
    then not_a_number
    else if is_negative
    then scaled n 0 (places + e)
    else scaled n e places

-- What may follow the digits, the number of which after the point is known.
unfoldable pub exponent : ℕ → ℕ → String → Number
unfolding scaled with_exponent read_digits digit_value
exponent n places String.[] = scaled n 0 places
exponent n places (String.◌∷◌ c String.[]) = not_a_number
exponent n places (String.◌∷◌ c (String.◌∷◌ d s)) =
    if not ((code c == b'e') || (code c == b'E'))
    then not_a_number
    else if code d == b'-'
    then with_exponent true n places (read_digits digit_value 10 0 0 s)
    else if code d == b'+'
    then with_exponent false n places (read_digits digit_value 10 0 0 s)
    else with_exponent false n places (read_digits digit_value 10 0 0 (String.◌∷◌ d s))

unfoldable pub after_fraction : ℕ → ℕ × ℕ × String → Number
unfolding exponent
after_fraction whole (count, n, rest) =
    if whole + count == 0 then not_a_number else exponent n count rest

unfoldable pub after_whole : ℕ × ℕ × String → Number
unfolding exponent after_fraction read_digits digit_value
after_whole (count, n, String.[]) = after_fraction count (0, n, String.[])
after_whole (count, n, String.◌∷◌ c s) =
    if code c == b'.'
    then after_fraction count (read_digits digit_value 10 0 n s)
    else after_fraction count (0, n, String.◌∷◌ c s)

-- A decimal without its sign.
unfoldable pub unsigned : String → Number
unfolding after_whole read_digits digit_value
unsigned s =
    if str_eq s "Infinity" then infinite else after_whole (read_digits digit_value 10 0 0 s)

unfoldable pub negated : Number → Number
negated not_a_number = not_a_number
negated (natural_number zero) = natural_number 0
negated _ = negative

unfoldable pub whole_text : ℕ × ℕ × String → Number
whole_text (count, n, rest) =
    if (count == 0) || not (str_eq rest "") then not_a_number else natural_number n

-- `0x`, `0o` and `0b` before digits of their base.
unfoldable pub prefixed : ℕ → String → String → Number
unfolding unsigned whole_text read_digits hex_value
prefixed x digits s =
    if (x == b'x') || (x == b'X')
    then whole_text (read_digits hex_value 16 0 0 digits)
    else if (x == b'o') || (x == b'O')
    then whole_text (read_digits hex_value 8 0 0 digits)
    else if (x == b'b') || (x == b'B')
    then whole_text (read_digits hex_value 2 0 0 digits)
    else unsigned s

-- `Number(text)`, without white space around it.
unfoldable pub trimmed_number : String → Number
unfolding unsigned negated prefixed
trimmed_number String.[] = natural_number 0
trimmed_number (String.◌∷◌ c String.[]) = unsigned (String.◌∷◌ c String.[])
trimmed_number (String.◌∷◌ c (String.◌∷◌ d s)) =
    if code c == b'-'
    then negated (unsigned (String.◌∷◌ d s))
    else if code c == b'+'
    then unsigned (String.◌∷◌ d s)
    else if code c == b'0'
    then prefixed (code d) s (String.◌∷◌ c (String.◌∷◌ d s))
    else unsigned (String.◌∷◌ c (String.◌∷◌ d s))

-- `Number(value)`
unfoldable pub number_of : Json → Number
unfolding trimmed_number trim text_of
number_of undefined = not_a_number
number_of null = natural_number 0
number_of (bool true) = natural_number 1
number_of (bool false) = natural_number 0
number_of (num n) = natural_number n
number_of v = trimmed_number (trim (text_of v))

-- `number < n`
unfoldable pub less_than : Number → ℕ → Bool
less_than (natural_number m) n = ltb m n
less_than (between m) n = ltb m n
less_than negative n = true
less_than not_a_number n = false
less_than infinite n = false

-- `number > n`
unfoldable pub greater_than : Number → ℕ → Bool
greater_than (natural_number m) n = ltb n m
greater_than (between m) n = leb n m
greater_than infinite n = true
greater_than negative n = false
greater_than not_a_number n = false
