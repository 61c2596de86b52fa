-- ===== src/Tests/Numbers.antt =====
-- Texts and numbers as JavaScript prints and reads them.
use auth_broker_tee.Base.{true, false, ◌≡◌, refl}
use auth_broker_tee.Json.{null, bool, num, other_number, str, arr, nil, cons, object}
use auth_broker_tee.Json.Texts.{iso_text, text_of}
use auth_broker_tee.Json.Numbers.{
  not_a_number, negative, infinite, natural_number, between, number_of,
}
use auth_broker_tee.Attestation.{is_past}

prints_instant : iso_text 1700000000123 ≡ "2023-11-14T22:13:20.123Z"
unfolding iso_text
prints_instant = refl

prints_leap_day : iso_text 951782400000 ≡ "2000-02-29T00:00:00.000Z"
unfolding iso_text
prints_leap_day = refl

prints_array : text_of (arr (cons (num 1042) (cons null (cons (bool true) nil)))) ≡ "1042,,true"
unfolding text_of auth_broker_tee.Json.Texts.is_nullish auth_broker_tee.Json.Texts.decimal
prints_array = refl

reads_integer : number_of (str " 1700 ") ≡ natural_number 1700
unfolding number_of
reads_integer = refl

reads_fraction : number_of (str "17.25e1") ≡ between 172
unfolding number_of
reads_fraction = refl

reads_exponent : number_of (str "1.7e3") ≡ natural_number 1700
unfolding number_of
reads_exponent = refl

reads_small : number_of (other_number "1.5e-7") ≡ between 0
unfolding number_of
reads_small = refl

reads_hexadecimal : number_of (str "0xfF") ≡ natural_number 255
unfolding number_of
reads_hexadecimal = refl

reads_negative : number_of (other_number "-1.5") ≡ negative
unfolding number_of
reads_negative = refl

reads_infinity : number_of (str "+Infinity") ≡ infinite
unfolding number_of
reads_infinity = refl

reads_array : number_of (arr (cons (num 7) nil)) ≡ natural_number 7
unfolding number_of auth_broker_tee.Json.Texts.is_nullish auth_broker_tee.Json.Texts.decimal
reads_array = refl

reads_nothing : number_of (str "1x") ≡ not_a_number
unfolding number_of
reads_nothing = refl

expired_text : is_past (str "999.5") 1000000 ≡ true
unfolding is_past
expired_text = refl

expired_negative : is_past (other_number "-1") 1000000 ≡ true
unfolding is_past
expired_negative = refl

not_expired : is_past (other_number "1000.5") 1000000 ≡ false
unfolding is_past
not_expired = refl
