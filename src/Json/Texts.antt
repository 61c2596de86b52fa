-- ===== src/Json/Texts.antt =====
-- What JavaScript makes of a value as a text (`String(value)`). A natural number from 10 ** 21 on has
-- another text in the source.
use Prim.Native.Nat.{◌%◌}
use Prim.Native.String.{◌++◌ as text_append}
use auth_broker_tee.Base.{
  ℕ, zero, suc, ◌+◌, ◌-◌, ◌*◌, ◌/◌, String, Bool, true, false, ltb, leb, ◌==◌, if◌then◌else◌,
}
use auth_broker_tee.Json.{
  Json, undefined, null, bool, num, other_number, str, time, arr, obj, Items, nil, cons,
}

unfoldable pub is_nullish : Json → Bool
is_nullish undefined = true
is_nullish null = true
is_nullish _ = false

unfoldable pub digit : ℕ → String
digit n =
    if n == 0
    then "0"
    else if n == 1
    then "1"
    else if n == 2
    then "2"
    else if n == 3
    then "3"
    else if n == 4
    then "4"
    else if n == 5
    then "5"
    else if n == 6
    then "6"
    else if n == 7
    then "7"
    else if n == 8
    then "8"
    else "9"

-- The last digits of a number, as many as the first argument says, before a text.
unfoldable pub padded : ℕ → ℕ → String → String
unfolding digit
padded zero n rest = rest
padded (suc places) n rest = padded places (n / 10) (text_append (digit (n % 10)) rest)

-- The text of a number of at most as many digits as the fuel, before a text.
unfoldable pub decimal : ℕ → ℕ → String → String
unfolding digit
decimal zero n rest = rest
decimal (suc fuel) n rest =
    let last = text_append (digit (n % 10)) rest in
    let all = decimal fuel (n / 10) last in if ltb n 10 then last else all

-- The date of a day since 1970-01-01: the days from the first of March of the year 0 on are counted in
-- eras of 400 years.
unfoldable pub date_text : ℕ → String → String
unfolding padded
date_text days rest =
    let z = days + 719468 in
    let era = z / 146097 in
    let day_of_era = z % 146097 in
    let year_of_era =
      (day_of_era + day_of_era / 36524 - day_of_era / 1460 - day_of_era / 146096) / 365 in
    let day_of_year = day_of_era + year_of_era / 100 - (365 * year_of_era + year_of_era / 4) in
    let month_index = (5 * day_of_year + 2) / 153 in
    let day = day_of_year + 1 - (153 * month_index + 2) / 5 in
    let month = if ltb month_index 10 then month_index + 3 else month_index - 9 in
    let year = year_of_era + 400 * era + (if leb month 2 then 1 else 0) in
    let month_and_day =
      text_append "-" (padded 2 month (text_append "-" (padded 2 day (text_append "T" rest)))) in
    if leb year 9999
    then padded 4 year month_and_day
    else text_append "+" (padded 6 year month_and_day)

-- `new Date(milliseconds).toISOString()`
unfoldable pub iso_text : ℕ → String
unfolding date_text padded
iso_text t = date_text (t / 86400000) (
    padded 2 (t / 3600000 % 24) (
      text_append ":" (
        padded 2 (t / 60000 % 60) (
          text_append ":" (padded 2 (t / 1000 % 60) (text_append "." (padded 3 (t % 1000) "Z")))))))

-- `String(value)`
unfoldable mutual
  pub text_of : Json → String
  text_of undefined = "undefined"
  text_of null = "null"
  text_of (bool true) = "true"
  text_of (bool false) = "false"
  text_of (num n) = decimal 21 n ""
  text_of (other_number s) = s
  text_of (str s) = s
  text_of (time t) = iso_text t
  text_of (arr nil) = ""
  text_of (arr (cons x xs)) =
      let first = text_of x in
      let others = joined xs in text_append (if is_nullish x then "" else first) others
  text_of (obj fs) = "[object Object]"

  pub joined : Items → String
  joined nil = ""
  joined (cons x xs) =
      let first = text_of x in
      let others = joined xs in
      text_append "," (text_append (if is_nullish x then "" else first) others)
