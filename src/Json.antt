-- ===== src/Json.antt =====
-- The values that the broker reads and signs (JSON, with `undefined` for a property that is not
-- there), and what the code asks of one. A string in the form that `Date.prototype.toISOString`
-- prints is written `time`, by the instant that it names in milliseconds; `str` is any other text,
-- which `Date.parse` does not read. A number that is no natural number is `other_number`, by its
-- literal.
pub mod Order
pub mod Canonical
pub mod Texts
pub mod Numbers
use auth_broker_tee.Base.{
  ℕ, String, Bool, true, false, Option, none, some, List, [], ◌∷◌, ◌++◌, ◌≡◌, refl, ap, ◌==◌,
  str_eq, eq_iff, ◌&&◌, arith, if◌then◌else◌, not,
}

mutual
  pub data Json : Type 0 where
    undefined null : Json
    bool : Bool → Json
    num : ℕ → Json
    other_number : String → Json
    str : String → Json
    time : ℕ → Json
    arr : Items → Json
    obj : Fields → Json

  pub data Items : Type 0 where
    nil : Items
    cons : Json → Items → Items

  pub data Fields : Type 0 where
    end : Fields
    field : String → Json → Fields → Fields

unfoldable pub get_field : String → Fields → Json
get_field k end = undefined
get_field k (field j v fs) = if str_eq j k then v else get_field k fs

-- `value?.key`: `undefined` where the value is no object.
unfoldable pub get : String → Json → Json
unfolding get_field
get k (obj fs) = get_field k fs
get k _ = undefined

-- Whether a test of the value passes: `if (value)`.
unfoldable pub truthy : Json → Bool
truthy undefined = false
truthy null = false
truthy (bool b) = b
truthy (num n) = not (n == 0)
truthy (other_number s) = not (str_eq s "NaN")
truthy (str s) = not (str_eq s "")
truthy _ = true

-- `a === b`. Two objects that were parsed apart are never the same object.
unfoldable pub same : Json → Json → Bool
same undefined undefined = true
same null null = true
same (bool true) (bool b) = b
same (bool false) (bool b) = not b
same (num m) (num n) = m == n
same (other_number s) (other_number t) = str_eq s t
same (str s) (str t) = str_eq s t
same (time m) (time n) = m == n
same _ _ = false

-- `value === undefined`
unfoldable pub is_undefined : Json → Bool
is_undefined undefined = true
is_undefined _ = false

-- `typeof value === "object"` beside a test that the value is not falsy.
unfoldable pub is_object : Json → Bool
is_object (obj _) = true
is_object (arr _) = true
is_object _ = false

unfoldable pub is_string : Json → Bool
is_string (str _) = true
is_string (time _) = true
is_string _ = false

-- `Date.parse(value)`: `none` is NaN.
unfoldable pub date_parse : Json → Option ℕ
date_parse (time t) = some t
date_parse _ = none

-- `Number.isInteger(value) && value >= 0`
unfoldable pub natural : Json → Option ℕ
natural (num n) = some n
natural _ = none

unfoldable pub items : List Json → Items
items [] = nil
items (x ∷ xs) = cons x (items xs)

unfoldable pub of_items : Items → List Json
of_items nil = []
of_items (cons x xs) = x ∷ of_items xs

pub of_items-items : (xs : List Json) → of_items (items xs) ≡ xs
unfolding items of_items
of_items-items [] = refl
of_items-items (x ∷ xs) = ap (◌∷◌ x) (of_items-items xs)

-- An object literal.
unfoldable pub fields : List (String × Json) → Fields
fields [] = end
fields ((k, v) ∷ r) = field k v (fields r)

abbrev pub object : List (String × Json) → Json
object l = obj (fields l)

-- `value || null`
unfoldable pub or_null : Json → Json
unfolding truthy
or_null v = if truthy v then v else null

-- Whether two values have one text: the texts of canonical values are equal just where the values are.
unfoldable mutual
  pub equal : Json → Json → Bool
  equal (arr xs) (arr ys) = equal_items xs ys
  equal (obj fs) (obj gs) = equal_fields fs gs
  equal v w = same v w

  pub equal_items : Items → Items → Bool
  equal_items nil nil = true
  equal_items (cons x xs) (cons y ys) = equal x y && equal_items xs ys
  equal_items _ _ = false

  pub equal_fields : Fields → Fields → Bool
  equal_fields end end = true
  equal_fields (field k v fs) (field j w gs) = str_eq k j && equal v w && equal_fields fs gs
  equal_fields _ _ = false

-- What is the same as a text is that text.
pub same-str : (v : Json) (t : String) → same v (str t) ≡ true → v ≡ str t
unfolding same
same-str (str s) t h = ap str ((eq_iff s t).0 h)
same-str undefined t h = ground arith
same-str null t h = ground arith
same-str (bool b) t h = ground arith
same-str (num n) t h = ground arith
same-str (other_number s) t h = ground arith
same-str (time s) t h = ground arith
same-str (arr s) t h = ground arith
same-str (obj s) t h = ground arith
