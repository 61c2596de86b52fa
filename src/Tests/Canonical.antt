-- ===== src/Tests/Canonical.antt =====
-- src/canonical-json.js on one object.
use mathlib.Core.Bool.{false≢true}
use auth_broker_tee.Base.{◌≡◌, refl, ◌≢◌, ap, ◌∙◌, str_eq, eq_refl, String}
use auth_broker_tee.Json.{undefined, null, num, obj, Fields, end, field, get}
use auth_broker_tee.Json.Canonical.{canonicalize, sort_fields, insert_field, put_field}
use auth_broker_tee.Json.Order.{key_le}
use auth_broker_tee.Json.Canonical.Laws.{swapped, canonicalize-Reordered, get-canonicalize}

abbrev left : Fields
left = field "b" (num 1) (field "a" undefined end)

abbrev right : Fields
right = field "a" undefined (field "b" (num 1) end)

b≢a : ◌≢◌ {A = String} "b" "a"
b≢a e = false≢true ((ap (λ s. str_eq "a" s) e) ∙ eq_refl "a")

b≢proto : ◌≢◌ {A = String} "b" "__proto__"
b≢proto e = false≢true ((ap (λ s. str_eq "__proto__" s) e) ∙ eq_refl "__proto__")

-- Indices stand before the other keys, and `__proto__` is lost.
orders :
    canonicalize (
      obj (field "b" (num 1) (field "10" (num 2) (field "9" (num 3) (field "__proto__" null end)))))
    ≡ obj (field "9" (num 3) (field "10" (num 2) (field "b" (num 1) end)))
unfolding canonicalize sort_fields insert_field put_field key_le
orders = refl

canonicalize-Reordered_example : canonicalize (obj left) ≡ canonicalize (obj right)
canonicalize-Reordered_example = canonicalize-Reordered (swapped "b" (num 1) "a" undefined b≢a)

get-canonicalize_example : get "b" (canonicalize (obj left)) ≡ canonicalize (get "b" (obj left))
unfolding get
get-canonicalize_example = get-canonicalize "b" left b≢proto (refl, (refl, tt))
