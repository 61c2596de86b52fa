-- ===== src/Json/Canonical.antt =====
-- src/canonical-json.js: `canonicalize`, the value whose JSON text is hashed and signed.
pub mod Laws
use auth_broker_tee.Base.{String, ◌||◌, str_eq, if◌then◌else◌}
use auth_broker_tee.Json.{
  Json, undefined, null, bool, num, other_number, str, time, arr, obj, Items, nil, cons, Fields,
  end, field, is_undefined,
}
use auth_broker_tee.Json.Order.{key_le}

-- A property is put before the first one whose key is not smaller.
unfoldable pub insert_field : String → Json → Fields → Fields
insert_field k v end = field k v end
insert_field k v (field j w fs) =
    if key_le k j then field k v (field j w fs) else field j w (insert_field k v fs)

-- The properties in the order in which `out` lists them.
unfoldable pub sort_fields : Fields → Fields
unfolding insert_field
sort_fields end = end
sort_fields (field k v fs) = insert_field k v (sort_fields fs)

-- `if (item !== undefined) out[key] = ...`; an assignment to `__proto__` makes no property.
unfoldable pub put_field : String → Json → Fields → Fields
unfolding is_undefined
put_field k v fs = if is_undefined v || str_eq k "__proto__" then fs else field k v fs

unfoldable mutual
  pub canonicalize : Json → Json
  canonicalize (arr xs) = arr (canonicalize_items xs)
  canonicalize (obj fs) = obj (sort_fields (canonicalize_fields fs))
  canonicalize undefined = undefined
  canonicalize null = null
  canonicalize (bool b) = bool b
  canonicalize (num n) = num n
  canonicalize (other_number s) = other_number s
  canonicalize (str s) = str s
  canonicalize (time t) = time t

  pub canonicalize_items : Items → Items
  canonicalize_items nil = nil
  canonicalize_items (cons x xs) = cons (canonicalize x) (canonicalize_items xs)

  pub canonicalize_fields : Fields → Fields
  canonicalize_fields end = end
  canonicalize_fields (field k v fs) = put_field k (canonicalize v) (canonicalize_fields fs)
