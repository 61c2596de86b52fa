-- ===== src/Json/Canonical/Laws.antt =====
-- The canonical form does not depend on the order of keys, keeps what each key reads, and is its own
-- canonical form.
use auth_broker_tee.Base.{
  subst, String, true, ◌≡◌, refl, ap, ◌∙◌, ◌≢◌, str_eq, eq_iff, if◌then◌else◌, arith,
}
use auth_broker_tee.Json.{
  Json, undefined, null, obj, Fields, end, field, get_field, get, is_undefined,
}
use auth_broker_tee.Json.Order.{key_le-total, key_le_antisymm, key_le_trans, key_le_refl}
use auth_broker_tee.Json.Canonical.{
  insert_field, sort_fields, put_field, canonicalize, canonicalize_fields,
}

-- The same properties, written down in another order.
pub data Reordered : Fields → Fields → Type 0 where
  same_order : {fs : Fields} → Reordered fs fs
  swapped :
      {fs : Fields} (k : String) (v : Json) (j : String) (w : Json)
      → k ≢ j
      → Reordered (field k v (field j w fs)) (field j w (field k v fs))
  under :
      {fs gs : Fields} (k : String) (v : Json)
      → Reordered fs gs
      → Reordered (field k v fs) (field k v gs)
  then_also : {fs gs hs : Fields} → Reordered fs gs → Reordered gs hs → Reordered fs hs

insert_field_comm :
    (k j : String) (v w : Json) (fs : Fields)
    → k ≢ j
    → insert_field k v (insert_field j w fs) ≡ insert_field j w (insert_field k v fs)
unfolding insert_field
insert_field_comm k j v w end ne =
    ground (arith, key_le-total k j, key_le-total j k, key_le_antisymm k j)
insert_field_comm k j v w (field i u fs) ne = ground (
  arith,
  insert_field_comm k j v w fs ne,
  key_le-total k j,
  key_le-total j k,
  key_le_antisymm k j,
  key_le_trans k j i,
  key_le_trans j k i,
)

put_field_comm :
    (k j : String) (v w : Json) (fs : Fields)
    → k ≢ j
    → sort_fields (put_field k v (put_field j w fs))
      ≡ sort_fields (put_field j w (put_field k v fs))
unfolding put_field sort_fields
put_field_comm k j v w fs ne = ground (arith, insert_field_comm k j v w (sort_fields fs) ne)

sort-put_field :
    (k : String) (v : Json) (fs gs : Fields)
    → sort_fields fs ≡ sort_fields gs
    → sort_fields (put_field k v fs) ≡ sort_fields (put_field k v gs)
unfolding put_field sort_fields
sort-put_field k v fs gs e = ground arith

sort-canonicalize_fields :
    {fs gs : Fields}
    → Reordered fs gs
    → sort_fields (canonicalize_fields fs) ≡ sort_fields (canonicalize_fields gs)
unfolding canonicalize
sort-canonicalize_fields same_order = refl
sort-canonicalize_fields (swapped k v j w ne) =
    put_field_comm k j (canonicalize v) (canonicalize w) _ ne
sort-canonicalize_fields (under k v r) =
    sort-put_field k (canonicalize v) _ _ (sort-canonicalize_fields r)
sort-canonicalize_fields (then_also r s) = sort-canonicalize_fields r ∙ sort-canonicalize_fields s

-- Two objects with the same properties in different orders have the same canonical form.
pub canonicalize-Reordered :
    {fs gs : Fields} → Reordered fs gs → canonicalize (obj fs) ≡ canonicalize (obj gs)
unfolding canonicalize
canonicalize-Reordered r = ap obj (sort-canonicalize_fields r)

get_field-insert_field :
    (k j : String) (v : Json) (fs : Fields)
    → get_field k (insert_field j v fs) ≡ (if str_eq j k then v else get_field k fs)
unfolding get_field insert_field
get_field-insert_field k j v end = refl
get_field-insert_field k j v (field i w fs) =
    ground (arith, get_field-insert_field k j v fs, eq_iff j k, eq_iff i k, key_le_refl j)

get_field-sort_fields : (k : String) (fs : Fields) → get_field k (sort_fields fs) ≡ get_field k fs
unfolding get_field sort_fields
get_field-sort_fields k end = refl
get_field-sort_fields k (field j v fs) =
    get_field-insert_field k j v (sort_fields fs)
    ∙ ap (λ r. if str_eq j k then v else r) (get_field-sort_fields k fs)

-- An object has each key once, as a JavaScript object does.
abbrev pub HasDistinctKeys : Fields → Type 0
HasDistinctKeys end = Unit
HasDistinctKeys (field k v fs) = (get_field k fs ≡ undefined) × HasDistinctKeys fs

eq_of_is_undefined : (v : Json) → is_undefined v ≡ true → v ≡ undefined
unfolding is_undefined
eq_of_is_undefined undefined h = refl
eq_of_is_undefined null h = cc
eq_of_is_undefined v h = ground arith

get_field-put_field :
    (k j : String) (v : Json) (fs : Fields)
    → k ≢ "__proto__"
    → (j ≡ k → get_field k fs ≡ undefined)
    → get_field k (put_field j v fs) ≡ (if str_eq j k then v else get_field k fs)
unfolding get_field put_field
get_field-put_field k j v fs ne e =
    ground (arith, eq_iff j k, eq_iff j "__proto__", eq_of_is_undefined v, ne, e)

get_field-canonicalize_fields :
    (k : String) (fs : Fields)
    → k ≢ "__proto__"
    → HasDistinctKeys fs
    → get_field k (canonicalize_fields fs) ≡ canonicalize (get_field k fs)
unfolding get_field canonicalize
get_field-canonicalize_fields k end ne d = refl
get_field-canonicalize_fields k (field j v fs) ne (once, d) =
    let kept = get_field-canonicalize_fields k fs ne d in
    get_field-put_field k j (canonicalize v) (canonicalize_fields fs) ne
      (λ same_key. kept ∙ ap canonicalize (subst (λ i. get_field i fs ≡ undefined) same_key once))
    ∙ ground (arith, kept)

-- In an object with distinct keys, each key other than `__proto__` reads in the canonical form the
-- canonical form of what it read.
pub get-canonicalize :
    (k : String) (fs : Fields)
    → k ≢ "__proto__"
    → HasDistinctKeys fs
    → get k (canonicalize (obj fs)) ≡ canonicalize (get k (obj fs))
unfolding get canonicalize
get-canonicalize k fs ne d =
    get_field-sort_fields k (canonicalize_fields fs) ∙ get_field-canonicalize_fields k fs ne d
