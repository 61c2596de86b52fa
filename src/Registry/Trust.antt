-- ===== src/Registry/Trust.antt =====
-- src/route-registry.js: the trust anchors, read from a file or made of an admission.
use auth_broker_tee.Base.{
  String, List, [], ◌∷◌, ◌||◌, not, insert, map, Result, ok, err, ◌>>=◌, ◌>>◌, guard,
}
use auth_broker_tee.Json.{
  Json, Items, nil, cons, Fields, end, field, str, arr, obj, object, items, of_items, get, same,
  is_object,
}
use auth_broker_tee.Patterns.{is_uuid, includes}
use auth_broker_tee.Certificates.Admission.{items_include, text_is, is_positive, nonempty_text}
use auth_broker_tee.Registry.{Anchors, route_trust_anchors_schema, assert_exact_keys}

-- `assertSupportedRouteAlgorithm`
unfoldable pub assert_supported_route_algorithm : Json → Result (Unit {0})
assert_supported_route_algorithm alg =
    guard (same alg (str "Ed25519") || same alg (str "ECDSA_P256_SHA256"))
      "route signature alg must be Ed25519 or ECDSA_P256_SHA256"

-- The loop over the keys of a tenant, with the key ids seen so far.
unfoldable pub check_signing_keys : Items → Items → Result (Unit {0})
check_signing_keys nil seen = ok tt
check_signing_keys (cons key rest) seen = do
  assert_exact_keys key ("alg" ∷ "keyId" ∷ "publicKeyPem" ∷ [])
  assert_supported_route_algorithm (get "alg" key)
  guard (nonempty_text (get "keyId" key)) "route signing key needs keyId"
  guard (not (items_include seen (get "keyId" key))) "duplicate route signing key"
  guard (text_is (λ s. includes s "BEGIN PUBLIC KEY") (get "publicKeyPem" key))
      "route signing key must include a public key PEM"
  check_signing_keys rest (cons (get "keyId" key) seen)

unfoldable pub check_key_array : Json → Result (Unit {0})
check_key_array (arr (cons x xs)) = check_signing_keys (cons x xs) nil
check_key_array _ = err "routeSigningKeys must be a non-empty array"

-- One round of the loop over the tenants.
unfoldable pub check_tenant : String → Json → Result (Unit {0})
check_tenant tenant body = do
  guard (is_uuid tenant) "invalid tenant id in route trust anchors"
  assert_exact_keys body ("minRouteVersion" ∷ "routeSigningKeys" ∷ [])
  guard (is_positive (get "minRouteVersion" body)) "minRouteVersion must be a positive integer"
  check_key_array (get "routeSigningKeys" body)

unfoldable pub check_tenants : Fields → List (String × Json) → Result (List (String × Json))
check_tenants end tenants = ok tenants
check_tenants (field tenant body rest) tenants =
    check_tenant tenant body >> check_tenants rest (insert tenant body tenants)

-- An object that is no array.
unfoldable pub tenants_object : Json → Result Fields
tenants_object (obj fs) = ok fs
tenants_object _ = err "route trust anchors tenants must be an object"

-- `validateTrustAnchors`
unfoldable pub validate_trust_anchors : Json → Result Anchors
validate_trust_anchors value = do
  guard (is_object value) "route trust anchors must be an object"
  assert_exact_keys value ("schema" ∷ "tenants" ∷ [])
  guard (same (get "schema" value) (str route_trust_anchors_schema))
      "route trust anchors schema mismatch"
  entries ← tenants_object (get "tenants" value)
  tenants ← check_tenants entries []
  ok (record { raw = value; tenants = tenants })

unfoldable pub anchor_key : Json → Json
anchor_key key = object (
    ("alg", get "alg" key)
    ∷ ("keyId", get "keyId" key)
    ∷ ("publicKeyPem", get "publicKeyPem" key)
    ∷ [])

-- `tenantRouteSigningKeys.map(...)`
unfoldable pub anchor_keys : Json → Result Json
anchor_keys (arr keys) = ok (arr (items (map anchor_key (of_items keys))))
anchor_keys _ = err "tenantRouteSigningKeys.map is not a function"

-- The key of an object literal. No other value than a text names a tenant.
unfoldable pub tenant_name : Json → Result String
tenant_name (str tenant) = ok tenant
tenant_name _ = err "invalid tenant id in route trust anchors"

-- `routeTrustAnchorsFromAdmission`
unfoldable pub route_trust_anchors_from_admission : Json → Result Json
route_trust_anchors_from_admission admission = do
  keys ← anchor_keys (get "tenantRouteSigningKeys" admission)
  tenant ← tenant_name (get "tenant" admission)
  ok (
      object (
        ("schema", str route_trust_anchors_schema)
        ∷ (
          "tenants",
          object (
              (
                tenant,
                object (
                    ("minRouteVersion", get "minRouteVersion" admission)
                    ∷ ("routeSigningKeys", keys)
                    ∷ []),
              )
              ∷ []),
        )
        ∷ []))
