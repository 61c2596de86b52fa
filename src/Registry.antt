-- ===== src/Registry.antt =====
-- src/route-registry.js: the state of the route registry, and what all its checks use. The texts of
-- routes, envelopes and anchors are values that were parsed from JSON.
pub mod Payload
pub mod Trust
pub mod Signed
pub mod Build
pub mod Verified
pub mod Kept
pub mod Vouched
pub mod Served
pub mod Answers
pub mod Counted
pub mod Governed
use auth_broker_tee.Base.{
  ℕ, String, Bool, true, false, Option, none, some, List, [], ◌∷◌, ◌&&◌, ◌||◌, if◌then◌else◌,
  str_eq, Result, guard, ◌>>◌, ok,
}
use auth_broker_tee.Json.{Json, obj, str, Fields, end, field, get, same}
use auth_broker_tee.Json.Order.{key_le}

abbrev pub route_trust_anchors_schema : String
route_trust_anchors_schema = "femled.auth_broker.route_trust_anchors.v1"

abbrev pub route_bundle_schema : String
route_bundle_schema = "femled.auth_broker.route_bundle.v1"

abbrev pub route_document_schema : String
route_document_schema = "femled.auth_broker.route_document.v1"

abbrev pub tenant_api_route_schema : String
tenant_api_route_schema = "femled.auth_broker.tenant_api_route.v1"

abbrev pub deploy_webhook_route_schema : String
deploy_webhook_route_schema = "femled.auth_broker.deploy_webhook_route.v1"

abbrev pub rejected_route_document_schema : String
rejected_route_document_schema = "femled.auth_broker.rejected_route_document.v1"

-- `Object.keys(value || {})`. What is no object has no keys here; those of an array or a text are
-- its indices, which are never the keys that are asked for.
unfoldable pub field_keys : Fields → List String
field_keys end = []
field_keys (field k v fs) = k ∷ field_keys fs

unfoldable pub object_keys : Json → List String
unfolding field_keys
object_keys (obj fs) = field_keys fs
object_keys _ = []

-- `keys.sort()`
unfoldable pub insert_key : String → List String → List String
insert_key k [] = k ∷ []
insert_key k (j ∷ js) = if key_le k j then k ∷ j ∷ js else j ∷ insert_key k js

unfoldable pub sort_keys : List String → List String
unfolding insert_key
sort_keys [] = []
sort_keys (k ∷ ks) = insert_key k (sort_keys ks)

-- Lists of one length with the same texts.
unfoldable pub equal_keys : List String → List String → Bool
equal_keys [] [] = true
equal_keys (k ∷ ks) (j ∷ js) = str_eq k j && equal_keys ks js
equal_keys _ _ = false

-- `assertExactKeys`
unfoldable pub assert_exact_keys : Json → List String → Result (Unit {0})
unfolding object_keys sort_keys equal_keys
assert_exact_keys value keys =
    guard (equal_keys (sort_keys (object_keys value)) (sort_keys keys)) "keys must be exactly"

-- What a route document adds to its route.
pub record Admitted : Type 0 where
  pub admission : Json
  pub admission_payload_digest : Json
  pub route_document_digest : String

-- A verified route. The canonical payload stands for its text.
pub record VerifiedRoute : Type 0 where
  pub payload : Json
  pub payload_digest : String
  pub signature : Json
  pub canonical_payload : Json
  pub admitted : Option Admitted

-- A `Map` of routes whose keys are values: by `===`.
unfoldable pub route_at : Json → List (Json × VerifiedRoute) → Option VerifiedRoute
route_at key [] = none
route_at key (entry ∷ rest) = if same entry.0 key then some entry.1 else route_at key rest

unfoldable pub set_route :
    Json → VerifiedRoute → List (Json × VerifiedRoute) → List (Json × VerifiedRoute)
set_route key route [] = (key, route) ∷ []
set_route key route (entry ∷ rest) =
    if same entry.0 key then (key, route) ∷ rest else entry ∷ set_route key route rest

-- The two maps and the list that are filled while the registry is built.
pub record Tables : Type 0 where
  pub tenant_api_routes : List (Json × VerifiedRoute)
  pub deploy_webhook_routes : List (Json × VerifiedRoute)
  pub route_summaries : List Json

pub record Anchors : Type 0 where
  pub raw : Json
  pub tenants : List (String × Json)

pub record Registry : Type 0 where
  pub initialized_at : Json
  pub trust_anchors : Anchors
  pub trust_anchors_digest : String
  pub bundle_digest : String
  pub route_document_count : ℕ
  pub route_document_digest : String
  pub tables : Tables

-- `getTenantApiRoute`
unfoldable pub get_tenant_api_route : Registry → Json → Option VerifiedRoute
get_tenant_api_route r tenant = route_at tenant r.tables.tenant_api_routes

-- `getDeployWebhookRouteForRepo`
unfoldable pub get_deploy_webhook_route_for_repo : Registry → Json → Option VerifiedRoute
get_deploy_webhook_route_for_repo r repo_name = route_at repo_name r.tables.deploy_webhook_routes
