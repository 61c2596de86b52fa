-- ===== src/Certificates/Admission.antt =====
-- src/governance-certificates.js: tenant admissions and the match of a preapproval with a candidate.
use text.Mathlib.Text.{starts_with}
use auth_broker_tee.Base.{
  ℕ, ◌+◌, String, Bool, true, false, List, [], ◌∷◌, ◌&&◌, ◌||◌, not, leb, Result, ok, err, ◌>>=◌,
  ◌>>◌, guard, if◌then◌else◌,
}
use auth_broker_tee.Json.{
  Json, undefined, null, str, num, time, arr, Items, nil, cons, object, get, truthy, same,
  is_object, is_string,
}
use auth_broker_tee.Patterns.{is_digest, is_uuid, includes}
use auth_broker_tee.Crypto.{Crypto, KeyMaterial, sign_governance_payload}
use auth_broker_tee.Certificates.{
  preapproval_schema, tenant_admission_schema, require_digest, assert_certificate_fresh,
}

abbrev pub broker_audience : String
broker_audience = "https://oauth-tee.femled.ai"

-- `if (value && preapprovalPayload[key] !== value) throw`, for each of the keys.
unfoldable pub assert_each_matches : List String → Json → Json → Result (Unit {0})
assert_each_matches [] payload candidate = ok tt
assert_each_matches (k ∷ ks) payload candidate =
    guard (not (truthy (get k candidate)) || same (get k payload) (get k candidate))
      "preapproval mismatch"
    >> assert_each_matches ks payload candidate

abbrev pub matched_keys : List String
matched_keys =
    "candidateImageDigest" ∷ "candidateSourceTreeDigest" ∷ "candidateFilesystemDigest"
    ∷ "candidateSourceStructureDigest" ∷ "candidateModelProbeDigest"
    ∷ "candidateModelCatalogEvidenceDigest" ∷ "candidateModelPolicyDiffDigest" ∷ []

unfoldable pub assert_preapproval_matches_candidate : Json → Json → Result (Unit {0})
assert_preapproval_matches_candidate payload candidate = do
  guard (same (get "schema" payload) (str preapproval_schema)) "expected preapproval certificate"
  assert_each_matches matched_keys payload candidate

-- A text that is not empty.
unfoldable pub nonempty_text : Json → Bool
nonempty_text v = is_string v && truthy v

unfoldable pub all_nonempty : Items → Bool
all_nonempty nil = true
all_nonempty (cons x xs) = nonempty_text x && all_nonempty xs

unfoldable pub is_nonempty_string_array : Json → Bool
is_nonempty_string_array (arr (cons x xs)) = all_nonempty (cons x xs)
is_nonempty_string_array _ = false

-- `array.includes(text)`
unfoldable pub items_include : Items → Json → Bool
items_include nil t = false
items_include (cons x xs) t = same x t || items_include xs t

unfoldable pub array_includes : Json → Json → Bool
array_includes (arr xs) t = items_include xs t
array_includes _ t = false

unfoldable pub text_is : (String → Bool) → Json → Bool
text_is p (str s) = p s
text_is p _ = false

unfoldable pub is_positive : Json → Bool
is_positive (num n) = leb 1 n
is_positive _ = false

-- The loop over `tenantRouteSigningKeys`, with the key ids seen so far.
unfoldable pub assert_route_keys : Items → Items → Result (Unit {0})
assert_route_keys nil seen = ok tt
assert_route_keys (cons key rest) seen = do
  guard (is_object key) "tenant route signing key must be an object"
  guard (same (get "alg" key) (str "Ed25519") || same (get "alg" key) (str "ECDSA_P256_SHA256"))
      "tenant route signing key alg must be Ed25519 or ECDSA_P256_SHA256"
  guard (nonempty_text (get "keyId" key)) "tenant route signing key needs keyId"
  guard (not (items_include seen (get "keyId" key))) "duplicate tenant route signing key"
  guard (text_is (λ s. includes s "BEGIN PUBLIC KEY") (get "publicKeyPem" key))
      "tenant route signing key must include publicKeyPem"
  guard (not (truthy (get "fingerprint" key)) || text_is is_digest (get "fingerprint" key))
      "tenant route signing key fingerprint must be sha256:<hex>"
  guard (not (truthy (get "kmsKeyVersion" key)) || is_string (get "kmsKeyVersion" key))
      "tenant route signing key kmsKeyVersion must be a string"
  assert_route_keys rest (cons (get "keyId" key) seen)

unfoldable pub assert_key_array : Json → Result (Unit {0})
assert_key_array (arr (cons x xs)) = assert_route_keys (cons x xs) nil
assert_key_array _ = err "tenant admission tenantRouteSigningKeys must be a non-empty array"

unfoldable pub assert_tenant_admission_input : Json → Result (Unit {0})
assert_tenant_admission_input input = do
  guard (text_is is_uuid (get "tenant" input)) "tenant admission tenant must be a UUID"
  guard (is_positive (get "minRouteVersion" input))
      "tenant admission minRouteVersion must be a positive integer"
  guard (is_nonempty_string_array (get "allowedApiHosts" input)) "allowedApiHosts"
  guard (is_nonempty_string_array (get "allowedAppHosts" input)) "allowedAppHosts"
  guard (is_nonempty_string_array (get "allowedBrokerAudiences" input)) "allowedBrokerAudiences"
  guard (array_includes (get "allowedBrokerAudiences" input) (str broker_audience))
      "tenant admission allowedBrokerAudiences must include the broker"
  assert_key_array (get "tenantRouteSigningKeys" input)

-- `if (value !== null && value !== undefined) requireDigest(value)`
unfoldable pub assert_optional_digest : Json → Result (Unit {0})
assert_optional_digest undefined = ok tt
assert_optional_digest null = ok tt
assert_optional_digest v = require_digest v >>= λ _. ok tt

-- `Number.isFinite(Date.parse(value))`
unfoldable pub is_time : Json → Bool
is_time (time t) = true
is_time _ = false

unfoldable pub assert_tenant_admission_payload : Json → ℕ → Result Json
assert_tenant_admission_payload payload now = do
  guard (same (get "schema" payload) (str tenant_admission_schema))
      "expected tenant admission certificate"
  assert_tenant_admission_input payload
  lineage ← require_digest (get "governanceLineageDigest" payload)
  guard (is_positive (get "governanceEpoch" payload))
      "tenant admission governanceEpoch must be a positive integer"
  guard (text_is (λ s. starts_with s "sha256:") (get "governanceKeyId" payload))
      "tenant admission governanceKeyId must be a sha256 key id"
  assert_optional_digest (get "registrationProofDigest" payload)
  guard (is_time (get "issuedAt" payload)) "tenant admission issuedAt must be an ISO timestamp"
  assert_certificate_fresh payload now
  ok payload

-- `registrationProofDigest ? requireDigest(registrationProofDigest) : null`
unfoldable pub proof_or_null : Json → Result Json
proof_or_null v = if truthy v then require_digest v else ok null

-- `input` holds the tenant, its route keys, its least route version and the allowed hosts and
-- audiences.
unfoldable pub sign_tenant_admission_certificate :
    Crypto → KeyMaterial → ℕ → Json → Json → Json → ℕ → ℕ → Result Json
sign_tenant_admission_certificate c k epoch lineage_digest input registration_proof ttl now = do
  assert_tenant_admission_input input
  lineage ← require_digest lineage_digest
  proof ← proof_or_null registration_proof
  ok (
      sign_governance_payload c
        (object (
          ("schema", str tenant_admission_schema)
          ∷ ("tenant", get "tenant" input)
          ∷ ("tenantRouteSigningKeys", get "tenantRouteSigningKeys" input)
          ∷ ("minRouteVersion", get "minRouteVersion" input)
          ∷ ("allowedApiHosts", get "allowedApiHosts" input)
          ∷ ("allowedAppHosts", get "allowedAppHosts" input)
          ∷ ("allowedBrokerAudiences", get "allowedBrokerAudiences" input)
          ∷ ("governanceEpoch", num epoch)
          ∷ ("governanceKeyId", str k.governance_key_id)
          ∷ ("governanceLineageDigest", lineage)
          ∷ ("registrationProofDigest", proof)
          ∷ ("issuedAt", time now)
          ∷ ("expiresAt", time (now + ttl))
          ∷ []))
        k)
