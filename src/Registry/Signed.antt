-- ===== src/Registry/Signed.antt =====
-- src/route-registry.js: a signed route envelope, and a route document with its admission. The
-- verifier of admissions and the recorder of accepted routes, which server.js sets, work on a state
-- of their own; here each is an argument.
use auth_broker_tee.Base.{
  ℕ, Bool, Option, none, some, [], ◌∷◌, ◌&&◌, ◌||◌, lookup, Result, ok, ◌>>=◌, ◌>>◌, guard,
  or_throw, if◌then◌else◌,
}
use auth_broker_tee.Json.{Json, Items, nil, cons, str, arr, get, same, is_object}
use auth_broker_tee.Json.Canonical.{canonicalize}
use auth_broker_tee.Patterns.{is_lower_digest}
use auth_broker_tee.Crypto.{Crypto, digest, signature_holds}
use auth_broker_tee.Certificates.Admission.{array_includes, text_is}
use auth_broker_tee.Registry.{
  Anchors, VerifiedRoute, tenant_api_route_schema, route_document_schema, assert_exact_keys,
}
use auth_broker_tee.Registry.Payload.{Url, validate_route_payload}
use auth_broker_tee.Registry.Trust.{
  assert_supported_route_algorithm, validate_trust_anchors, route_trust_anchors_from_admission,
}

-- `tenants.get(tenant)`
unfoldable pub anchor_of : Anchors → Json → Option Json
anchor_of anchors (str tenant) = lookup tenant anchors.tenants
anchor_of anchors _ = none

-- `routeSigningKeys.find(...)`
unfoldable pub find_key : Items → Json → Option Json
find_key nil signature = none
find_key (cons key rest) signature =
    if same (get "keyId" key) (get "keyId" signature) && same (get "alg" key) (get "alg" signature)
    then some key
    else find_key rest signature

unfoldable pub signing_key : Json → Json → Option Json
signing_key (arr keys) signature = find_key keys signature
signing_key _ signature = none

unfoldable pub all_admitted : Items → Json → Result (Unit {0})
all_admitted nil allowed = ok tt
all_admitted (cons audience rest) allowed =
    guard (array_includes allowed audience)
      "tenant API route audience is not admitted by TEE policy"
    >> all_admitted rest allowed

-- `for (const audience of audiences || [])`, of an array.
unfoldable pub audiences_admitted : Json → Json → Result (Unit {0})
audiences_admitted (arr audiences) allowed = all_admitted audiences allowed
audiences_admitted _ allowed = ok tt

-- `enforceAdmissionRoutePolicy`. The lists of an admission are arrays.
unfoldable pub enforce_admission_route_policy : Json → Json → Result (Unit {0})
enforce_admission_route_policy admission payload =
    if same (get "schema" payload) (str tenant_api_route_schema)
    then (guard (array_includes (get "allowedApiHosts" admission) (get "apiHost" payload))
          "tenant API route apiHost is not admitted by TEE policy"
        >> (guard (array_includes (get "allowedAppHosts" admission) (get "appHost" payload))
              "tenant API route appHost is not admitted by TEE policy"
            >> audiences_admitted (get "allowedBrokerAudiences" payload)
                (get "allowedBrokerAudiences" admission)))
    else ok tt

module _ (c : Crypto) (parse_url : Json → Option Url) where
  -- `verifyRouteSignature`
  unfoldable pub verify_route_signature : Json → Json → Json → Bool
  verify_route_signature payload signature key =
      same (get "alg" signature) (get "alg" key)
      && (same (get "alg" signature) (str "Ed25519")
          || same (get "alg" signature) (str "ECDSA_P256_SHA256"))
      && signature_holds c (get "alg" signature) (get "publicKeyPem" key) payload
          (get "sig" signature)

  -- `verifySignedRouteEnvelope`, with anchors that were validated.
  unfoldable pub verify_signed_route_envelope : Anchors → Json → ℕ → Result VerifiedRoute
  verify_signed_route_envelope anchors envelope now = do
    guard (is_object envelope) "route envelope must be an object"
    assert_exact_keys envelope ("payload" ∷ "payloadDigest" ∷ "signature" ∷ [])
    let payload = get "payload" envelope
    let signature = get "signature" envelope
    guard (is_object payload) "route envelope payload must be an object"
    guard (text_is is_lower_digest (get "payloadDigest" envelope))
        "route envelope payloadDigest must be sha256:<hex>"
    guard (is_object signature) "route envelope signature must be an object"
    assert_exact_keys signature ("alg" ∷ "keyId" ∷ "sig" ∷ [])
    assert_supported_route_algorithm (get "alg" signature)
    guard (same (str (digest c payload)) (get "payloadDigest" envelope))
        "route payloadDigest does not match canonical payload"
    anchor ← or_throw (anchor_of anchors (get "tenant" payload)) "no route trust anchor for tenant"
    key ←
        or_throw (signing_key (get "routeSigningKeys" anchor) signature)
          "no active route signing key"
    guard (verify_route_signature payload signature key) "route signature verification failed"
    validate_route_payload parse_url payload (get "minRouteVersion" anchor) now
    ok (record {
      payload = payload;
      payload_digest = digest c payload;
      signature = signature;
      canonical_payload = canonicalize payload;
      admitted = none;
    })

  -- What `verifyTenantRouteDocument` checks before it records the route.
  unfoldable pub check_route_document :
      Option (Json → Result Json) → Json → ℕ → Result (Json × VerifiedRoute)
  check_route_document verify_admission document now = do
    verify ← or_throw verify_admission "tenant route documents require an admission verifier"
    guard (is_object document) "tenant route document must be an object"
    assert_exact_keys document (
        "admissionEnvelope" ∷ "routeEnvelope" ∷ "schema" ∷ "sourceLegacyCoupleDigest" ∷ "updatedAt"
        ∷ [])
    guard (same (get "schema" document) (str route_document_schema))
        "tenant route document schema mismatch"
    admission ← verify (get "admissionEnvelope" document)
    raw ← route_trust_anchors_from_admission admission
    anchors ← validate_trust_anchors raw
    verified ← verify_signed_route_envelope anchors (get "routeEnvelope" document) now
    guard (same (get "tenant" verified.payload) (get "tenant" admission))
        "route document tenant mismatch between admission and route envelope"
    enforce_admission_route_policy admission verified.payload
    ok (admission, verified)

  unfoldable pub with_admission : Json → Json → VerifiedRoute → VerifiedRoute
  with_admission document admission verified = record verified {
    admitted = some (record {
      admission = admission;
      admission_payload_digest = get "payloadDigest" (get "admissionEnvelope" document);
      route_document_digest = digest c document;
    });
  }
