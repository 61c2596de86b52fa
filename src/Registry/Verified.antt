-- ===== src/Registry/Verified.antt =====
-- src/route-registry.js: what a verified route is, and that the registry serves no other.
use auth_broker_tee.Base.{
  ℕ, ◌+◌, ◌≤◌, ◌<◌, true, false, Option, some, ◌≡◌, refl, subst, not, ltb, ok, ok-injective,
  >>=-eq-ok, guard-ok, or_throw, or_throw-ok, arith,
}
use auth_broker_tee.Json.{Json, str, get, same, is_object, date_parse}
use auth_broker_tee.Json.Canonical.{canonicalize}
use auth_broker_tee.Crypto.{Crypto, digest}
use auth_broker_tee.Patterns.{is_uuid}
use auth_broker_tee.Certificates.Admission.{text_is, is_positive}
use auth_broker_tee.Registry.{Anchors, VerifiedRoute, assert_exact_keys}
use auth_broker_tee.Registry.Payload.{
  Url, validate_by_schema, is_below, validate_route_payload, clock_skew_ms,
}
use auth_broker_tee.Registry.Trust.{assert_supported_route_algorithm}
use auth_broker_tee.Registry.Signed.{
  anchor_of, signing_key, verify_route_signature, verify_signed_route_envelope,
}

module _ (c : Crypto) (parse_url : Json → Option Url) (now : ℕ) where
  -- The payload of a route at the time `now`.
  pub record IsCurrent (payload min_route_version : Json) : Type 0 where
    pub of_its_schema : validate_by_schema parse_url payload ≡ ok tt
    pub tenant_is_uuid : text_is is_uuid (get "tenant" payload) ≡ true
    pub versioned : is_positive (get "version" payload) ≡ true
    pub not_below : is_below (get "version" payload) min_route_version ≡ false
    pub issued_at : ℕ
    pub issued : date_parse (get "issuedAt" payload) ≡ some issued_at
    pub not_ahead : issued_at ≤ now + clock_skew_ms
    pub expires_at : ℕ
    pub expires : date_parse (get "expiresAt" payload) ≡ some expires_at
    pub unexpired : now < expires_at

  validate_route_payload-IsCurrent :
      (payload min_route_version : Json)
      → validate_route_payload parse_url payload min_route_version now ≡ ok tt
      → IsCurrent payload min_route_version
  unfolding validate_route_payload
  validate_route_payload-IsCurrent payload min_route_version h =
      let (u, schema, r) = >>=-eq-ok (validate_by_schema parse_url payload) _ h in
      let (uuid, r1) = guard-ok (text_is is_uuid (get "tenant" payload)) _ _ r in
      let (version, r2) = guard-ok (is_positive (get "version" payload)) _ _ r1 in
      let (above, r3) =
        guard-ok (not (is_below (get "version" payload) min_route_version)) _ _ r2 in
      let (issued_at, issued, r4) =
        >>=-eq-ok (or_throw (date_parse (get "issuedAt" payload)) _) _ r3 in
      let (expires_at, expires, r5) =
        >>=-eq-ok (or_throw (date_parse (get "expiresAt" payload)) _) _ r4 in
      let (ahead, r6) = guard-ok (not (ltb (now + clock_skew_ms) issued_at)) _ _ r5 in
      record {
        of_its_schema = schema;
        tenant_is_uuid = uuid;
        versioned = version;
        not_below = ground arith;
        issued_at = issued_at;
        issued = or_throw-ok (date_parse (get "issuedAt" payload)) _ issued;
        not_ahead = ground arith;
        expires_at = expires_at;
        expires = or_throw-ok (date_parse (get "expiresAt" payload)) _ expires;
        unexpired = ground arith;
      }

  -- The route is signed by a key that the anchors hold for its tenant, and current.
  pub record IsAnchored (anchors : Anchors) (route : VerifiedRoute) : Type 0 where
    pub anchor : Json
    pub anchored : anchor_of anchors (get "tenant" route.payload) ≡ some anchor
    pub key : Json
    pub keyed : signing_key (get "routeSigningKeys" anchor) route.signature ≡ some key
    pub signed : verify_route_signature c parse_url route.payload route.signature key ≡ true
    pub digested : route.payload_digest ≡ digest c route.payload
    pub canonical : route.canonical_payload ≡ canonicalize route.payload
    pub current : IsCurrent route.payload (get "minRouteVersion" anchor)

  pub verify_signed_route_envelope-IsAnchored :
      (anchors : Anchors) (envelope : Json) {route : VerifiedRoute}
      → verify_signed_route_envelope c parse_url anchors envelope now ≡ ok route
      → IsAnchored anchors route
  unfolding verify_signed_route_envelope
  verify_signed_route_envelope-IsAnchored anchors envelope h =
      let payload = get "payload" envelope in
      let signature = get "signature" envelope in
      let (a, r) = guard-ok (is_object envelope) _ _ h in
      let (u, b, r1) = >>=-eq-ok (assert_exact_keys envelope _) _ r in
      let (d, r2) = guard-ok (is_object payload) _ _ r1 in
      let (e, r3) = guard-ok (text_is _ (get "payloadDigest" envelope)) _ _ r2 in
      let (f, r4) = guard-ok (is_object signature) _ _ r3 in
      let (u1, g, r5) = >>=-eq-ok (assert_exact_keys signature _) _ r4 in
      let (u2, i, r6) = >>=-eq-ok (assert_supported_route_algorithm (get "alg" signature)) _ r5 in
      let (j, r7) =
        guard-ok (same (str (digest c payload)) (get "payloadDigest" envelope)) _ _ r6 in
      let (anchor, k, r8) =
        >>=-eq-ok (or_throw (anchor_of anchors (get "tenant" payload)) _) _ r7 in
      let (key, l, r9) =
        >>=-eq-ok (or_throw (signing_key (get "routeSigningKeys" anchor) signature) _) _ r8 in
      let (signed, r10) =
        guard-ok (verify_route_signature c parse_url payload signature key) _ _ r9 in
      let (u3, current, r11) =
        >>=-eq-ok (validate_route_payload parse_url payload (get "minRouteVersion" anchor) now) _
          r10 in
      subst (IsAnchored anchors) (ok-injective r11) (record {
        anchor = anchor;
        anchored = or_throw-ok (anchor_of anchors (get "tenant" payload)) _ k;
        key = key;
        keyed = or_throw-ok (signing_key (get "routeSigningKeys" anchor) signature) _ l;
        signed = signed;
        digested = refl;
        canonical = refl;
        current = validate_route_payload-IsCurrent payload (get "minRouteVersion" anchor) current;
      })
