-- ===== src/Registry/Vouched.antt =====
-- src/route-registry.js: a route whose document was checked, with the state in which it was.
use auth_broker_tee.Base.{
  or_throw-ok, ℕ, true, Option, some, ◌≡◌, subst, Result, ok, ok-injective, >>=-eq-ok, guard-ok,
  or_throw,
}
use auth_broker_tee.Json.{Json, str, get, same, is_object}
use auth_broker_tee.Crypto.{Crypto}
use auth_broker_tee.Registry.{Anchors, VerifiedRoute, route_document_schema, assert_exact_keys}
use auth_broker_tee.Registry.Payload.{Url}
use auth_broker_tee.Registry.Trust.{validate_trust_anchors, route_trust_anchors_from_admission}
use auth_broker_tee.Registry.Signed.{
  verify_signed_route_envelope, check_route_document, enforce_admission_route_policy,
  with_admission,
}
use auth_broker_tee.Registry.Build.{Admissions, record_accepted, verifier_at}
use auth_broker_tee.Registry.Verified.{IsAnchored, verify_signed_route_envelope-IsAnchored}

-- Where a route comes from.
-- The states of the recorder that the build reaches from `s` on.
pub data Recorded {ℓ} {S : Type ℓ} (c : Crypto) (parse_url : Json → Option Url)
    (admissions : Admissions S) (s : S) : S → Type ℓ where
  unchanged : {s' : S} → s ≡ s' → Recorded c parse_url admissions s s'
  recorded :
      {s' s'' : S} (route : VerifiedRoute)
      → Recorded c parse_url admissions s s'
      → record_accepted c parse_url admissions route s' ≡ s''
      → Recorded c parse_url admissions s s''

module _ {ℓ} {S : Type ℓ} (c : Crypto) (parse_url : Json → Option Url) (now : ℕ)
    (admissions : Admissions S) (start : S) where
  -- The route was admitted by the verifier, in a state that the build reaches, and is signed under what was admitted.
  pub record IsAdmitted (route : VerifiedRoute) : Type ℓ where
    pub state : S
    pub reached : Recorded c parse_url admissions start state
    pub verify : Json → Result Json
    pub verifier : verifier_at c parse_url admissions now state ≡ some verify
    pub envelope : Json
    pub admission : Json
    pub verified : verify envelope ≡ ok admission
    pub raw : Json
    pub made : route_trust_anchors_from_admission admission ≡ ok raw
    pub anchors : Anchors
    pub valid : validate_trust_anchors raw ≡ ok anchors
    pub anchored : IsAnchored c parse_url now anchors route
    pub same_tenant : same (get "tenant" route.payload) (get "tenant" admission) ≡ true
    pub in_policy : enforce_admission_route_policy admission route.payload ≡ ok tt

  -- The checks of a document, where they return.
  pub check_route_document-IsAdmitted :
      (s : S) (document : Json) {a : Json} {verified : VerifiedRoute}
      → Recorded c parse_url admissions start s
      → check_route_document c parse_url (verifier_at c parse_url admissions now s) document now
        ≡ ok (a, verified)
      → IsAdmitted (with_admission c parse_url document a verified)
  unfolding check_route_document with_admission
  check_route_document-IsAdmitted s document {a} {verified} reached h =
      let (verify, v, r) = >>=-eq-ok (or_throw (verifier_at c parse_url admissions now s) _) _ h in
      let (o, r1) = guard-ok (is_object document) _ _ r in
      let (u, k, r2) = >>=-eq-ok (assert_exact_keys document _) _ r1 in
      let (d, r3) = guard-ok (same (get "schema" document) (str route_document_schema)) _ _ r2 in
      let (admission, admitted, r4) = >>=-eq-ok (verify (get "admissionEnvelope" document)) _ r3 in
      let (raw, made, r5) = >>=-eq-ok (route_trust_anchors_from_admission admission) _ r4 in
      let (anchors, valid, r6) = >>=-eq-ok (validate_trust_anchors raw) _ r5 in
      let (route, checked, r7) =
        >>=-eq-ok
          (verify_signed_route_envelope c parse_url anchors (get "routeEnvelope" document) now) _
          r6 in
      let (tenant, r8) =
        guard-ok (same (get "tenant" route.payload) (get "tenant" admission)) _ _ r7 in
      let (u1, policy, r9) =
        >>=-eq-ok (enforce_admission_route_policy admission route.payload) _ r8 in
      let e : (admission, route) ≡ (a, verified) = ok-injective r9 in
      let anchored =
        verify_signed_route_envelope-IsAnchored c parse_url now anchors
          (get "routeEnvelope" document) checked in
      subst (λ p. IsAdmitted (with_admission c parse_url document p.0 p.1)) e
        (record {
          state = s;
          reached = reached;
          verify = verify;
          verifier = or_throw-ok (verifier_at c parse_url admissions now s) _ v;
          envelope = get "admissionEnvelope" document;
          admission = admission;
          verified = admitted;
          raw = raw;
          made = made;
          anchors = anchors;
          valid = valid;
          anchored = record {
            anchor = anchored.anchor;
            anchored = anchored.anchored;
            key = anchored.key;
            keyed = anchored.keyed;
            signed = anchored.signed;
            digested = anchored.digested;
            canonical = anchored.canonical;
            current = anchored.current;
          };
          same_tenant = tenant;
          in_policy = policy;
        })
