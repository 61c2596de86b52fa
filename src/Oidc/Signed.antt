-- ===== src/Oidc/Signed.antt =====
-- src/github-oidc.js: what holds of a token that was verified.
use auth_broker_tee.Base.{
  ℕ, true, String, some, not, List, ◌∷◌, ◌++◌, [], ◌≡◌, refl, ap, subst, Result, ok, err,
  ok-injective, >>=-eq-ok, guard-ok, or_throw-ok, if-cases, inl, inr,
}
use auth_broker_tee.Json.{
  Json, undefined, null, bool, num, other_number, str, time, arr, obj, Items, nil, cons, get, same,
  of_items, truthy,
}
use auth_broker_tee.Oidc.{Expected, Cache, Response, extract_bearer, fetch_jwks}
use auth_broker_tee.Json.Texts.{is_nullish}
use auth_broker_tee.Oidc.Claims.{validate_claims}
use auth_broker_tee.Oidc.Token.{
  Platform, Token, decode_jwt_parts, find_jwk, find_in, check_signature, decoded, admitted_payload,
  verify_decoded, verify_github_actions_oidc,
}
use auth_broker_tee.Oidc.Allowed.{IsAllowed, validate_claims_iff}

-- A key of the set with the id.
pub record IsKeyOf (jwks : Json) (kid : Json) (key : Json) : Type 0 where
  pub keys : Items
  pub before : List Json
  pub after : List Json
  pub listed : get "keys" jwks ≡ arr keys
  pub held : of_items keys ≡ before ++ key ∷ after
  pub named : same (get "kid" key) kid ≡ true

-- A token that the request bears and that one of the keys signed, and its claims.
pub record IsSigned (platform : Platform) (auth_header : Json) (jwks : Json) (payload : Json)
    : Type 0 where
  pub jwt : String
  pub token : Token
  pub key : Json
  pub borne : extract_bearer auth_header ≡ some jwt
  pub read : decode_jwt_parts platform jwt ≡ ok token
  pub carried : token.payload ≡ payload
  pub alg : same (get "alg" token.header) (str "RS256") ≡ true
  pub key_of : IsKeyOf jwks (get "kid" token.header) key
  pub verified : platform.verify key token.signed_data token.signature ≡ ok true

find_jwk-found :
    (kid : Json) (keys : Items) {key : Json}
    → find_jwk kid keys ≡ ok key
    → (before : List Json) × (after : List Json) × (of_items keys ≡ before ++ key ∷ after)
      × (same (get "kid" key) kid ≡ true)
unfolding find_jwk of_items
find_jwk-found kid nil h = cc
find_jwk-found kid (cons k ks) h = elim (if-cases (is_nullish k) _ _ h) [
  | inl e ↦ cc
  | inr e ↦ elim (if-cases (same (get "kid" k) kid) _ _ e.1) [
    | inl f ↦
        subst
          (λ x.
            (before : List Json) × (after : List Json) × (k ∷ of_items ks ≡ before ++ x ∷ after)
            × (same (get "kid" x) kid ≡ true))
          (ok-injective f.1) ([], of_items ks, refl, f.0)
    | inr f ↦
        let (before, after, held, named) = find_jwk-found kid ks f.1 in
        (k ∷ before, after, ap (◌∷◌ k) held, named)
  ]
]

find_in-IsKeyOf :
    (kid : Json) (jwks found : Json) {key : Json}
    → get "keys" jwks ≡ found
    → find_in kid found ≡ ok key
    → IsKeyOf jwks kid key
unfolding find_in
find_in-IsKeyOf kid jwks (arr keys) e h =
    let (before, after, held, named) = find_jwk-found kid keys h in
    record { keys = keys; before = before; after = after; listed = e; held = held; named = named }
find_in-IsKeyOf kid jwks undefined e h = cc
find_in-IsKeyOf kid jwks null e h = cc
find_in-IsKeyOf kid jwks (bool b) e h = cc
find_in-IsKeyOf kid jwks (num n) e h = cc
find_in-IsKeyOf kid jwks (other_number n) e h = cc
find_in-IsKeyOf kid jwks (str s) e h = cc
find_in-IsKeyOf kid jwks (time t) e h = cc
find_in-IsKeyOf kid jwks (obj fs) e h = cc

signed :
    (platform : Platform) (auth_header jwks : Json) (token : Token) {payload : Json}
    → decoded platform auth_header ≡ ok token
    → check_signature platform token jwks ≡ ok payload
    → IsSigned platform auth_header jwks payload
unfolding decoded check_signature
signed platform auth_header jwks token d h =
    let (jwt, borne, d1) = >>=-eq-ok _ _ d in
    let (token', read, d2) = >>=-eq-ok (decode_jwt_parts platform jwt) _ d1 in
    let (present, d3) = guard-ok (not (is_nullish token'.header)) _ _ d2 in
    let (alg, d4) = guard-ok (same (get "alg" token'.header) (str "RS256")) _ _ d3 in
    let is_token = ok-injective d4 in
    let (some_keys, h1) = guard-ok (not (is_nullish jwks)) _ _ h in
    let (key, found, h2) = >>=-eq-ok _ _ h1 in
    let (there, h2') = guard-ok (truthy key) _ _ h2 in
    let (valid, verified, h3) =
      >>=-eq-ok (platform.verify key token.signed_data token.signature) _ h2' in
    let (is_valid, h4) = guard-ok valid _ _ h3 in
    record {
      jwt = jwt;
      token = token;
      key = key;
      borne = or_throw-ok _ _ borne;
      read = subst (λ x. decode_jwt_parts platform jwt ≡ ok x) is_token read;
      carried = ok-injective h4;
      alg = subst (λ x. same (get "alg" x.header) (str "RS256") ≡ true) is_token alg;
      key_of = find_in-IsKeyOf (get "kid" token.header) jwks (get "keys" jwks) refl found;
      verified =
          subst (λ b. platform.verify key token.signed_data token.signature ≡ ok b) is_valid
            verified;
    }

verified_with :
    (platform : Platform) (auth_header : Json) (expected : Expected) (now : ℕ) (token : Token)
    (fetched : Result Json) {payload : Json}
    → decoded platform auth_header ≡ ok token
    → admitted_payload platform token expected now fetched ≡ ok payload
    → (jwks : Json) × (fetched ≡ ok jwks)
      × IsSigned platform auth_header jwks payload
      × IsAllowed expected payload now
unfolding admitted_payload
verified_with platform auth_header expected now token fetched d h =
    let (jwks, f, h1) = >>=-eq-ok fetched _ h in
    let (payload', s, h2) = >>=-eq-ok (check_signature platform token jwks) _ h1 in
    let (u, v, h3) = >>=-eq-ok (validate_claims expected payload' now) _ h2 in
    subst
      (λ p.
        (j : Json) × (fetched ≡ ok j)
        × IsSigned platform auth_header j p
        × IsAllowed expected p now)
      (ok-injective h3)
      (
        jwks,
        f,
        signed platform auth_header jwks token d s,
        (validate_claims_iff expected payload' now).0 v,
      )

verified_from :
    (platform : Platform) (auth_header : Json) (expected : Expected) (answer : Result Response)
    (fetched_at now : ℕ) (cache : Cache) (d : Result Token) {payload : Json}
    → decoded platform auth_header ≡ d
    → (verify_decoded platform d expected answer fetched_at now cache).0 ≡ ok payload
    → (jwks : Json) × ((fetch_jwks answer fetched_at cache).0 ≡ ok jwks)
      × IsSigned platform auth_header jwks payload
      × IsAllowed expected payload now
unfolding verify_decoded
verified_from platform auth_header expected answer fetched_at now cache (err m) e h = cc
verified_from platform auth_header expected answer fetched_at now cache (ok token) e h =
    verified_with platform auth_header expected now token _ e h

-- A request is let in only with a token that it bears, signed under RS256 by the key that the token
-- names among the keys fetched or kept, and with claims that are allowed at that time; the claims
-- returned are the token's.
pub verify_github_actions_oidc-IsSigned :
    (platform : Platform) (auth_header : Json) (expected : Expected) (answer : Result Response)
    (fetched_at now : ℕ) (cache : Cache) (payload : Json)
    → (verify_github_actions_oidc platform auth_header expected answer fetched_at now cache).0
      ≡ ok payload
    → (jwks : Json) × ((fetch_jwks answer fetched_at cache).0 ≡ ok jwks)
      × IsSigned platform auth_header jwks payload
      × IsAllowed expected payload now
unfolding verify_github_actions_oidc
verify_github_actions_oidc-IsSigned platform auth_header expected answer fetched_at now cache
      payload h =
    verified_from platform auth_header expected answer fetched_at now cache
      (decoded platform auth_header) refl h
