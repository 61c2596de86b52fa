-- ===== src/Tests/Oidc.antt =====
-- src/github-oidc.js at concrete tokens.
use auth_broker_tee.Base.{
  ℕ, true, none, some, List, [], ◌∷◌, ◌≡◌, ◌⊎◌, ◌<◌, ◌&&◌, refl, str_eq, Result, ok, err,
  if◌then◌else◌,
}
use auth_broker_tee.Json.{Json, undefined, str, num, arr, nil, cons, object}
use auth_broker_tee.Oidc.{Expected, Cache, Response, empty_cache, extract_bearer, fetch_jwks}
use auth_broker_tee.Patterns.{trim}
use auth_broker_tee.Json.Texts.{text_of}
use auth_broker_tee.Oidc.Claims.{validate_claims}
use auth_broker_tee.Oidc.Token.{Platform, three_parts, verify_github_actions_oidc}
use auth_broker_tee.Oidc.Allowed.{IsAllowed, validate_claims_iff}
use auth_broker_tee.Oidc.Signed.{IsSigned, verify_github_actions_oidc-IsSigned}
use auth_broker_tee.Oidc.Fetched.{Served, Fetched, cache_after, fetch_jwks-IsRecent}

abbrev jwks : Json
jwks = object (
    (
      "keys",
      arr (cons (object (("kid", str "k0") ∷ [])) (cons (object (("kid", str "k1") ∷ [])) nil)),
    )
    ∷ [])

abbrev head_sha : Json
head_sha = str "0123456789abcdef0123456789abcdef01234567"

abbrev pub claims : Json
claims = object (
    ("iss", str "https://token.actions.githubusercontent.com")
    ∷ ("aud", str "https://oauth-tee.femled.ai/first-principles")
    ∷ ("repository", str "FemLed/auth-broker-tee")
    ∷ (
      "job_workflow_ref",
      str "FemLed/auth-broker-tee/.github/workflows/build-and-attest.yml@refs/heads/master",
    )
    ∷ ("event_name", str "push")
    ∷ ("run_id", num 1042)
    ∷ ("sha", head_sha)
    ∷ ("nbf", num 1000)
    ∷ ("exp", num 1300)
    ∷ [])

abbrev expected : Expected
expected = record {
  audience = undefined;
  repository = undefined;
  workflow_refs = none;
  allowed_events = none;
  event_name = str "push";
  workflow_run_id = str "1042";
  base_sha = undefined;
  head_sha = head_sha;
}

abbrev pub platform : Platform
platform = record {
  parse_part = λ part. ok (
      if str_eq part "head"
      then object (("alg", str "RS256") ∷ ("kid", str "k1") ∷ [])
      else claims);
  verify =
      λ key signed_data signature. ok (str_eq signed_data "head.body" && str_eq signature "sig");
}

abbrev pub answer : Result Response
answer = ok (record { is_ok = true; body = ok jwks })

abbrev history : List (ℕ × Result Response)
history = (4000000, err "timeout") ∷ (1000000, answer) ∷ (0, err "timeout") ∷ []

trims : trim "  a b \t" ≡ "a b"
unfolding trim
trims = refl

bears : extract_bearer (str "BEARER  head.body.sig ") ≡ some "head.body.sig"
unfolding auth_broker_tee.Oidc.extract_bearer
bears = refl

bears_nothing : extract_bearer (str "Basic head.body.sig") ≡ none
unfolding auth_broker_tee.Oidc.extract_bearer
bears_nothing = refl

reads_number : text_of (num 1042) ≡ "1042"
unfolding text_of auth_broker_tee.Json.Texts.decimal
reads_number = refl

four_parts : three_parts "a.b.c.d" ≡ err "Invalid JWT: expected 3 parts"
unfolding auth_broker_tee.Oidc.Token.verify_github_actions_oidc
four_parts = refl

validate_claims_iff_example : IsAllowed expected claims 1200000
unfolding auth_broker_tee.Oidc.Claims.validate_claims auth_broker_tee.Json.fields
    auth_broker_tee.Json.Texts.decimal
validate_claims_iff_example = (validate_claims_iff expected claims 1200000).0 refl

verify_github_actions_oidc-IsSigned_example :
    (keys : Json) × ((fetch_jwks answer 1200000 empty_cache).0 ≡ ok keys)
    × IsSigned platform (str "Bearer head.body.sig") keys claims
    × IsAllowed expected claims 1200000
unfolding auth_broker_tee.Oidc.Token.verify_github_actions_oidc auth_broker_tee.Json.fields
    auth_broker_tee.Json.Texts.decimal
verify_github_actions_oidc-IsSigned_example =
    verify_github_actions_oidc-IsSigned platform (str "Bearer head.body.sig") expected answer
      1200000 1200000 empty_cache claims refl

fetch_jwks-IsRecent_example :
    Served (err "timeout") jwks ⊎ ((expiry : ℕ) × (4500000 < expiry) × Fetched history jwks expiry)
unfolding auth_broker_tee.Oidc.Fetched.cache_after
fetch_jwks-IsRecent_example = fetch_jwks-IsRecent history (err "timeout") 4500000 jwks refl
