-- ===== src/Oidc.antt =====
-- src/github-oidc.js: the token of a GitHub Actions run that a request bears. The network, the decoding
-- of a token's parts and the check of an RSA signature are parameters.
pub mod Claims
pub mod Token
pub mod Allowed
pub mod Signed
pub mod Fetched
use Prim.Native.Char.{code}
use auth_broker_tee.Base.{
  ℕ, ◌+◌, ◌*◌, String, Bool, Option, none, some, ◌&&◌, ◌||◌, not, ltb, leb, ◌==◌, if◌then◌else◌,
  Result, ok, err,
}
use auth_broker_tee.Json.{Json, null, str, Items, nil, cons, truthy}
use auth_broker_tee.Patterns.{literally, to_lower, is_end, trim}

abbrev pub github_oidc_issuer : String
github_oidc_issuer = "https://token.actions.githubusercontent.com"

abbrev pub default_audience : String
default_audience = "https://oauth-tee.femled.ai/first-principles"

abbrev pub default_repository : String
default_repository = "FemLed/auth-broker-tee"

abbrev pub default_workflow_refs : Items
default_workflow_refs =
    cons (str "FemLed/auth-broker-tee/.github/workflows/build-and-attest.yml@refs/heads/master") (
      cons
        (str
          "FemLed/auth-broker-tee/.github/workflows/tee-first-principles-review.yml@refs/heads/master")
        nil)

abbrev pub allowed_events : Items
allowed_events =
    cons (str "pull_request") (cons (str "pull_request_target") (cons (str "push") nil))

abbrev pub jwks_cache_ttl_ms : ℕ
jwks_cache_ttl_ms = 60 * 60 * 1000

-- `expected`; what a caller does not give is `undefined`, or `none` for a list.
pub record Expected : Type 0 where
  pub audience : Json
  pub repository : Json
  pub workflow_refs : Option Items
  pub allowed_events : Option Items
  pub event_name : Json
  pub workflow_run_id : Json
  pub base_sha : Json
  pub head_sha : Json

-- The module's variables `jwksCache` and `jwksCacheExpiry`.
pub record Cache : Type 0 where
  pub jwks_cache : Json
  pub jwks_cache_expiry : ℕ

abbrev pub empty_cache : Cache
empty_cache = record { jwks_cache = null; jwks_cache_expiry = 0 }

-- The answer of the key server: whether its status is one of success, and its body.
pub record Response : Type 0 where
  pub is_ok : Bool
  pub body : Result Json

-- What stands before and after the first character with a code.
unfoldable pub cut : ℕ → String → Option (String × String)
cut n String.[] = none
cut n (String.◌∷◌ c s) =
    let rest = cut n s in
    if code c == n
    then some (String.[], s)
    else elim rest [ none ↦ none | some p ↦ some (String.◌∷◌ c p.0, p.1) ]

-- `scheme.toLowerCase() === "bearer"`; no other letter than B, E, A and R has b, e, a or r as its lower
-- case.
unfoldable pub is_bearer : String → Bool
unfolding literally to_lower is_end
is_bearer = literally to_lower "bearer" is_end

unfoldable pub bearer_of : Option (String × String) → Option String
unfolding is_bearer trim is_end
bearer_of none = none
bearer_of (some (scheme, rest)) =
    let token = trim rest in if is_bearer scheme && not (is_end token) then some token else none

-- `extractBearer`
unfoldable pub extract_bearer : Json → Option String
unfolding cut bearer_of
extract_bearer (str header) = bearer_of (cut 32 header)
extract_bearer _ = none

unfoldable pub store_jwks : Response → ℕ → Cache → Result Json × Cache
store_jwks response now cache =
    if response.is_ok
    then elim response.body [
      | err message ↦ (err message, cache)
      | ok jwks ↦
          (ok jwks, record { jwks_cache = jwks; jwks_cache_expiry = now + jwks_cache_ttl_ms })
    ]
    else (err "GitHub OIDC JWKS fetch failed", cache)

-- `fetchJWKS`, where `answer` is what the key server would answer.
unfoldable pub fetch_jwks : Result Response → ℕ → Cache → Result Json × Cache
unfolding truthy store_jwks
fetch_jwks answer now cache =
    if truthy cache.jwks_cache && ltb now cache.jwks_cache_expiry
    then (ok cache.jwks_cache, cache)
    else elim answer [
      | err message ↦ (err message, cache)
      | ok response ↦ store_jwks response now cache
    ]
