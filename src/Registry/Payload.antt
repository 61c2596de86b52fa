-- ===== src/Registry/Payload.antt =====
-- src/route-registry.js: what the payload of a route must be. The parse of an URL, `none` where it
-- throws, is a parameter.
use text.Mathlib.Text.{starts_with}
use auth_broker_tee.Base.{
  ℕ, ◌+◌, ◌*◌, String, Bool, true, false, Option, List, [], ◌∷◌, ◌++◌, ◌&&◌, ◌||◌, not, leb, ltb,
  str_eq, Result, err, ◌>>=◌, ◌>>◌, guard, or_throw, if◌then◌else◌,
}
use auth_broker_tee.Json.{
  Json, undefined, null, bool, num, other_number, str, time, arr, obj, nil, cons, get, truthy, same,
  date_parse,
}
use auth_broker_tee.Patterns.{text_length, ends_with, is_host, is_repo, is_uuid, includes}
use auth_broker_tee.Certificates.Admission.{array_includes, text_is, is_positive, broker_audience}
use auth_broker_tee.Registry.{
  tenant_api_route_schema, deploy_webhook_route_schema, assert_exact_keys,
}

abbrev pub clock_skew_ms : ℕ
clock_skew_ms = 5 * 60 * 1000

-- What the registry reads of an URL.
pub record Url : Type 0 where
  pub protocol : String
  pub hostname : String

unfoldable pub has_url_syntax : String → Bool
has_url_syntax s =
    includes s "/" || includes s ":" || includes s "@" || includes s "?" || includes s "#"

-- `validateHost`
unfoldable pub validate_host : Json → Result (Unit {0})
validate_host value = do
  guard (text_is (λ s. not (ltb 253 (text_length s)) && is_host s) value) "must be a hostname"
  guard (text_is (λ s. not (has_url_syntax s)) value) "must not include URL syntax"

-- `host.startsWith(prefix) && host.endsWith(".femled.ai")`
unfoldable pub is_femled_host : String → Json → Bool
is_femled_host prefix host = text_is (λ s. starts_with s prefix && ends_with s ".femled.ai") host

-- `validateTenantApiRoute`
unfoldable pub validate_tenant_api_route : Json → Result (Unit {0})
validate_tenant_api_route payload = do
  validate_host (get "apiHost" payload)
  validate_host (get "appHost" payload)
  guard (is_femled_host "api-" (get "apiHost" payload))
      "apiHost must be an api-*.femled.ai hostname"
  guard (is_femled_host "app-" (get "appHost" payload))
      "appHost must be an app-*.femled.ai hostname"
  guard (array_includes (get "allowedBrokerAudiences" payload) (str broker_audience))
      "allowedBrokerAudiences must include https://oauth-tee.femled.ai"

-- `REPO_RE.test(value)`, which first makes a text of the value.
unfoldable pub reads_as_repo : Json → Bool
reads_as_repo undefined = false
reads_as_repo null = false
reads_as_repo (bool b) = true
reads_as_repo (num n) = true
reads_as_repo (other_number s) = is_repo s
reads_as_repo (str s) = is_repo s
reads_as_repo (time t) = false
reads_as_repo (arr (cons x nil)) = reads_as_repo x
reads_as_repo (arr _) = false
reads_as_repo (obj fs) = false

-- `validateDeployWebhookRoute`
unfoldable pub validate_deploy_webhook_route : (Json → Option Url) → Json → Result (Unit {0})
validate_deploy_webhook_route parse_url payload = do
  guard (truthy (get "githubRepoName" payload) && reads_as_repo (get "githubRepoName" payload))
      "githubRepoName must be a safe GitHub repo name"
  url ←
      or_throw (parse_url (get "cloudBuildDeployTriggerUrl" payload))
        "cloudBuildDeployTriggerUrl must be a valid URL"
  guard (str_eq url.protocol "https:") "cloudBuildDeployTriggerUrl must use HTTPS"
  guard (str_eq url.hostname "cloudbuild.googleapis.com")
      "cloudBuildDeployTriggerUrl must target cloudbuild.googleapis.com"

abbrev pub common_keys : List String
common_keys = "expiresAt" ∷ "issuedAt" ∷ "schema" ∷ "tenant" ∷ "version" ∷ []

-- The first branch of `validateRoutePayload`: by the schema.
unfoldable pub validate_by_schema : (Json → Option Url) → Json → Result (Unit {0})
validate_by_schema parse_url payload =
    if same (get "schema" payload) (str tenant_api_route_schema)
    then assert_exact_keys payload
        (common_keys ++ "allowedBrokerAudiences" ∷ "apiHost" ∷ "appHost" ∷ [])
      >> validate_tenant_api_route payload
    else if same (get "schema" payload) (str deploy_webhook_route_schema)
    then assert_exact_keys payload
        (common_keys ++ "cloudBuildDeployTriggerUrl" ∷ "githubRepoName" ∷ [])
      >> validate_deploy_webhook_route parse_url payload
    else err "unsupported route schema"

-- `version < minRouteVersion`, of two natural numbers.
unfoldable pub is_below : Json → Json → Bool
is_below (num a) (num b) = ltb a b
is_below _ _ = false

-- `validateRoutePayload`
unfoldable pub validate_route_payload : (Json → Option Url) → Json → Json → ℕ → Result (Unit {0})
validate_route_payload parse_url payload min_route_version now = do
  validate_by_schema parse_url payload
  guard (text_is is_uuid (get "tenant" payload)) "route tenant must be a UUID"
  guard (is_positive (get "version" payload)) "route version must be a positive integer"
  guard (not (is_below (get "version" payload) min_route_version))
      "route version is below minRouteVersion"
  issued_at ←
      or_throw (date_parse (get "issuedAt" payload)) "route issuedAt must be an ISO timestamp"
  expires_at ←
      or_throw (date_parse (get "expiresAt" payload)) "route expiresAt must be an ISO timestamp"
  guard (not (ltb (now + clock_skew_ms) issued_at)) "route issuedAt is too far in the future"
  guard (not (leb expires_at now)) "route is expired"
