-- ===== src/Oidc/Claims.antt =====
-- src/github-oidc.js: `validateClaims`.
use auth_broker_tee.Base.{
  ℕ, ◌+◌, ◌/◌, String, Bool, Option, none, some, List, [], ◌∷◌, ◌&&◌, ◌||◌, not, if◌then◌else◌,
  str_eq, Result, ok, err, ◌>>◌, guard,
}
use auth_broker_tee.Json.{Json, str, Items, get, truthy, same}
use auth_broker_tee.Json.Texts.{is_nullish, text_of}
use auth_broker_tee.Json.Numbers.{number_of, greater_than}
use auth_broker_tee.Certificates.Admission.{items_include}
use auth_broker_tee.Attestation.{is_past}
use auth_broker_tee.Decision.{failures_of}
use auth_broker_tee.Oidc.{
  Expected, github_oidc_issuer, default_audience, default_repository, default_workflow_refs,
  allowed_events,
}

-- `value || fallback`
unfoldable pub or_default : Json → String → Json
unfolding truthy
or_default v fallback = if truthy v then v else str fallback

unfoldable pub list_or : Option Items → Items → Items
list_or none fallback = fallback
list_or (some xs) fallback = xs

-- `value && value > now + 60`
unfoldable pub is_ahead : Json → ℕ → Bool
unfolding truthy number_of greater_than
is_ahead v now = truthy v && greater_than (number_of v) (now / 1000 + 60)

-- The commit that the token must name: of the base where a pull request's target runs the workflow.
unfoldable pub expected_sha : Expected → Json → Json
unfolding get same
expected_sha expected payload =
    if same (get "event_name" payload) (str "pull_request_target")
    then expected.base_sha
    else expected.head_sha

-- The tests of `validateClaims` in their order: what must hold, and the failure.
unfoldable pub claim_checks : Expected → Json → ℕ → List (Bool × String)
unfolding get same truthy or_default list_or items_include is_past is_ahead expected_sha text_of
claim_checks expected payload now =
    (same (get "iss" payload) (str github_oidc_issuer), "iss")
    ∷ (same (get "aud" payload) (or_default expected.audience default_audience), "aud")
    ∷ (
      same (get "repository" payload) (or_default expected.repository default_repository),
      "repository",
    )
    ∷ (
      items_include (list_or expected.workflow_refs default_workflow_refs)
          (get "job_workflow_ref" payload),
      "job_workflow_ref",
    )
    ∷ (
      items_include (list_or expected.allowed_events allowed_events) (get "event_name" payload),
      "event_name",
    )
    ∷ (not (is_past (get "exp" payload) now), "token is expired")
    ∷ (not (is_ahead (get "nbf" payload) now), "token is not valid yet")
    ∷ (not (is_ahead (get "iat" payload) now), "token issued-at is in the future")
    ∷ (
      not (truthy expected.event_name) || same (get "event_name" payload) expected.event_name,
      "event_name must match request eventName",
    )
    ∷ (
      not (truthy expected.workflow_run_id)
          || str_eq (text_of (get "run_id" payload)) (text_of expected.workflow_run_id),
      "run_id must match request workflowRunId",
    )
    ∷ (
      not (truthy (get "sha" payload))
          || (not (truthy (expected_sha expected payload))
              || same (get "sha" payload) (expected_sha expected payload)),
      "sha must match request",
    )
    ∷ []

unfoldable pub no_failures : List String → Result (Unit {0})
no_failures [] = ok tt
no_failures (f ∷ fs) = err "GitHub OIDC claim validation failed"

-- `validateClaims`
unfoldable pub validate_claims : Expected → Json → ℕ → Result (Unit {0})
unfolding is_nullish claim_checks failures_of no_failures
validate_claims expected payload now =
    guard (not (is_nullish payload)) "Cannot read properties of null"
    >> no_failures (failures_of (claim_checks expected payload now))
