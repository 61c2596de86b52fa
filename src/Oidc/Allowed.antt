-- ===== src/Oidc/Allowed.antt =====
-- src/github-oidc.js: which claims `validateClaims` lets pass.
use mathlib.Core.Bool.{false≢true}
use auth_broker_tee.Base.{
  ◌/◌, ◌+◌, ◌<◌, ◌≤◌, ◌&&◌, eq_iff, ℕ, Bool, true, false, String, List, [], ◌∷◌, not, ◌||◌, ◌≡◌,
  refl, ◌↔◌, All, guard-ok, ok, arith,
}
use auth_broker_tee.Json.{Json, str, get, truthy, same}
use auth_broker_tee.Certificates.Admission.{items_include}
use auth_broker_tee.Attestation.{is_past}
use auth_broker_tee.Decision.{failures_of}
use auth_broker_tee.Decision.Vetoes.{failures_of-none, none-failures_of}
use auth_broker_tee.Oidc.{
  Expected, github_oidc_issuer, default_audience, default_repository, default_workflow_refs,
  allowed_events,
}
use auth_broker_tee.Json.Texts.{is_nullish, text_of}
use auth_broker_tee.Json.Numbers.{
  Number, not_a_number, negative, infinite, natural_number, between, number_of, less_than,
  greater_than,
}
use auth_broker_tee.Oidc.Claims.{
  or_default, list_or, is_ahead, expected_sha, claim_checks, no_failures, validate_claims,
}

-- The number is less than a natural number, and greater than it.
unfoldable pub Below : Number → ℕ → Type 0
Below (natural_number m) n = m < n
Below (between m) n = m < n
Below negative n = Unit
Below not_a_number n = ⊥
Below infinite n = ⊥

unfoldable pub Above : Number → ℕ → Type 0
Above (natural_number m) n = n < m
Above (between m) n = n ≤ m
Above infinite n = Unit
Above not_a_number n = ⊥
Above negative n = ⊥

-- The claims of a run that the caller lets in, at a time.
pub record IsAllowed (expected : Expected) (payload : Json) (now : ℕ) : Type 0 where
  pub present : is_nullish payload ≡ false
  pub issued : same (get "iss" payload) (str github_oidc_issuer) ≡ true
  pub audience : same (get "aud" payload) (or_default expected.audience default_audience) ≡ true
  pub repository :
      same (get "repository" payload) (or_default expected.repository default_repository) ≡ true
  pub workflow :
      items_include
        (list_or expected.workflow_refs default_workflow_refs)
        (get "job_workflow_ref" payload)
      ≡ true
  pub event :
      items_include (list_or expected.allowed_events allowed_events) (get "event_name" payload)
      ≡ true
  pub unexpired :
      truthy (get "exp" payload) ≡ true → Below (number_of (get "exp" payload)) (now / 1000) → ⊥
  pub started :
      truthy (get "nbf" payload) ≡ true
      → Above (number_of (get "nbf" payload)) (now / 1000 + 60)
      → ⊥
  pub issued_before :
      truthy (get "iat" payload) ≡ true
      → Above (number_of (get "iat" payload)) (now / 1000 + 60)
      → ⊥
  pub same_event :
      truthy expected.event_name ≡ true → same (get "event_name" payload) expected.event_name ≡ true
  pub same_run :
      truthy expected.workflow_run_id ≡ true
      → text_of (get "run_id" payload) ≡ text_of expected.workflow_run_id
  pub same_sha :
      truthy (get "sha" payload) ≡ true
      → truthy (expected_sha expected payload) ≡ true
      → same (get "sha" payload) (expected_sha expected payload) ≡ true

not-false : (b : Bool) → not b ≡ true → b ≡ false
not-false true h = absurd (ground arith)
not-false false h = refl

-- A test that is made only under a condition.
when_true : (a b : Bool) → (not a || b) ≡ true → a ≡ true → b ≡ true
when_true true b h e = h
when_true false b h e = absurd (ground arith)

true_when : (a b : Bool) → (a ≡ true → b ≡ true) → (not a || b) ≡ true
true_when true b h = h refl
true_when false b h = refl

less_than_iff : (x : Number) (n : ℕ) → (less_than x n ≡ true) ↔ Below x n
unfolding less_than Below
less_than_iff (natural_number m) n = (λ h. ground arith, λ h. ground arith)
less_than_iff (between m) n = (λ h. ground arith, λ h. ground arith)
less_than_iff negative n = (λ h. tt, λ h. refl)
less_than_iff not_a_number n = (λ h. ground arith, λ h. absurd h)
less_than_iff infinite n = (λ h. ground arith, λ h. absurd h)

greater_than_iff : (x : Number) (n : ℕ) → (greater_than x n ≡ true) ↔ Above x n
unfolding greater_than Above
greater_than_iff (natural_number m) n = (λ h. ground arith, λ h. ground arith)
greater_than_iff (between m) n = (λ h. ground arith, λ h. ground arith)
greater_than_iff infinite n = (λ h. tt, λ h. refl)
greater_than_iff not_a_number n = (λ h. ground arith, λ h. absurd h)
greater_than_iff negative n = (λ h. ground arith, λ h. absurd h)

-- A test that is refused where it is made, against what it tests.
refused_iff {ℓ} :
    {P : Type ℓ} (a b : Bool) → ((b ≡ true) ↔ P) → (not (a && b) ≡ true) ↔ (a ≡ true → P → ⊥)
refused_iff true true e = (λ h. absurd (ground arith), λ h. absurd (h refl (e.0 refl)))
refused_iff true false e = (λ h t p. false≢true (e.1 p), λ h. refl)
refused_iff false b e = (λ h t p. false≢true t, λ h. refl)

no_failures-ok : (failures : List String) → no_failures failures ≡ ok tt → failures ≡ []
unfolding no_failures
no_failures-ok [] h = refl
no_failures-ok (f ∷ fs) h = cc

allowed :
    (expected : Expected) (payload : Json) (now : ℕ)
    → is_nullish payload ≡ false
    → All (λ x. x.0 ≡ true) (claim_checks expected payload now)
    → IsAllowed expected payload now
unfolding claim_checks is_past is_ahead
allowed expected payload now present h = record {
  present = present;
  issued = h.0;
  audience = h.1.0;
  repository = h.1.1.0;
  workflow = h.1.1.1.0;
  event = h.1.1.1.1.0;
  unexpired =
      (refused_iff (truthy (get "exp" payload)) _
          (less_than_iff (number_of (get "exp" payload)) (now / 1000))).0
        h.1.1.1.1.1.0;
  started =
      (refused_iff (truthy (get "nbf" payload)) _
          (greater_than_iff (number_of (get "nbf" payload)) (now / 1000 + 60))).0
        h.1.1.1.1.1.1.0;
  issued_before =
      (refused_iff (truthy (get "iat" payload)) _
          (greater_than_iff (number_of (get "iat" payload)) (now / 1000 + 60))).0
        h.1.1.1.1.1.1.1.0;
  same_event = when_true _ _ h.1.1.1.1.1.1.1.1.0;
  same_run = λ t. (eq_iff _ _).0 (when_true _ _ h.1.1.1.1.1.1.1.1.1.0 t);
  same_sha = λ s e. when_true _ _ (when_true _ _ h.1.1.1.1.1.1.1.1.1.1.0 s) e;
}

checked :
    (expected : Expected) (payload : Json) (now : ℕ)
    → IsAllowed expected payload now
    → All (λ x. x.0 ≡ true) (claim_checks expected payload now)
unfolding claim_checks is_past is_ahead
checked expected payload now a = (
  a.issued,
  (
    a.audience,
    (
      a.repository,
      (
        a.workflow,
        (
          a.event,
          (
            (refused_iff (truthy (get "exp" payload)) _
                  (less_than_iff (number_of (get "exp" payload)) (now / 1000))).1
                a.unexpired,
            (
              (refused_iff (truthy (get "nbf" payload)) _
                    (greater_than_iff (number_of (get "nbf" payload)) (now / 1000 + 60))).1
                  a.started,
              (
                (refused_iff (truthy (get "iat" payload)) _
                      (greater_than_iff (number_of (get "iat" payload)) (now / 1000 + 60))).1
                    a.issued_before,
                (
                  true_when (truthy expected.event_name) _ a.same_event,
                  (
                    true_when (truthy expected.workflow_run_id) _
                        (λ t. (eq_iff _ _).1 (a.same_run t)),
                    (
                      true_when (truthy (get "sha" payload)) _ (λ s.
                          true_when (truthy (expected_sha expected payload)) _ (a.same_sha s)),
                      tt,
                    ),
                  ),
                ),
              ),
            ),
          ),
        ),
      ),
    ),
  ),
)

-- The claims of a token pass just where they are allowed: of the issuer, the audience, the repository, a
-- workflow and an event that the caller lets in, neither expired nor early by more than a minute, and
-- of the event, the run and the commit that the caller names.
pub validate_claims_iff :
    (expected : Expected) (payload : Json) (now : ℕ)
    → (validate_claims expected payload now ≡ ok tt) ↔ IsAllowed expected payload now
unfolding validate_claims no_failures
validate_claims_iff expected payload now = (
  λ h.
      let (p, r) = guard-ok (not (is_nullish payload)) _ _ h in
      allowed expected payload now (not-false _ p) (
        failures_of-none (claim_checks expected payload now)
          (no_failures-ok (failures_of (claim_checks expected payload now)) r)),
  λ a. rw (a.present, none-failures_of _ (checked expected payload now a)) refl,
)
