-- ===== src/Attestation.antt =====
-- src/confidential-space-attestation.js: the claims that an attestation token must carry. The check of
-- the token's signature against Google's keys is a parameter (`verify_jwt`).
use text.Mathlib.Text.{starts_with}
use auth_broker_tee.Base.{
  ℕ, ◌/◌, String, Bool, false, ◌&&◌, ◌||◌, not, if◌then◌else◌, Result, ok, err, ◌>>=◌, ◌>>◌, guard,
}
use auth_broker_tee.Json.Numbers.{number_of, less_than}
use auth_broker_tee.Json.{Json, num, str, arr, get, truthy, same}
use auth_broker_tee.Certificates.Admission.{array_includes, items_include}

abbrev pub broker_project_id : String
broker_project_id = "prod-femled-couple-router"

abbrev pub broker_service_account : String
broker_service_account = "auth-broker-tee@prod-femled-couple-router.iam.gserviceaccount.com"

-- `nonceMatches`
unfoldable pub nonce_matches : Json → Json → Bool
nonce_matches (arr xs) expected = items_include xs expected
nonce_matches v expected = same v expected

-- `String(value ?? "") === "125139120897"`
unfoldable pub is_broker_project_number : Json → Bool
is_broker_project_number (str s) = same (str s) (str "125139120897")
is_broker_project_number (num n) = same (num n) (num 125139120897)
is_broker_project_number _ = false

-- `String(value || "")` begins as a broker's name does.
unfoldable pub is_broker_instance : Json → Bool
is_broker_instance (str s) = starts_with s "auth-broker-tee-"
is_broker_instance _ = false

-- `assertBrokerWorkloadClaims`
unfoldable pub assert_broker_workload_claims : Json → Result Json
assert_broker_workload_claims claims = do
  let gce = get "gce" (get "submods" claims)
  guard
      (same (get "project_id" gce) (str broker_project_id)
        && is_broker_project_number (get "project_number" gce))
      "attestation is from another project"
  guard (array_includes (get "google_service_accounts" claims) (str broker_service_account))
      "attestation does not run as the broker service account"
  guard
      (array_includes (get "support_attributes" (get "confidential_space" (get "submods" claims)))
        (str "STABLE"))
      "attestation lacks STABLE Confidential Space support"
  guard (is_broker_instance (get "instance_name" gce)) "attestation is not from a broker instance"
  ok (get "instance_name" gce)

-- `payload.exp && payload.exp < Math.floor(Date.now() / 1000)`
unfoldable pub is_past : Json → ℕ → Bool
unfolding truthy number_of less_than
is_past v now = truthy v && less_than (number_of v) (now / 1000)

-- `validateConfidentialSpaceClaims`
unfoldable pub validate_confidential_space_claims : Json → Json → ℕ → Result Json
validate_confidential_space_claims payload expected_audience now =
    if same (get "iss" payload) (str "https://confidentialcomputing.googleapis.com")
      && same (get "aud" payload) expected_audience
      && not (is_past (get "exp" payload) now)
      && same (get "dbgstat" payload) (str "disabled-since-boot")
      && same (get "swname" payload) (str "CONFIDENTIAL_SPACE")
    then ok payload
    else err "Confidential Space claim validation failed"

-- `verifyConfidentialSpaceAttestation`; an expectation that is `null` is not checked.
unfoldable pub verify_confidential_space_attestation :
    (Json → Result Json) → Json → Json → Json → Json → ℕ → Result Json
verify_confidential_space_attestation verify_jwt jwt expected_nonce expected_image expected_audience
      now =
    do
      payload ← verify_jwt jwt
      valid ← validate_confidential_space_claims payload expected_audience now
      guard (not (truthy expected_nonce) || nonce_matches (get "eat_nonce" payload) expected_nonce)
          "Confidential Space attestation nonce mismatch"
      guard
          (not (truthy expected_image)
            || same (get "image_digest" (get "container" (get "submods" payload))) expected_image)
          "Confidential Space attestation image digest mismatch"
      ok payload
