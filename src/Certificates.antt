-- ===== src/Certificates.antt =====
-- src/governance-certificates.js: the certificates of the lineage and how a lineage is verified.
-- The constants that first-principles-review.js exports are the parameter `ReviewPolicy`.
pub mod Signing
pub mod Preapproved
pub mod Admission
pub mod Lineage
pub mod Succession
use auth_broker_tee.Base.{
  ℕ, suc, ◌+◌, String, Bool, true, false, Option, none, some, List, [], ◌∷◌, ◌++◌, ◌&&◌, ◌||◌, not,
  leb, Result, ok, err, ◌>>=◌, ◌>>◌, guard, or_throw, ◌==◌, if◌then◌else◌,
}
use auth_broker_tee.Json.{
  Json, cons, undefined, null, str, num, time, arr, obj, object, fields, get, truthy, same,
  is_object, is_string, date_parse, or_null,
}
use auth_broker_tee.Patterns.{is_digest}
use auth_broker_tee.Crypto.{
  Crypto, KeyMaterial, digest, is_expired, sign_governance_payload, verify_governance_envelope,
}

abbrev pub genesis_schema : String
genesis_schema = "femled.tee.governance.genesis.v1"

abbrev pub preapproval_schema : String
preapproval_schema = "femled.tee.governance.preapproval.v1"

abbrev pub successor_schema : String
successor_schema = "femled.tee.governance.successor.v1"

abbrev pub retirement_schema : String
retirement_schema = "femled.tee.governance.retirement.v1"

abbrev pub activation_proof_schema : String
activation_proof_schema = "femled.tee.governance.activation_proof.v1"

abbrev pub tenant_admission_schema : String
tenant_admission_schema = "femled.auth_broker.tenant_admission.v1"

pub record ReviewPolicy : Type 0 where
  pub policy_version : Json
  pub prompt_digest : Json
  pub response_schema_digest : Json
  pub model : Json
  pub vertex_location : Json
  pub model_policy_digest : Json
  pub temperature : Json

-- `requireDigest`
unfoldable pub require_digest : Json → Result Json
require_digest (str s) = if is_digest s then ok (str s) else err "must be a sha256 digest"
require_digest _ = err "must be a sha256 digest"

unfoldable pub assert_certificate_fresh : Json → ℕ → Result (Unit {0})
assert_certificate_fresh payload now = guard (not (is_expired payload now)) "certificate expired"

-- `(value || []).length > 0`
unfoldable pub has_items : Json → Bool
has_items (arr (cons _ _)) = true
has_items (str s) = truthy (str s)
has_items (time t) = true
has_items _ = false

pub record Verified : Type 0 where
  pub current_epoch : ℕ
  pub current_governance_public_key_pem : Json
  pub certificates : List Json

unfoldable pub last : List Json → Json
last [] = undefined
last (x ∷ []) = x
last (x ∷ y ∷ ys) = last (y ∷ ys)

module _ (c : Crypto) (now : ℕ) where
  -- One round of the loop of `verifyLineage`.
  unfoldable pub verify_successor : Verified → Json → Result Verified
  verify_successor v certificate = do
    payload ← verify_governance_envelope c certificate v.current_governance_public_key_pem now false
    guard (same (get "schema" payload) (str successor_schema))
        "unexpected governance lineage schema"
    guard
        (same (get "predecessorEpoch" payload) (num v.current_epoch)
          && same (get "successorEpoch" payload) (num (v.current_epoch + 1)))
        "governance lineage epoch discontinuity"
    ok (record {
      current_epoch = v.current_epoch + 1;
      current_governance_public_key_pem = get "successorGovernancePublicKeyPem" payload;
      certificates = v.certificates ++ payload ∷ [];
    })

  unfoldable pub verify_successors : Verified → List Json → Result Verified
  verify_successors v [] = ok v
  verify_successors v (x ∷ xs) = verify_successor v x >>= λ v'. verify_successors v' xs

  unfoldable pub verify_genesis : Json → Result Verified
  verify_genesis envelope = do
    genesis ←
        verify_governance_envelope c envelope
          (get "governancePublicKeyPem" (get "payload" envelope)) now false
    guard (same (get "schema" genesis) (str genesis_schema) && same (get "epoch" genesis) (num 1))
        "governance lineage must start with genesis epoch 1"
    ok (record {
      current_epoch = 1;
      current_governance_public_key_pem = get "governancePublicKeyPem" genesis;
      certificates = genesis ∷ [];
    })

  unfoldable pub verify_lineage : List Json → Bool → Result Verified
  verify_lineage [] enforce_terminal_expiry = err "governance lineage must contain genesis"
  verify_lineage (g ∷ rest) enforce_terminal_expiry = do
    v ← verify_genesis g
    v' ← verify_successors v rest
    guard (not (enforce_terminal_expiry && is_expired (get "payload" (last (g ∷ rest))) now))
        "governance certificate expired"
    ok v'
