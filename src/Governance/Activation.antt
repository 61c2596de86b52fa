-- ===== src/Governance/Activation.antt =====
-- src/governance-state.js: the handoff from a predecessor to its successor. Each operation is a
-- function on the state of the replica that it runs on. What it does before its commit (the checks,
-- the attestation, the arbitration) is a function of its own, since other calls may come between.
-- Monitoring events are left out.
pub mod Checks
pub mod Steps
pub mod Preserves
pub mod Operations
pub mod Applied
pub mod Aborts
pub mod Finalizes
use auth_broker_tee.Base.{
  ℕ, suc, ◌+◌, ◌*◌, String, Bool, true, false, Option, none, some, List, [], ◌∷◌, ◌++◌, ◌&&◌, ◌||◌,
  not, leb, ltb, length, Result, ok, err, ◌>>=◌, ◌>>◌, guard, or_throw, lookup, insert, delete,
  contains, str_eq, if◌then◌else◌,
}
use auth_broker_tee.Json.{
  Json, undefined, null, str, num, time, arr, object, fields, get, truthy, same, items, date_parse,
  is_string,
}
use auth_broker_tee.Crypto.{
  Crypto, KeyMaterial, digest, key_id, sign_governance_payload, verify_governance_envelope,
}
use auth_broker_tee.Certificates.{
  ReviewPolicy, Verified, verify_lineage, successor_schema, activation_proof_schema, last,
  has_items,
}
use auth_broker_tee.Certificates.Signing.{
  Successor, sign_successor_certificate, sign_activation_proof_certificate,
  sign_retirement_certificate,
}
use auth_broker_tee.Certificates.Admission.{assert_preapproval_matches_candidate}
use auth_broker_tee.Attestation.{
  verify_confidential_space_attestation, nonce_matches, assert_broker_workload_claims,
}
use auth_broker_tee.Decision.{veto_failures}
use auth_broker_tee.Decision.Packet.{Evidence, build_successor_decision_packet}
use auth_broker_tee.Governance.{
  Status, active, inactive, activating_successor, retired, State, PendingActivation,
  AbortedActivation, Challenge, TransferredState,
}
use auth_broker_tee.Governance.Sealing.{
  Plain, transferable, custody_transfer, replica_snapshot, Cipher, encrypt_state_envelope,
  decrypt_state_envelope,
}

-- What the process gets from its surroundings: whether it runs in production, the check of an
-- attestation's signature, the arbitration of a decision packet, the custodian's answer to a change,
-- and the parts of the manifest that do not come from the governance state.
pub record Environment : Type 0 where
  pub production : Bool
  pub verify_jwt : Json → Result Json
  pub arbitrate : Json → Result Json
  pub replicate : State → Result (Unit {0})
  pub manifest : State → Json

abbrev pub readiness_schema : String
readiness_schema = "femled.tee.governance.activation_readiness.v1"

abbrev pub decline_schema : String
decline_schema = "femled.tee.governance.activation_decline.v1"

abbrev pub readiness_audience : String
readiness_audience = "https://oauth-tee.femled.ai/activation-readiness"

abbrev pub activation_abort_grace_ms : ℕ
activation_abort_grace_ms = 5 * 60 * 1000

abbrev pub proved_at_skew_ms : ℕ
proved_at_skew_ms = 60 * 1000

unfoldable pub is_status : Status → Status → Bool
is_status active active = true
is_status inactive inactive = true
is_status activating_successor activating_successor = true
is_status retired retired = true
is_status _ _ = false

unfoldable pub is_empty {ℓ} : {A : Type ℓ} → List A → Bool
is_empty [] = true
is_empty (_ ∷ _) = false

-- `assertActiveGovernance`
unfoldable pub assert_active : State → Result (Unit {0})
unfolding is_status
assert_active s =
    guard (is_status s.status active) "privileged operation requires active governance"

-- `assertEnclaveGovernanceKeyInProduction`
unfoldable pub assert_enclave_key : Bool → State → Result (Unit {0})
assert_enclave_key production s =
    guard (not production || str_eq s.key_material.kind "in-memory")
      "refusing to establish active governance with key material held outside the enclave"

-- `for (const [key, value] of Object.entries(…)) if (envelope[key] !== value) throw`
unfoldable pub assert_entries : List (String × Json) → Json → String → Result (Unit {0})
assert_entries [] v message = ok tt
assert_entries ((k, expected) ∷ rest) v message =
    guard (same (get k v) expected) message >> assert_entries rest v message

-- `sha256Digest(canonicalStringify(lineage))`
unfoldable pub lineage_digest : Crypto → List Json → Json
lineage_digest c l = str (digest c (arr (items l)))
