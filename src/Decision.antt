-- ===== src/Decision.antt =====
-- src/governance-successor-decision.js: the evidence on a successor, and the vetoes on it that no
-- arbitration overrides.
pub mod Packet
pub mod Vetoes
use auth_broker_tee.Base.{
  ℕ, String, Bool, true, false, List, [], ◌∷◌, ◌++◌, ◌||◌, ◌&&◌, not, if◌then◌else◌,
}
use auth_broker_tee.Json.{Json, str, num, arr, Items, nil, cons, get, truthy, same, items}
use auth_broker_tee.Certificates.Admission.{items_include}

abbrev pub packet_schema : String
packet_schema = "femled.tee.governance.successor_decision_packet.v1"

-- `nonceMatches` of this file: an absent expectation matches nothing.
unfoldable pub nonce_matches : Json → Json → Bool
nonce_matches (arr xs) expected = if truthy expected then items_include xs expected else false
nonce_matches v expected = if truthy expected then same v expected else false

-- `packet?.part`
abbrev pub current_tee : Json → Json
current_tee = get "currentTee"

abbrev pub candidate_tee : Json → Json
candidate_tee = get "candidateTee"

abbrev pub activation_evidence : Json → Json
activation_evidence = get "activationEvidence"

abbrev pub attestation_evidence : Json → Json
attestation_evidence packet = get "candidateAttestation" (activation_evidence packet)

abbrev pub preapproval_evidence : Json → Json
preapproval_evidence = get "preapprovalEvidence"

-- The tests of `evaluateSuccessorHardVetoes` in their order: what must hold, and the failure.
unfoldable pub hard_checks : Json → List (Bool × String)
hard_checks p =
    (same (get "schema" p) (str packet_schema), "successor decision packet schema mismatch")
    ∷ (same (get "status" (current_tee p)) (str "active"), "current TEE must be active")
    ∷ (truthy (get "lineageDigest" (current_tee p)), "current TEE lineage digest is missing")
    ∷ (
      same (get "imageDigest" (candidate_tee p))
          (get "expectedCandidateImageDigest" (activation_evidence p)),
      "candidate image digest does not match activation expectation",
    )
    ∷ (
      same (get "activationNonce" (activation_evidence p))
          (get "expectedActivationNonce" (activation_evidence p)),
      "activation nonce does not match attestation expectation",
    )
    ∷ (
      same (get "imageDigest" (attestation_evidence p)) (get "imageDigest" (candidate_tee p)),
      "candidate attestation image digest does not match candidate image digest",
    )
    ∷ (
      nonce_matches (get "eatNonce" (attestation_evidence p))
          (get "activationNonce" (activation_evidence p)),
      "candidate attestation nonce does not bind activation challenge",
    )
    ∷ (
      same (get "swname" (attestation_evidence p)) (str "CONFIDENTIAL_SPACE"),
      "candidate attestation is not Confidential Space",
    )
    ∷ (
      same (get "dbgstat" (attestation_evidence p)) (str "disabled-since-boot"),
      "candidate attestation debug status is not disabled-since-boot",
    )
    ∷ (
      same (get "hardCheckStatus" (candidate_tee p)) (str "passed"),
      "candidate hard checks must pass",
    )
    ∷ (
      same (get "criticalSourceStatus" (get "evidenceCompleteness" p)) (str "complete"),
      "governance-critical source evidence is incomplete",
    )
    ∷ (
      truthy (get "governanceKeyId" (candidate_tee p))
          && truthy (get "activationPublicKeyPem" (candidate_tee p)),
      "candidate governance and activation keys must be present",
    )
    ∷ (
      same (get "aiDecision" (preapproval_evidence p)) (str "APPROVE"),
      "preapproval Gemini decision must be APPROVE",
    )
    ∷ (
      same (get "predecessorEpoch" (preapproval_evidence p)) (get "epoch" (current_tee p)),
      "preapproval predecessor epoch does not match current TEE epoch",
    )
    ∷ (
      same (get "predecessorGovernanceKeyId" (preapproval_evidence p))
          (get "governanceKeyId" (current_tee p)),
      "preapproval predecessor key does not match current TEE key",
    )
    ∷ []

-- `if (…) failures.push(…)`, test by test.
unfoldable pub failures_of : List (Bool × String) → List String
failures_of [] = []
failures_of ((held, message) ∷ rest) = if held then failures_of rest else message ∷ failures_of rest

-- The `failures` of `evaluateSuccessorHardVetoes`; the status is `passed` where there are none.
unfoldable pub veto_failures : Json → List String
unfolding hard_checks failures_of
veto_failures packet = failures_of (hard_checks packet)
