-- ===== src/Tests/Decision.antt =====
-- A packet on which no veto falls, and a path that a custodian refuses.
use auth_broker_tee.Base.{◌↔◌, ◌≡◌, [], ◌∷◌, refl}
use auth_broker_tee.Json.{Json, str, num, object}
use auth_broker_tee.Decision.{packet_schema, veto_failures}
use auth_broker_tee.Decision.Vetoes.{IsAdmissible, veto_failures_iff}

abbrev packet : Json
packet = object (
    ("schema", str packet_schema)
    ∷ (
      "currentTee",
      object (
          ("status", str "active")
          ∷ ("lineageDigest", str "l")
          ∷ ("epoch", num 1)
          ∷ ("governanceKeyId", str "k1")
          ∷ []),
    )
    ∷ (
      "candidateTee",
      object (
          ("imageDigest", str "i")
          ∷ ("hardCheckStatus", str "passed")
          ∷ ("governanceKeyId", str "k2")
          ∷ ("activationPublicKeyPem", str "a2")
          ∷ []),
    )
    ∷ (
      "activationEvidence",
      object (
          ("activationNonce", str "n")
          ∷ ("expectedActivationNonce", str "n")
          ∷ ("expectedCandidateImageDigest", str "i")
          ∷ (
            "candidateAttestation",
            object (
                ("imageDigest", str "i")
                ∷ ("eatNonce", str "n")
                ∷ ("swname", str "CONFIDENTIAL_SPACE")
                ∷ ("dbgstat", str "disabled-since-boot")
                ∷ []),
          )
          ∷ []),
    )
    ∷ ("evidenceCompleteness", object (("criticalSourceStatus", str "complete") ∷ []))
    ∷ (
      "preapprovalEvidence",
      object (
          ("aiDecision", str "APPROVE")
          ∷ ("predecessorEpoch", num 1)
          ∷ ("predecessorGovernanceKeyId", str "k1")
          ∷ []),
    )
    ∷ [])

passes : veto_failures packet ≡ []
unfolding veto_failures auth_broker_tee.Json.same auth_broker_tee.Json.get
    auth_broker_tee.Json.fields auth_broker_tee.Json.truthy auth_broker_tee.Decision.nonce_matches
passes = refl

veto_failures_iff_example : (veto_failures packet ≡ []) ↔ IsAdmissible packet
veto_failures_iff_example = veto_failures_iff packet
