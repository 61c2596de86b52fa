-- ===== src/Certificates/Signing.antt =====
-- src/governance-certificates.js: the certificates that the broker signs. A text that JavaScript
-- would truncate is given whole, and `now` is in milliseconds.
use auth_broker_tee.Base.{
  ℕ, ◌+◌, ◌*◌, [], ◌∷◌, not, Result, ok, err, ◌>>=◌, ◌>>◌, guard, if◌then◌else◌,
}
use auth_broker_tee.Json.{
  Json, null, str, num, time, arr, nil, object, get, truthy, same, or_null, is_string,
}
use auth_broker_tee.Crypto.{Crypto, KeyMaterial, digest, sign_governance_payload}
use auth_broker_tee.Certificates.{
  ReviewPolicy, genesis_schema, preapproval_schema, successor_schema, retirement_schema,
  activation_proof_schema, require_digest, has_items,
}

-- `Array.isArray(value) ? value : []`, and `value || []`
abbrev array_or_empty : Json → Json
array_or_empty (arr xs) = arr xs
array_or_empty _ = arr nil

abbrev or_value : Json → Json → Json
or_value v w = if truthy v then v else w

-- `aiResponseDigest || sha256Digest(aiDecision.reasoning || "")`, which throws on a value that is
-- no text.
unfoldable pub reasoning_digest : Crypto → Json → Json → Result Json
reasoning_digest c response_digest reasoning =
    if truthy response_digest
    then ok response_digest
    else if not (truthy reasoning)
    then ok (str (c.hash_text (str "")))
    else if is_string reasoning
    then ok (str (c.hash_text reasoning))
    else err "data must be a text"

-- What authorizes a preapproval besides the candidate and its checks.
pub record Authorization : Type 0 where
  pub nonce : Json
  pub challenge_digest : Json
  pub request_digest : Json
  pub caller_digest : Json
  pub workflow_ref : Json
  pub run_id : Json

-- What a successor certificate says of the candidate.
pub record Successor : Type 0 where
  pub candidate_image_digest : Json
  pub candidate_attestation_digest : Json
  pub candidate_attestation_nonce : Json
  pub preapproval_payload_digest : Json
  pub decision_packet_digest : Json
  pub arbitration_digest : Json
  pub governance_public_key_pem : Json
  pub governance_key_id : Json
  pub activation_public_key_pem : Json

module _ (c : Crypto) (policy : ReviewPolicy) (k : KeyMaterial) where
  unfoldable pub sign_genesis_certificate : Json → Json → Json → Json → ℕ → Json
  sign_genesis_certificate image_digest route_registry_status attestation_digest genesis_bootstrap
        now =
      sign_governance_payload c
        (object (
          ("schema", str genesis_schema)
          ∷ ("epoch", num 1)
          ∷ ("governancePublicKeyPem", str k.governance_public_key_pem)
          ∷ ("governanceKeyId", str k.governance_key_id)
          ∷ ("activationPublicKeyPem", str k.activation_public_key_pem)
          ∷ ("activationKeyId", str k.activation_key_id)
          ∷ ("imageDigest", image_digest)
          ∷ ("policyVersion", policy.policy_version)
          ∷ ("firstPrinciplesPromptDigest", policy.prompt_digest)
          ∷ ("responseSchemaDigest", policy.response_schema_digest)
          ∷ ("model", policy.model)
          ∷ ("vertexLocation", policy.vertex_location)
          ∷ ("modelPolicyDigest", policy.model_policy_digest)
          ∷ ("temperature", policy.temperature)
          ∷ ("routeTrustAnchorsDigest", or_null (get "trustAnchorsDigest" route_registry_status))
          ∷ ("routeBundleDigest", or_null (get "routeBundleDigest" route_registry_status))
          ∷ ("genesisBootstrap", genesis_bootstrap)
          ∷ ("issuedAt", time now)
          ∷ ("expiresAt", null)
          ∷ ("attestationDigest", attestation_digest)
          ∷ []))
        k

  unfoldable pub sign_preapproval_certificate :
      ℕ → Json → Json → Json → Json → Authorization → ℕ → Result Json
  sign_preapproval_certificate epoch candidate checks decision response_digest by now = do
    guard (same (get "decision" decision) (str "APPROVE"))
        "preapproval requires AI decision APPROVE"
    guard (not (has_items (get "violatedPrinciples" decision)))
        "preapproval requires no violated principles"
    guard (same (get "status" checks) (str "passed")) "preapproval requires hard checks to pass"
    image ← require_digest (get "candidateImageDigest" candidate)
    tree ← require_digest (get "candidateSourceTreeDigest" candidate)
    filesystem ← require_digest (get "candidateFilesystemDigest" candidate)
    reasoning ← reasoning_digest c response_digest (get "reasoning" decision)
    ok (
        sign_governance_payload c
          (object (
            ("schema", str preapproval_schema)
            ∷ ("predecessorEpoch", num epoch)
            ∷ ("predecessorGovernanceKeyId", str k.governance_key_id)
            ∷ ("candidateImageDigest", image)
            ∷ ("candidateImageReference", or_null (get "candidateImageReference" candidate))
            ∷ ("candidateSourceTreeDigest", tree)
            ∷ ("candidateFilesystemDigest", filesystem)
            ∷ (
              "candidateSourceStructureDigest",
              or_null (get "candidateSourceStructureDigest" candidate),
            )
            ∷ (
              "candidatePolicyManifestDigest",
              or_null (get "candidatePolicyManifestDigest" candidate),
            )
            ∷ ("candidatePromptDigest", or_null (get "candidatePromptDigest" candidate))
            ∷ ("candidateModelPolicyDigest", or_null (get "candidateModelPolicyDigest" candidate))
            ∷ ("candidateModelProbeDigest", or_null (get "candidateModelProbeDigest" candidate))
            ∷ (
              "candidateModelCatalogEvidenceDigest",
              or_null (get "candidateModelCatalogEvidenceDigest" candidate),
            )
            ∷ (
              "candidateModelPolicyDiffDigest",
              or_null (get "candidateModelPolicyDiffDigest" candidate),
            )
            ∷ (
              "candidateRouteTrustAnchorsDigest",
              or_null (get "candidateRouteTrustAnchorsDigest" candidate),
            )
            ∷ ("selfHealingProposalDigest", or_null (get "selfHealingProposalDigest" candidate))
            ∷ ("candidateChangedFiles", array_or_empty (get "candidateChangedFiles" candidate))
            ∷ ("hardCheckResultsDigest", str (digest c checks))
            ∷ ("aiDecision", get "decision" decision)
            ∷ ("aiReasoningDigest", reasoning)
            ∷ ("violatedPrinciples", or_value (get "violatedPrinciples" decision) (arr nil))
            ∷ ("remediation", or_value (get "remediation" decision) (arr nil))
            ∷ ("governanceRiskLevel", or_value (get "governanceRiskLevel" decision) (str "low"))
            ∷ ("stateTransferRisk", or_value (get "stateTransferRisk" decision) (str "low"))
            ∷ ("model", policy.model)
            ∷ ("vertexLocation", policy.vertex_location)
            ∷ ("firstPrinciplesPromptDigest", policy.prompt_digest)
            ∷ ("responseSchemaDigest", policy.response_schema_digest)
            ∷ ("modelPolicyDigest", policy.model_policy_digest)
            ∷ ("challengeDigest", by.challenge_digest)
            ∷ ("requestDigest", by.request_digest)
            ∷ ("authorizedCallerDigest", by.caller_digest)
            ∷ ("authorizedWorkflowRef", by.workflow_ref)
            ∷ ("authorizedRunId", by.run_id)
            ∷ ("issuedAt", time now)
            ∷ ("expiresAt", time (now + 30 * 60 * 1000))
            ∷ ("nonce", by.nonce)
            ∷ []))
          k)

  unfoldable pub sign_successor_certificate : ℕ → ℕ → Successor → ℕ → Result Json
  sign_successor_certificate predecessor_epoch successor_epoch s now = do
    image ← require_digest s.candidate_image_digest
    attestation ← require_digest s.candidate_attestation_digest
    preapproval ← require_digest s.preapproval_payload_digest
    packet ← require_digest s.decision_packet_digest
    arbitration ← require_digest s.arbitration_digest
    ok (
        sign_governance_payload c
          (object (
            ("schema", str successor_schema)
            ∷ ("predecessorEpoch", num predecessor_epoch)
            ∷ ("successorEpoch", num successor_epoch)
            ∷ ("predecessorGovernanceKeyId", str k.governance_key_id)
            ∷ ("successorGovernanceKeyId", s.governance_key_id)
            ∷ ("successorGovernancePublicKeyPem", s.governance_public_key_pem)
            ∷ ("successorActivationPublicKeyPem", s.activation_public_key_pem)
            ∷ ("candidateImageDigest", image)
            ∷ ("candidateAttestationDigest", attestation)
            ∷ ("candidateAttestationNonce", s.candidate_attestation_nonce)
            ∷ ("preapprovalPayloadDigest", preapproval)
            ∷ ("successorDecisionPacketDigest", packet)
            ∷ ("successorArbitrationDigest", arbitration)
            ∷ ("arbitrationPhase", str "successor_acceptance")
            ∷ ("model", policy.model)
            ∷ ("vertexLocation", policy.vertex_location)
            ∷ ("firstPrinciplesPromptDigest", policy.prompt_digest)
            ∷ ("responseSchemaDigest", policy.response_schema_digest)
            ∷ ("modelPolicyDigest", policy.model_policy_digest)
            ∷ ("issuedAt", time now)
            ∷ ("expiresAt", time (now + 10 * 60 * 1000))
            ∷ []))
          k)

module _ (c : Crypto) (k : KeyMaterial) where
  unfoldable pub sign_retirement_certificate : ℕ → ℕ → Json → Json → ℕ → Result Json
  sign_retirement_certificate retired_epoch successor_epoch successor_key_id successor_digest now =
      do
        successor ← require_digest successor_digest
        ok (
            sign_governance_payload c
              (object (
                ("schema", str retirement_schema)
                ∷ ("retiredEpoch", num retired_epoch)
                ∷ ("retiredGovernanceKeyId", str k.governance_key_id)
                ∷ ("successorEpoch", num successor_epoch)
                ∷ ("successorGovernanceKeyId", successor_key_id)
                ∷ ("successorPayloadDigest", successor)
                ∷ ("retiredAt", time now)
                ∷ ("reason", str "successor_activated")
                ∷ []))
              k)

  unfoldable pub sign_activation_proof_certificate : ℕ → Json → Json → Json → Json → ℕ → Result Json
  sign_activation_proof_certificate epoch successor_digest nonce image_digest lineage_digest now =
      do
        successor ← require_digest successor_digest
        image ← require_digest image_digest
        lineage ← require_digest lineage_digest
        ok (
            sign_governance_payload c
              (object (
                ("schema", str activation_proof_schema)
                ∷ ("epoch", num epoch)
                ∷ ("governanceKeyId", str k.governance_key_id)
                ∷ ("successorPayloadDigest", successor)
                ∷ ("activationNonce", nonce)
                ∷ ("candidateImageDigest", image)
                ∷ ("lineageDigest", lineage)
                ∷ ("provedAt", time now)
                ∷ []))
              k)
