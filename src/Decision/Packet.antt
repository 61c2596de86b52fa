-- ===== src/Decision/Packet.antt =====
-- src/governance-successor-decision.js: `buildSuccessorDecisionPacket`.
use auth_broker_tee.Base.{ℕ, String, [], ◌∷◌, ◌||◌, if◌then◌else◌}
use auth_broker_tee.Json.{
  Json, null, bool, str, num, time, arr, obj, Items, nil, cons, Fields, end, field, object, get,
  truthy, same, or_null,
}
use auth_broker_tee.Json.Canonical.{sort_fields}
use auth_broker_tee.Crypto.{Crypto}
use auth_broker_tee.Decision.{packet_schema}

-- `a || b`
abbrev or_else : Json → Json → Json
or_else v w = if truthy v then v else w

abbrev or_empty : Json → Json
or_empty v = or_else v (arr nil)

-- `value[key] || null`
abbrev read : String → Json → Json
read k v = or_null (get k v)

-- `[...].filter(Boolean)`
filter_truthy : Items → Items
filter_truthy nil = nil
filter_truthy (cons x xs) = if truthy x then cons x (filter_truthy xs) else filter_truthy xs

append_items : Items → Items → Items
append_items nil ys = ys
append_items (cons x xs) ys = cons x (append_items xs ys)

items_of : Json → Items
items_of (arr xs) = xs
items_of _ = nil

summarize_current_tee : Json → Json
summarize_current_tee m = object (
    ("schema", str "femled.tee.governance.current_tee_summary.v1")
    ∷ ("status", read "status" m)
    ∷ ("epoch", or_else (get "epoch" m) (num 0))
    ∷ ("governanceKeyId", read "governanceKeyId" m)
    ∷ ("activationKeyId", read "activationKeyId" m)
    ∷ ("imageDigest", read "imageDigest" m)
    ∷ ("lineageDigest", read "lineageDigest" m)
    ∷ ("latestSuccessorDigest", read "payloadDigest" (get "latestSuccessorCertificate" m))
    ∷ ("latestRetirementDigest", read "payloadDigest" (get "latestRetirementCertificate" m))
    ∷ ("routeTrustAnchorsDigest", read "routeTrustAnchorsDigest" m)
    ∷ ("routeBundleDigest", read "routeBundleDigest" m)
    ∷ ("modelPolicyDigest", read "modelPolicyDigest" m)
    ∷ ("health", read "health" m)
    ∷ ("securityBoundary", read "securityBoundary" m)
    ∷ [])

summarize_launch_policy : Json → Json
summarize_launch_policy config =
    let labels : Json = or_else (get "Labels" (get "config" config)) (get "Labels" config) in
    object (
      ("schema", str "femled.tee.governance.launch_policy_summary.v1")
      ∷ ("logRedirect", read "tee.launch_policy.log_redirect" labels)
      ∷ ("allowCmdOverride", read "tee.launch_policy.allow_cmd_override" labels)
      ∷ ("allowEnvOverride", or_else (get "tee.launch_policy.allow_env_override" labels) (str ""))
      ∷ [])

-- The keys that the candidate offers.
pub record CandidateKeys : Type 0 where
  pub governance_key_id : Json
  pub governance_public_key_pem : Json
  pub activation_public_key_pem : Json

summarize_candidate_tee : Json → CandidateKeys → Json
summarize_candidate_tee c keys = object (
    ("schema", str "femled.tee.governance.candidate_tee_summary.v1")
    ∷ ("imageDigest", read "candidateImageDigest" c)
    ∷ ("imageReference", read "candidateImageReference" c)
    ∷ ("manifestDigest", read "candidateManifestDigest" c)
    ∷ ("sourceTreeDigest", read "candidateSourceTreeDigest" c)
    ∷ ("filesystemDigest", read "candidateFilesystemDigest" c)
    ∷ ("sourceStructureDigest", read "candidateSourceStructureDigest" c)
    ∷ ("policyManifestDigest", read "candidatePolicyManifestDigest" c)
    ∷ ("promptDigest", read "candidatePromptDigest" c)
    ∷ ("modelPolicyDigest", read "candidateModelPolicyDigest" c)
    ∷ ("modelProbeDigest", read "candidateModelProbeDigest" c)
    ∷ ("modelPolicyDiffDigest", read "candidateModelPolicyDiffDigest" c)
    ∷ ("routeTrustAnchorsDigest", read "candidateRouteTrustAnchorsDigest" c)
    ∷ ("changedFiles", or_empty (get "candidateChangedFiles" c))
    ∷ ("sourceBundleDigest", read "sourceBundleDigest" c)
    ∷ ("hardCheckStatus", read "status" (get "hardCheckResults" c))
    ∷ ("hardCheckFailures", or_empty (get "failures" (get "hardCheckResults" c)))
    ∷ ("hardCheckWarnings", or_empty (get "warnings" (get "hardCheckResults" c)))
    ∷ ("governanceKeyId", or_null keys.governance_key_id)
    ∷ ("governancePublicKeyPem", or_null keys.governance_public_key_pem)
    ∷ ("activationPublicKeyPem", or_null keys.activation_public_key_pem)
    ∷ ("launchPolicy", summarize_launch_policy (get "config" c))
    ∷ [])

summarize_evidence_completeness : Json → Json
summarize_evidence_completeness c =
    let completeness : Json = get "criticalSourceCompleteness" c in
    let structure : Json = get "candidateSourceStructure" c in
    object (
      ("schema", str "femled.tee.governance.evidence_completeness.v1")
      ∷ ("criticalSourceStatus", or_else (get "status" completeness) (str "unknown"))
      ∷ ("requiredCriticalFiles", or_empty (get "requiredFiles" completeness))
      ∷ ("presentCriticalFiles", or_empty (get "presentFiles" completeness))
      ∷ ("missingCriticalFiles", or_empty (get "missingFiles" completeness))
      ∷ ("omittedFileCount", or_else (get "omittedFileCount" structure) (num 0))
      ∷ (
        "governanceCriticalParseFailures",
        or_empty (get "governanceCriticalParseFailures" structure),
      )
      ∷ [])

-- `sourceBundle[key] || candidate[other] || null`
abbrev from_either : Json → String → Json → String → Json
from_either bundle k c j = or_else (get k bundle) (or_null (get j c))

summarize_supply_chain_evidence : Json → Json
summarize_supply_chain_evidence c =
    let bundle : Json = get "sourceBundleEvidence" c in
    object (
      ("schema", str "femled.tee.governance.supply_chain_evidence.v1")
      ∷ (
        "complianceRulesDigest",
        from_either bundle "complianceRulesDigest" c "complianceRulesDigest",
      )
      ∷ (
        "complianceSummaryDigest",
        from_either bundle "complianceSummaryDigest" c "complianceSummaryDigest",
      )
      ∷ (
        "complianceSummaryPresent",
        bool (truthy (get "complianceSummary" bundle) || truthy (get "complianceSummary" c)),
      )
      ∷ ("buildPredicateDigest", from_either bundle "buildPredicateDigest" c "buildPredicateDigest")
      ∷ ("provenanceDigest", from_either bundle "provenanceDigest" c "provenanceDigest")
      ∷ (
        "sourceImageBindingDigest",
        from_either bundle "sourceImageBindingDigest" c "sourceImageBindingDigest",
      )
      ∷ ("imageSignatureDigest", from_either bundle "imageSignatureDigest" c "imageSignatureDigest")
      ∷ (
        "modelUpgradeEvidence",
        object (
            ("schema", str "femled.tee.governance.model_upgrade_evidence.v1")
            ∷ (
              "modelProbeDigest",
              from_either bundle "modelProbeDigest" c "candidateModelProbeDigest",
            )
            ∷ (
              "modelCatalogEvidenceDigest",
              from_either bundle "modelCatalogEvidenceDigest" c
                  "candidateModelCatalogEvidenceDigest",
            )
            ∷ (
              "modelPolicyDiffDigest",
              from_either bundle "modelPolicyDiffDigest" c "candidateModelPolicyDiffDigest",
            )
            ∷ ("authority", str "model_upgrade_evidence_only_not_runtime_selection")
            ∷ []),
      )
      ∷ [])

-- `openJobs.filter((job) => job.proposalDigest === proposalDigest)`
related_jobs : Items → Json → Items
related_jobs nil proposal = nil
related_jobs (cons job jobs) proposal =
    if same (get "proposalDigest" job) proposal
    then cons job (related_jobs jobs proposal)
    else related_jobs jobs proposal

job_request_digests : Items → Items
job_request_digests nil = nil
job_request_digests (cons job jobs) = cons (get "jobRequestDigest" job) (job_request_digests jobs)

job_artifact_digests : Items → Items
unfolding filter_truthy append_items items_of
job_artifact_digests nil = nil
job_artifact_digests (cons job jobs) =
    append_items
      (filter_truthy (
        cons (get "artifactDigest" job) (
          cons (get "candidateSubmissionDigest" job)
            (items_of (get "investigationArtifactDigests" job)))))
      (job_artifact_digests jobs)

summarize_self_healing_evidence : Json → Json → Json
unfolding related_jobs job_request_digests job_artifact_digests items_of
summarize_self_healing_evidence manifest c =
    let healing : Json = get "selfHealing" manifest in
    let proposal : Json = read "selfHealingProposalDigest" c in
    let jobs : Items =
      if truthy proposal
      then related_jobs (items_of (get "openJobs" (get "repairJobs" healing))) proposal
      else nil in
    object (
      ("schema", str "femled.tee.governance.self_healing_evidence.v1")
      ∷ ("proposalDigest", proposal)
      ∷ ("openProposalDigests", or_empty (get "openProposalDigests" healing))
      ∷ ("relatedRepairJobDigests", arr (job_request_digests jobs))
      ∷ ("relatedArtifactDigests", arr (job_artifact_digests jobs))
      ∷ ("authority", str "self_healing_evidence_only_not_activation")
      ∷ [])

-- The keys of an object.
keys_of : Fields → Items
keys_of end = nil
keys_of (field k v fs) = cons (str k) (keys_of fs)

-- `Object.keys(value || {}).sort()`
sorted_keys : Json → Items
unfolding keys_of
sorted_keys (obj fs) = keys_of (sort_fields fs)
sorted_keys _ = nil

summarize_attestation : Json → Json
unfolding sorted_keys
summarize_attestation a =
    let container : Json = get "container" (get "submods" a) in
    object (
      ("schema", str "femled.tee.governance.candidate_attestation_summary.v1")
      ∷ ("imageDigest", read "image_digest" container)
      ∷ ("imageReference", read "image_reference" container)
      ∷ ("imageSignatures", or_empty (get "image_signatures" container))
      ∷ ("cmdOverride", or_empty (get "cmd_override" container))
      ∷ ("envOverrideKeys", arr (sorted_keys (get "env_override" container)))
      ∷ ("swname", read "swname" a)
      ∷ ("dbgstat", read "dbgstat" a)
      ∷ ("eatNonce", read "eat_nonce" a)
      ∷ ("projectId", read "project_id" (get "gce" (get "submods" a)))
      ∷ ("instanceId", read "instance_id" (get "gce" (get "submods" a)))
      ∷ [])

-- What the packet is built from.
pub record Evidence : Type 0 where
  pub current_manifest : Json
  pub candidate : Json
  pub preapproval_envelope : Json
  pub preapproval_payload : Json
  pub candidate_attestation_token : Json
  pub candidate_attestation : Json
  pub keys : CandidateKeys
  pub activation_nonce : Json
  pub expected_candidate_image_digest : Json
  pub expected_activation_nonce : Json

unfoldable pub build_successor_decision_packet : Crypto → Evidence → ℕ → Json
unfolding summarize_current_tee summarize_candidate_tee summarize_attestation
    summarize_launch_policy summarize_evidence_completeness summarize_supply_chain_evidence
    summarize_self_healing_evidence
build_successor_decision_packet c e now = object (
    ("schema", str packet_schema)
    ∷ ("issuedAt", time now)
    ∷ ("currentTee", summarize_current_tee e.current_manifest)
    ∷ ("candidateTee", summarize_candidate_tee e.candidate e.keys)
    ∷ (
      "activationEvidence",
      object (
          ("schema", str "femled.tee.governance.activation_evidence.v1")
          ∷ ("activationNonce", e.activation_nonce)
          ∷ ("expectedActivationNonce", e.expected_activation_nonce)
          ∷ ("expectedCandidateImageDigest", e.expected_candidate_image_digest)
          ∷ (
            "candidateAttestationDigest",
            if truthy e.candidate_attestation_token
                then str (c.hash_text e.candidate_attestation_token)
                else null,
          )
          ∷ ("candidateAttestation", summarize_attestation e.candidate_attestation)
          ∷ []),
    )
    ∷ (
      "preapprovalEvidence",
      object (
          ("schema", str "femled.tee.governance.preapproval_evidence.v1")
          ∷ ("preapprovalPayloadDigest", read "payloadDigest" e.preapproval_envelope)
          ∷ ("preapprovalSigningKeyId", read "signingKeyId" e.preapproval_envelope)
          ∷ ("preapprovalSchema", read "schema" e.preapproval_payload)
          ∷ ("predecessorEpoch", read "predecessorEpoch" e.preapproval_payload)
          ∷ ("predecessorGovernanceKeyId", read "predecessorGovernanceKeyId" e.preapproval_payload)
          ∷ ("hardCheckResultsDigest", read "hardCheckResultsDigest" e.preapproval_payload)
          ∷ ("aiDecision", read "aiDecision" e.preapproval_payload)
          ∷ ("aiReasoningDigest", read "aiReasoningDigest" e.preapproval_payload)
          ∷ ("modelPolicyDigest", read "modelPolicyDigest" e.preapproval_payload)
          ∷ ("expiresAt", read "expiresAt" e.preapproval_payload)
          ∷ []),
    )
    ∷ ("evidenceCompleteness", summarize_evidence_completeness e.candidate)
    ∷ ("supplyChainEvidence", summarize_supply_chain_evidence e.candidate)
    ∷ ("selfHealingEvidence", summarize_self_healing_evidence e.current_manifest e.candidate)
    ∷ [])
