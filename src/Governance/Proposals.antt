-- ===== src/Governance/Proposals.antt =====
-- src/governance-state.js and src/governance-certificates.js: self-healing proposals. The health
-- snapshot that the monitor builds is an argument, and `as_text` is `String(value).slice(0, 2000)`.
use auth_broker_tee.Base.{
  ℕ, ◌+◌, ◌*◌, String, [], ◌∷◌, ◌++◌, Result, ok, ◌>>=◌, ◌>>◌, if◌then◌else◌,
}
use auth_broker_tee.Json.{Json, Items, nil, cons, str, num, time, arr, object, get, truthy, or_null}
use auth_broker_tee.Crypto.{Crypto, KeyMaterial, digest, sign_governance_payload}
use auth_broker_tee.Certificates.{ReviewPolicy, require_digest}
use auth_broker_tee.Certificates.Admission.{proof_or_null}
use auth_broker_tee.Governance.{State, M, change}
use auth_broker_tee.Governance.Activation.{assert_active}
use auth_broker_tee.Governance.Activation.Steps.{keep_newest}

abbrev pub self_healing_proposal_schema : String
self_healing_proposal_schema = "femled.tee.self_healing.proposal.v1"

abbrev or_default : Json → Json → Json
or_default v w = if truthy v then v else w

-- `digests.map((digest) => requireDigest(digest))`
unfoldable pub require_digests : Items → Result Items
require_digests nil = ok nil
require_digests (cons x xs) = do d ← require_digest x; ds ← require_digests xs; ok (cons d ds)

module _ (c : Crypto) (policy : ReviewPolicy) (as_text : Json → String) where
  -- `cryptoSafeProposalId`
  unfoldable pub crypto_safe_proposal_id : Json → String
  crypto_safe_proposal_id proposal = digest c (
      object (
        ("type", or_default (get "type" proposal) (str "operational_repair"))
        ∷ ("problemStatement", or_default (get "problemStatement" proposal) (str ""))
        ∷ ("requestedChange", or_null (get "requestedChange" proposal))
        ∷ []))

  -- `signSelfHealingProposalCertificate`
  unfoldable pub sign_self_healing_proposal_certificate :
      KeyMaterial → ℕ → Json → Json → Items → Json → ℕ → Result Json
  sign_self_healing_proposal_certificate k epoch proposal health internal_events telemetry now = do
    health_digest ← require_digest health
    events ← require_digests internal_events
    industry ← proof_or_null telemetry
    ok (
        sign_governance_payload c
          (object (
            ("schema", str self_healing_proposal_schema)
            ∷ (
              "proposalId",
              or_default (get "proposalId" proposal) (str (crypto_safe_proposal_id proposal)),
            )
            ∷ ("type", or_default (get "type" proposal) (str "operational_repair"))
            ∷ ("epoch", num epoch)
            ∷ ("governanceKeyId", str k.governance_key_id)
            ∷ (
              "problemStatement",
              str (as_text (or_default (get "problemStatement" proposal) (str ""))),
            )
            ∷ ("requestedChange", or_null (get "requestedChange" proposal))
            ∷ (
              "expectedCandidateEvidence",
              or_default (get "expectedCandidateEvidence" proposal) (object []),
            )
            ∷ ("healthSnapshotDigest", health_digest)
            ∷ ("internalEventDigests", arr events)
            ∷ ("industryTelemetryDigest", industry)
            ∷ ("modelPolicyDigest", policy.model_policy_digest)
            ∷ ("issuedAt", time now)
            ∷ ("expiresAt", time (now + 6 * 60 * 60 * 1000))
            ∷ []))
          k)

  abbrev pub proposal_limit : ℕ
  proposal_limit = 20

  abbrev pub add_proposal : Json → State → State
  add_proposal envelope s = record s {
    self_healing_proposals = keep_newest proposal_limit (s.self_healing_proposals ++ envelope ∷ []);
  }

  -- What is signed by `issueSelfHealingProposal`.
  unfoldable pub proposal_for : Json → (State → Json) → Items → Json → ℕ → State → Result Json
  proposal_for proposal health internal_events telemetry now s = do
    assert_active s
    sign_self_healing_proposal_certificate s.key_material s.epoch proposal
        (str (digest c (health s))) internal_events telemetry now

  -- `issueSelfHealingProposal`: the envelope.
  unfoldable pub issue_self_healing_proposal : Json → (State → Json) → Items → Json → ℕ → M Json
  issue_self_healing_proposal proposal health internal_events telemetry now =
      change (proposal_for proposal health internal_events telemetry now) add_proposal
        (λ _ envelope. envelope)
