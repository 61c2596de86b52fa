-- ===== src/Tests/Preapproval.antt =====
-- A preapproval after the genesis, and an adjudication before it.
use auth_broker_tee.Base.{
  true, false, some, [], ◌∷◌, ok, err, ◌≡◌, refl, ◌≤◌, arith, ◌||◌, not, length,
}
use auth_broker_tee.Json.{Json, null, str, object, get, same, truthy}
use auth_broker_tee.Certificates.{has_items}
use auth_broker_tee.Certificates.Preapproved.{IsPreapprovalOf}
use auth_broker_tee.Certificates.Signing.{Authorization}
use auth_broker_tee.Governance.{active, initialize_governance, State}
use auth_broker_tee.Governance.Activation.{is_status}
use auth_broker_tee.Governance.Activation.Steps.{note_readiness, activation_readiness_limit}
use auth_broker_tee.Governance.Preapproval.{
  some_live, issue_preapproval_certificate, issue_preapproval_certificate-approved,
  genesis_self_adjudication_limit, record_genesis_self_adjudication,
  record_genesis_self_adjudication-bounded,
}
use auth_broker_tee.Tests.Setup.{toy, policy, predecessor, acknowledge, some_digest, keys}

abbrev candidate : Json
candidate = object (
    ("candidateImageDigest", str some_digest)
    ∷ ("candidateSourceTreeDigest", str some_digest)
    ∷ ("candidateFilesystemDigest", str some_digest)
    ∷ [])

abbrev checks : Json
checks = object (("status", str "passed") ∷ [])

abbrev approval : Json
approval = object (("decision", str "APPROVE") ∷ [])

abbrev by_nobody : Authorization
by_nobody = record {
  nonce = null;
  challenge_digest = null;
  request_digest = null;
  caller_digest = null;
  workflow_ref = null;
  run_id = null;
}

abbrev issued : Json
issued =
    elim (issue_preapproval_certificate toy policy acknowledge candidate checks approval
      (str some_digest) by_nobody 2000 predecessor).0 [ ok envelope ↦ envelope | err e ↦ null ]

issue_preapproval_certificate-approved_example :
    (is_status predecessor.status active ≡ true)
    × (same (get "decision" approval) (str "APPROVE") ≡ true)
    × (has_items (get "violatedPrinciples" approval) ≡ false)
    × (same (get "status" checks) (str "passed") ≡ true)
    × ((not (truthy (get "selfHealingProposalDigest" candidate))
          || some_live predecessor.self_healing_proposals
              (get "selfHealingProposalDigest" candidate)
              2000)
        ≡ true)
    × ((issue_preapproval_certificate toy policy acknowledge candidate checks approval
          (str some_digest)
          by_nobody
          2000
          predecessor).1.latest_preapproval
        ≡ some issued)
    × IsPreapprovalOf toy policy predecessor.key_material predecessor.epoch candidate checks
        by_nobody 2000 issued
unfolding auth_broker_tee.Governance.Preapproval.issue_preapproval_certificate
    auth_broker_tee.Governance.Preapproval.sign_preapproval
    auth_broker_tee.Governance.Preapproval.assert_proposal_is_live
    auth_broker_tee.Governance.Preapproval.some_live auth_broker_tee.Governance.continue
    auth_broker_tee.Governance.change auth_broker_tee.Governance.changed
    auth_broker_tee.Governance.commit auth_broker_tee.Governance.settle
    auth_broker_tee.Governance.Activation.assert_active
    auth_broker_tee.Governance.Activation.is_status auth_broker_tee.Governance.initialize_governance
    auth_broker_tee.Certificates.Signing.sign_preapproval_certificate
    auth_broker_tee.Certificates.Signing.reasoning_digest auth_broker_tee.Certificates.has_items
    auth_broker_tee.Certificates.require_digest auth_broker_tee.Patterns.is_digest
    auth_broker_tee.Json.get auth_broker_tee.Json.get_field auth_broker_tee.Json.fields
    auth_broker_tee.Json.same auth_broker_tee.Json.truthy auth_broker_tee.Json.is_string
issue_preapproval_certificate-approved_example =
    issue_preapproval_certificate-approved toy policy acknowledge candidate checks approval
      (str some_digest) by_nobody 2000 predecessor refl

abbrev starting : State
starting = initialize_governance (keys "g9" "a9") (str some_digest)

eight : length starting.genesis_self_adjudications ≤ genesis_self_adjudication_limit
unfolding initialize_governance
eight = omega arith

record_genesis_self_adjudication-bounded_example :
    (length
        (record_genesis_self_adjudication some_digest null starting).1.genesis_self_adjudications
      ≤ genesis_self_adjudication_limit)
    × (length (note_readiness some_digest 1000 starting).activation_readiness
        ≤ activation_readiness_limit)
record_genesis_self_adjudication-bounded_example =
    record_genesis_self_adjudication-bounded some_digest null some_digest 1000 starting eight
