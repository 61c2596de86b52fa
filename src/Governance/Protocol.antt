-- ===== src/Governance/Protocol.antt =====
-- src/governance-state.js: the operations as the steps of one replica, in any order and with any
-- arguments, and what holds of every state that they reach. An operation that throws is a
-- step too.
pub mod Untouched
use auth_broker_tee.Base.{ℕ, String, Bool, Option, ◌≡◌, refl, subst, length, Result, ok, err}
use auth_broker_tee.Json.{Json, Items}
use auth_broker_tee.Crypto.{Crypto, IsSound, KeyMaterial}
use auth_broker_tee.Crypto.Envelopes.{IsInMemory}
use auth_broker_tee.Certificates.{ReviewPolicy}
use auth_broker_tee.Governance.{
  State, export_replica_snapshot, Challenge, change, changed, initialize_governance,
}
use auth_broker_tee.Governance.Sealing.{Cipher}
use auth_broker_tee.Governance.Invariant.{IsGood}
use auth_broker_tee.Governance.Activation.{Environment}
use auth_broker_tee.Governance.Activation.Checks.{
  CompleteRequest, ApplyRequest, Transferred, open_bundle,
}
use auth_broker_tee.Governance.Activation.Steps.{
  create_activation_challenge, complete_activation, apply_activation_bundle, finalize_activation,
  abort_activation, decline_activation, issue_activation_readiness, decline_for, readiness_for,
  add_challenge, challenge_nonce, note_readiness, refuse,
}
use auth_broker_tee.Governance.Activation.Operations.{
  complete_activation-IsGood, abort_activation-IsGood, finalize_activation-IsGood,
}
use auth_broker_tee.Certificates.Signing.{Authorization}
use auth_broker_tee.Governance.Genesis.{ImageSource, bootstrap_genesis}
use auth_broker_tee.Governance.Genesis.Keeps.{bootstrap_genesis-IsGood}
use auth_broker_tee.Governance.Preapproval.{
  issue_preapproval_certificate, record_genesis_self_adjudication,
}
use auth_broker_tee.Governance.Proposals.{issue_self_healing_proposal}
use auth_broker_tee.Governance.Replica.{promote_replica_to_primary}
use auth_broker_tee.Governance.Tenants.{
  issue_tenant_admission_certificate, record_accepted_route_version,
}
use auth_broker_tee.Governance.Protocol.Untouched.{
  noted-IsGood, adjudicated-IsGood, preapproved-IsGood, proposed-IsGood, admitted-IsGood,
  accepted-IsGood, promoted-IsGood,
}
use auth_broker_tee.Governance.Activation.Applied.{apply_activation_bundle-IsGood}

module _ (c : Crypto) (z : Cipher) (policy : ReviewPolicy) (env : Environment) where
  pub data Step (s : State) (s' : State) : Type 0 where
    challenged :
        (challenge : Challenge) (random : Json) (now : ℕ)
        → (create_activation_challenge c challenge random now s).1 ≡ s'
        → Step s s'
    completed :
        (r : CompleteRequest) (now : ℕ)
        → (complete_activation c z policy env r now s).1 ≡ s'
        → Step s s'
    finalized :
        (proof : Json) (now : ℕ) → (finalize_activation c env proof now s).1 ≡ s' → Step s s'
    aborted :
        (decline : Option Json) (expired : Bool) (nonce : Option String) (now : ℕ)
        → (abort_activation c env decline expired nonce now s).1 ≡ s'
        → Step s s'
    readied :
        (request_token : Json → Json → Result Json) (nonce : String) (now : ℕ)
        → (issue_activation_readiness c env request_token nonce now s).1 ≡ s'
        → Step s s'
    declined : (nonce : String) (now : ℕ) → (decline_activation c nonce now s).1 ≡ s' → Step s s'
    -- The sender of the bundle states the epoch of the lineage that it sends.
    applied :
        (r : ApplyRequest) (now : ℕ)
        → ((t : Transferred) → open_bundle c z env s r now ≡ ok t → t.epoch ≡ length t.lineage)
        → (apply_activation_bundle c z env r now s).1 ≡ s'
        → Step s s'
    bootstrapped :
        (source : ImageSource) (routes attestation request response target : Json) (now : ℕ)
        → (bootstrap_genesis c policy env source routes attestation request response target now s).1
          ≡ s'
        → Step s s'
    adjudicated :
        (digest : String) (expires_at : Json)
        → (record_genesis_self_adjudication digest expires_at s).1 ≡ s'
        → Step s s'
    preapproved :
        (candidate checks decision response_digest : Json) (by : Authorization) (now : ℕ)
        → (issue_preapproval_certificate c policy env.replicate candidate checks decision
            response_digest by now s).1
          ≡ s'
        → Step s s'
    proposed :
        (as_text : Json → String) (proposal : Json) (health : State → Json)
        (internal_events : Items) (telemetry : Json) (now : ℕ)
        → (issue_self_healing_proposal c policy as_text proposal health internal_events telemetry
            now s).1
          ≡ s'
        → Step s s'
    admitted_tenant :
        (input proof : Json) (ttl now : ℕ)
        → (issue_tenant_admission_certificate c env.replicate input proof ttl now s).1 ≡ s'
        → Step s s'
    accepted_route :
        (tenant : String) (version route_digest : Json)
        → record_accepted_route_version tenant version route_digest s ≡ s'
        → Step s s'
    took_over : (promote_replica_to_primary s).1 ≡ s' → Step s s'

  pub data Run (s : State) : State → Type 0 where
    stopped : {s' : State} → s ≡ s' → Run s s'
    stepped : {s' s'' : State} → Run s s' → Step s' s'' → Run s s''

  module _ (sound : IsSound c) where
    Step-IsGood : {s s' : State} → Step s s' → IsGood c s → IsGood c s'
    unfolding create_activation_challenge issue_activation_readiness decline_activation change
        export_replica_snapshot
    Step-IsGood {s} (challenged challenge random now e) good = subst (IsGood c) e (
        noted-IsGood c s (λ nonce. add_challenge c nonce challenge) (λ a. a)
          (challenge_nonce c challenge random now s) (λ _. good) good)
    Step-IsGood {s} (completed r now e) good =
        subst (IsGood c) e (complete_activation-IsGood c sound z policy env r now s good)
    Step-IsGood {s} (finalized proof now e) good =
        subst (IsGood c) e (finalize_activation-IsGood c sound env proof now s good)
    Step-IsGood {s} (aborted decline expired nonce now e) good =
        subst (IsGood c) e (abort_activation-IsGood c sound env decline expired nonce now s good)
    Step-IsGood {s} (readied request_token nonce now e) good = subst (IsGood c) e (
        noted-IsGood c s (λ _. note_readiness nonce now) (λ a. a)
          (readiness_for c env request_token nonce now s) (λ _. good) good)
    Step-IsGood {s} (declined nonce now e) good =
        subst (IsGood c) e (
          noted-IsGood c s (λ _. refuse nonce) (λ a. a) (decline_for c nonce now s) (λ _. good)
            good)
    Step-IsGood {s} (applied r now honest e) good =
        subst (IsGood c) e (apply_activation_bundle-IsGood c sound z env r now s honest good)
    Step-IsGood {s} (bootstrapped source routes attestation request response target now e) good =
        subst (IsGood c) e (
          bootstrap_genesis-IsGood c policy env source routes attestation sound request response
            target now s good)
    Step-IsGood {s} (adjudicated digest expires_at e) good =
        subst (IsGood c) e (adjudicated-IsGood c digest expires_at s good)
    Step-IsGood {s} (preapproved candidate checks decision response_digest by now e) good =
        subst (IsGood c) e (
          preapproved-IsGood c env.replicate sound policy candidate checks decision response_digest
            by now s good)
    Step-IsGood {s} (proposed as_text proposal health internal_events telemetry now e) good =
        subst (IsGood c) e
          (proposed-IsGood c policy as_text proposal health internal_events telemetry now s good)
    Step-IsGood {s} (admitted_tenant input proof ttl now e) good =
        subst (IsGood c) e (admitted-IsGood c env.replicate sound input proof ttl now s good)
    Step-IsGood {s} (accepted_route tenant version route_digest e) good =
        subst (IsGood c) e (accepted-IsGood c tenant version route_digest s good)
    Step-IsGood {s} (took_over e) good = subst (IsGood c) e (promoted-IsGood c s good)

    -- Whatever the genesis, the handoff, the preapprovals, proposals, admissions and the promotion do
    -- to a replica, in any order, whether they return or throw, and whatever the custodian answers:
    -- where its lineage was a chain of certificates to the key that it holds, and its pending or
    -- expired activation continued that chain, both still hold, and an activation is pending exactly
    -- while a successor is being activated. The signatures are sound, and the epoch in an applied
    -- bundle counts the certificates in it.
    pub Run-IsGood : {s s' : State} → Run s s' → IsGood c s → IsGood c s'
    Run-IsGood (stopped e) good = subst (IsGood c) e good
    Run-IsGood (stepped before last) good = Step-IsGood last (Run-IsGood before good)

    -- A replica that has just started is good.
    pub initial-IsGood :
        (k : KeyMaterial) (image : Json) → IsInMemory c k → IsGood c (initialize_governance k image)
    unfolding initialize_governance export_replica_snapshot
    initial-IsGood k image m = record {
      in_memory = m;
      lineage_fits = refl;
      pending_fits = tt;
      expired_fits = tt;
      pending_continues = tt;
      expired_continues = tt;
    }
