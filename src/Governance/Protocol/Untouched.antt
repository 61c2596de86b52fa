-- ===== src/Governance/Protocol/Untouched.antt =====
-- The operations on the state that leave the lineage and the handoff alone.
use auth_broker_tee.Base.{
  ℕ, String, Option, none, some, List, refl, Result, ok, err, Bool-cases, ◌&&◌, inl, inr,
}
use auth_broker_tee.Json.{Json, Items}
use auth_broker_tee.Crypto.{Crypto, IsSound}
use auth_broker_tee.Certificates.{ReviewPolicy}
use auth_broker_tee.Certificates.Signing.{Authorization}
use auth_broker_tee.Governance.{
  State, inactive, Role, Peer, TransferredState, AdmittedTenant, change, changed,
  export_replica_snapshot,
}
use auth_broker_tee.Governance.Invariant.{IsGood, commit-change-IsGood}
use auth_broker_tee.Governance.Activation.{is_status, is_empty}
use auth_broker_tee.Governance.Activation.Operations.{continue-IsGood}
use auth_broker_tee.Governance.Preapproval.{
  keep_preapproval, issue_preapproval_certificate, record_genesis_self_adjudication,
}
use auth_broker_tee.Governance.Proposals.{issue_self_healing_proposal, add_proposal, proposal_for}
use auth_broker_tee.Governance.Replica.{promote_replica_to_primary, may_promote, promoted}
use auth_broker_tee.Governance.Tenants.{
  issue_tenant_admission_certificate, record_accepted_route_version, record_tenant_admission,
  with_newer,
}

module _ (c : Crypto) where
  -- The invariant does not read these fields.
  untouched :
      (transferred : TransferredState) (preapproval : Option Json) (proposals : List Json)
      (adjudications : List (String × Json)) (role : Option Role) (peer : Option Peer) (s : State)
      → IsGood c s
      → IsGood c (record s {
        transferred_state = transferred;
        latest_preapproval = preapproval;
        self_healing_proposals = proposals;
        genesis_self_adjudications = adjudications;
        replica_role = role;
        replica_peer = peer;
      })
  unfolding export_replica_snapshot
  untouched transferred preapproval proposals adjudications role peer s good = record {
    in_memory = good.in_memory;
    lineage_fits = good.lineage_fits;
    pending_fits = good.pending_fits;
    expired_fits = good.expired_fits;
    pending_continues = good.pending_continues;
    expired_continues = good.expired_continues;
  }

  pub noted-IsGood {ℓ κ} :
      {A : Type ℓ} {B : Type κ} (s : State) (next : A → State → State) (answer : A → B)
      (r : Result A)
      → ((a : A) → IsGood c (next a s))
      → IsGood c s
      → IsGood c (changed s next answer r).1
  unfolding changed
  noted-IsGood s next answer (ok a) kept good = kept a
  noted-IsGood s next answer (err e) kept good = good

  pub proposed-IsGood :
      (policy : ReviewPolicy) (as_text : Json → String) (proposal : Json) (health : State → Json)
      (internal_events : Items) (telemetry : Json) (now : ℕ) (s : State)
      → IsGood c s
      → IsGood c
          (issue_self_healing_proposal c policy as_text proposal health internal_events telemetry
            now s).1
  unfolding issue_self_healing_proposal change
  proposed-IsGood policy as_text proposal health internal_events telemetry now s good =
      noted-IsGood s (add_proposal c policy as_text) (λ envelope. envelope)
        (proposal_for c policy as_text proposal health internal_events telemetry now s)
        (λ envelope.
          untouched s.transferred_state s.latest_preapproval _ s.genesis_self_adjudications
            s.replica_role s.replica_peer s good)
        good

  pub promoted-IsGood : (s : State) → IsGood c s → IsGood c (promote_replica_to_primary s).1
  unfolding promote_replica_to_primary change
  promoted-IsGood s good =
      noted-IsGood s (λ _. promoted) (λ _. tt) (may_promote s)
        (λ u.
          untouched s.transferred_state s.latest_preapproval s.self_healing_proposals
            s.genesis_self_adjudications _ _ s good)
        good

  pub adjudicated-IsGood :
      (digest : String) (expires_at : Json) (s : State)
      → IsGood c s
      → IsGood c (record_genesis_self_adjudication digest expires_at s).1
  unfolding record_genesis_self_adjudication
  adjudicated-IsGood digest expires_at s good =
      elim (Bool-cases (is_status s.status inactive && is_empty s.lineage)) [
        | inl e ↦ rw e (
            untouched s.transferred_state s.latest_preapproval s.self_healing_proposals _
              s.replica_role s.replica_peer s good)
        | inr e ↦ rw e good
      ]

  newer-IsGood :
      (tenant : String) (o : Option AdmittedTenant) (s : State)
      → IsGood c s
      → IsGood c (with_newer tenant o s)
  unfolding with_newer
  newer-IsGood tenant none s good = good
  newer-IsGood tenant (some t) s good =
      untouched _ s.latest_preapproval s.self_healing_proposals s.genesis_self_adjudications
        s.replica_role s.replica_peer s good

  pub accepted-IsGood :
      (tenant : String) (version route_digest : Json) (s : State)
      → IsGood c s
      → IsGood c (record_accepted_route_version tenant version route_digest s)
  unfolding record_accepted_route_version
  accepted-IsGood tenant version route_digest s good = newer-IsGood tenant _ s good

  module _ (replicate : State → Result (Unit {0})) where
    pub preapproved-IsGood :
        (sound : IsSound c) (policy : ReviewPolicy)
        (candidate checks decision response_digest : Json) (by : Authorization) (now : ℕ)
        (s : State)
        → IsGood c s
        → IsGood c
            (issue_preapproval_certificate c policy replicate candidate checks decision
              response_digest by now s).1
    unfolding issue_preapproval_certificate
    preapproved-IsGood sound policy candidate checks decision response_digest by now s good =
        continue-IsGood c sound _ _ s good λ envelope h.
          commit-change-IsGood c replicate _ (λ _. keep_preapproval envelope) _ s good
            λ u k. (
              refl,
              untouched s.transferred_state (some envelope) s.self_healing_proposals
                  s.genesis_self_adjudications s.replica_role s.replica_peer s good,
            )

    pub admitted-IsGood :
        (sound : IsSound c) (input proof : Json) (ttl now : ℕ) (s : State)
        → IsGood c s
        → IsGood c (issue_tenant_admission_certificate c replicate input proof ttl now s).1
    unfolding issue_tenant_admission_certificate record_tenant_admission
    admitted-IsGood sound input proof ttl now s good =
        continue-IsGood c sound _ _ s good λ envelope h.
          commit-change-IsGood c replicate _ (λ _. record_tenant_admission envelope now) _ s good
            λ u k. (
              refl,
              untouched _ s.latest_preapproval s.self_healing_proposals s.genesis_self_adjudications
                  s.replica_role s.replica_peer s good,
            )
