-- ===== src/Tests/Handoff.antt =====
-- The handoff from a replica after its genesis.
use auth_broker_tee.Base.{
  if◌then◌else◌, str_eq, String, Bool, true, Option, none, some, [], ◌∷◌, ◌++◌, Result, ok, err,
  ◌≡◌, refl,
}
use auth_broker_tee.Governance.{
  State, commit, export_replica_snapshot, active, activating_successor, PendingActivation,
}
use auth_broker_tee.Governance.Commit.{commit-err, commit-ok, retaken}
use auth_broker_tee.Governance.Invariant.{IsGood}
use auth_broker_tee.Governance.Activation.Steps.{abort_activation}
use auth_broker_tee.Governance.Activation.Aborts.{MayAbort, abort_activation-authorized}
use auth_broker_tee.Json.{Json, null}
use auth_broker_tee.Json.{str}
use auth_broker_tee.Certificates.Signing.{sign_activation_proof_certificate}
use auth_broker_tee.Governance.{retired}
use auth_broker_tee.Governance.Activation.{lineage_digest}
use auth_broker_tee.Governance.Activation.Checks.{pending_to_finalize}
use auth_broker_tee.Governance.Activation.Steps.{finalize_activation}
use auth_broker_tee.Governance.Activation.Finalizes.{IsProof, finalize_activation-proved}
use auth_broker_tee.Tests.Setup.{keys}
use auth_broker_tee.Governance.Protocol.{stopped, stepped, aborted, Run-IsGood}
use auth_broker_tee.Tests.Setup.{
  toy, toy-IsSound, fixed_cipher, no_state, policy, environment, certified, certified-IsGood,
  predecessor, certify, acknowledge, some_digest,
}

Run-IsGood_example :
    IsGood toy (abort_activation toy environment none true (some some_digest) 2000000 certified).1
Run-IsGood_example =
    Run-IsGood toy (fixed_cipher no_state) policy environment toy-IsSound
      (stepped (stopped refl) (aborted none true (some some_digest) 2000000 refl)) certified-IsGood

abbrev refuse_change : State → Result (Unit {0})
refuse_change s = err "no custodian"

commit-err_example :
    export_replica_snapshot (commit refuse_change certify predecessor).1 ≡ retaken predecessor
unfolding commit auth_broker_tee.Governance.Activation.Steps.certify_successor
    auth_broker_tee.Governance.change auth_broker_tee.Governance.Activation.Steps.certificate_for
    auth_broker_tee.Governance.Activation.assert_active
    auth_broker_tee.Certificates.Signing.sign_successor_certificate
    auth_broker_tee.Certificates.require_digest auth_broker_tee.Json.get auth_broker_tee.Json.fields
    auth_broker_tee.Patterns.is_digest
commit-err_example = commit-err refuse_change certify predecessor refl

commit-ok_example :
    ((certify predecessor).0 ≡ (commit acknowledge certify predecessor).0)
    × (acknowledge certified ≡ ok tt)
    × (record (certify predecessor).1 { replica_serial = 1 } ≡ certified)
unfolding commit auth_broker_tee.Governance.Activation.Steps.certify_successor
    auth_broker_tee.Governance.change auth_broker_tee.Governance.Activation.Steps.certificate_for
    auth_broker_tee.Governance.Activation.assert_active
    auth_broker_tee.Certificates.Signing.sign_successor_certificate
    auth_broker_tee.Certificates.require_digest auth_broker_tee.Json.get auth_broker_tee.Json.fields
    auth_broker_tee.Patterns.is_digest auth_broker_tee.Governance.initialize_governance
commit-ok_example = commit-ok acknowledge certify predecessor refl

abort_activation-authorized_example :
    (p : PendingActivation) × (reason : String) × (certified.status ≡ activating_successor)
    × (certified.pending_successor_activation ≡ some p)
    × (p.activation_proof ≡ none)
    × (p.activation_nonce ≡ some_digest)
    × MayAbort toy p none (some some_digest) 2000000 reason
    × ((abort_activation toy environment none true (some some_digest) 2000000 certified).1.status
        ≡ active)
    × ((abort_activation toy environment none true
          (some some_digest)
          2000000
          certified).1.pending_successor_activation
        ≡ none)
    × ((abort_activation toy environment none true
          (some some_digest)
          2000000
          certified).1.expired_successor_activation
        ≡ (if str_eq reason "expired" then some p else none))
unfolding auth_broker_tee.Governance.Activation.Checks.too_early auth_broker_tee.Crypto.digest
    auth_broker_tee.Crypto.sign_governance_payload
    auth_broker_tee.Governance.Activation.Steps.abortable
    auth_broker_tee.Governance.Activation.is_status auth_broker_tee.Governance.changed
    auth_broker_tee.Governance.settle auth_broker_tee.Json.date_parse auth_broker_tee.Json.get_field
    abort_activation auth_broker_tee.Governance.continue commit
    auth_broker_tee.Governance.Activation.Steps.abort_pending auth_broker_tee.Governance.change
    auth_broker_tee.Governance.Activation.Steps.abort_of
    auth_broker_tee.Governance.Activation.Steps.certify_successor
    auth_broker_tee.Governance.Activation.Steps.certificate_for
    auth_broker_tee.Governance.Activation.assert_active
    auth_broker_tee.Certificates.Signing.sign_successor_certificate
    auth_broker_tee.Certificates.require_digest auth_broker_tee.Json.get auth_broker_tee.Json.fields
    auth_broker_tee.Patterns.is_digest auth_broker_tee.Governance.Activation.Checks.abort_reason
    auth_broker_tee.Governance.Activation.Checks.names
abort_activation-authorized_example =
    abort_activation-authorized toy environment none true (some some_digest) 2000000 certified refl

abbrev certificate_of : Option PendingActivation → Json
certificate_of none = null
certificate_of (some p) = p.successor_certificate

-- The candidate's proof, at the time 3000.
abbrev activation_proof : Json
activation_proof =
    elim (sign_activation_proof_certificate toy (keys "g2" "a2") 2 (str some_digest)
      (str some_digest) (str some_digest)
      (lineage_digest toy
        (certified.lineage ++ certificate_of certified.pending_successor_activation ∷ []))
      3000) [ ok proof ↦ proof | err e ↦ null ]

abbrev retirement : Json
retirement = elim (finalize_activation toy environment activation_proof 4000 certified).0 [
  | ok certificate ↦ certificate
  | err e ↦ null
]

finalize_activation-proved_example :
    (found : Bool × PendingActivation) × (pending_to_finalize certified ≡ ok found)
    × IsProof toy certified found.1 activation_proof
    × ((finalize_activation toy environment activation_proof 4000 certified).1.status ≡ retired)
    × ((finalize_activation toy environment activation_proof 4000
          certified).1.pending_successor_activation
        ≡ none)
    × ((finalize_activation toy environment activation_proof 4000
          certified).1.latest_retirement_certificate
        ≡ some retirement)
unfolding lineage_digest auth_broker_tee.Governance.initialize_governance finalize_activation
    auth_broker_tee.Governance.continue auth_broker_tee.Governance.Activation.Checks.check_proof
    pending_to_finalize commit auth_broker_tee.Governance.Activation.Steps.certify_successor
    auth_broker_tee.Governance.change auth_broker_tee.Governance.Activation.Steps.certificate_for
    auth_broker_tee.Governance.Activation.assert_active
    auth_broker_tee.Certificates.Signing.sign_successor_certificate
    auth_broker_tee.Certificates.require_digest auth_broker_tee.Json.get auth_broker_tee.Json.fields
    auth_broker_tee.Patterns.is_digest auth_broker_tee.Json.truthy
    auth_broker_tee.Crypto.sign_governance_payload auth_broker_tee.Crypto.verify_governance_envelope
    auth_broker_tee.Certificates.Signing.sign_retirement_certificate
    auth_broker_tee.Certificates.last auth_broker_tee.Certificates.verify_genesis
    auth_broker_tee.Certificates.verify_lineage auth_broker_tee.Certificates.verify_successor
    auth_broker_tee.Certificates.verify_successors auth_broker_tee.Crypto.digest
    auth_broker_tee.Crypto.is_expired auth_broker_tee.Crypto.key_id auth_broker_tee.Crypto.reached
    auth_broker_tee.Crypto.signature_holds auth_broker_tee.Governance.Activation.Checks.after_end
    auth_broker_tee.Governance.Activation.Checks.before_start
    auth_broker_tee.Governance.Activation.Checks.finalizable
    auth_broker_tee.Governance.Activation.Checks.proved_in_time
    auth_broker_tee.Governance.Activation.Checks.within
    auth_broker_tee.Governance.Activation.Steps.is_pending
    auth_broker_tee.Governance.Activation.Steps.needs_proof
    auth_broker_tee.Governance.Activation.Steps.record_first
    auth_broker_tee.Governance.Activation.Steps.record_proof
    auth_broker_tee.Governance.Activation.Steps.retire_for
    auth_broker_tee.Governance.Activation.Steps.retire_found
    auth_broker_tee.Governance.Activation.Steps.retirement_for
    auth_broker_tee.Governance.Activation.Steps.still_finalizable
    auth_broker_tee.Governance.Activation.Steps.with_recorded_proof
    auth_broker_tee.Governance.Activation.assert_entries
    auth_broker_tee.Governance.Activation.is_status auth_broker_tee.Governance.changed
    auth_broker_tee.Governance.settle auth_broker_tee.Json.date_parse auth_broker_tee.Json.get_field
    auth_broker_tee.Json.is_object auth_broker_tee.Json.is_string auth_broker_tee.Json.same
    auth_broker_tee.Certificates.Signing.sign_activation_proof_certificate
    auth_broker_tee.Certificates.Signing.sign_genesis_certificate
finalize_activation-proved_example =
    finalize_activation-proved toy environment activation_proof 4000 certified refl
