-- ===== src/Tests/Replica.antt =====
-- A custodian that receives a change, is promoted, and a fresh replica that takes custody.
use auth_broker_tee.Base.{ℕ, some, [], ◌∷◌, err, ◌≡◌, refl}
use auth_broker_tee.Json.{Json, str, object}
use auth_broker_tee.Crypto.{KeyMaterial}
use auth_broker_tee.Governance.{
  State, Snapshot, Status, custodian, primary, initialize_governance, export_replica_snapshot,
  apply_replica_snapshot,
}
use auth_broker_tee.Governance.Sealing.{
  Plain, replica_snapshot, custody_transfer, encrypt_state_envelope,
}
use auth_broker_tee.Governance.Replica.{
  apply_replica_sync, promote_replica_to_primary, apply_replica_custody_transfer, take_custody,
}
use auth_broker_tee.Governance.Replica.Custody.{
  Extends, apply_replica_sync-Extends, promoted-refuses, IsCustody, Holds,
  apply_replica_custody_transfer-IsCustody,
}
use auth_broker_tee.Tests.Setup.{toy, keys, fixed_cipher, predecessor, certified, some_digest}

abbrev binding : Json
binding = object (("lineageDigest", str some_digest) ∷ [])

abbrev holder : State
holder = record predecessor { replica_role = some custodian }

abbrev change_to_send : Plain
change_to_send = replica_snapshot (export_replica_snapshot certified)

abbrev sync : Json
sync =
    encrypt_state_envelope toy (fixed_cipher change_to_send) (keys "g1" "a1") (str "a1")
      change_to_send binding

apply_replica_sync-Extends_example :
    (t : Snapshot) × (holder.replica_role ≡ some custodian)
    × Extends toy (fixed_cipher change_to_send) holder t
    × ((apply_replica_sync toy (fixed_cipher change_to_send) sync binding 3000 holder).1
        ≡ apply_replica_snapshot holder t)
    × (◌≡◌ {A = Status × ℕ × ℕ}
        (t.status, t.epoch, t.replica_serial)
        (certified.status, certified.epoch, certified.replica_serial))
unfolding auth_broker_tee.Json.Order.text_le auth_broker_tee.Governance.change
    auth_broker_tee.Governance.changed auth_broker_tee.Governance.Replica.may_promote
    auth_broker_tee.Governance.Replica.is_custodian auth_broker_tee.Governance.Activation.is_status
    auth_broker_tee.Governance.Activation.is_empty
    auth_broker_tee.Governance.Activation.lineage_digest
    auth_broker_tee.Governance.Sealing.encrypt_state_envelope
    auth_broker_tee.Governance.Sealing.decrypt_state
    auth_broker_tee.Governance.Sealing.decrypt_state_envelope
    auth_broker_tee.Governance.Replica.verify_replica_snapshot auth_broker_tee.Json.get
    auth_broker_tee.Json.get_field auth_broker_tee.Json.fields auth_broker_tee.Json.same
    auth_broker_tee.Json.is_object auth_broker_tee.Json.is_string auth_broker_tee.Json.truthy
    auth_broker_tee.Crypto.digest auth_broker_tee.Crypto.key_id
    auth_broker_tee.Crypto.sign_governance_payload auth_broker_tee.Crypto.signature_holds
    auth_broker_tee.Crypto.is_expired auth_broker_tee.Crypto.verify_governance_envelope
    auth_broker_tee.Certificates.verify_lineage auth_broker_tee.Certificates.verify_genesis
    auth_broker_tee.Certificates.verify_successors auth_broker_tee.Certificates.verify_successor
    auth_broker_tee.Certificates.last auth_broker_tee.Certificates.Signing.sign_genesis_certificate
    auth_broker_tee.Certificates.require_digest
    auth_broker_tee.Certificates.Signing.sign_successor_certificate
    auth_broker_tee.Patterns.is_digest auth_broker_tee.Governance.commit
    auth_broker_tee.Governance.settle auth_broker_tee.Governance.Activation.assert_active
    auth_broker_tee.Governance.Activation.Steps.certify_successor
    auth_broker_tee.Governance.Activation.Steps.certificate_for
    auth_broker_tee.Governance.initialize_governance
    auth_broker_tee.Governance.export_replica_snapshot
    auth_broker_tee.Governance.Replica.apply_replica_sync
    auth_broker_tee.Governance.Replica.sync_for auth_broker_tee.Governance.Replica.snapshot_of
apply_replica_sync-Extends_example =
    apply_replica_sync-Extends toy (fixed_cipher change_to_send) sync binding 3000 holder refl

promoted-refuses_example :
    apply_replica_sync toy
      (fixed_cipher change_to_send)
      sync
      binding
      3000
      (promote_replica_to_primary holder).1
    ≡ (err "only a custodian applies replica state sync", (promote_replica_to_primary holder).1)
unfolding auth_broker_tee.Governance.change auth_broker_tee.Governance.changed
    auth_broker_tee.Governance.Replica.may_promote auth_broker_tee.Governance.Replica.is_custodian
    auth_broker_tee.Governance.Activation.is_status
    auth_broker_tee.Governance.Replica.promote_replica_to_primary
    auth_broker_tee.Governance.initialize_governance
promoted-refuses_example =
    promoted-refuses toy (fixed_cipher change_to_send) sync binding 3000 holder refl

abbrev fresh : State
fresh = initialize_governance (keys "g9" "a9") (str some_digest)

abbrev custody : Plain
custody = custody_transfer "g1" (export_replica_snapshot predecessor)

abbrev transfer : Json
transfer =
    encrypt_state_envelope toy (fixed_cipher custody) (keys "g1" "a1") (str "a9") custody binding

apply_replica_custody_transfer-IsCustody_example :
    (k : KeyMaterial) × (t : Snapshot) × IsCustody toy
      (fixed_cipher custody)
      fresh
      transfer
      (str "sha256:g1")
      binding
      k
      t
    × Holds toy
        (fixed_cipher custody)
        custodian
        k
        t
        (apply_replica_custody_transfer toy
          (fixed_cipher custody)
          transfer
          binding
          custodian
          (str "sha256:g1")
          3000
          fresh).1
unfolding auth_broker_tee.Json.Order.text_le auth_broker_tee.Governance.change
    auth_broker_tee.Governance.changed auth_broker_tee.Governance.Replica.may_promote
    auth_broker_tee.Governance.Replica.is_custodian auth_broker_tee.Governance.Activation.is_status
    auth_broker_tee.Governance.Activation.is_empty
    auth_broker_tee.Governance.Activation.lineage_digest
    auth_broker_tee.Governance.Sealing.encrypt_state_envelope
    auth_broker_tee.Governance.Sealing.decrypt_state
    auth_broker_tee.Governance.Sealing.decrypt_state_envelope
    auth_broker_tee.Governance.Replica.verify_replica_snapshot auth_broker_tee.Json.get
    auth_broker_tee.Json.get_field auth_broker_tee.Json.fields auth_broker_tee.Json.same
    auth_broker_tee.Json.is_object auth_broker_tee.Json.is_string auth_broker_tee.Json.truthy
    auth_broker_tee.Crypto.digest auth_broker_tee.Crypto.key_id
    auth_broker_tee.Crypto.sign_governance_payload auth_broker_tee.Crypto.signature_holds
    auth_broker_tee.Crypto.is_expired auth_broker_tee.Crypto.verify_governance_envelope
    auth_broker_tee.Certificates.verify_lineage auth_broker_tee.Certificates.verify_genesis
    auth_broker_tee.Certificates.verify_successors auth_broker_tee.Certificates.verify_successor
    auth_broker_tee.Certificates.last auth_broker_tee.Certificates.Signing.sign_genesis_certificate
    auth_broker_tee.Certificates.require_digest
    auth_broker_tee.Certificates.Signing.sign_successor_certificate
    auth_broker_tee.Patterns.is_digest auth_broker_tee.Governance.commit
    auth_broker_tee.Governance.settle auth_broker_tee.Governance.Activation.assert_active
    auth_broker_tee.Governance.Activation.Steps.certify_successor
    auth_broker_tee.Governance.Activation.Steps.certificate_for
    auth_broker_tee.Governance.initialize_governance
    auth_broker_tee.Governance.export_replica_snapshot
    auth_broker_tee.Governance.Replica.apply_replica_custody_transfer
    auth_broker_tee.Governance.Replica.custody_for
    auth_broker_tee.Governance.Sealing.accept_custody_transfer
    auth_broker_tee.Crypto.build_in_memory_key_material
apply_replica_custody_transfer-IsCustody_example =
    apply_replica_custody_transfer-IsCustody toy (fixed_cipher custody) transfer binding custodian
      (str "sha256:g1") 3000 fresh refl
