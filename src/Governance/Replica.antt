-- ===== src/Governance/Replica.antt =====
-- src/governance-state.js: the custody of the lineage key by two replicas. The primary seals its key
-- and its snapshot to a fresh replica, sends each change to the custodian, and the custodian may be
-- promoted. The manifest that two of the functions return is left out; a role is one of the two by
-- its type.
pub mod Custody
use auth_broker_tee.Base.{
  ℕ, String, Bool, true, false, Option, none, some, List, [], ◌&&◌, ◌||◌, not, leb, ltb, length,
  take, str_eq, ◌==◌, Result, ok, err, ◌>>=◌, ◌>>◌, guard,
}
use auth_broker_tee.Json.{Json, str, get, same}
use auth_broker_tee.Crypto.{Crypto, KeyMaterial, key_id}
use auth_broker_tee.Certificates.{Verified, verify_lineage}
use auth_broker_tee.Governance.{
  active, inactive, activating_successor, Role, primary, custodian, State, Snapshot, Status, M,
  change, export_replica_snapshot, apply_replica_snapshot,
}
use auth_broker_tee.Governance.Sealing.{
  Plain, transferable, custody_transfer, replica_snapshot, Cipher, encrypt_state_envelope,
  decrypt_state, accept_custody_transfer,
}
use auth_broker_tee.Governance.Activation.{is_status, is_empty, assert_enclave_key, lineage_digest}

unfoldable pub is_custodian : Option Role → Bool
is_custodian (some custodian) = true
is_custodian (some primary) = false
is_custodian none = false

-- `isGovernanceKeyHolder`
unfoldable pub is_governance_key_holder : State → Bool
is_governance_key_holder s = is_status s.status active || is_status s.status activating_successor

unfoldable pub snapshot_of : Plain → Result Snapshot
snapshot_of (replica_snapshot t) = ok t
snapshot_of (custody_transfer _ _) = err "replica snapshot schema mismatch"
snapshot_of (transferable _ _ _) = err "replica snapshot schema mismatch"

module _ (c : Crypto) where
  -- `verifyReplicaSnapshot`
  unfoldable pub verify_replica_snapshot : Snapshot → ℕ → Result Verified
  verify_replica_snapshot t now = do
    guard (not (is_status t.status inactive)) "replica snapshot has unexpected status"
    verified ← verify_lineage c now t.lineage false
    guard (verified.current_epoch == t.epoch) "replica snapshot epoch does not match its lineage"
    ok verified

  module _ (z : Cipher) where
    -- `buildReplicaCustodyTransfer`
    unfoldable pub build_replica_custody_transfer : Bool → Json → Json → State → Result Json
    unfolding is_governance_key_holder export_replica_snapshot
    build_replica_custody_transfer production recipient aad s = do
      guard (is_governance_key_holder s) "replica custody requires a live lineage key holder"
      assert_enclave_key production s
      ok (
          encrypt_state_envelope c z s.key_material recipient
            (custody_transfer s.key_material.signing_key (export_replica_snapshot s)) aad)

    -- What `applyReplicaCustodyTransfer` installs, once its checks have passed.
    unfoldable pub custody_for : Json → Json → Json → ℕ → State → Result (KeyMaterial × Snapshot)
    custody_for encrypted aad expected now s = do
      guard (is_status s.status inactive && is_empty s.lineage)
          "replica custody can only be applied by a fresh inactive replica"
      accepted ← accept_custody_transfer c z s.key_material encrypted aad
      guard (same (str accepted.0.governance_key_id) expected)
          "replica custody key is not the sender's attested key"
      verified ← verify_replica_snapshot accepted.1 now
      id ← key_id c verified.current_governance_public_key_pem
      guard (str_eq id accepted.0.governance_key_id)
          "replica custody key is not the key the lineage names"
      guard (same (lineage_digest c accepted.1.lineage) (get "lineageDigest" aad))
          "replica custody lineage does not match its binding"
      ok accepted

    abbrev pub take_custody : Role → KeyMaterial × Snapshot → State → State
    take_custody role accepted s = record (apply_replica_snapshot s accepted.1) {
      key_material = accepted.0;
      replica_role = some role;
      pending_activation_challenges = [];
    }

    -- `applyReplicaCustodyTransfer`
    unfoldable pub apply_replica_custody_transfer : Json → Json → Role → Json → ℕ → M (Unit {0})
    apply_replica_custody_transfer encrypted aad role expected now =
        change (custody_for encrypted aad expected now) (take_custody role) (λ _ _. tt)

    -- `buildReplicaSync`
    unfoldable pub build_replica_sync : Json → Json → State → Json
    unfolding export_replica_snapshot
    build_replica_sync recipient aad s =
        encrypt_state_envelope c z s.key_material recipient
          (replica_snapshot (export_replica_snapshot s)) aad

    -- The snapshot that `applyReplicaSync` applies, once its checks have passed.
    unfoldable pub sync_for : Json → Json → ℕ → State → Result Snapshot
    sync_for encrypted aad now s = do
      guard (is_custodian s.replica_role) "only a custodian applies replica state sync"
      guard (not (is_status s.status inactive))
          "replica sync requires a custodian holding the lineage"
      plain ← decrypt_state c z s.key_material encrypted aad
      t ← snapshot_of plain
      verified ← verify_replica_snapshot t now
      guard (not (leb t.replica_serial s.replica_serial))
          "replica sync is not newer than the custodian's state"
      guard
          (not (ltb (length t.lineage) (length s.lineage))
            && same (lineage_digest c (take (length s.lineage) t.lineage))
                (lineage_digest c s.lineage))
          "replica sync does not extend the custodian's lineage"
      ok t

    -- `applyReplicaSync`: the status, the epoch and the serial after it.
    unfoldable pub apply_replica_sync : Json → Json → ℕ → M (Status × ℕ × ℕ)
    apply_replica_sync encrypted aad now =
        change (sync_for encrypted aad now) (λ t s. apply_replica_snapshot s t)
          (λ _ t. (t.status, t.epoch, t.replica_serial))

-- `promoteReplicaToPrimary`
unfoldable pub may_promote : State → Result (Unit {0})
may_promote s = do
  guard (is_custodian s.replica_role) "only a custodian can be promoted"
  guard (is_status s.status active) "promotion requires active governance"

abbrev pub promoted : State → State
promoted s = record s { replica_role = some primary; replica_peer = none }

unfoldable pub promote_replica_to_primary : M (Unit {0})
promote_replica_to_primary = change may_promote (λ _. promoted) (λ _ _. tt)
