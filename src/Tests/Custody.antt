-- ===== src/Tests/Custody.antt =====
-- Two replicas that share the lineage key: the primary replicates a change, the custodian takes over, and
-- a fresh replica is re-keyed.
use auth_broker_tee.Base.{
  ℕ, ◌+◌, ◌≤◌, ◌<◌, true, false, none, some, [], ◌∷◌, Result, ok, err, ◌≡◌, refl, arith, ◌⊎◌,
}
use auth_broker_tee.Json.{Json, null, str, num, time, object, date_parse}
use auth_broker_tee.Governance.{
  State, M, primary, custodian, Peer, active, export_replica_snapshot, initialize_governance,
}
use auth_broker_tee.Governance.Sealing.{Cipher, replica_snapshot}
use auth_broker_tee.Governance.Activation.{is_status}
use auth_broker_tee.Governance.Replica.{is_custodian, promoted}
use auth_broker_tee.Custody.{Node, Config, Health, promotion_quiet_ms, promotion_probes}
use auth_broker_tee.Custody.Challenges.{
  IsBounded, issue_custody_challenge, consume_custody_challenge, issue-consume-IsBounded,
  consume_custody_challenge-once,
}
use auth_broker_tee.Custody.Sync.{sync_bundle, receive_sync_bundle}
use auth_broker_tee.Custody.Mirrored.{commit-mirrored}
use auth_broker_tee.Custody.Exchange.{contact_time, serves_as_primary, promote_to_primary}
use auth_broker_tee.Custody.Takeover.{promote_to_primary-quiet}
use auth_broker_tee.Tests.Setup.{
  toy, keys, keys-IsInMemory, predecessor, fixed_cipher, fixed-IsCipher,
}

abbrev peer : Peer
peer = record {
  instance_name = str "auth-broker-tee-b";
  activation_public_key_pem = str "a9";
  activation_key_id = str "sha256:a9";
  role = custodian;
  sync_url = some "http://10.0.0.2:8080";
}

abbrev leading : State
leading = record predecessor { replica_role = some primary; replica_peer = some peer }

-- The same state after a commit that changes nothing.
abbrev released : State
released = record leading { replica_serial = 1 }

abbrev cipher : Cipher
cipher = fixed_cipher (replica_snapshot (export_replica_snapshot released))

abbrev following : State
following = record predecessor { key_material = keys "g1" "a9"; replica_role = some custodian }

abbrev quiet : Health
quiet = record {
  last_acknowledged_at = null;
  peer_serial = null;
  last_primary_contact_at = time 1000;
  last_error = null;
}

abbrev pub node : Node
node = record {
  state = following;
  open_challenges = ("c1", 5000) ∷ [];
  health = quiet;
  background_sync_due = false;
}

abbrev nothing : M (Unit {0})
nothing s = (ok tt, s)

commit-mirrored_example :
    export_replica_snapshot
      (receive_sync_bundle toy cipher (sync_bundle toy cipher peer 2000 released) 2000 node).1.state
    ≡ export_replica_snapshot released
unfolding auth_broker_tee.Json.Order.text_le auth_broker_tee.Custody.is_primary
    auth_broker_tee.Custody.Sync.has_sync_url auth_broker_tee.Custody.Sync.sync_aad
    auth_broker_tee.Custody.Sync.sync_bundle auth_broker_tee.Custody.Sync.push_sync_to_peer
    auth_broker_tee.Custody.Sync.custodian_of auth_broker_tee.Custody.Sync.or_unacknowledged
    auth_broker_tee.Custody.Sync.push_to auth_broker_tee.Custody.Sync.replicate_to_custodian
    auth_broker_tee.Custody.Sync.check_sync_bundle auth_broker_tee.Custody.Sync.synced
    auth_broker_tee.Custody.Sync.receive_checked auth_broker_tee.Custody.Sync.receive_sync_bundle
    auth_broker_tee.Governance.Replica.is_custodian auth_broker_tee.Governance.Replica.snapshot_of
    auth_broker_tee.Governance.Replica.verify_replica_snapshot
    auth_broker_tee.Governance.Replica.build_replica_sync
    auth_broker_tee.Governance.Replica.sync_for
    auth_broker_tee.Governance.Replica.apply_replica_sync
    auth_broker_tee.Governance.Sealing.encrypt_state_envelope
    auth_broker_tee.Governance.Sealing.decrypt_state_envelope
    auth_broker_tee.Governance.Sealing.decrypt_state
    auth_broker_tee.Governance.initialize_governance auth_broker_tee.Governance.change
    auth_broker_tee.Governance.commit auth_broker_tee.Governance.Activation.is_status
    auth_broker_tee.Governance.Activation.lineage_digest auth_broker_tee.Json.get
    auth_broker_tee.Json.truthy auth_broker_tee.Json.same auth_broker_tee.Json.is_object
    auth_broker_tee.Json.is_string auth_broker_tee.Json.date_parse auth_broker_tee.Json.fields
    auth_broker_tee.Certificates.verify_successors auth_broker_tee.Certificates.verify_genesis
    auth_broker_tee.Certificates.verify_lineage auth_broker_tee.Crypto.is_expired
    auth_broker_tee.Crypto.digest auth_broker_tee.Crypto.key_id
    auth_broker_tee.Crypto.sign_governance_payload auth_broker_tee.Crypto.signature_holds
    auth_broker_tee.Crypto.verify_governance_envelope
    auth_broker_tee.Certificates.Signing.sign_genesis_certificate
commit-mirrored_example =
    commit-mirrored toy cipher 2000 nothing leading released node peer tt refl refl refl refl
      (keys-IsInMemory "g1" "a1") (keys-IsInMemory "g1" "a9")
      (fixed-IsCipher (replica_snapshot (export_replica_snapshot released)))

one_open : IsBounded node.open_challenges
one_open = ((refl, tt), omega arith)

issue-consume-IsBounded_example :
    IsBounded (issue_custody_challenge following "c2" 2000 node.open_challenges).1
    × IsBounded (consume_custody_challenge "c2" 2000 node.open_challenges).1
issue-consume-IsBounded_example =
    issue-consume-IsBounded following "c2" 2000 node.open_challenges one_open

consume_custody_challenge-once_example :
    (consume_custody_challenge "c1" 3000
      (consume_custody_challenge "c1" 2000 node.open_challenges).1).0
    ≡ err "unknown or expired custody challenge"
consume_custody_challenge-once_example =
    consume_custody_challenge-once "c1" 2000 3000 node.open_challenges one_open

abbrev pub config : Config
config = record {
  boot_role = custodian;
  peer_url = some "http://10.0.0.1:8080";
  peer_instance = str "auth-broker-tee-a";
}

abbrev pub silence : ℕ → Result Json
silence probe = err "no answer"

promote_to_primary-quiet_example :
    (is_custodian node.state.replica_role ≡ true)
    × (is_status node.state.status active ≡ true)
    × (contact_time (date_parse node.health.last_primary_contact_at) + promotion_quiet_ms ≤ 200000)
    × ((config.peer_url ≡ none)
        ⊎ ((i : ℕ) → i < promotion_probes → serves_as_primary (silence i) ≡ false))
    × ((promote_to_primary config silence 200000 node).1.state ≡ promoted node.state)
unfolding auth_broker_tee.Custody.Exchange.serves_as_primary
    auth_broker_tee.Custody.Exchange.probe_peer auth_broker_tee.Custody.Exchange.probe_configured
    auth_broker_tee.Custody.Exchange.contact_time auth_broker_tee.Custody.Exchange.may_take_over
    auth_broker_tee.Custody.Exchange.take_over auth_broker_tee.Custody.Exchange.promote_to_primary
    auth_broker_tee.Governance.Replica.is_custodian auth_broker_tee.Governance.Replica.may_promote
    auth_broker_tee.Governance.Replica.promote_replica_to_primary auth_broker_tee.Governance.change
    auth_broker_tee.Governance.Activation.assert_active auth_broker_tee.Json.date_parse
promote_to_primary-quiet_example = promote_to_primary-quiet config silence 200000 node refl
