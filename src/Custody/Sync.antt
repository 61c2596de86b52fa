-- ===== src/Custody/Sync.antt =====
-- src/governance-replica-custody.js: the replicator of the primary, the custodian's side of it, and the
-- heartbeats. `post` is the request to the peer.
use auth_broker_tee.Base.{
  ℕ, ◌+◌, String, Bool, true, false, Option, none, some, [], ◌∷◌, ◌&&◌, ◌||◌, ltb, Result, ok, err,
  ◌>>=◌, ◌>>◌, guard, if◌then◌else◌,
}
use auth_broker_tee.Json.{Json, undefined, null, str, num, time, object, get, truthy, same}
use auth_broker_tee.Crypto.{Crypto, sign_governance_payload, verify_governance_envelope}
use auth_broker_tee.Governance.{State, Status, Peer}
use auth_broker_tee.Governance.Sealing.{Cipher}
use auth_broker_tee.Governance.Activation.{lineage_digest}
use auth_broker_tee.Governance.Replica.{is_custodian, build_replica_sync, apply_replica_sync}
use auth_broker_tee.Custody.{
  Node, Health, sync_bundle_schema, heartbeat_schema, bundle_ttl_ms, is_primary,
}

-- `!peer?.syncUrl`
unfoldable pub has_sync_url : Option String → Bool
has_sync_url none = false
has_sync_url (some url) = truthy (str url)

-- The acknowledgement and the heartbeat's reply, as the peer wrote them.
abbrev pub acknowledged : ℕ → Json → Health → Health
acknowledged now serial h = record h {
  last_acknowledged_at = time now;
  peer_serial = serial;
  last_error = null;
}

-- `(reply?.replicaSerial ?? -1) < serial`
unfoldable pub is_behind : Json → ℕ → Bool
is_behind (num n) serial = ltb n serial
is_behind undefined serial = true
is_behind null serial = true
is_behind _ serial = false

unfoldable pub serial_or_null : Json → Json
serial_or_null undefined = null
serial_or_null v = v

module _ (c : Crypto) where
  unfoldable pub sync_aad : State → Peer → Json
  sync_aad s peer = object (
      ("schema", str sync_bundle_schema)
      ∷ ("lineageDigest", lineage_digest c s.lineage)
      ∷ ("epoch", num s.epoch)
      ∷ ("imageDigest", s.image_digest)
      ∷ ("replicaSerial", num s.replica_serial)
      ∷ ("recipientActivationKeyId", peer.activation_key_id)
      ∷ [])

  -- The heartbeat of `sendHeartbeatToPeer`.
  unfoldable pub heartbeat_for : Peer → ℕ → State → Json
  heartbeat_for peer now s =
      sign_governance_payload c
        (object (
          ("schema", str heartbeat_schema)
          ∷ ("imageDigest", s.image_digest)
          ∷ ("lineageDigest", lineage_digest c s.lineage)
          ∷ ("replicaSerial", num s.replica_serial)
          ∷ ("recipientActivationKeyId", peer.activation_key_id)
          ∷ ("issuedAt", time now)
          ∷ ("expiresAt", time (now + bundle_ttl_ms))
          ∷ []))
        s.key_material

  -- What is done with the peer's reply.
  unfoldable pub replied : ℕ → Result Json → Node → Result Json × Node
  replied now (err e) n = (err e, n)
  replied now (ok reply) n = (
    ok reply,
    record n {
      health = acknowledged now (serial_or_null (get "replicaSerial" reply)) n.health;
      background_sync_due =
          n.background_sync_due || is_behind (get "replicaSerial" reply) n.state.replica_serial;
    },
  )

  unfoldable pub heartbeat_to : (Json → Result Json) → ℕ → Option Peer → Node → Result Json × Node
  heartbeat_to post now none n = (ok null, n)
  heartbeat_to post now (some peer) n =
      if is_primary n.state.replica_role
        && has_sync_url peer.sync_url
        && truthy peer.activation_key_id
      then replied now (post (heartbeat_for peer now n.state)) n
      else (ok null, n)

  -- `sendHeartbeatToPeer`
  unfoldable pub send_heartbeat_to_peer : (Json → Result Json) → ℕ → Node → Result Json × Node
  send_heartbeat_to_peer post now n = heartbeat_to post now n.state.replica_peer n

  unfoldable pub check_heartbeat : Json → ℕ → State → Result Json
  check_heartbeat heartbeat now s = do
    guard (is_custodian s.replica_role) "only a custodian accepts replica heartbeats"
    payload ←
        verify_governance_envelope c heartbeat (str s.key_material.governance_public_key_pem) now
          true
    guard
        (same (get "schema" payload) (str heartbeat_schema)
          && same (get "imageDigest" payload) s.image_digest
          && same (get "recipientActivationKeyId" payload) (str s.key_material.activation_key_id))
        "replica heartbeat is not addressed to this custodian"
    ok payload

  abbrev pub heard : ℕ → Node → Node
  heard now n =
      let h : Health = record n.health { last_primary_contact_at = time now } in
      record n { health = h }

  -- `receiveHeartbeat`: the status and the serial.
  unfoldable pub receive_heartbeat : Json → ℕ → Node → Result (Status × ℕ) × Node
  receive_heartbeat heartbeat now n = elim (check_heartbeat heartbeat now n.state) [
    | err e ↦ (err e, n)
    | ok payload ↦ (ok (n.state.status, n.state.replica_serial), heard now n)
  ]

  module _ (z : Cipher) where
    -- The bundle of `pushSyncToPeer`.
    unfoldable pub sync_bundle : Peer → ℕ → State → Json
    sync_bundle peer now s =
        sign_governance_payload c
          (object (
            ("schema", str sync_bundle_schema)
            ∷ ("aad", sync_aad s peer)
            ∷ (
              "encryptedState",
              build_replica_sync c z peer.activation_public_key_pem (sync_aad s peer) s,
            )
            ∷ ("issuedAt", time now)
            ∷ ("expiresAt", time (now + bundle_ttl_ms))
            ∷ []))
          s.key_material

    -- `pushSyncToPeer`, less what it records.
    unfoldable pub push_sync_to_peer : (Json → Result Json) → ℕ → Peer → State → Result (Unit {0})
    push_sync_to_peer post now peer s = do
      answer ← post (sync_bundle peer now s)
      guard (same (get "replicaSerial" answer) (num s.replica_serial))
          "custodian acknowledged another serial"

    -- Where there is nobody to replicate to, `none`.
    unfoldable pub custodian_of : Option Peer → State → Option Peer
    custodian_of none s = none
    custodian_of (some peer) s =
        if is_primary s.replica_role
          && has_sync_url peer.sync_url
          && truthy peer.activation_public_key_pem
        then some peer
        else none

    -- The `catch` of `replicateToCustodian`.
    unfoldable pub or_unacknowledged : Result (Unit {0}) → Result (Unit {0})
    or_unacknowledged (ok u) = ok tt
    or_unacknowledged (err e) = err "governance change was not acknowledged by the custodian"

    unfoldable pub push_to : (Json → Result Json) → ℕ → Option Peer → State → Result (Unit {0})
    push_to post now none s = ok tt
    push_to post now (some peer) s = or_unacknowledged (push_sync_to_peer post now peer s)

    -- `replicateToCustodian` as the replicator of a commit: its outcome for a state.
    unfoldable pub replicate_to_custodian : (Json → Result Json) → ℕ → State → Result (Unit {0})
    replicate_to_custodian post now s = push_to post now (custodian_of s.replica_peer s) s

    -- The checks of `receiveSyncBundle`: the encrypted state and its associated data.
    unfoldable pub check_sync_bundle : Json → ℕ → State → Result (Json × Json)
    check_sync_bundle bundle now s = do
      guard (is_custodian s.replica_role) "only a custodian accepts replica state sync"
      payload ←
          verify_governance_envelope c bundle (str s.key_material.governance_public_key_pem) now
            true
      let aad = get "aad" payload
      guard
          (same (get "schema" payload) (str sync_bundle_schema)
            && same (get "schema" aad) (str sync_bundle_schema))
          "replica sync bundle schema mismatch"
      guard
          (same (get "imageDigest" aad) s.image_digest
            && same (get "recipientActivationKeyId" aad) (str s.key_material.activation_key_id))
          "replica sync is not addressed to this custodian"
      ok (get "encryptedState" payload, aad)

    -- What the node keeps of a sync.
    unfoldable pub synced :
        ℕ → Node → Result (Status × ℕ × ℕ) × State → Result (Status × ℕ × ℕ) × Node
    synced now n (err e, s) = (err e, record n { state = s })
    synced now n (ok (status, epoch, serial), s) =
        let h : Health = record n.health {
          last_primary_contact_at = time now;
          peer_serial = num serial;
          last_error = null;
        } in
        (ok (status, epoch, serial), record n { state = s; health = h })

    unfoldable pub receive_checked :
        ℕ → Node → Result (Json × Json) → Result (Status × ℕ × ℕ) × Node
    receive_checked now n (err e) = (err e, n)
    receive_checked now n (ok (encrypted, aad)) =
        synced now n (apply_replica_sync c z encrypted aad now n.state)

    -- `receiveSyncBundle`: the status, the epoch and the serial.
    unfoldable pub receive_sync_bundle : Json → ℕ → Node → Result (Status × ℕ × ℕ) × Node
    receive_sync_bundle bundle now n = receive_checked now n (check_sync_bundle bundle now n.state)
