-- ===== src/Custody/Mirrored.antt =====
-- src/governance-replica-custody.js: what the custodian holds when a change of the primary is released.
use auth_broker_tee.Base.{
  String, ℕ, true, some, [], ◌∷◌, ◌&&◌, not, ◌≡◌, refl, sym, ap, subst, ◌∙◌, Result, ok, err,
  guard-ok, >>=-eq-ok, ok-injective, arith,
}
use auth_broker_tee.Json.{Json, str, num, object, get, get_field, fields, same, truthy}
use auth_broker_tee.Crypto.{Crypto, sign_governance_payload, verify_governance_envelope}
use auth_broker_tee.Crypto.Envelopes.{IsInMemory, verify-body}
use auth_broker_tee.Governance.{
  State, active, inactive, activating_successor, retired, Snapshot, Status, Peer, M, commit,
  export_replica_snapshot, apply_replica_snapshot, change,
}
use auth_broker_tee.Governance.Commit.{commit-ok}
use auth_broker_tee.Governance.Returns.{made-ok}
use auth_broker_tee.Governance.Sealing.{
  replica_snapshot, Cipher, IsCipher, decrypt_state, decrypt-encrypt, encrypt_state_envelope,
}
use auth_broker_tee.Governance.Replica.{
  is_custodian, verify_replica_snapshot, build_replica_sync, apply_replica_sync, sync_for,
  snapshot_of,
}
use auth_broker_tee.Governance.Activation.{is_status}
use auth_broker_tee.Custody.{Node, sync_bundle_schema, is_primary}
use auth_broker_tee.Custody.Sync.{
  has_sync_url, sync_aad, sync_bundle, push_sync_to_peer, custodian_of, push_to, or_unacknowledged,
  replicate_to_custodian, check_sync_bundle, synced, receive_checked, receive_sync_bundle,
}

abbrev pub status_text : Status → String
status_text active = "active"
status_text inactive = "inactive"
status_text activating_successor = "activating_successor"
status_text retired = "retired"

-- The answer of `/replica/sync` (`handleReplicaSync` of src/governance-routes.js), whose status other
-- than 200 makes the request throw.
abbrev pub sync_answer : Result (Status × ℕ × ℕ) → Result Json
sync_answer (ok (status, epoch, serial)) = ok (
    object (
      ("status", str (status_text status))
      ∷ ("epoch", num epoch)
      ∷ ("replicaSerial", num serial)
      ∷ []))
sync_answer (err e) = err e

answered :
    (r : Result (Status × ℕ × ℕ)) {answer : Json}
    → sync_answer r ≡ ok answer
    → (a : Status × ℕ × ℕ) × (r ≡ ok a)
answered (ok a) h = (a, refl)
answered (err e) h = cc

module _ (c : Crypto) (z : Cipher) (now : ℕ) where
  -- The custodian as the peer.
  abbrev pub custodian_answer : Node → Json → Result Json
  custodian_answer k bundle = sync_answer (receive_sync_bundle c z bundle now k).0

  synced-ok :
      (n : Node) (r : Result (Status × ℕ × ℕ)) (s : State) {a : Status × ℕ × ℕ}
      → (synced c z now n (r, s)).0 ≡ ok a
      → (r ≡ ok a) × ((synced c z now n (r, s)).1.state ≡ s)
  unfolding synced
  synced-ok n (ok (status, epoch, serial)) s h = (h, refl)
  synced-ok n (err e) s h = cc

  received-ok :
      (n : Node) (r : Result (Json × Json)) {a : Status × ℕ × ℕ}
      → (receive_checked c z now n r).0 ≡ ok a
      → (encrypted : Json) × (aad : Json) × (r ≡ ok (encrypted, aad))
        × ((apply_replica_sync c z encrypted aad now n.state).0 ≡ ok a)
        × ((receive_checked c z now n r).1.state
            ≡ (apply_replica_sync c z encrypted aad now n.state).1)
  unfolding receive_checked
  received-ok n (err e) h = cc
  received-ok n (ok (encrypted, aad)) h =
      let after = apply_replica_sync c z encrypted aad now n.state in
      let (applied, next) = synced-ok n after.0 after.1 h in (encrypted, aad, refl, applied, next)

  -- What is applied is what was encrypted to the custodian.
  sync_for-plain :
      (encrypted aad : Json) (k : State) (t : Snapshot) {t' : Snapshot}
      → decrypt_state c z k.key_material encrypted aad ≡ ok (replica_snapshot t)
      → sync_for c z encrypted aad now k ≡ ok t'
      → t' ≡ t
  unfolding sync_for snapshot_of
  sync_for-plain encrypted aad k t {t'} opened h =
      let (holder, r) = guard-ok (is_custodian k.replica_role) _ _ h in
      let (known, r1) = guard-ok (not (is_status k.status inactive)) _ _ r in
      let (plain, read, r2) = >>=-eq-ok (decrypt_state c z k.key_material encrypted aad) _ r1 in
      let same_plain : plain ≡ replica_snapshot t = ok-injective (sym read ∙ opened) in
      let (found, e, r3) = >>=-eq-ok (snapshot_of plain) _ r2 in
      let (v, verified, r4) = >>=-eq-ok (verify_replica_snapshot c found now) _ r3 in
      let found_t : t ≡ found = ok-injective (subst (λ x. snapshot_of x ≡ ok found) same_plain e) in
      let same_found : found ≡ t' = ground arith in sym (found_t ∙ same_found)

  applied-plain :
      (encrypted aad : Json) (k : State) (t : Snapshot) {a : Status × ℕ × ℕ}
      → decrypt_state c z k.key_material encrypted aad ≡ ok (replica_snapshot t)
      → (apply_replica_sync c z encrypted aad now k).0 ≡ ok a
      → (apply_replica_sync c z encrypted aad now k).1 ≡ apply_replica_snapshot k t
  unfolding apply_replica_sync change
  applied-plain encrypted aad k t opened h =
      let (t', allowed, _, next) =
        made-ok k (λ t s'. apply_replica_snapshot s' t) (λ t. (t.status, t.epoch, t.replica_serial))
          (sync_for c z encrypted aad now k) h in
      next ∙ ap (apply_replica_snapshot k) (sync_for-plain encrypted aad k t opened allowed)

  -- The encrypted state of a bundle and its associated data, where the bundle was accepted.
  checked-parts :
      (peer : Peer) (s k : State) {encrypted aad : Json}
      → check_sync_bundle c z (sync_bundle c z peer now s) now k ≡ ok (encrypted, aad)
      → (encrypted ≡ build_replica_sync c z peer.activation_public_key_pem (sync_aad c s peer) s)
        × (aad ≡ sync_aad c s peer)
  unfolding check_sync_bundle sync_bundle sign_governance_payload get get_field fields
  checked-parts peer s k {encrypted} {aad} h =
      let bundle = sync_bundle c z peer now s in
      let pem = str k.key_material.governance_public_key_pem in
      let (holder, r) = guard-ok (is_custodian k.replica_role) _ _ h in
      let (payload, verified, r1) =
        >>=-eq-ok (verify_governance_envelope c bundle pem now true) _ r in
      let (carried, signed, fresh) = verify-body c bundle pem now true verified in
      let (schema, r2) =
        guard-ok
          (same (get "schema" payload) (str sync_bundle_schema)
            && same (get "schema" (get "aad" payload)) (str sync_bundle_schema))
          _ _ r1 in
      let (addressed, r3) =
        guard-ok
          (same (get "imageDigest" (get "aad" payload)) k.image_digest
            && same (get "recipientActivationKeyId" (get "aad" payload))
                (str k.key_material.activation_key_id))
          _ _ r2 in
      let e : (get "encryptedState" payload, get "aad" payload) ≡ (encrypted, aad) =
        ok-injective r3 in
      (
        sym (ap (λ p. p.0) e) ∙ ap (get "encryptedState") carried,
        sym (ap (λ p. p.1) e) ∙ ap (get "aad") carried,
      )

  opened-sync :
      (recipient aad : Json) (s k : State)
      → IsCipher c z (replica_snapshot (export_replica_snapshot s))
      → IsInMemory c s.key_material
      → IsInMemory c k.key_material
      → recipient ≡ str k.key_material.activation_public_key_pem
      → decrypt_state c z k.key_material (build_replica_sync c z recipient aad s) aad
        ≡ ok (replica_snapshot (export_replica_snapshot s))
  unfolding decrypt_state build_replica_sync encrypt_state_envelope get get_field fields
  opened-sync recipient aad s k cipher own theirs addressed = rw addressed (
      (decrypt-encrypt c z (replica_snapshot (export_replica_snapshot s)) cipher s.key_material
        k.key_material aad own.exchange_half theirs.exchange_half).0)

  acknowledged-ok : (r : Result (Unit {0})) → or_unacknowledged c z r ≡ ok tt → r ≡ ok tt
  unfolding or_unacknowledged
  acknowledged-ok (ok tt) h = refl
  acknowledged-ok (err e) h = absurd cc

  copied : (k : State) (t : Snapshot) → export_replica_snapshot (apply_replica_snapshot k t) ≡ t
  unfolding export_replica_snapshot apply_replica_snapshot
  copied k t = refl

  mirrored :
      (peer : Peer) (s : State) (k : Node)
      → IsCipher c z (replica_snapshot (export_replica_snapshot s))
      → IsInMemory c s.key_material
      → IsInMemory c k.state.key_material
      → peer.activation_public_key_pem ≡ str k.state.key_material.activation_public_key_pem
      → push_sync_to_peer c z (custodian_answer k) now peer s ≡ ok tt
      → export_replica_snapshot (receive_sync_bundle c z (sync_bundle c z peer now s) now k).1.state
        ≡ export_replica_snapshot s
  unfolding push_sync_to_peer receive_sync_bundle
  mirrored peer s k cipher own theirs addressed h =
      let bundle = sync_bundle c z peer now s in
      let (answer, posted, r) = >>=-eq-ok (custodian_answer k bundle) _ h in
      let (a, received) = answered (receive_sync_bundle c z bundle now k).0 posted in
      let (encrypted, aad, checked, applied, next) =
        received-ok k (check_sync_bundle c z bundle now k.state) received in
      let (these, those) = checked-parts peer s k.state checked in
      let opened =
        opened-sync peer.activation_public_key_pem (sync_aad c s peer) s k.state cipher own theirs
          addressed in
      let t = export_replica_snapshot s in
      let read : decrypt_state c z k.state.key_material encrypted aad ≡ ok (replica_snapshot t) =
        rw (these, those) opened in
      ap export_replica_snapshot (next ∙ applied-plain encrypted aad k.state t read applied)
      ∙ copied k.state t

  -- The replicator has somebody to send to.
  custodian_of-some :
      (peer : Peer) (s : State)
      → (is_primary s.replica_role
          && has_sync_url peer.sync_url
          && truthy peer.activation_public_key_pem)
        ≡ true
      → custodian_of c z (some peer) s ≡ some peer
  unfolding custodian_of
  custodian_of-some peer s h = rw h refl

  -- A change that the primary releases is held by the custodian: when a commit returns on a primary
  -- with an enrolled peer, the custodian that received the bundle has the primary's status, epoch,
  -- lineage, route policy, pending activation and serial. The keys are held in memory, the peer is
  -- recorded under the custodian's activation key, and the cipher decrypts what it encrypts.
  pub commit-mirrored {ℓ} :
      {A : Type ℓ} (mutate : M A) (s s' : State) (k : Node) (peer : Peer) (a : A)
      → commit (replicate_to_custodian c z (custodian_answer k) now) mutate s ≡ (ok a, s')
      → s'.replica_peer ≡ some peer
      → (is_primary s'.replica_role
          && has_sync_url peer.sync_url
          && truthy peer.activation_public_key_pem)
        ≡ true
      → peer.activation_public_key_pem ≡ str k.state.key_material.activation_public_key_pem
      → IsInMemory c s'.key_material
      → IsInMemory c k.state.key_material
      → IsCipher c z (replica_snapshot (export_replica_snapshot s'))
      → export_replica_snapshot
          (receive_sync_bundle c z (sync_bundle c z peer now s') now k).1.state
        ≡ export_replica_snapshot s'
  unfolding replicate_to_custodian push_to
  commit-mirrored mutate s s' k peer a h enrolled reachable addressed own theirs cipher =
      let replicate = replicate_to_custodian c z (custodian_answer k) now in
      let (made, acknowledged, state) = commit-ok replicate mutate s h in
      let target : custodian_of c z s'.replica_peer s' ≡ some peer =
        ap (λ p. custodian_of c z p s') enrolled ∙ custodian_of-some peer s' reachable in
      let pushed : push_to c z (custodian_answer k) now (some peer) s' ≡ ok tt =
        subst (λ p. push_to c z (custodian_answer k) now p s' ≡ ok tt) target acknowledged in
      mirrored peer s' k cipher own theirs addressed (acknowledged-ok _ pushed)
