-- ===== src/Governance/Replica/Custody.antt =====
-- src/governance-state.js: what a replica holds after a custody transfer, a sync or a promotion.
use auth_broker_tee.Base.{
  ℕ, ◌≤◌, ◌<◌, true, false, Option, none, some, ◌&&◌, not, length, take, ◌≡◌, refl, ap, ◌∙◌, subst,
  ok, err, guard-ok, >>=-eq-ok, arith, String, str_eq, eq_iff, sym, [], or_throw, ok-injective,
}
use auth_broker_tee.Json.{Json, str, get, same}
use auth_broker_tee.Crypto.{Crypto, KeyMaterial, key_id, build_in_memory_key_material}
use auth_broker_tee.Crypto.Envelopes.{IsInMemory, build-IsInMemory}
use auth_broker_tee.Certificates.{Verified, verify_lineage}
use auth_broker_tee.Certificates.Lineage.{Chain, verify_lineage-Chain}
use auth_broker_tee.Governance.{
  inactive, Role, primary, custodian, State, Snapshot, Status, change, changed,
  apply_replica_snapshot, export_replica_snapshot,
}
use auth_broker_tee.Governance.Returns.{made-ok}
use auth_broker_tee.Governance.Sealing.{
  Cipher, Plain, transferable, custody_transfer, replica_snapshot, decrypt_state, custody_of,
  accept_custody_transfer,
}
use auth_broker_tee.Governance.Activation.{is_status, is_empty, lineage_digest}
use auth_broker_tee.Governance.Replica.{
  is_custodian, verify_replica_snapshot, custody_for, take_custody, apply_replica_custody_transfer,
  sync_for, apply_replica_sync, promote_replica_to_primary, may_promote, promoted, snapshot_of,
}

custodian_of : (r : Option Role) → is_custodian r ≡ true → r ≡ some custodian
unfolding is_custodian
custodian_of (some custodian) h = refl
custodian_of (some primary) h = cc
custodian_of none h = cc

module _ (c : Crypto) where
  verify_replica_snapshot-Chain :
      (t : Snapshot) (now : ℕ) {v : Verified}
      → verify_replica_snapshot c t now ≡ ok v
      → Chain c t.lineage t.epoch v.current_governance_public_key_pem
  unfolding verify_replica_snapshot
  verify_replica_snapshot-Chain t now {v} h =
      let (known, r) = guard-ok (not (is_status t.status inactive)) _ _ h in
      let (v', verified, r') = >>=-eq-ok (verify_lineage c now t.lineage false) _ r in
      let same_v : v' ≡ v = ground arith in
      let same_epoch : v'.current_epoch ≡ t.epoch = ground arith in
      subst (λ x. Chain c t.lineage t.epoch x.current_governance_public_key_pem) same_v
        (subst (λ n. Chain c t.lineage n v'.current_governance_public_key_pem) same_epoch
          (verify_lineage-Chain c now t.lineage false verified).0)

  module _ (z : Cipher) where
    -- A snapshot that a custodian may apply.
    pub record Extends (s : State) (t : Snapshot) : Type 0 where
      pub newer : s.replica_serial < t.replica_serial
      pub longer : length s.lineage ≤ length t.lineage
      pub prefix :
          same (lineage_digest c (take (length s.lineage) t.lineage)) (lineage_digest c s.lineage)
          ≡ true
      pub chain : (pem : Json) × Chain c t.lineage t.epoch pem

    sync_for-Extends :
        (encrypted aad : Json) (now : ℕ) (s : State) {t : Snapshot}
        → sync_for c z encrypted aad now s ≡ ok t
        → (s.replica_role ≡ some custodian) × Extends s t
    unfolding sync_for is_custodian
    sync_for-Extends encrypted aad now s {t} h =
        let (holder, r) = guard-ok (is_custodian s.replica_role) _ _ h in
        let (known, r1) = guard-ok (not (is_status s.status inactive)) _ _ r in
        let (plain, opened, r2) = >>=-eq-ok (decrypt_state c z s.key_material encrypted aad) _ r1 in
        let (t', read, r3) = >>=-eq-ok (snapshot_of plain) _ r2 in
        let (v, verified, r4) = >>=-eq-ok (verify_replica_snapshot c t' now) _ r3 in
        let same_t : t' ≡ t = ground arith in
        (
          custodian_of s.replica_role holder,
          subst (Extends s) same_t (record {
            newer = ground arith;
            longer = ground arith;
            prefix = ground arith;
            chain = (
              v.current_governance_public_key_pem,
              verify_replica_snapshot-Chain t' now verified,
            );
          }),
        )

    -- A sync that a custodian accepts moves it to a newer serial and to a verified lineage that, by
    -- its digest, continues the custodian's, and leaves the key that it holds.
    pub apply_replica_sync-Extends :
        (encrypted aad : Json) (now : ℕ) (s : State) {answer : Status × ℕ × ℕ}
        → (apply_replica_sync c z encrypted aad now s).0 ≡ ok answer
        → (t : Snapshot) × (s.replica_role ≡ some custodian)
          × Extends s t
          × ((apply_replica_sync c z encrypted aad now s).1 ≡ apply_replica_snapshot s t)
          × ((t.status, t.epoch, t.replica_serial) ≡ answer)
    unfolding apply_replica_sync change
    apply_replica_sync-Extends encrypted aad now s h =
        let (t, allowed, answered, next) =
          made-ok s (λ t s'. apply_replica_snapshot s' t)
            (λ t. (t.status, t.epoch, t.replica_serial)) (sync_for c z encrypted aad now s) h in
        let (role, extends) = sync_for-Extends encrypted aad now s allowed in
        (t, role, extends, next, answered)

    promoted-role :
        (s : State) {u : Unit {0}}
        → (promote_replica_to_primary s).0 ≡ ok u
        → is_custodian (promote_replica_to_primary s).1.replica_role ≡ false
    unfolding promote_replica_to_primary change is_custodian
    promoted-role s h =
        let (u, allowed, answered, next) = made-ok s (λ _. promoted) (λ _. tt) (may_promote s) h in
        rw next refl

    not_custodian-refuses :
        (encrypted aad : Json) (now : ℕ) (s : State)
        → is_custodian s.replica_role ≡ false
        → apply_replica_sync c z encrypted aad now s
          ≡ (err "only a custodian applies replica state sync", s)
    unfolding apply_replica_sync change changed sync_for
    not_custodian-refuses encrypted aad now s h = rw h refl

    -- Once a custodian is promoted, it refuses every sync and stays as it is.
    pub promoted-refuses :
        (encrypted aad : Json) (now : ℕ) (s : State)
        → (promote_replica_to_primary s).0 ≡ ok tt
        → apply_replica_sync c z encrypted aad now (promote_replica_to_primary s).1
          ≡ (err "only a custodian applies replica state sync", (promote_replica_to_primary s).1)
    promoted-refuses encrypted aad now s h =
        not_custodian-refuses encrypted aad now (promote_replica_to_primary s).1 (promoted-role s h)

    -- What a fresh replica takes over: the signing key and the snapshot that the bundle decrypts to,
    -- beside its own activation key; the key is the sender's attested one, with a verified lineage whose current
    -- key has the fingerprint of that key, and the lineage that the transfer is bound to.
    pub record IsCustody (s : State) (encrypted expected aad : Json) (k : KeyMaterial)
        (t : Snapshot) : Type 0 where
      pub opened :
          decrypt_state c z s.key_material encrypted aad ≡ ok (custody_transfer k.signing_key t)
      pub own : k.activation_key ≡ s.key_material.activation_key
      pub in_memory : IsInMemory c k
      pub fresh : (is_status s.status inactive && is_empty s.lineage) ≡ true
      pub attested : same (str k.governance_key_id) expected ≡ true
      pub named :
          (pem : Json) × Chain c t.lineage t.epoch pem × (key_id c pem ≡ ok k.governance_key_id)
      pub bound : same (lineage_digest c t.lineage) (get "lineageDigest" aad) ≡ true

    custody_of-ok :
        (plain : Plain) {key : String} {t : Snapshot}
        → custody_of c z plain ≡ ok (key, t)
        → plain ≡ custody_transfer key t
    unfolding custody_of
    custody_of-ok (custody_transfer key t) h = ap (λ p. custody_transfer p.0 p.1) (ok-injective h)
    custody_of-ok (transferable l e t) h = absurd cc
    custody_of-ok (replica_snapshot t) h = absurd cc

    accepted-parts :
        (m : KeyMaterial) (encrypted aad : Json) {a : KeyMaterial × Snapshot}
        → accept_custody_transfer c z m encrypted aad ≡ ok a
        → (decrypt_state c z m encrypted aad ≡ ok (custody_transfer a.0.signing_key a.1))
          × (a.0.activation_key ≡ m.activation_key)
          × IsInMemory c a.0
    unfolding accept_custody_transfer
    accepted-parts m encrypted aad h =
        let (plain, opened, r) = >>=-eq-ok (decrypt_state c z m encrypted aad) _ h in
        let (transfer, of_plain, r1) = >>=-eq-ok (custody_of c z plain) _ r in
        let (type, typed, r2) = >>=-eq-ok (or_throw (c.key_type transfer.0) _) _ r1 in
        let (is_ed25519, r3) = guard-ok (str_eq type "ed25519") _ _ r2 in
        let (k, built, r4) =
          >>=-eq-ok (build_in_memory_key_material c transfer.0 m.activation_key) _ r3 in
        let (held, signing, own) = build-IsInMemory c transfer.0 m.activation_key built in
        subst
          (λ (x : KeyMaterial × Snapshot).
            (decrypt_state c z m encrypted aad ≡ ok (custody_transfer x.0.signing_key x.1))
            × (x.0.activation_key ≡ m.activation_key)
            × IsInMemory c x.0)
          (ok-injective r4)
          (
            opened
                ∙ ap ok (
                    custody_of-ok plain of_plain
                    ∙ ap (λ y. custody_transfer y transfer.1) (sym signing)),
            own,
            held,
          )

    custody_for-IsCustody :
        (encrypted aad expected : Json) (now : ℕ) (s : State) {a : KeyMaterial × Snapshot}
        → custody_for c z encrypted aad expected now s ≡ ok a
        → IsCustody s encrypted expected aad a.0 a.1
    unfolding custody_for
    custody_for-IsCustody encrypted aad expected now s {a} h =
        let (fresh, r) = guard-ok (is_status s.status inactive && is_empty s.lineage) _ _ h in
        let (a', accepted, r1) =
          >>=-eq-ok (accept_custody_transfer c z s.key_material encrypted aad) _ r in
        let (attested, r2) = guard-ok (same (str a'.0.governance_key_id) expected) _ _ r1 in
        let (v, verified, r3) = >>=-eq-ok (verify_replica_snapshot c a'.1 now) _ r2 in
        let pem = v.current_governance_public_key_pem in
        let (id, known, r4) = >>=-eq-ok (key_id c pem) _ r3 in
        let same_id : str_eq id a'.0.governance_key_id ≡ true = ground arith in
        let same_a : a' ≡ a = ground arith in
        let (opened, own, in_memory) = accepted-parts s.key_material encrypted aad accepted in
        subst (λ x. IsCustody s encrypted expected aad x.0 x.1) same_a
          (record {
            opened = opened;
            own = own;
            in_memory = in_memory;
            fresh = fresh;
            attested = attested;
            named = (
              pem,
              verify_replica_snapshot-Chain a'.1 now verified,
              known ∙ ap ok ((eq_iff id a'.0.governance_key_id).0 same_id),
            );
            bound = ground arith;
          })

    -- The state after it.
    pub record Holds (role : Role) (k : KeyMaterial) (t : Snapshot) (s : State) : Type 0 where
      pub key : s.key_material ≡ k
      pub role_of : s.replica_role ≡ some role
      pub snapshot : export_replica_snapshot s ≡ t
      pub no_challenges : s.pending_activation_challenges ≡ []

    -- A replica that accepts custody was fresh, and it then holds the snapshot and the key that the
    -- bundle decrypts to beside its own activation key, whose
    -- fingerprint is that of the key that the transferred and verified lineage names, and the role.
    pub apply_replica_custody_transfer-IsCustody :
        (encrypted aad : Json) (role : Role) (expected : Json) (now : ℕ) (s : State)
        → (apply_replica_custody_transfer c z encrypted aad role expected now s).0 ≡ ok tt
        → (k : KeyMaterial) × (t : Snapshot) × IsCustody s encrypted expected aad k t
          × Holds role k t (apply_replica_custody_transfer c z encrypted aad role expected now s).1
    unfolding apply_replica_custody_transfer change export_replica_snapshot apply_replica_snapshot
    apply_replica_custody_transfer-IsCustody encrypted aad role expected now s h =
        let (a, allowed, _, next) =
          made-ok s (take_custody c z role) (λ _. tt) (custody_for c z encrypted aad expected now s)
            h in
        (
          a.0,
          a.1,
          custody_for-IsCustody encrypted aad expected now s allowed,
          subst (Holds role a.0 a.1) (sym next)
              (record { key = refl; role_of = refl; snapshot = refl; no_challenges = refl }),
        )
