-- ===== src/Custody/Sealed.antt =====
-- src/governance-replica-custody.js: the bundle that carries the lineage key.
use auth_broker_tee.Base.{
  ℕ, ◌+◌, Bool, ◌≡◌, refl, subst, sym, ok, ok-injective, >>=-eq-ok, guard-ok,
}
use auth_broker_tee.Json.{Json, str, time, get, get_field, fields}
use auth_broker_tee.Crypto.{Crypto, sign_governance_payload}
use auth_broker_tee.Governance.{State, Role, export_replica_snapshot}
use auth_broker_tee.Governance.Sealing.{Cipher, custody_transfer, encrypt_state_envelope}
use auth_broker_tee.Governance.Activation.{assert_enclave_key, lineage_digest}
use auth_broker_tee.Governance.Replica.{is_governance_key_holder, build_replica_custody_transfer}
use auth_broker_tee.Custody.{custody_bundle_schema, bundle_ttl_ms, role_text}
use auth_broker_tee.Custody.Keys.{PeerKeys}
use auth_broker_tee.Custody.Exchange.{custody_aad, custody_bundle}

module _ (c : Crypto) (z : Cipher) where
  -- The bundle is signed with the lineage key over the signing key and the snapshot of the state,
  -- encrypted to the activation key of the recipient, and bound to the challenge, the lineage, the image,
  -- the role and both activation keys, until it expires.
  pub record IsSealed (challenge : Json) (role : Role) (recipient : PeerKeys) (now : ℕ) (s : State)
      (bundle : Json) : Type 0 where
    pub payload : Json
    pub signed : bundle ≡ sign_governance_payload c payload s.key_material
    pub schema : get "schema" payload ≡ str custody_bundle_schema
    pub encrypted :
        get "encryptedState" payload
        ≡ encrypt_state_envelope c z s.key_material recipient.activation_public_key_pem
            (custody_transfer s.key_material.signing_key (export_replica_snapshot s))
            (get "aad" payload)
    pub of_challenge : get "challenge" (get "aad" payload) ≡ challenge
    pub of_lineage : get "lineageDigest" (get "aad" payload) ≡ lineage_digest c s.lineage
    pub of_image : get "imageDigest" (get "aad" payload) ≡ s.image_digest
    pub of_role : get "role" (get "aad" payload) ≡ str (role_text role)
    pub to_recipient :
        get "recipientActivationKeyId" (get "aad" payload) ≡ str recipient.activation_key_id
    pub from_sender :
        get "senderActivationKeyId" (get "aad" payload) ≡ str s.key_material.activation_key_id
    pub expires : get "expiresAt" payload ≡ time (now + bundle_ttl_ms)

  pub custody_bundle-IsSealed :
      (production : Bool) (challenge : Json) (role : Role) (recipient : PeerKeys) (now : ℕ)
      (s : State) {bundle : Json}
      → custody_bundle c z production challenge role recipient now s ≡ ok bundle
      → IsSealed challenge role recipient now s bundle
  unfolding custody_bundle build_replica_custody_transfer custody_aad get get_field fields
  custody_bundle-IsSealed production challenge role recipient now s h =
      let aad = custody_aad c z challenge role recipient s in
      let (encrypted, built, r) =
        >>=-eq-ok
          (build_replica_custody_transfer c z production recipient.activation_public_key_pem aad s)
          _ h in
      let (holder, b) = guard-ok (is_governance_key_holder s) _ _ built in
      let (u, enclave, b1) = >>=-eq-ok (assert_enclave_key production s) _ b in
      subst (IsSealed challenge role recipient now s) (ok-injective r) (record {
        payload = _;
        signed = refl;
        schema = refl;
        encrypted = sym (ok-injective b1);
        of_challenge = refl;
        of_lineage = refl;
        of_image = refl;
        of_role = refl;
        to_recipient = refl;
        from_sender = refl;
        expires = refl;
      })
