-- ===== src/Custody/Keys.antt =====
-- src/governance-replica-custody.js: key-bound attestations.
use auth_broker_tee.Base.{ℕ, String, ◌&&◌, ◌||◌, not, ◌∷◌, [], Result, ok, ◌>>=◌, ◌>>◌, guard}
use auth_broker_tee.Json.{Json, str, object, get, truthy, same}
use auth_broker_tee.Crypto.{Crypto, digest, key_id}
use auth_broker_tee.Attestation.{
  verify_confidential_space_attestation, assert_broker_workload_claims,
}
use auth_broker_tee.Governance.{State}
use auth_broker_tee.Custody.{key_attestation_schema, replica_custody_audience}

-- What a verified key attestation gives.
pub record PeerKeys : Type 0 where
  pub governance_key_id : String
  pub activation_key_id : String
  pub governance_public_key_pem : Json
  pub activation_public_key_pem : Json
  pub instance_name : Json

-- `assertReplicaClaims`
unfoldable pub assert_replica_claims : Json → Json → Result Json
assert_replica_claims claims expected_instance = do
  instance_name ← assert_broker_workload_claims claims
  guard (not (truthy expected_instance) || same instance_name expected_instance)
      "replica attestation is not from the configured peer"
  ok instance_name

module _ (c : Crypto) where
  -- `keyAttestationNonce`
  unfoldable pub key_attestation_nonce : Json → Json → Json → Json → Json → Json
  key_attestation_nonce purpose challenge governance_key_id activation_key_id image_digest = str (
      digest c (
        object (
          ("schema", str key_attestation_schema)
          ∷ ("purpose", purpose)
          ∷ ("challenge", challenge)
          ∷ ("governanceKeyId", governance_key_id)
          ∷ ("activationKeyId", activation_key_id)
          ∷ ("imageDigest", image_digest)
          ∷ [])))

  -- `buildKeyAttestation`. `request_token` takes the nonce and the audience.
  unfoldable pub build_key_attestation :
      (Json → String → Result Json) → Json → Json → State → Result Json
  build_key_attestation request_token purpose challenge s = do
    token ←
        request_token
          (key_attestation_nonce purpose challenge (str s.key_material.governance_key_id)
            (str s.key_material.activation_key_id) s.image_digest)
          replica_custody_audience
    ok (
        object (
          ("schema", str key_attestation_schema)
          ∷ ("purpose", purpose)
          ∷ ("challenge", challenge)
          ∷ ("imageDigest", s.image_digest)
          ∷ ("governancePublicKeyPem", str s.key_material.governance_public_key_pem)
          ∷ ("activationPublicKeyPem", str s.key_material.activation_public_key_pem)
          ∷ ("attestationToken", token)
          ∷ []))

  -- `verifyKeyAttestation`
  unfoldable pub verify_key_attestation :
      (Json → Result Json) → Json → Json → Json → Json → Json → ℕ → Result PeerKeys
  verify_key_attestation verify_jwt evidence purpose challenge expected_image expected_instance
        now =
      do
        guard
            (same (get "schema" evidence) (str key_attestation_schema)
              && same (get "purpose" evidence) purpose
              && truthy challenge
              && same (get "challenge" evidence) challenge)
            "replica key attestation does not answer this challenge"
        guard (same (get "imageDigest" evidence) expected_image)
            "replica key attestation is for a different image"
        governance_key_id ← key_id c (get "governancePublicKeyPem" evidence)
        activation_key_id ← key_id c (get "activationPublicKeyPem" evidence)
        claims ←
            verify_confidential_space_attestation verify_jwt (get "attestationToken" evidence)
              (key_attestation_nonce purpose challenge (str governance_key_id)
                (str activation_key_id) (get "imageDigest" evidence))
              expected_image (str replica_custody_audience) now
        instance_name ← assert_replica_claims claims expected_instance
        ok (record {
          governance_key_id = governance_key_id;
          activation_key_id = activation_key_id;
          governance_public_key_pem = get "governancePublicKeyPem" evidence;
          activation_public_key_pem = get "activationPublicKeyPem" evidence;
          instance_name = instance_name;
        })
