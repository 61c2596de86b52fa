-- ===== src/Governance/Activation/Steps/Certify.antt =====
-- src/governance-state.js: `createActivationChallenge` and `completeActivation`, on the predecessor.
use auth_broker_tee.Base.{
  ℕ, ◌+◌, String, true, none, some, [], ◌∷◌, ◌++◌, Result, ok, ◌>>=◌, ◌>>◌, guard, insert,
}
use auth_broker_tee.Json.{Json, str, time, object, get, same}
use auth_broker_tee.Crypto.{Crypto, digest, verify_governance_envelope}
use auth_broker_tee.Certificates.{ReviewPolicy, preapproval_schema}
use auth_broker_tee.Certificates.Signing.{sign_successor_certificate}
use auth_broker_tee.Governance.{
  activating_successor, State, PendingActivation, Challenge, M, change, continue, commit,
}
use auth_broker_tee.Governance.Sealing.{Cipher, transferable, encrypt_state_envelope}
use auth_broker_tee.Governance.Activation.{Environment, assert_active, assert_enclave_key}
use auth_broker_tee.Governance.Activation.Checks.{
  CompleteRequest, SuccessorDecision, decide_successor, transfer_aad,
}

module _ (c : Crypto) where
  abbrev pub add_challenge : String → Challenge → State → State
  add_challenge nonce challenge s = record s {
    pending_activation_challenges = insert nonce challenge s.pending_activation_challenges;
  }

  -- The nonce of a challenge, when the predecessor may issue it.
  unfoldable pub challenge_nonce : Challenge → Json → ℕ → State → Result String
  challenge_nonce challenge random now s = do
    assert_active s
    preapproval ←
        verify_governance_envelope c challenge.preapproval_envelope
          (str s.key_material.governance_public_key_pem) now true
    guard (same (get "schema" preapproval) (str preapproval_schema))
        "activation requires preapproval certificate"
    ok (
        digest c (
          object (
            ("schema", str "femled.tee.governance.activation_nonce.v1")
            ∷ ("candidateImageDigest", challenge.candidate_image_digest)
            ∷ ("candidateGovernancePublicKeyPem", challenge.candidate_governance_public_key_pem)
            ∷ ("candidateActivationPublicKeyPem", challenge.candidate_activation_public_key_pem)
            ∷ ("preapprovalPayloadDigest", get "payloadDigest" challenge.preapproval_envelope)
            ∷ ("random", random)
            ∷ [])))

  -- `createActivationChallenge`. The random text is an argument.
  unfoldable pub create_activation_challenge : Challenge → Json → ℕ → M String
  unfolding challenge_nonce
  create_activation_challenge challenge random now =
      change (challenge_nonce challenge random now) (λ nonce. add_challenge nonce challenge)
        (λ _ nonce. nonce)

module _ (c : Crypto) (z : Cipher) (policy : ReviewPolicy) where
  abbrev pub pending_for : CompleteRequest → SuccessorDecision → Json → ℕ → PendingActivation
  pending_for r d certificate now = record {
    activation_nonce = r.activation_nonce;
    candidate_image_digest = get "candidateImageDigest" r.candidate;
    candidate_governance_key_id = r.candidate_governance_key_id;
    candidate_governance_public_key_pem = r.candidate_governance_public_key_pem;
    candidate_activation_public_key_pem = r.candidate_activation_public_key_pem;
    successor_certificate = certificate;
    successor_payload_digest = get "payloadDigest" certificate;
    successor_decision_packet_digest = str d.packet_digest;
    successor_arbitration_digest = d.arbitration_digest;
    issued_at = time now;
    expires_at = get "expiresAt" (get "payload" certificate);
    activation_proof = none;
  }

  abbrev pub begin_activation : PendingActivation → State → State
  begin_activation p s = record s {
    status = activating_successor;
    expired_successor_activation = none;
    pending_successor_activation = some p;
    latest_successor_certificate = some p.successor_certificate;
  }

  -- The successor certificate, signed in the commit.
  unfoldable pub certificate_for : CompleteRequest → SuccessorDecision → ℕ → State → Result Json
  certificate_for r d now s = do
    assert_active s
    sign_successor_certificate c policy s.key_material s.epoch (s.epoch + 1)
        (record {
          candidate_image_digest = get "candidateImageDigest" r.candidate;
          candidate_attestation_digest = str (c.hash_text d.attestation_token);
          candidate_attestation_nonce = str r.activation_nonce;
          preapproval_payload_digest = get "payloadDigest" r.preapproval_envelope;
          decision_packet_digest = str d.packet_digest;
          arbitration_digest = d.arbitration_digest;
          governance_public_key_pem = r.candidate_governance_public_key_pem;
          governance_key_id = r.candidate_governance_key_id;
          activation_public_key_pem = r.candidate_activation_public_key_pem;
        })
        now

  -- The state for the successor, encrypted to its activation key.
  unfoldable pub encrypted_state_for : CompleteRequest → State → Json → Json
  encrypted_state_for r s certificate =
      encrypt_state_envelope c z s.key_material r.candidate_activation_public_key_pem
        (transferable (s.lineage ++ certificate ∷ []) (s.epoch + 1) s.transferred_state)
        (transfer_aad c (get "payloadDigest" certificate) (str s.key_material.governance_key_id)
          r.candidate_governance_key_id (get "candidateImageDigest" r.candidate) r.activation_nonce)

  -- The commit of `completeActivation`: the successor certificate and the encrypted state.
  unfoldable pub certify_successor : CompleteRequest → SuccessorDecision → ℕ → M (Json × Json)
  certify_successor r d now =
      change (certificate_for r d now)
        (λ certificate. begin_activation (pending_for r d certificate now))
        (λ s certificate. (certificate, encrypted_state_for r s certificate))

  -- The part of `completeActivation` before its commit.
  unfoldable pub prepare_activation :
      Environment → CompleteRequest → ℕ → State → Result SuccessorDecision
  prepare_activation env r now s = do
    assert_active s
    assert_enclave_key env.production s
    decide_successor c env s r now

  -- `completeActivation`
  unfoldable pub complete_activation : Environment → CompleteRequest → ℕ → M (Json × Json)
  complete_activation env r now s =
      continue (λ d. commit env.replicate (certify_successor r d now))
        (prepare_activation env r now s) s
