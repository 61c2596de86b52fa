-- ===== src/Governance/Activation/Checks.antt =====
-- src/governance-state.js: what each operation of the handoff requires before it changes the state.
use auth_broker_tee.Base.{
  ℕ, ◌+◌, String, Bool, true, false, Option, none, some, List, [], ◌∷◌, ◌++◌, ◌&&◌, not, ltb,
  Result, ok, err, ◌>>=◌, ◌>>◌, guard, or_throw, lookup, contains, str_eq, if◌then◌else◌,
}
use auth_broker_tee.Json.{Json, str, num, object, get, truthy, same, date_parse}
use auth_broker_tee.Crypto.{Crypto, digest, key_id, verify_governance_envelope}
use auth_broker_tee.Certificates.{
  verify_lineage, successor_schema, activation_proof_schema, last, has_items,
}
use auth_broker_tee.Certificates.Admission.{assert_preapproval_matches_candidate}
use auth_broker_tee.Attestation.{
  verify_confidential_space_attestation, nonce_matches, assert_broker_workload_claims,
}
use auth_broker_tee.Decision.{veto_failures}
use auth_broker_tee.Decision.Packet.{build_successor_decision_packet}
use auth_broker_tee.Governance.{
  Status, active, inactive, activating_successor, State, PendingActivation, TransferredState,
}
use auth_broker_tee.Governance.Sealing.{
  Plain, transferable, custody_transfer, replica_snapshot, Cipher, decrypt_state_envelope,
}
use auth_broker_tee.Governance.Activation.{
  Environment, readiness_schema, decline_schema, readiness_audience, activation_abort_grace_ms,
  proved_at_skew_ms, is_status, is_empty, assert_enclave_key, assert_entries, lineage_digest,
}

-- The body of `/governance/activation-complete`.
pub record CompleteRequest : Type 0 where
  pub preapproval_envelope : Json
  pub candidate : Json
  pub candidate_readiness : Json
  pub candidate_governance_public_key_pem : Json
  pub candidate_governance_key_id : Json
  pub candidate_activation_public_key_pem : Json
  pub activation_nonce : String

-- What arbitration decided, on which evidence.
pub record SuccessorDecision : Type 0 where
  pub attestation_token : Json
  pub packet_digest : String
  pub arbitration_digest : Json

-- The body of `/governance/activation-apply`.
pub record ApplyRequest : Type 0 where
  pub successor_certificate : Json
  pub encrypted_state : Json
  pub predecessor_activation_public_key_pem : Json
  pub activation_nonce : String

pub record Transferred : Type 0 where
  pub lineage : List Json
  pub epoch : ℕ
  pub transferred_state : TransferredState

-- The activation that `finalizeActivation` is about, and whether it is one that was aborted on expiry.
unfoldable pub finalizable :
    Status → Option PendingActivation → Option PendingActivation → Result (Bool × PendingActivation)
finalizable active (some expired) pending = ok (true, expired)
finalizable activating_successor expired (some pending) = ok (false, pending)
finalizable activating_successor expired none =
    err "activation finalize requires pending successor activation"
finalizable _ _ _ = err "activation finalize requires activating_successor governance"

unfoldable pub pending_to_finalize : State → Result (Bool × PendingActivation)
unfolding finalizable
pending_to_finalize s =
    finalizable s.status s.expired_successor_activation s.pending_successor_activation

unfoldable pub before_start : ℕ → Option ℕ → Bool
before_start t none = false
before_start t (some i) = ltb (t + proved_at_skew_ms) i

unfoldable pub after_end : ℕ → Option ℕ → Bool
after_end t none = false
after_end t (some e) = ltb (e + proved_at_skew_ms) t

-- A time within two others, less and more the skew; a comparison with NaN fails.
unfoldable pub within : Option ℕ → Option ℕ → Option ℕ → Bool
unfolding before_start after_end
within none issued expires = false
within (some t) issued expires = not (before_start t issued) && not (after_end t expires)

unfoldable pub proved_in_time : Json → Json → Json → Bool
unfolding within
proved_in_time proved issued expires =
    within (date_parse proved) (date_parse issued) (date_parse expires)

-- `activationNonce === pending.activationNonce`
unfoldable pub names : Option String → String → Bool
names none wanted = false
names (some n) wanted = str_eq n wanted

-- `now.getTime() < Date.parse(pending.expiresAt) + ACTIVATION_ABORT_GRACE_MS`
unfoldable pub too_early : Option ℕ → ℕ → Bool
too_early none now = false
too_early (some e) now = ltb now (e + activation_abort_grace_ms)

module _ (c : Crypto) where
  -- `buildActivationReadinessNonce`
  unfoldable pub build_activation_readiness_nonce : String → Json → Json → Json → Json
  build_activation_readiness_nonce nonce governance_key_id activation_key_id image_digest = str (
      digest c (
        object (
          ("schema", str "femled.tee.governance.activation_readiness_nonce.v1")
          ∷ ("activationNonce", str nonce)
          ∷ ("governanceKeyId", governance_key_id)
          ∷ ("activationKeyId", activation_key_id)
          ∷ ("imageDigest", image_digest)
          ∷ [])))

  -- `verifyActivationReadiness`: the attestation's claims.
  unfoldable pub verify_activation_readiness : Environment → CompleteRequest → ℕ → Result Json
  verify_activation_readiness env r now = do
    let image = get "candidateImageDigest" r.candidate
    let nonce = str r.activation_nonce
    readiness ←
        verify_governance_envelope c (get "readiness" r.candidate_readiness)
          r.candidate_governance_public_key_pem now true
    activation_key_id ← key_id c r.candidate_activation_public_key_pem
    assert_entries
        (("schema", str readiness_schema)
          ∷ ("activationNonce", nonce)
          ∷ ("candidateImageDigest", image)
          ∷ ("governanceKeyId", r.candidate_governance_key_id)
          ∷ ("activationKeyId", str activation_key_id)
          ∷ ("custody", str "in-enclave-memory")
          ∷ [])
        readiness "activation readiness mismatch"
    attestation ←
        verify_confidential_space_attestation env.verify_jwt
          (get "attestationToken" r.candidate_readiness)
          (build_activation_readiness_nonce r.activation_nonce r.candidate_governance_key_id
            (str activation_key_id) image)
          image (str readiness_audience) now
    guard (nonce_matches (get "eat_nonce" attestation) nonce)
        "activation readiness attestation does not bind the activation nonce"
    instance_name ← assert_broker_workload_claims attestation
    ok attestation

  -- `normalizeSuccessorArbitrationResult`: the decision and its digest.
  unfoldable pub normalize_successor_arbitration_result : Json → Result (Json × Json)
  normalize_successor_arbitration_result result = do
    guard (truthy (get "aiDecision" result)) "successor arbitration result missing aiDecision"
    let raw_digest =
        if truthy (get "rawDecision" result)
        then str (c.hash_text (get "rawDecision" result))
        else str (digest c (get "aiDecision" result))
    ok (
      get "aiDecision" result,
      if truthy (get "arbitrationDigest" result)
          then get "arbitrationDigest" result
          else raw_digest,
    )

  -- The challenge that was issued for the nonce, and that the request answers.
  unfoldable pub check_challenge : State → CompleteRequest → Result (Unit {0})
  check_challenge s r = do
    challenge ←
        or_throw (lookup r.activation_nonce s.pending_activation_challenges)
          "unknown governance activation nonce"
    guard
        (same (get "payloadDigest" challenge.preapproval_envelope)
          (get "payloadDigest" r.preapproval_envelope))
        "activation preapproval digest mismatch"
    guard (same challenge.candidate_image_digest (get "candidateImageDigest" r.candidate))
        "activation candidate image digest mismatch"
    guard (same challenge.candidate_governance_public_key_pem r.candidate_governance_public_key_pem)
        "activation candidate governance key mismatch"
    guard (same challenge.candidate_activation_public_key_pem r.candidate_activation_public_key_pem)
        "activation candidate activation key mismatch"
    expected ← key_id c r.candidate_governance_public_key_pem
    guard (same r.candidate_governance_key_id (str expected))
        "activation candidate governance key id mismatch"

  -- The `try` block of `completeActivation`.
  unfoldable pub decide_successor :
      Environment → State → CompleteRequest → ℕ → Result SuccessorDecision
  decide_successor env s r now = do
    check_challenge s r
    preapproval ←
        verify_governance_envelope c r.preapproval_envelope
          (str s.key_material.governance_public_key_pem) now true
    assert_preapproval_matches_candidate preapproval r.candidate
    attestation ← verify_activation_readiness env r now
    let token = get "attestationToken" r.candidate_readiness
    let packet =
        build_successor_decision_packet c
          (record {
            current_manifest = env.manifest s;
            candidate = r.candidate;
            preapproval_envelope = r.preapproval_envelope;
            preapproval_payload = preapproval;
            candidate_attestation_token = token;
            candidate_attestation = attestation;
            keys = record {
              governance_key_id = r.candidate_governance_key_id;
              governance_public_key_pem = r.candidate_governance_public_key_pem;
              activation_public_key_pem = r.candidate_activation_public_key_pem;
            };
            activation_nonce = str r.activation_nonce;
            expected_candidate_image_digest = get "candidateImageDigest" r.candidate;
            expected_activation_nonce = str r.activation_nonce;
          })
          now
    guard (is_empty (veto_failures packet)) "successor hard veto failed"
    result ← env.arbitrate packet
    decision ← normalize_successor_arbitration_result result
    guard (same (get "decision" decision.0) (str "APPROVE"))
        "successor arbitration requested changes"
    guard (not (has_items (get "violatedPrinciples" decision.0)))
        "successor arbitration reported violated principles"
    ok (record {
      attestation_token = token;
      packet_digest = digest c packet;
      arbitration_digest = decision.1;
    })

  -- The associated data of the state that is handed over.
  unfoldable pub transfer_aad : Json → Json → Json → Json → String → Json
  transfer_aad successor_payload_digest predecessor_key_id successor_key_id image_digest nonce =
      object (
        ("successorPayloadDigest", successor_payload_digest)
        ∷ ("predecessorGovernanceKeyId", predecessor_key_id)
        ∷ ("successorGovernanceKeyId", successor_key_id)
        ∷ ("candidateImageDigest", image_digest)
        ∷ ("activationNonce", str nonce)
        ∷ [])

  -- The lineage, the epoch and the state that `applyActivationBundle` reads from the plaintext.
  unfoldable pub transferred_of : Plain → Result Transferred
  transferred_of (transferable l n t) =
      ok (record { lineage = l; epoch = n; transferred_state = t })
  transferred_of (replica_snapshot s) =
      ok (record { lineage = s.lineage; epoch = s.epoch; transferred_state = s.transferred_state })
  transferred_of (custody_transfer _ _) = err "governance lineage must contain genesis"

  -- What `applyActivationBundle` checks of the certificate against this candidate.
  unfoldable pub check_bundle : Environment → State → ApplyRequest → Result (Unit {0})
  check_bundle env s r = do
    let payload = get "payload" r.successor_certificate
    guard (is_status s.status inactive)
        "activation bundle can only be applied to inactive candidate"
    assert_enclave_key env.production s
    guard (same (get "schema" payload) (str successor_schema))
        "activation bundle successor certificate missing"
    guard (same (get "successorGovernanceKeyId" payload) (str s.key_material.governance_key_id))
        "activation bundle successor governance key mismatch"
    guard
        (same (get "successorGovernancePublicKeyPem" payload)
          (str s.key_material.governance_public_key_pem))
        "activation bundle successor governance public key mismatch"
    guard
        (same (get "successorActivationPublicKeyPem" payload)
          (str s.key_material.activation_public_key_pem))
        "activation bundle successor activation key mismatch"
    guard (same (get "candidateImageDigest" payload) s.image_digest)
        "activation bundle candidate image digest mismatch"
    guard (same (get "candidateAttestationNonce" payload) (str r.activation_nonce))
        "activation bundle nonce mismatch"
    issued ←
        or_throw (lookup r.activation_nonce s.activation_readiness)
          "this candidate issued no readiness proof for that activation"
    guard (not (contains r.activation_nonce s.declined_activation_nonces))
        "this candidate declined that activation"

  -- The plaintext of the bundle. The request may name the sender's key in place of the envelope.
  unfoldable pub decrypt_bundle : Cipher → State → ApplyRequest → Result Plain
  decrypt_bundle z s r =
      let payload = get "payload" r.successor_certificate in
      decrypt_state_envelope c z s.key_material r.encrypted_state
        (if truthy r.predecessor_activation_public_key_pem
          then r.predecessor_activation_public_key_pem
          else get "senderActivationPublicKeyPem" r.encrypted_state)
        (transfer_aad (get "payloadDigest" r.successor_certificate)
          (get "predecessorGovernanceKeyId" payload) (str s.key_material.governance_key_id)
          (get "candidateImageDigest" payload) r.activation_nonce)

  -- The state that `applyActivationBundle` installs, with the checks on the lineage in it.
  unfoldable pub open_bundle : Cipher → Environment → State → ApplyRequest → ℕ → Result Transferred
  open_bundle z env s r now = do
    check_bundle env s r
    let payload = get "payload" r.successor_certificate
    plain ← decrypt_bundle z s r
    transferred ← transferred_of plain
    verified ← verify_lineage c now transferred.lineage true
    guard (same (num verified.current_epoch) (get "successorEpoch" payload))
        "transferred lineage epoch mismatch"
    guard
        (same verified.current_governance_public_key_pem
          (str s.key_material.governance_public_key_pem))
        "transferred lineage current governance key mismatch"
    guard
        (same (get "payloadDigest" (last transferred.lineage))
          (get "payloadDigest" r.successor_certificate))
        "transferred lineage does not end with supplied successor certificate"
    ok transferred

  -- The checks of `finalizeActivation`: the activation to finalize, and whether it is reopened.
  unfoldable pub check_proof : State → Json → ℕ → Result (Bool × PendingActivation)
  check_proof s activation_proof now = do
    found ← pending_to_finalize s
    let pending = found.1
    guard (truthy pending.successor_certificate)
        "activation finalize requires pending successor activation"
    proof ←
        verify_governance_envelope c activation_proof pending.candidate_governance_public_key_pem
          now true
    guard (same (get "schema" proof) (str activation_proof_schema))
        "activation proof schema mismatch"
    let expected_lineage = s.lineage ++ pending.successor_certificate ∷ []
    assert_entries
        (("successorPayloadDigest", pending.successor_payload_digest)
          ∷ ("activationNonce", str pending.activation_nonce)
          ∷ ("candidateImageDigest", pending.candidate_image_digest)
          ∷ ("lineageDigest", lineage_digest c expected_lineage)
          ∷ ("epoch", num (s.epoch + 1))
          ∷ ("governanceKeyId", pending.candidate_governance_key_id)
          ∷ [])
        proof "activation proof mismatch"
    guard (proved_in_time (get "provedAt" proof) pending.issued_at pending.expires_at)
        "activation proof was not produced while the successor certificate was valid"
    verified ← verify_lineage c now expected_lineage false
    ok found

  -- Why `abortActivation` may abort the pending activation: the candidate's decline, or its expiry.
  unfoldable pub abort_reason :
      PendingActivation → Option Json → Bool → Option String → ℕ → Result String
  abort_reason pending (some decline) expired requested now = do
    payload ←
        verify_governance_envelope c decline pending.candidate_governance_public_key_pem now false
    guard
        (same (get "schema" payload) (str decline_schema)
          && same (get "activationNonce" payload) (str pending.activation_nonce)
          && same (get "governanceKeyId" payload) pending.candidate_governance_key_id
          && same (get "candidateImageDigest" payload) pending.candidate_image_digest)
        "activation decline does not match the pending successor"
    ok "declined"
  abort_reason pending none true requested now = do
    guard (names requested pending.activation_nonce)
        "an expired abort must name the pending activation nonce"
    guard (not (too_early (date_parse pending.expires_at) now))
        "the pending activation becomes abortable later"
    ok "expired"
  abort_reason pending none false requested now =
      err "activation abort requires the candidate's decline or an expired pending activation"
