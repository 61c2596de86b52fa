-- ===== src/Tests/Exchange.antt =====
-- A primary serves a fresh replica, which takes the lineage key.
use auth_broker_tee.Base.{
  String, true, false, some, [], ◌∷◌, ◌&&◌, Result, ok, err, ◌≡◌, refl, delete,
}
use auth_broker_tee.Json.{Json, nil, cons, null, str, num, arr, object, get}
use auth_broker_tee.Governance.{
  State, primary, custodian, inactive, export_replica_snapshot, initialize_governance,
}
use auth_broker_tee.Governance.Sealing.{Cipher, custody_transfer}
use auth_broker_tee.Governance.Activation.{is_status, is_empty}
use auth_broker_tee.Governance.Replica.{apply_replica_custody_transfer}
use auth_broker_tee.Attestation.{broker_project_id, broker_service_account}
use auth_broker_tee.Custody.{Node, Config, Health, replica_custody_audience}
use auth_broker_tee.Custody.Exchange.{serve_custody_request}
use auth_broker_tee.Custody.Pull.{PeerRequests, Custody, pull_custody_from_peer}
use auth_broker_tee.Custody.Bound.{IsServed, serve_custody_request-IsServed}
use auth_broker_tee.Custody.Taken.{IsAsked, IsBound, pull_custody_from_peer-IsBound}
use auth_broker_tee.Tests.Setup.{toy, keys, predecessor, some_digest, fixed_cipher}

abbrev one : Json → Json
one v = arr (cons v nil)

abbrev claims : Json
claims = object (
    ("iss", str "https://confidentialcomputing.googleapis.com")
    ∷ ("aud", str replica_custody_audience)
    ∷ ("dbgstat", str "disabled-since-boot")
    ∷ ("swname", str "CONFIDENTIAL_SPACE")
    ∷ ("eat_nonce", str some_digest)
    ∷ ("google_service_accounts", one (str broker_service_account))
    ∷ (
      "submods",
      object (
          ("container", object (("image_digest", str some_digest) ∷ []))
          ∷ (
            "gce",
            object (
                ("project_id", str broker_project_id)
                ∷ ("project_number", num 125139120897)
                ∷ ("instance_name", str "auth-broker-tee-a")
                ∷ []),
          )
          ∷ ("confidential_space", object (("support_attributes", one (str "STABLE")) ∷ []))
          ∷ []),
    )
    ∷ [])

abbrev verify_jwt : Json → Result Json
verify_jwt token = ok claims

abbrev request_token : Json → String → Result Json
request_token nonce audience = ok (str "token")

abbrev config : Config
config = record {
  boot_role = primary;
  peer_url = some "http://10.0.0.1:8080";
  peer_instance = str "auth-broker-tee-a";
}

abbrev cipher : Cipher
cipher = fixed_cipher (custody_transfer "g1" (export_replica_snapshot predecessor))

abbrev unknown : Health
unknown = record {
  last_acknowledged_at = null;
  peer_serial = null;
  last_primary_contact_at = null;
  last_error = null;
}

abbrev serving : Node
serving = record {
  state = predecessor;
  open_challenges = ("c1", 5000) ∷ [];
  health = unknown;
  background_sync_due = false;
}

abbrev fresh : Node
fresh = record serving {
  state = initialize_governance (keys "g9" "a9") (str some_digest);
  open_challenges = [];
}

abbrev evidence : Json
evidence = object (
    ("schema", str "femled.auth_broker.replica_key_attestation.v1")
    ∷ ("purpose", str "custody-request")
    ∷ ("challenge", str "c1")
    ∷ ("imageDigest", str some_digest)
    ∷ ("governancePublicKeyPem", str "g9")
    ∷ ("activationPublicKeyPem", str "a9")
    ∷ ("attestationToken", str "token")
    ∷ [])

abbrev serve : Json → Result (Json × Json) × Node
serve with_evidence =
    serve_custody_request toy cipher verify_jwt request_token true config "c1" with_evidence
      "10.0.0.2" 2000 serving

abbrev answer : Result (Json × Json) → Result Json
answer (err e) = err e
answer (ok (bundle, attestation)) =
    ok (object (("bundle", bundle) ∷ ("senderAttestation", attestation) ∷ []))

abbrev bundle_of : Result (Json × Json) → Json × Json
bundle_of (err e) = (null, null)
bundle_of (ok sent) = sent

serve_custody_request-IsServed_example :
    IsServed toy cipher verify_jwt 2000 config "c1" evidence
      (bundle_of (serve evidence).0).0
      serving
    × ((serve evidence).1.open_challenges ≡ delete "c1" serving.open_challenges)
unfolding auth_broker_tee.Json.Order.text_le auth_broker_tee.Custody.Keys.assert_replica_claims
    auth_broker_tee.Custody.Keys.key_attestation_nonce
    auth_broker_tee.Custody.Keys.build_key_attestation
    auth_broker_tee.Custody.Keys.verify_key_attestation
    auth_broker_tee.Custody.Challenges.without_expired
    auth_broker_tee.Custody.Challenges.open_challenge
    auth_broker_tee.Custody.Challenges.issue_custody_challenge
    auth_broker_tee.Custody.Challenges.usable
    auth_broker_tee.Custody.Challenges.consume_custody_challenge
    auth_broker_tee.Custody.Exchange.role_or auth_broker_tee.Custody.Exchange.opposite
    auth_broker_tee.Custody.Exchange.without_prefix auth_broker_tee.Custody.Exchange.plain_address
    auth_broker_tee.Custody.Exchange.sync_host auth_broker_tee.Custody.Exchange.sync_url_for
    auth_broker_tee.Custody.Exchange.role_of auth_broker_tee.Custody.Exchange.custody_aad
    auth_broker_tee.Custody.Exchange.custody_bundle auth_broker_tee.Custody.Exchange.serve_recipient
    auth_broker_tee.Custody.Exchange.serve_ok auth_broker_tee.Custody.Exchange.serve_consumed
    auth_broker_tee.Custody.Exchange.serve_custody_request
    auth_broker_tee.Custody.Exchange.check_custody_answer
    auth_broker_tee.Custody.Exchange.serves_as_primary auth_broker_tee.Custody.Exchange.probe_peer
    auth_broker_tee.Custody.Exchange.probe_configured auth_broker_tee.Custody.Exchange.contact_time
    auth_broker_tee.Custody.Exchange.may_take_over auth_broker_tee.Custody.Exchange.take_over
    auth_broker_tee.Custody.Exchange.promote_to_primary
    auth_broker_tee.Governance.Replica.is_custodian
    auth_broker_tee.Governance.Replica.is_governance_key_holder
    auth_broker_tee.Governance.Replica.snapshot_of
    auth_broker_tee.Governance.Replica.verify_replica_snapshot
    auth_broker_tee.Governance.Replica.build_replica_custody_transfer
    auth_broker_tee.Governance.Replica.custody_for
    auth_broker_tee.Governance.Replica.apply_replica_custody_transfer
    auth_broker_tee.Governance.Replica.build_replica_sync
    auth_broker_tee.Governance.Replica.sync_for
    auth_broker_tee.Governance.Replica.apply_replica_sync
    auth_broker_tee.Governance.Replica.may_promote
    auth_broker_tee.Governance.Replica.promote_replica_to_primary
    auth_broker_tee.Attestation.nonce_matches auth_broker_tee.Attestation.is_broker_project_number
    auth_broker_tee.Attestation.is_broker_instance
    auth_broker_tee.Attestation.assert_broker_workload_claims auth_broker_tee.Attestation.is_past
    auth_broker_tee.Attestation.validate_confidential_space_claims
    auth_broker_tee.Attestation.verify_confidential_space_attestation
    auth_broker_tee.Governance.initialize_governance
    auth_broker_tee.Governance.export_replica_snapshot
    auth_broker_tee.Governance.apply_replica_snapshot auth_broker_tee.Governance.changed
    auth_broker_tee.Governance.change auth_broker_tee.Governance.continue
    auth_broker_tee.Governance.rolled_back auth_broker_tee.Governance.settle
    auth_broker_tee.Governance.commit auth_broker_tee.Governance.Activation.is_status
    auth_broker_tee.Governance.Activation.is_empty
    auth_broker_tee.Governance.Activation.assert_active
    auth_broker_tee.Governance.Activation.assert_enclave_key
    auth_broker_tee.Governance.Activation.assert_entries
    auth_broker_tee.Governance.Activation.lineage_digest auth_broker_tee.Json.get_field
    auth_broker_tee.Json.get auth_broker_tee.Json.truthy auth_broker_tee.Json.same
    auth_broker_tee.Json.is_undefined auth_broker_tee.Json.is_object auth_broker_tee.Json.is_string
    auth_broker_tee.Json.date_parse auth_broker_tee.Json.natural auth_broker_tee.Json.items
    auth_broker_tee.Json.of_items auth_broker_tee.Json.fields auth_broker_tee.Json.or_null
    auth_broker_tee.Json.equal auth_broker_tee.Json.equal_items auth_broker_tee.Json.equal_fields
    auth_broker_tee.Certificates.Admission.assert_each_matches
    auth_broker_tee.Certificates.Admission.assert_preapproval_matches_candidate
    auth_broker_tee.Certificates.Admission.nonempty_text
    auth_broker_tee.Certificates.Admission.all_nonempty
    auth_broker_tee.Certificates.Admission.is_nonempty_string_array
    auth_broker_tee.Certificates.Admission.items_include
    auth_broker_tee.Certificates.Admission.array_includes
    auth_broker_tee.Certificates.Admission.text_is
    auth_broker_tee.Certificates.Admission.is_positive
    auth_broker_tee.Certificates.Admission.assert_route_keys
    auth_broker_tee.Certificates.Admission.assert_key_array
    auth_broker_tee.Certificates.Admission.assert_tenant_admission_input
    auth_broker_tee.Certificates.Admission.assert_optional_digest
    auth_broker_tee.Certificates.Admission.is_time
    auth_broker_tee.Certificates.Admission.assert_tenant_admission_payload
    auth_broker_tee.Certificates.Admission.proof_or_null
    auth_broker_tee.Certificates.Admission.sign_tenant_admission_certificate
    auth_broker_tee.Crypto.reached auth_broker_tee.Crypto.is_expired auth_broker_tee.Crypto.digest
    auth_broker_tee.Crypto.key_id auth_broker_tee.Crypto.build_in_memory_key_material
    auth_broker_tee.Crypto.sign_governance_payload auth_broker_tee.Crypto.signature_holds
    auth_broker_tee.Crypto.verify_governance_envelope
serve_custody_request-IsServed_example =
    serve_custody_request-IsServed toy cipher verify_jwt 2000 request_token true config "c1"
      evidence "10.0.0.2" serving {bundle = (bundle_of (serve evidence).0).0}
      {attestation = (bundle_of (serve evidence).0).1} refl

abbrev requests : PeerRequests
requests = record {
  fetch_challenge = λ url. ok (object (("challenge", str "c1") ∷ []));
  request_custody = λ url challenge with_evidence. answer (serve with_evidence).0;
}

pull_custody_from_peer-IsBound_example :
    ((is_status fresh.state.status inactive && is_empty fresh.state.lineage) ≡ true)
    × (x : Custody) × IsBound toy cipher verify_jwt 2000 config fresh.state x
    × IsAsked toy cipher verify_jwt 2000 request_token requests config fresh.state x
    × ((apply_replica_custody_transfer toy cipher
          (get "encryptedState" x.payload)
          (get "aad" x.payload)
          x.role
          (str x.sender.governance_key_id)
          2000
          fresh.state).0
        ≡ ok tt)
unfolding auth_broker_tee.Json.Order.text_le auth_broker_tee.Custody.Keys.assert_replica_claims
    auth_broker_tee.Custody.Keys.key_attestation_nonce
    auth_broker_tee.Custody.Keys.build_key_attestation
    auth_broker_tee.Custody.Keys.verify_key_attestation
    auth_broker_tee.Custody.Challenges.without_expired
    auth_broker_tee.Custody.Challenges.open_challenge
    auth_broker_tee.Custody.Challenges.issue_custody_challenge
    auth_broker_tee.Custody.Challenges.usable
    auth_broker_tee.Custody.Challenges.consume_custody_challenge
    auth_broker_tee.Custody.Exchange.role_or auth_broker_tee.Custody.Exchange.opposite
    auth_broker_tee.Custody.Exchange.without_prefix auth_broker_tee.Custody.Exchange.plain_address
    auth_broker_tee.Custody.Exchange.sync_host auth_broker_tee.Custody.Exchange.sync_url_for
    auth_broker_tee.Custody.Exchange.role_of auth_broker_tee.Custody.Exchange.custody_aad
    auth_broker_tee.Custody.Exchange.custody_bundle auth_broker_tee.Custody.Exchange.serve_recipient
    auth_broker_tee.Custody.Exchange.serve_ok auth_broker_tee.Custody.Exchange.serve_consumed
    auth_broker_tee.Custody.Exchange.serve_custody_request
    auth_broker_tee.Custody.Exchange.check_custody_answer
    auth_broker_tee.Custody.Exchange.serves_as_primary auth_broker_tee.Custody.Exchange.probe_peer
    auth_broker_tee.Custody.Exchange.probe_configured auth_broker_tee.Custody.Exchange.contact_time
    auth_broker_tee.Custody.Exchange.may_take_over auth_broker_tee.Custody.Exchange.take_over
    auth_broker_tee.Custody.Exchange.promote_to_primary auth_broker_tee.Custody.Pull.custody_from
    auth_broker_tee.Custody.Pull.health_for auth_broker_tee.Custody.Pull.custody_taken
    auth_broker_tee.Custody.Pull.take_custody_from auth_broker_tee.Custody.Pull.pull_from
    auth_broker_tee.Custody.Pull.pull_custody_from_peer
    auth_broker_tee.Governance.Replica.is_custodian
    auth_broker_tee.Governance.Replica.is_governance_key_holder
    auth_broker_tee.Governance.Replica.snapshot_of
    auth_broker_tee.Governance.Replica.verify_replica_snapshot
    auth_broker_tee.Governance.Replica.build_replica_custody_transfer
    auth_broker_tee.Governance.Replica.custody_for
    auth_broker_tee.Governance.Replica.apply_replica_custody_transfer
    auth_broker_tee.Governance.Replica.build_replica_sync
    auth_broker_tee.Governance.Replica.sync_for
    auth_broker_tee.Governance.Replica.apply_replica_sync
    auth_broker_tee.Governance.Replica.may_promote
    auth_broker_tee.Governance.Replica.promote_replica_to_primary
    auth_broker_tee.Governance.Sealing.encrypt_state_envelope
    auth_broker_tee.Governance.Sealing.decrypt_state_envelope
    auth_broker_tee.Governance.Sealing.decrypt_state
    auth_broker_tee.Governance.Sealing.accept_custody_transfer
    auth_broker_tee.Attestation.nonce_matches auth_broker_tee.Attestation.is_broker_project_number
    auth_broker_tee.Attestation.is_broker_instance
    auth_broker_tee.Attestation.assert_broker_workload_claims auth_broker_tee.Attestation.is_past
    auth_broker_tee.Attestation.validate_confidential_space_claims
    auth_broker_tee.Attestation.verify_confidential_space_attestation
    auth_broker_tee.Governance.initialize_governance
    auth_broker_tee.Governance.export_replica_snapshot
    auth_broker_tee.Governance.apply_replica_snapshot auth_broker_tee.Governance.changed
    auth_broker_tee.Governance.change auth_broker_tee.Governance.continue
    auth_broker_tee.Governance.rolled_back auth_broker_tee.Governance.settle
    auth_broker_tee.Governance.commit auth_broker_tee.Governance.Activation.is_status
    auth_broker_tee.Governance.Activation.is_empty
    auth_broker_tee.Governance.Activation.assert_active
    auth_broker_tee.Governance.Activation.assert_enclave_key
    auth_broker_tee.Governance.Activation.assert_entries
    auth_broker_tee.Governance.Activation.lineage_digest auth_broker_tee.Json.get_field
    auth_broker_tee.Json.get auth_broker_tee.Json.truthy auth_broker_tee.Json.same
    auth_broker_tee.Json.is_undefined auth_broker_tee.Json.is_object auth_broker_tee.Json.is_string
    auth_broker_tee.Json.date_parse auth_broker_tee.Json.natural auth_broker_tee.Json.items
    auth_broker_tee.Json.of_items auth_broker_tee.Json.fields auth_broker_tee.Json.or_null
    auth_broker_tee.Json.equal auth_broker_tee.Json.equal_items auth_broker_tee.Json.equal_fields
    auth_broker_tee.Certificates.require_digest
    auth_broker_tee.Certificates.assert_certificate_fresh auth_broker_tee.Certificates.has_items
    auth_broker_tee.Certificates.last auth_broker_tee.Certificates.verify_successor
    auth_broker_tee.Certificates.verify_successors auth_broker_tee.Certificates.verify_genesis
    auth_broker_tee.Certificates.verify_lineage
    auth_broker_tee.Certificates.Admission.assert_each_matches
    auth_broker_tee.Certificates.Admission.assert_preapproval_matches_candidate
    auth_broker_tee.Certificates.Admission.nonempty_text
    auth_broker_tee.Certificates.Admission.all_nonempty
    auth_broker_tee.Certificates.Admission.is_nonempty_string_array
    auth_broker_tee.Certificates.Admission.items_include
    auth_broker_tee.Certificates.Admission.array_includes
    auth_broker_tee.Certificates.Admission.text_is
    auth_broker_tee.Certificates.Admission.is_positive
    auth_broker_tee.Certificates.Admission.assert_route_keys
    auth_broker_tee.Certificates.Admission.assert_key_array
    auth_broker_tee.Certificates.Admission.assert_tenant_admission_input
    auth_broker_tee.Certificates.Admission.assert_optional_digest
    auth_broker_tee.Certificates.Admission.is_time
    auth_broker_tee.Certificates.Admission.assert_tenant_admission_payload
    auth_broker_tee.Certificates.Admission.proof_or_null
    auth_broker_tee.Certificates.Admission.sign_tenant_admission_certificate
    auth_broker_tee.Crypto.reached auth_broker_tee.Crypto.is_expired auth_broker_tee.Crypto.digest
    auth_broker_tee.Crypto.key_id auth_broker_tee.Crypto.build_in_memory_key_material
    auth_broker_tee.Crypto.sign_governance_payload auth_broker_tee.Crypto.signature_holds
    auth_broker_tee.Crypto.verify_governance_envelope
    auth_broker_tee.Certificates.Signing.sign_genesis_certificate
pull_custody_from_peer-IsBound_example =
    pull_custody_from_peer-IsBound toy cipher verify_jwt 2000 request_token requests config fresh
      refl
