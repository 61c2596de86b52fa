-- ===== src/Tests/Genesis.antt =====
-- The genesis of a replica that recorded its own approval.
use auth_broker_tee.Base.{String, [], ◌∷◌, ◌+◌, ok, ◌≡◌, refl}
use auth_broker_tee.Json.{Json, nil, cons, null, str, num, arr, object}
use auth_broker_tee.Certificates.Admission.{broker_audience}
use auth_broker_tee.Governance.{State, active, initialize_governance}
use auth_broker_tee.Governance.Activation.{Environment}
use auth_broker_tee.Governance.Preapproval.{record_genesis_self_adjudication}
use auth_broker_tee.Governance.Genesis.{
  ImageSource, adjudication_schema, broker_repository, bootstrap_genesis,
}
use auth_broker_tee.Governance.Genesis.Authorized.{IsApproved, bootstrap_genesis-IsApproved}
use auth_broker_tee.Tests.Setup.{toy, keys, policy, environment, some_digest}

abbrev sha : String
sha = "0123456789abcdef0123456789abcdef01234567"

abbrev claims : Json
claims = object (
    ("iss", str "https://confidentialcomputing.googleapis.com")
    ∷ ("aud", str broker_audience)
    ∷ ("dbgstat", str "disabled-since-boot")
    ∷ ("swname", str "CONFIDENTIAL_SPACE")
    ∷ ("eat_nonce", str some_digest)
    ∷ ("submods", object (("container", object (("image_digest", str some_digest) ∷ [])) ∷ []))
    ∷ [])

abbrev surroundings : Environment
surroundings = record environment { verify_jwt = λ token. ok claims }

-- One document that reads as the manifest and as the configuration.
abbrev image : Json
image = object (
    (
      "config",
      object (
          ("digest", str some_digest)
          ∷ ("Labels", object (("org.opencontainers.image.revision", str sha) ∷ []))
          ∷ []),
    )
    ∷ [])

abbrev source : ImageSource
source = record {
  image_reference = str "registry/broker";
  image_digest = str some_digest;
  fetch_manifest = λ reference digest. ok (str "manifest");
  fetch_config = λ reference digest. ok (str "config");
  parse = λ text. ok image;
}

abbrev genesis_request : Json
genesis_request = object (("headSha", str sha) ∷ [])

abbrev response : Json
response = object (
    (
      "payload",
      object (
          ("schema", str adjudication_schema)
          ∷ ("repository", str broker_repository)
          ∷ ("headSha", str sha)
          ∷ ("decision", str "APPROVE")
          ∷ []),
    )
    ∷ ("payloadDigest", str some_digest)
    ∷ ("attestationToken", str "token")
    ∷ [])

abbrev fresh : State
fresh =
    (record_genesis_self_adjudication some_digest null
      (initialize_governance (keys "g1" "a1") (str some_digest))).1

bootstrap_genesis-IsApproved_example :
    IsApproved toy policy surroundings source null null genesis_request response 2000 fresh
    × (certificate : Json) × ((bootstrap_genesis toy policy surroundings source null null
          genesis_request response null 2000 fresh).1
        ≡ record fresh {
          status = active;
          epoch = 1;
          lineage = certificate ∷ [];
          genesis_self_adjudications = [];
          replica_serial = fresh.replica_serial + 1;
        })
unfolding auth_broker_tee.Governance.Genesis.read_current_image_provenance
    auth_broker_tee.Governance.Genesis.check_adjudication
    auth_broker_tee.Governance.Genesis.check_revision auth_broker_tee.Governance.Genesis.genesis_for
    auth_broker_tee.Governance.Genesis.may_begin auth_broker_tee.Governance.Genesis.begin_with
    auth_broker_tee.Governance.Genesis.cleared auth_broker_tee.Governance.Genesis.bootstrap_genesis
    auth_broker_tee.Governance.Preapproval.record_genesis_self_adjudication
    auth_broker_tee.Attestation.nonce_matches auth_broker_tee.Attestation.is_past
    auth_broker_tee.Attestation.validate_confidential_space_claims
    auth_broker_tee.Attestation.verify_confidential_space_attestation
    auth_broker_tee.Governance.initialize_governance auth_broker_tee.Governance.change
    auth_broker_tee.Governance.continue auth_broker_tee.Governance.commit
    auth_broker_tee.Governance.Activation.is_empty
    auth_broker_tee.Governance.Activation.assert_active
    auth_broker_tee.Governance.Activation.assert_enclave_key auth_broker_tee.Patterns.is_sha
    auth_broker_tee.Json.get auth_broker_tee.Json.same auth_broker_tee.Json.is_object
    auth_broker_tee.Json.is_string auth_broker_tee.Json.fields auth_broker_tee.Json.or_null
    auth_broker_tee.Certificates.Admission.text_is auth_broker_tee.Crypto.is_expired
    auth_broker_tee.Crypto.digest auth_broker_tee.Governance.Activation.Steps.keep_newest
bootstrap_genesis-IsApproved_example =
    bootstrap_genesis-IsApproved toy policy surroundings source null null genesis_request response
      null 2000 fresh refl
