-- ===== src/Governance/Genesis.antt =====
-- src/governance-state.js: the genesis of a lineage (`bootstrapGenesisFromAttestedApproval`) and the
-- provenance of the running image. What the image registry answers, and `JSON.parse`, are parameters.
pub mod Keeps
pub mod Authorized
use auth_broker_tee.Base.{
  ℕ, String, [], ◌∷◌, ◌&&◌, ◌||◌, not, lookup, Result, ok, err, ◌>>=◌, ◌>>◌, guard, or_throw,
}
use auth_broker_tee.Json.{
  Json, null, str, time, object, get, truthy, same, is_object, is_string, or_null,
}
use auth_broker_tee.Patterns.{is_sha}
use auth_broker_tee.Crypto.{Crypto, digest, is_expired}
use auth_broker_tee.Certificates.{ReviewPolicy}
use auth_broker_tee.Certificates.Admission.{text_is, broker_audience}
use auth_broker_tee.Certificates.Signing.{sign_genesis_certificate}
use auth_broker_tee.Attestation.{verify_confidential_space_attestation}
use auth_broker_tee.Governance.{active, inactive, State, M, change, continue, commit}
use auth_broker_tee.Governance.Activation.{Environment, is_status, is_empty, assert_enclave_key}

abbrev pub adjudication_schema : String
adjudication_schema = "femled.first_principles.adjudication.v1"

abbrev pub genesis_bootstrap_schema : String
genesis_bootstrap_schema = "femled.tee.governance.genesis_bootstrap.v1"

abbrev pub broker_repository : String
broker_repository = "FemLed/auth-broker-tee"

-- What the process reads of its image: the reference and digest that its attestation names, and the
-- registry's answers for the manifest and for the blob of a digest.
pub record ImageSource : Type 0 where
  pub image_reference : Json
  pub image_digest : Json
  pub fetch_manifest : Json → Json → Result Json
  pub fetch_config : Json → Json → Result Json
  pub parse : Json → Result Json

pub record Provenance : Type 0 where
  pub image_reference : Json
  pub image_digest : Json
  pub config_digest : Json
  pub source_revision : Json

module _ (c : Crypto) where
  -- `readCurrentImageProvenance`
  unfoldable pub read_current_image_provenance : ImageSource → Result Provenance
  read_current_image_provenance source = do
    guard (truthy source.image_reference && truthy source.image_digest)
        "running image reference and digest are required for genesis bootstrap"
    manifest_text ← source.fetch_manifest source.image_reference source.image_digest
    guard (same (str (c.hash_text manifest_text)) source.image_digest)
        "running image manifest digest mismatch"
    manifest ← source.parse manifest_text
    let config_digest = get "digest" (get "config" manifest)
    guard (truthy config_digest) "running image manifest is missing config digest"
    config_text ← source.fetch_config source.image_reference config_digest
    guard (same (str (c.hash_text config_text)) config_digest)
        "running image config digest mismatch"
    config ← source.parse config_text
    let revision = get "org.opencontainers.image.revision" (get "Labels" (get "config" config))
    guard (text_is is_sha revision)
        "running image config is missing org.opencontainers.image.revision"
    ok (record {
      image_reference = source.image_reference;
      image_digest = source.image_digest;
      config_digest = config_digest;
      source_revision = revision;
    })

  -- What the certificate says of the bootstrap.
  unfoldable pub bootstrap_record : Json → Json → Json → Provenance → ℕ → State → Json
  bootstrap_record request payload reviewer_image p now s = object (
      ("schema", str genesis_bootstrap_schema)
      ∷ ("reviewerImageDigest", reviewer_image)
      ∷ ("adjudicationPayloadDigest", str (digest c payload))
      ∷ ("adjudicationHeadSha", get "headSha" payload)
      ∷ ("adjudicationWorkflowRunId", get "workflowRunId" payload)
      ∷ ("targetImageDigest", s.image_digest)
      ∷ ("targetImageReference", p.image_reference)
      ∷ ("targetImageSourceRevision", p.source_revision)
      ∷ ("targetImageConfigDigest", p.config_digest)
      ∷ (
        "requestDigest",
        str (
            digest c (
              object (
                ("repository", get "repository" request)
                ∷ ("eventName", get "eventName" request)
                ∷ ("headSha", get "headSha" request)
                ∷ ("changedFilesDigest", get "changedFilesDigest" payload)
                ∷ ("diffDigest", get "diffDigest" payload)
                ∷ ("sourceEvidenceDigest", or_null (get "sourceEvidenceDigest" payload))
                ∷ ("workflowRunId", get "workflowRunId" request)
                ∷ []))),
      )
      ∷ ("bootstrappedAt", time now)
      ∷ [])

  -- The checks of the approval, up to the provenance of the image.
  unfoldable pub check_adjudication :
      Environment → ImageSource → Json → Json → Json → ℕ → State → Result Json
  check_adjudication env source request response target now s = do
    guard (is_status s.status inactive && is_empty s.lineage)
        "genesis bootstrap requires inactive governance with empty lineage"
    assert_enclave_key env.production s
    guard (not (truthy target) || same target s.image_digest)
        "genesis bootstrap target image digest must match the running TEE image"
    guard (is_object request && text_is is_sha (get "headSha" request))
        "genesis bootstrap requires the original adjudication request with a headSha"
    let payload = get "payload" response
    guard (truthy payload && is_string (get "attestationToken" response))
        "genesis bootstrap requires a signed TEE adjudication response"
    guard (same (get "payloadDigest" response) (str (digest c payload)))
        "genesis bootstrap adjudication payloadDigest mismatch"
    recorded ←
        or_throw (lookup (digest c payload) s.genesis_self_adjudications)
          "genesis bootstrap accepts only an adjudication this TEE produced for its own genesis"
    attestation ←
        verify_confidential_space_attestation env.verify_jwt (get "attestationToken" response)
          (str (digest c payload)) null (str broker_audience) now
    let reviewer_image = or_null (get "image_digest" (get "container" (get "submods" attestation)))
    guard (same reviewer_image s.image_digest)
        "genesis bootstrap reviewer image is not trusted for genesis"
    guard (same (get "schema" payload) (str adjudication_schema))
        "genesis bootstrap response has unexpected adjudication schema"
    guard (same (get "repository" payload) (str broker_repository))
        "genesis bootstrap adjudication repository mismatch"
    guard (same (get "headSha" payload) (get "headSha" request))
        "genesis bootstrap head SHA mismatch"
    ok reviewer_image

  -- The checks after it, which need the provenance.
  unfoldable pub check_revision : Json → Json → Provenance → ℕ → Result (Unit {0})
  check_revision request payload p now = do
    guard (same p.source_revision (get "headSha" payload))
        "genesis bootstrap running image revision is not bound to the TEE-approved commit"
    guard (same (get "decision" payload) (str "APPROVE")) "genesis bootstrap requires TEE APPROVE"
    guard (not (is_expired payload now)) "genesis bootstrap adjudication is expired"
    guard (not (truthy (get "nonce" request)) || same (get "nonce" payload) (get "nonce" request))
        "genesis bootstrap nonce mismatch between request and adjudication"

  module _ (policy : ReviewPolicy) (env : Environment) (source : ImageSource)
      (route_registry_status attestation_digest : Json) where
    -- What is signed before the commit.
    unfoldable pub genesis_for : Json → Json → Json → ℕ → State → Result Json
    genesis_for request response target now s = do
      reviewer_image ← check_adjudication env source request response target now s
      p ← read_current_image_provenance source
      checked ← check_revision request (get "payload" response) p now
      ok (
          sign_genesis_certificate c policy s.key_material s.image_digest route_registry_status
            attestation_digest
            (bootstrap_record request (get "payload" response) reviewer_image p now s) now)

    -- The commit: the checks are made again, and the lineage begins.
    unfoldable pub may_begin : State → Result (Unit {0})
    may_begin s =
        guard (is_status s.status inactive && is_empty s.lineage)
          "genesis bootstrap requires a fresh inactive TEE"

    abbrev pub begin_lineage : Json → State → State
    begin_lineage certificate s = record s {
      status = active;
      epoch = 1;
      lineage = certificate ∷ [];
    }

    unfoldable pub begin_with : Json → M (Unit {0})
    begin_with certificate = change may_begin (λ _. begin_lineage certificate) (λ _ _. tt)

    -- `current.genesisSelfAdjudications?.clear()`, after a commit that returned.
    unfoldable pub cleared : Result (Unit {0}) × State → Result Json × State
    cleared (ok _, s) =
        let s' : State = record s { genesis_self_adjudications = [] } in (ok (env.manifest s'), s')
    cleared (err e, s) = (err e, s)

    -- `bootstrapGenesisFromAttestedApproval`: the manifest.
    unfoldable pub bootstrap_genesis : Json → Json → Json → ℕ → M Json
    bootstrap_genesis request response target now s =
        continue (λ certificate s'. cleared (commit env.replicate (begin_with certificate) s'))
          (genesis_for request response target now s) s
