-- ===== src/Governance/Genesis/Authorized.antt =====
-- src/governance-state.js: who may begin a lineage.
use auth_broker_tee.Base.{
  ◌+◌, ℕ, true, false, some, [], ◌∷◌, ◌&&◌, ◌||◌, not, lookup, ◌≡◌, refl, sym, ap, ◌∙◌, Result, ok,
  err, or_throw, or_throw-ok, ok-injective, guard-ok, >>=-eq-ok, arith,
}
use auth_broker_tee.Json.{Json, null, str, get, same, is_object, is_string, truthy, or_null}
use auth_broker_tee.Patterns.{is_sha}
use auth_broker_tee.Crypto.{Crypto, digest, is_expired}
use auth_broker_tee.Certificates.{ReviewPolicy}
use auth_broker_tee.Certificates.Admission.{text_is, broker_audience}
use auth_broker_tee.Attestation.{verify_confidential_space_attestation}
use auth_broker_tee.Governance.{active, inactive, State, change, commit}
use auth_broker_tee.Governance.Commit.{commit-ok, ok≢err}
use auth_broker_tee.Governance.Returns.{made-ok, continue-ok}
use auth_broker_tee.Governance.Activation.{Environment, is_status, is_empty, assert_enclave_key}
use auth_broker_tee.Governance.Genesis.{
  ImageSource, Provenance, adjudication_schema, broker_repository, check_adjudication,
  check_revision, read_current_image_provenance, genesis_for, may_begin, begin_lineage, begin_with,
  cleared, bootstrap_genesis,
}

-- The provenance was read from the manifest and the configuration of the image, whose texts have the
-- digests that name them.
pub record IsProvenance (c : Crypto) (source : ImageSource) (p : Provenance) : Type 0 where
  pub manifest_text : Json
  pub fetched : source.fetch_manifest source.image_reference source.image_digest ≡ ok manifest_text
  pub same_manifest : same (str (c.hash_text manifest_text)) source.image_digest ≡ true
  pub manifest : Json
  pub parsed : source.parse manifest_text ≡ ok manifest
  pub config_text : Json
  pub fetched_config :
      source.fetch_config source.image_reference (get "digest" (get "config" manifest))
      ≡ ok config_text
  pub same_config :
      same (str (c.hash_text config_text)) (get "digest" (get "config" manifest)) ≡ true
  pub config : Json
  pub parsed_config : source.parse config_text ≡ ok config
  pub revision :
      get "org.opencontainers.image.revision" (get "Labels" (get "config" config))
      ≡ p.source_revision

read_current_image_provenance-IsProvenance :
    (c : Crypto) (source : ImageSource) {p : Provenance}
    → read_current_image_provenance c source ≡ ok p
    → IsProvenance c source p
unfolding read_current_image_provenance
read_current_image_provenance-IsProvenance c source h =
    let (named, r) = guard-ok (truthy source.image_reference && truthy source.image_digest) _ _ h in
    let (manifest_text, fetched, r1) =
      >>=-eq-ok (source.fetch_manifest source.image_reference source.image_digest) _ r in
    let (same_manifest, r2) =
      guard-ok (same (str (c.hash_text manifest_text)) source.image_digest) _ _ r1 in
    let (manifest, parsed, r3) = >>=-eq-ok (source.parse manifest_text) _ r2 in
    let config_digest = get "digest" (get "config" manifest) in
    let (present, r4) = guard-ok (truthy config_digest) _ _ r3 in
    let (config_text, fetched_config, r5) =
      >>=-eq-ok (source.fetch_config source.image_reference config_digest) _ r4 in
    let (same_config, r6) = guard-ok (same (str (c.hash_text config_text)) config_digest) _ _ r5 in
    let (config, parsed_config, r7) = >>=-eq-ok (source.parse config_text) _ r6 in
    let revision = get "org.opencontainers.image.revision" (get "Labels" (get "config" config)) in
    let (is_commit, r8) = guard-ok (text_is is_sha revision) _ _ r7 in
    record {
      manifest_text = manifest_text;
      fetched = fetched;
      same_manifest = same_manifest;
      manifest = manifest;
      parsed = parsed;
      config_text = config_text;
      fetched_config = fetched_config;
      same_config = same_config;
      config = config;
      parsed_config = parsed_config;
      revision = ap (λ (x : Provenance). x.source_revision) (ok-injective r8);
    }

module _ (c : Crypto) (policy : ReviewPolicy) (env : Environment) (source : ImageSource)
    (route_registry_status attestation_digest : Json) where
  -- The approval was produced and recorded by this process for the commit of its own image.
  pub record IsApproved (request response : Json) (now : ℕ) (s : State) : Type 0 where
    pub fresh : (is_status s.status inactive && is_empty s.lineage) ≡ true
    pub expiry : Json
    pub recorded :
        lookup (digest c (get "payload" response)) s.genesis_self_adjudications ≡ some expiry
    pub attestation : Json
    pub attested :
        verify_confidential_space_attestation env.verify_jwt
          (get "attestationToken" response)
          (str (digest c (get "payload" response)))
          null
          (str broker_audience)
          now
        ≡ ok attestation
    pub own_image :
        same
          (or_null (get "image_digest" (get "container" (get "submods" attestation))))
          s.image_digest
        ≡ true
    pub repository : same (get "repository" (get "payload" response)) (str broker_repository) ≡ true
    pub same_commit : same (get "headSha" (get "payload" response)) (get "headSha" request) ≡ true
    pub provenance : Provenance
    pub read : read_current_image_provenance c source ≡ ok provenance
    pub built_from : IsProvenance c source provenance
    pub revision : same provenance.source_revision (get "headSha" (get "payload" response)) ≡ true
    pub approve : same (get "decision" (get "payload" response)) (str "APPROVE") ≡ true
    pub unexpired : is_expired (get "payload" response) now ≡ false

  genesis_for-IsApproved :
      (request response target : Json) (now : ℕ) (s : State) {certificate : Json}
      → genesis_for c policy env source route_registry_status attestation_digest request response
          target now s
        ≡ ok certificate
      → IsApproved request response now s
  unfolding genesis_for check_adjudication check_revision
  genesis_for-IsApproved request response target now s h =
      let payload = get "payload" response in
      let (image, a, r) =
        >>=-eq-ok (check_adjudication c env source request response target now s) _ h in
      let (p, read, r1) = >>=-eq-ok (read_current_image_provenance c source) _ r in
      let (u, d, r2) = >>=-eq-ok (check_revision c request payload p now) _ r1 in
      let (fresh, a1) = guard-ok (is_status s.status inactive && is_empty s.lineage) _ _ a in
      let (u1, k, a2) = >>=-eq-ok (assert_enclave_key env.production s) _ a1 in
      let (t, a3) = guard-ok (not (truthy target) || same target s.image_digest) _ _ a2 in
      let (q, a4) = guard-ok (is_object request && text_is is_sha (get "headSha" request)) _ _ a3 in
      let (w, a5) =
        guard-ok (truthy payload && is_string (get "attestationToken" response)) _ _ a4 in
      let (x, a6) =
        guard-ok (same (get "payloadDigest" response) (str (digest c payload))) _ _ a5 in
      let (expiry, recorded, a7) =
        >>=-eq-ok (or_throw (lookup (digest c payload) s.genesis_self_adjudications) _) _ a6 in
      let (attestation, attested, a8) =
        >>=-eq-ok
          (verify_confidential_space_attestation env.verify_jwt (get "attestationToken" response)
            (str (digest c payload)) null (str broker_audience) now)
          _ a7 in
      let (own, a9) =
        guard-ok
          (same (or_null (get "image_digest" (get "container" (get "submods" attestation))))
            s.image_digest)
          _ _ a8 in
      let (y, a10) = guard-ok (same (get "schema" payload) (str adjudication_schema)) _ _ a9 in
      let (repository, a11) =
        guard-ok (same (get "repository" payload) (str broker_repository)) _ _ a10 in
      let (commit, a12) = guard-ok (same (get "headSha" payload) (get "headSha" request)) _ _ a11 in
      let (revision, d1) = guard-ok (same p.source_revision (get "headSha" payload)) _ _ d in
      let (approve, d2) = guard-ok (same (get "decision" payload) (str "APPROVE")) _ _ d1 in
      let (unexpired, d3) = guard-ok (not (is_expired payload now)) _ _ d2 in
      record {
        fresh = fresh;
        expiry = expiry;
        recorded = or_throw-ok (lookup (digest c payload) s.genesis_self_adjudications) _ recorded;
        attestation = attestation;
        attested = attested;
        own_image = own;
        repository = repository;
        same_commit = commit;
        provenance = p;
        read = read;
        built_from = read_current_image_provenance-IsProvenance c source read;
        revision = revision;
        approve = approve;
        unexpired = ground arith;
      }

  -- What a commit that returned, and the clearing after it, left.
  cleared-ok :
      (r : Result (Unit {0})) (s : State) {m : Json}
      → (cleared c policy env source route_registry_status attestation_digest (r, s)).0 ≡ ok m
      → (r ≡ ok tt)
        × ((cleared c policy env source route_registry_status attestation_digest (r, s)).1
            ≡ record s { genesis_self_adjudications = [] })
  unfolding cleared
  cleared-ok (ok tt) s h = (refl, refl)
  cleared-ok (err e) s h = absurd (ok≢err (sym h))

  -- A genesis that returns was begun by a fresh inactive replica, on an approval that it had recorded
  -- itself, that is attested by its own image and not expired, and that names the commit which the
  -- image was built from; it leaves the replica active at epoch 1, with a lineage of one certificate,
  -- and forgets the recorded approvals.
  pub bootstrap_genesis-IsApproved :
      (request response target : Json) (now : ℕ) (s : State) {manifest : Json}
      → (bootstrap_genesis c policy env source route_registry_status attestation_digest request
          response target now s).0
        ≡ ok manifest
      → IsApproved request response now s
        × (certificate : Json) × ((bootstrap_genesis c policy env source route_registry_status
              attestation_digest request response target now s).1
            ≡ record s {
              status = active;
              epoch = 1;
              lineage = certificate ∷ [];
              genesis_self_adjudications = [];
              replica_serial = s.replica_serial + 1;
            })
  unfolding bootstrap_genesis begin_with change
  bootstrap_genesis-IsApproved request response target now s h =
      let begin = begin_with c policy env source route_registry_status attestation_digest in
      let (certificate, signed, e) =
        continue-ok
          (λ x s'.
            cleared c policy env source route_registry_status attestation_digest
              (commit env.replicate (begin x) s'))
          (genesis_for c policy env source route_registry_status attestation_digest request response
            target now s)
          s h in
      let released = commit env.replicate (begin certificate) s in
      let (committed, forgot) = cleared-ok released.0 released.1 (ap (λ p. p.0) (sym e) ∙ h) in
      let (made, _, state) =
        commit-ok env.replicate (begin certificate) s (ap (λ x. (x, released.1)) committed) in
      let (u, _, _, begun) =
        made-ok s
          (λ _.
            begin_lineage c policy env source route_registry_status attestation_digest certificate)
          (λ _. tt) (may_begin c policy env source route_registry_status attestation_digest s)
          made in
      (
        genesis_for-IsApproved request response target now s signed,
        certificate,
        ap (λ p. p.1) e
            ∙ forgot
            ∙ ap {A = State} (λ x. record x { genesis_self_adjudications = [] }) (sym state)
            ∙ ap {A = State}
                (λ x. record x {
                  replica_serial = s.replica_serial + 1;
                  genesis_self_adjudications = [];
                })
                begun,
      )
