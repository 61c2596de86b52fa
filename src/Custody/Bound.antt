-- ===== src/Custody/Bound.antt =====
-- src/governance-replica-custody.js: whom the lineage key is sent to, and whom it is taken from.
use auth_broker_tee.Base.{
  ℕ, String, Bool, true, ◌&&◌, ◌||◌, not, ◌≡◌, refl, ap, subst, ◌∙◌, lookup, delete, Result, ok,
  err, guard, guard-ok, >>=-eq-ok, ok-injective, arith, inl, inr, Bool-cases,
}
use auth_broker_tee.Json.{Json, str, get, same, truthy}
use auth_broker_tee.Crypto.{Crypto, key_id}
use auth_broker_tee.Attestation.{
  verify_confidential_space_attestation, assert_broker_workload_claims,
}
use auth_broker_tee.Governance.{State}
use auth_broker_tee.Governance.Sealing.{Cipher}
use auth_broker_tee.Governance.Activation.Preserves.{guard-eq-ok}
use auth_broker_tee.Governance.Replica.{is_governance_key_holder}
use auth_broker_tee.Custody.{Node, Config, key_attestation_schema, replica_custody_audience}
use auth_broker_tee.Custody.Keys.{
  PeerKeys, key_attestation_nonce, assert_replica_claims, build_key_attestation,
  verify_key_attestation,
}
use auth_broker_tee.Custody.Challenges.{usable, consume_custody_challenge}
use auth_broker_tee.Custody.Sealed.{IsSealed, custody_bundle-IsSealed}
use auth_broker_tee.Custody.Exchange.{
  opposite, role_or, custody_bundle, serve_recipient, serve_ok, serve_consumed,
  serve_custody_request,
}

module _ (c : Crypto) (z : Cipher) (verify_jwt : Json → Result Json) (now : ℕ) where
  -- The keys are those of an enclave of the image, in the instance that is expected if one is, which
  -- answered this challenge.
  pub record IsAttested (evidence purpose challenge image instance : Json) (keys : PeerKeys)
      : Type 0 where
    pub answers : same (get "challenge" evidence) challenge ≡ true
    pub same_image : same (get "imageDigest" evidence) image ≡ true
    pub governance_id : key_id c (get "governancePublicKeyPem" evidence) ≡ ok keys.governance_key_id
    pub activation_id : key_id c (get "activationPublicKeyPem" evidence) ≡ ok keys.activation_key_id
    pub governance_pem : get "governancePublicKeyPem" evidence ≡ keys.governance_public_key_pem
    pub activation_pem : get "activationPublicKeyPem" evidence ≡ keys.activation_public_key_pem
    pub claims : Json
    pub attested :
        verify_confidential_space_attestation verify_jwt
          (get "attestationToken" evidence)
          (key_attestation_nonce c purpose challenge
            (str keys.governance_key_id)
            (str keys.activation_key_id)
            (get "imageDigest" evidence))
          image
          (str replica_custody_audience)
          now
        ≡ ok claims
    pub instance_of : assert_broker_workload_claims claims ≡ ok keys.instance_name
    pub expected : (not (truthy instance) || same keys.instance_name instance) ≡ true

  pub verify_key_attestation-IsAttested :
      (evidence purpose challenge image instance : Json) {keys : PeerKeys}
      → verify_key_attestation c verify_jwt evidence purpose challenge image instance now ≡ ok keys
      → IsAttested evidence purpose challenge image instance keys
  unfolding verify_key_attestation assert_replica_claims
  verify_key_attestation-IsAttested evidence purpose challenge image instance h =
      let (asked, r) =
        guard-ok
          (same (get "schema" evidence) (str key_attestation_schema)
            && same (get "purpose" evidence) purpose
            && truthy challenge
            && same (get "challenge" evidence) challenge)
          _ _ h in
      let (own, r1) = guard-ok (same (get "imageDigest" evidence) image) _ _ r in
      let (g, g_id, r2) = >>=-eq-ok (key_id c (get "governancePublicKeyPem" evidence)) _ r1 in
      let (a, a_id, r3) = >>=-eq-ok (key_id c (get "activationPublicKeyPem" evidence)) _ r2 in
      let (claims, attested, r4) =
        >>=-eq-ok
          (verify_confidential_space_attestation verify_jwt (get "attestationToken" evidence)
            (key_attestation_nonce c purpose challenge (str g) (str a) (get "imageDigest" evidence))
            image (str replica_custody_audience) now)
          _ r3 in
      let (name, named, r5) = >>=-eq-ok (assert_replica_claims claims instance) _ r4 in
      let (inner, workload, n) = >>=-eq-ok (assert_broker_workload_claims claims) _ named in
      let (expected, n1) = guard-ok (not (truthy instance) || same inner instance) _ _ n in
      let same_name : inner ≡ name = ok-injective n1 in
      subst (IsAttested evidence purpose challenge image instance) (ok-injective r5) (record {
        answers = ground arith;
        same_image = own;
        governance_id = g_id;
        activation_id = a_id;
        governance_pem = refl;
        activation_pem = refl;
        claims = claims;
        attested = attested;
        instance_of = workload ∙ ap ok same_name;
        expected =
            subst (λ x. (not (truthy instance) || same x instance) ≡ true) same_name expected;
      })

  -- What a request for custody was served with.
  pub record IsServed (config : Config) (challenge : String) (evidence bundle : Json) (n : Node)
      : Type 0 where
    pub holder : is_governance_key_holder n.state ≡ true
    pub opened : usable (lookup challenge n.open_challenges) now ≡ true
    pub peer_configured : truthy config.peer_instance ≡ true
    pub recipient : PeerKeys
    pub attested :
        IsAttested evidence
          (str "custody-request")
          (str challenge)
          n.state.image_digest
          config.peer_instance
          recipient
    pub sealed :
        IsSealed c z
          (str challenge)
          (opposite (role_or n.state.replica_role config.boot_role))
          recipient
          now
          n.state
          bundle

  serve_recipient-ok :
      (request_token : Json → String → Result Json) (production : Bool) (config : Config)
      (challenge evidence : Json) (s : State) {recipient : PeerKeys} {bundle attestation : Json}
      → serve_recipient c z verify_jwt request_token production config challenge evidence now s
        ≡ ok (recipient, bundle, attestation)
      → (truthy config.peer_instance ≡ true)
        × IsAttested evidence
            (str "custody-request")
            challenge
            s.image_digest
            config.peer_instance
            recipient
        × (custody_bundle c z production challenge
              (opposite (role_or s.replica_role config.boot_role))
              recipient
              now
              s
            ≡ ok bundle)
  unfolding serve_recipient
  serve_recipient-ok request_token production config challenge evidence s {recipient} {bundle}
        {attestation} h =
      let (configured, r) = guard-ok (truthy config.peer_instance) _ _ h in
      let (keys, verified, r1) =
        >>=-eq-ok
          (verify_key_attestation c verify_jwt evidence (str "custody-request") challenge
            s.image_digest config.peer_instance now)
          _ r in
      let role = opposite (role_or s.replica_role config.boot_role) in
      let (b, sealed, r2) =
        >>=-eq-ok (custody_bundle c z production challenge role keys now s) _ r1 in
      let (t, token, r3) =
        >>=-eq-ok
          (build_key_attestation c request_token (str "custody-send") (get "payloadDigest" b) s) _
          r2 in
      let e : ◌≡◌ {A = PeerKeys × Json × Json} (keys, b, t) (recipient, bundle, attestation) =
        ok-injective r3 in
      let attested =
        verify_key_attestation-IsAttested evidence (str "custody-request") challenge s.image_digest
          config.peer_instance verified in
      (
        configured,
        subst
            (IsAttested evidence (str "custody-request") challenge s.image_digest
              config.peer_instance)
            (ap (λ p. p.0) e) attested,
        subst
            (λ (p : PeerKeys × Json × Json).
              custody_bundle c z production challenge role p.0 now s ≡ ok p.1)
            e sealed,
      )

  serve_ok-ok :
      (config : Config) (address : String) (n : Node) (r : Result (PeerKeys × Json × Json))
      {bundle attestation : Json}
      → (serve_ok c z config address now n r).0 ≡ ok (bundle, attestation)
      → (recipient : PeerKeys) × (r ≡ ok (recipient, bundle, attestation))
        × ((serve_ok c z config address now n r).1.open_challenges ≡ n.open_challenges)
  unfolding serve_ok
  serve_ok-ok config address n (err e) h = cc
  serve_ok-ok config address n (ok (recipient, b, t)) h =
      (recipient, ap (λ p. ok (recipient, p.0, p.1)) (ok-injective h), refl)

  served :
      (request_token : Json → String → Result Json) (production : Bool) (config : Config)
      (challenge : String) (evidence : Json) (address : String) (n : Node)
      (used : Result (Unit {0})) {bundle attestation : Json}
      → (serve_consumed c z verify_jwt request_token production config challenge evidence address
          now n used).0
        ≡ ok (bundle, attestation)
      → (used ≡ ok tt)
        × (recipient : PeerKeys) × (serve_recipient c z verify_jwt request_token production config
              (str challenge)
              evidence
              now
              n.state
            ≡ ok (recipient, bundle, attestation))
        × ((serve_consumed c z verify_jwt request_token production config challenge evidence address
              now n used).1.open_challenges
            ≡ n.open_challenges)
  unfolding serve_consumed
  served request_token production config challenge evidence address n (err e) h = cc
  served request_token production config challenge evidence address n (ok tt) h =
      let (recipient, e, kept) = serve_ok-ok config address n _ h in (refl, recipient, e, kept)

  -- The lineage key leaves a replica only sealed to the activation key of a recipient that answered a
  -- challenge which this replica issued, had not used and had not let expire, that is attested to run
  -- the same image as the configured peer instance: what is sent is signed with the lineage key, holds
  -- it encrypted to that activation key, and is bound to the challenge. The challenge is used up.
  pub serve_custody_request-IsServed :
      (request_token : Json → String → Result Json) (production : Bool) (config : Config)
      (challenge : String) (evidence : Json) (address : String) (n : Node)
      {bundle attestation : Json}
      → (serve_custody_request c z verify_jwt request_token production config challenge evidence
          address now n).0
        ≡ ok (bundle, attestation)
      → IsServed config challenge evidence bundle n
        × ((serve_custody_request c z verify_jwt request_token production config challenge evidence
              address now n).1.open_challenges
            ≡ delete challenge n.open_challenges)
  unfolding serve_custody_request consume_custody_challenge
  serve_custody_request-IsServed request_token production config challenge evidence address n
        {bundle} {attestation} h =
      let used =
        guard (usable (lookup challenge n.open_challenges) now)
          "unknown or expired custody challenge" in
      let left : Node = record n { open_challenges = delete challenge n.open_challenges } in
      let result =
        serve_consumed c z verify_jwt request_token production config challenge evidence address now
          left used in
      elim (Bool-cases (is_governance_key_holder n.state)) [
        | inl e ↦
            let returned : result.0 ≡ ok (bundle, attestation) = ground arith in
            let (opened, recipient, sent, kept) =
              served request_token production config challenge evidence address left used
                returned in
            let (configured, attested, sealed) =
              serve_recipient-ok request_token production config (str challenge) evidence n.state
                sent in
            (
              record {
                holder = e;
                opened = guard-eq-ok _ _ opened;
                peer_configured = configured;
                recipient = recipient;
                attested = attested;
                sealed =
                    custody_bundle-IsSealed c z production (str challenge)
                      (opposite (role_or n.state.replica_role config.boot_role)) recipient now
                      n.state sealed;
              },
              rw e kept,
            )
        | inr e ↦ absurd (ground arith)
      ]
