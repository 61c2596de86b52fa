-- ===== src/Custody/Taken.antt =====
-- src/governance-replica-custody.js: what a fresh replica takes from its peer.
use auth_broker_tee.Base.{
  ℕ, String, true, Option, none, some, ◌&&◌, ◌≡◌, refl, subst, Result, ok, err, guard-ok, >>=-eq-ok,
  ok-injective, arith, inl, inr, Bool-cases,
}
use auth_broker_tee.Json.{Json, str, get, same}
use auth_broker_tee.Crypto.{Crypto, verify_governance_envelope}
use auth_broker_tee.Governance.{State, Role, inactive}
use auth_broker_tee.Governance.Sealing.{Cipher}
use auth_broker_tee.Governance.Activation.{is_status, is_empty}
use auth_broker_tee.Governance.Replica.{apply_replica_custody_transfer}
use auth_broker_tee.Custody.{Node, Config, custody_bundle_schema}
use auth_broker_tee.Custody.Keys.{PeerKeys, build_key_attestation, verify_key_attestation}
use auth_broker_tee.Custody.Exchange.{role_of, check_custody_answer}
use auth_broker_tee.Custody.Pull.{
  PeerRequests, Custody, custody_from, custody_taken, take_custody_from, pull_from,
  pull_custody_from_peer,
}
use auth_broker_tee.Custody.Bound.{IsAttested, verify_key_attestation-IsAttested}

module _ (c : Crypto) (z : Cipher) (verify_jwt : Json → Result Json) (now : ℕ) where
  -- The bundle is signed by the governance key of an attested sender of the same image, for the
  -- challenge of this request and this replica's activation key.
  pub record IsBound (config : Config) (s : State) (x : Custody) : Type 0 where
    pub attested :
        IsAttested c z verify_jwt now
          (get "senderAttestation" x.response)
          (str "custody-send")
          (get "payloadDigest" (get "bundle" x.response))
          s.image_digest
          config.peer_instance
          x.sender
    pub signed :
        verify_governance_envelope c
          (get "bundle" x.response)
          x.sender.governance_public_key_pem
          now
          true
        ≡ ok x.payload
    pub same_challenge : same (get "challenge" (get "aad" x.payload)) x.challenge ≡ true
    pub same_image : same (get "imageDigest" (get "aad" x.payload)) s.image_digest ≡ true
    pub to_this_replica :
        same
          (get "recipientActivationKeyId" (get "aad" x.payload))
          (str s.key_material.activation_key_id)
        ≡ true
    pub from_sender :
        same (get "senderActivationKeyId" (get "aad" x.payload)) (str x.sender.activation_key_id)
        ≡ true

  -- The challenge was asked of the peer for this request, and the response answers the attestation of
  -- this replica's keys under it.
  pub record IsAsked (request_token : Json → String → Result Json) (peer : PeerRequests)
      (config : Config) (s : State) (x : Custody) : Type 0 where
    pub url : String
    pub peer_url : config.peer_url ≡ some url
    pub answer : Json
    pub fetched : peer.fetch_challenge url ≡ ok answer
    pub challenge : get "challenge" answer ≡ x.challenge
    pub evidence : Json
    pub presented :
        build_key_attestation c request_token (str "custody-request") x.challenge s ≡ ok evidence
    pub answered : peer.request_custody url x.challenge evidence ≡ ok x.response

  check_custody_answer-IsBound :
      (config : Config) (challenge response : Json) (role : Role) (s : State)
      {checked : PeerKeys × Json}
      → check_custody_answer c z verify_jwt config challenge response now s ≡ ok checked
      → IsBound config s (record {
        challenge = challenge;
        response = response;
        sender = checked.0;
        payload = checked.1;
        role = role;
      })
  unfolding check_custody_answer
  check_custody_answer-IsBound config challenge response role s {checked} h =
      let bundle = get "bundle" response in
      let (sender, verified, r) =
        >>=-eq-ok
          (verify_key_attestation c verify_jwt (get "senderAttestation" response)
            (str "custody-send") (get "payloadDigest" bundle) s.image_digest config.peer_instance
            now)
          _ h in
      let (payload, signed, r1) =
        >>=-eq-ok (verify_governance_envelope c bundle sender.governance_public_key_pem now true) _
          r in
      let aad = get "aad" payload in
      let (schema, r2) =
        guard-ok
          (same (get "schema" payload) (str custody_bundle_schema)
            && same (get "schema" aad) (str custody_bundle_schema))
          _ _ r1 in
      let (bound, r3) =
        guard-ok
          (same (get "challenge" aad) challenge
            && same (get "imageDigest" aad) s.image_digest
            && same (get "recipientActivationKeyId" aad) (str s.key_material.activation_key_id)
            && same (get "senderActivationKeyId" aad) (str sender.activation_key_id))
          _ _ r2 in
      let attested =
        verify_key_attestation-IsAttested c z verify_jwt now (get "senderAttestation" response)
          (str "custody-send") (get "payloadDigest" bundle) s.image_digest config.peer_instance
          verified in
      let custody : PeerKeys × Json → Custody = λ p. record {
        challenge = challenge;
        response = response;
        sender = p.0;
        payload = p.1;
        role = role;
      } in
      subst (λ p. IsBound config s (custody p)) (ok-injective r3)
        (record {
          attested = attested;
          signed = signed;
          same_challenge = ground arith;
          same_image = ground arith;
          to_this_replica = ground arith;
          from_sender = ground arith;
        })

  custody_from-IsBound :
      (request_token : Json → String → Result Json) (peer : PeerRequests) (config : Config)
      (url : String) (s : State) {x : Custody}
      → config.peer_url ≡ some url
      → custody_from c z verify_jwt request_token peer config url now s ≡ ok x
      → IsBound config s x × IsAsked request_token peer config s x
  unfolding custody_from
  custody_from-IsBound request_token peer config url s configured h =
      let (answer, fetched, r) = >>=-eq-ok (peer.fetch_challenge url) _ h in
      let challenge = get "challenge" answer in
      let (evidence, built, r1) =
        >>=-eq-ok (build_key_attestation c request_token (str "custody-request") challenge s) _ r in
      let (response, answered, r2) = >>=-eq-ok (peer.request_custody url challenge evidence) _ r1 in
      let (checked, bound, r3) =
        >>=-eq-ok (check_custody_answer c z verify_jwt config challenge response now s) _ r2 in
      let (role, known, r4) = >>=-eq-ok (role_of (get "role" (get "aad" checked.1))) _ r3 in
      subst (λ x. IsBound config s x × IsAsked request_token peer config s x) (ok-injective r4)
        (
          check_custody_answer-IsBound config challenge response role s bound,
          record {
            url = url;
            peer_url = configured;
            answer = answer;
            fetched = fetched;
            challenge = refl;
            evidence = evidence;
            presented = built;
            answered = answered;
          },
        )

  custody_taken-ok :
      (x : Custody) (url : String) (n : Node) (r : Result (Unit {0})) (s : State)
      → (custody_taken c z x url now n (r, s)).0 ≡ ok (some tt)
      → r ≡ ok tt
  unfolding custody_taken
  custody_taken-ok x url n (ok tt) s h = refl
  custody_taken-ok x url n (err e) s h = absurd cc

  took :
      (request_token : Json → String → Result Json) (peer : PeerRequests) (config : Config)
      (url : String) (n : Node) (r : Result Custody)
      → ((x : Custody)
          → r ≡ ok x
          → IsBound config n.state x × IsAsked request_token peer config n.state x)
      → (take_custody_from c z url now n r).0 ≡ ok (some tt)
      → (x : Custody) × IsBound config n.state x
        × IsAsked request_token peer config n.state x
        × ((apply_replica_custody_transfer c z
              (get "encryptedState" x.payload)
              (get "aad" x.payload)
              x.role
              (str x.sender.governance_key_id)
              now
              n.state).0
            ≡ ok tt)
  unfolding take_custody_from
  took request_token peer config url n (err e) bound h = absurd cc
  took request_token peer config url n (ok x) bound h =
      let (b, a) = bound x refl in (x, b, a, custody_taken-ok x url n _ _ h)

  pulled :
      (request_token : Json → String → Result Json) (peer : PeerRequests) (config : Config)
      (n : Node) (url : Option String)
      → config.peer_url ≡ url
      → (pull_from c z verify_jwt request_token peer config now n url).0 ≡ ok (some tt)
      → ((is_status n.state.status inactive && is_empty n.state.lineage) ≡ true)
        × (x : Custody) × IsBound config n.state x
        × IsAsked request_token peer config n.state x
        × ((apply_replica_custody_transfer c z
              (get "encryptedState" x.payload)
              (get "aad" x.payload)
              x.role
              (str x.sender.governance_key_id)
              now
              n.state).0
            ≡ ok tt)
  unfolding pull_from
  pulled request_token peer config n none configured h = absurd cc
  pulled request_token peer config n (some url) configured h =
      let result =
        take_custody_from c z url now n
          (custody_from c z verify_jwt request_token peer config url now n.state) in
      elim (Bool-cases (is_status n.state.status inactive && is_empty n.state.lineage)) [
        | inl e ↦
            let returned : result.0 ≡ ok (some tt) = ground arith in
            let (x, bound, asked, applied) =
              took request_token peer config url n _
                (λ x k. custody_from-IsBound request_token peer config url n.state configured k)
                returned in
            (e, x, bound, asked, applied)
        | inr e ↦ absurd (ground arith)
      ]

  -- A replica takes a lineage key over only while it is fresh, from a sender that is attested to run
  -- the same image in the configured peer instance, in a bundle that the sender's governance key
  -- signed for the challenge that the peer gave for this request, this replica's image and its
  -- activation key, in answer to the attestation of its keys, and only the key that the sender was
  -- attested with.
  pub pull_custody_from_peer-IsBound :
      (request_token : Json → String → Result Json) (peer : PeerRequests) (config : Config)
      (n : Node)
      → (pull_custody_from_peer c z verify_jwt request_token peer config now n).0 ≡ ok (some tt)
      → ((is_status n.state.status inactive && is_empty n.state.lineage) ≡ true)
        × (x : Custody) × IsBound config n.state x
        × IsAsked request_token peer config n.state x
        × ((apply_replica_custody_transfer c z
              (get "encryptedState" x.payload)
              (get "aad" x.payload)
              x.role
              (str x.sender.governance_key_id)
              now
              n.state).0
            ≡ ok tt)
  unfolding pull_custody_from_peer
  pull_custody_from_peer-IsBound request_token peer config n h =
      pulled request_token peer config n config.peer_url refl h
