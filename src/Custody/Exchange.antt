-- ===== src/Custody/Exchange.antt =====
-- src/governance-replica-custody.js: the exchange by which a fresh replica gets the lineage key, and the
-- promotion of a custodian.
use text.Mathlib.Text.{starts_with}
use Prim.Native.String.{◌++◌ as text_append}
use auth_broker_tee.Base.{
  ℕ, zero, suc, ◌+◌, String, Bool, true, false, Option, none, some, [], ◌∷◌, ◌&&◌, ◌||◌, not, ltb,
  Result, ok, err, ◌>>=◌, ◌>>◌, guard, if◌then◌else◌,
}
use auth_broker_tee.Json.{Json, str, num, time, object, get, truthy, same, date_parse}
use auth_broker_tee.Patterns.{includes}
use auth_broker_tee.Crypto.{Crypto, sign_governance_payload, verify_governance_envelope}
use auth_broker_tee.Governance.{State, Role, primary, custodian, Peer}
use auth_broker_tee.Governance.Sealing.{Cipher}
use auth_broker_tee.Governance.Activation.{lineage_digest}
use auth_broker_tee.Governance.Replica.{
  is_custodian, is_governance_key_holder, build_replica_custody_transfer,
  promote_replica_to_primary,
}
use auth_broker_tee.Custody.{
  Node, Config, custody_bundle_schema, bundle_ttl_ms, role_text, promotion_quiet_ms,
  promotion_probes,
}
use auth_broker_tee.Custody.Keys.{PeerKeys, build_key_attestation, verify_key_attestation}
use auth_broker_tee.Custody.Challenges.{consume_custody_challenge}
use auth_broker_tee.Custody.Sync.{acknowledged}

unfoldable pub role_or : Option Role → Role → Role
role_or none boot = boot
role_or (some role) boot = role

-- The role opposite to this one's.
unfoldable pub opposite : Role → Role
opposite primary = custodian
opposite custodian = primary

unfoldable pub without_prefix : String → String → String
without_prefix String.[] s = s
without_prefix (String.◌∷◌ d t) String.[] = String.[]
without_prefix (String.◌∷◌ d t) (String.◌∷◌ e s) = without_prefix t s

-- `address.replace(/^::ffff:/, "")`
unfoldable pub plain_address : String → String
plain_address s = if starts_with s "::ffff:" then without_prefix "::ffff:" s else s

unfoldable pub sync_host : String → String
sync_host host =
    if includes host ":"
    then text_append "http://[" (text_append host "]:8080")
    else text_append "http://" (text_append host ":8080")

-- `syncUrlFor(address) || peerUrl`
unfoldable pub sync_url_for : String → Option String → Option String
sync_url_for address peer_url =
    if truthy (str address) then some (sync_host (plain_address address)) else peer_url

-- `REPLICA_ROLES.has(role)`
unfoldable pub role_of : Json → Result Role
role_of v =
    if same v (str "primary")
    then ok primary
    else if same v (str "custodian")
    then ok custodian
    else err "unknown replica role"

module _ (c : Crypto) (z : Cipher) where
  unfoldable pub custody_aad : Json → Role → PeerKeys → State → Json
  custody_aad challenge role recipient s = object (
      ("schema", str custody_bundle_schema)
      ∷ ("lineageDigest", lineage_digest c s.lineage)
      ∷ ("epoch", num s.epoch)
      ∷ ("imageDigest", s.image_digest)
      ∷ ("challenge", challenge)
      ∷ ("role", str (role_text role))
      ∷ ("recipientInstance", recipient.instance_name)
      ∷ ("recipientActivationKeyId", str recipient.activation_key_id)
      ∷ ("senderActivationKeyId", str s.key_material.activation_key_id)
      ∷ ("replicaSerial", num s.replica_serial)
      ∷ [])

  -- The bundle that is sent to a recipient.
  unfoldable pub custody_bundle : Bool → Json → Role → PeerKeys → ℕ → State → Result Json
  custody_bundle production challenge role recipient now s = do
    let aad = custody_aad challenge role recipient s
    encrypted ←
        build_replica_custody_transfer c z production recipient.activation_public_key_pem aad s
    ok (
        sign_governance_payload c
          (object (
            ("schema", str custody_bundle_schema)
            ∷ ("aad", aad)
            ∷ ("encryptedState", encrypted)
            ∷ ("issuedAt", time now)
            ∷ ("expiresAt", time (now + bundle_ttl_ms))
            ∷ []))
          s.key_material)

  -- What `serveCustodyRequest` does after the challenge was used: the recipient, the bundle and the
  -- sender's attestation.
  unfoldable pub serve_recipient :
      (Json → Result Json)
      → (Json → String → Result Json)
      → Bool
      → Config
      → Json
      → Json
      → ℕ
      → State
      → Result (PeerKeys × Json × Json)
  serve_recipient verify_jwt request_token production config challenge evidence now s = do
    guard (truthy config.peer_instance) "this replica has no configured peer to re-key"
    recipient ←
        verify_key_attestation c verify_jwt evidence (str "custody-request") challenge
          s.image_digest config.peer_instance now
    let role = opposite (role_or s.replica_role config.boot_role)
    bundle ← custody_bundle production challenge role recipient now s
    attestation ←
        build_key_attestation c request_token (str "custody-send") (get "payloadDigest" bundle) s
    ok (recipient, bundle, attestation)

  -- The peer and the health that a served request leaves.
  unfoldable pub serve_ok :
      Config → String → ℕ → Node → Result (PeerKeys × Json × Json) → Result (Json × Json) × Node
  serve_ok config address now n (err e) = (err e, n)
  serve_ok config address now n (ok (recipient, bundle, attestation)) =
      let peer : Peer = record {
        instance_name = recipient.instance_name;
        activation_public_key_pem = recipient.activation_public_key_pem;
        activation_key_id = str recipient.activation_key_id;
        role = opposite (role_or n.state.replica_role config.boot_role);
        sync_url = sync_url_for address config.peer_url;
      } in
      let s : State = record n.state { replica_peer = some peer } in
      (
        ok (bundle, attestation),
        record n { state = s; health = acknowledged now (num n.state.replica_serial) n.health },
      )

  -- The challenge was looked up and removed.
  unfoldable pub serve_consumed :
      (Json → Result Json)
      → (Json → String → Result Json)
      → Bool
      → Config
      → String
      → Json
      → String
      → ℕ
      → Node
      → Result (Unit {0})
      → Result (Json × Json) × Node
  serve_consumed verify_jwt request_token production config challenge evidence address now n
        (err e) =
      (err e, n)
  serve_consumed verify_jwt request_token production config challenge evidence address now n
        (ok _) =
      serve_ok config address now n (
        serve_recipient verify_jwt request_token production config (str challenge) evidence now
          n.state)

  -- `serveCustodyRequest`: the bundle and the sender's attestation.
  unfoldable pub serve_custody_request :
      (Json → Result Json)
      → (Json → String → Result Json)
      → Bool
      → Config
      → String
      → Json
      → String
      → ℕ
      → Node
      → Result (Json × Json) × Node
  serve_custody_request verify_jwt request_token production config challenge evidence address now
        n =
      if is_governance_key_holder n.state
      then (let (used, opened) = consume_custody_challenge challenge now n.open_challenges in
          serve_consumed verify_jwt request_token production config challenge evidence address now
            (record n { open_challenges = opened }) used)
      else (err "this replica does not hold the lineage key", n)

  -- What `pullCustodyFromPeer` checks of the peer's answer: the sender, the payload and the role.
  unfoldable pub check_custody_answer :
      (Json → Result Json) → Config → Json → Json → ℕ → State → Result (PeerKeys × Json)
  check_custody_answer verify_jwt config challenge response now s = do
    let bundle = get "bundle" response
    sender ←
        verify_key_attestation c verify_jwt (get "senderAttestation" response) (str "custody-send")
          (get "payloadDigest" bundle) s.image_digest config.peer_instance now
    payload ← verify_governance_envelope c bundle sender.governance_public_key_pem now true
    let aad = get "aad" payload
    guard
        (same (get "schema" payload) (str custody_bundle_schema)
          && same (get "schema" aad) (str custody_bundle_schema))
        "replica custody bundle schema mismatch"
    guard
        (same (get "challenge" aad) challenge
          && same (get "imageDigest" aad) s.image_digest
          && same (get "recipientActivationKeyId" aad) (str s.key_material.activation_key_id)
          && same (get "senderActivationKeyId" aad) (str sender.activation_key_id))
        "replica custody bundle is not bound to this request"
    ok (sender, payload)

-- Whether a peer's manifest says that it serves as primary.
unfoldable pub serves_as_primary : Result Json → Bool
serves_as_primary (err e) = false
serves_as_primary (ok manifest) =
    same (get "role" manifest) (str "primary")
    && (same (get "status" manifest) (str "active")
        || same (get "status" manifest) (str "activating_successor"))

-- The probes, each with its own answer.
unfoldable pub probe_peer : (ℕ → Result Json) → ℕ → Result (Unit {0})
probe_peer answer zero = ok tt
probe_peer answer (suc probes) = do
  probe_peer answer probes
  guard (not (serves_as_primary (answer probes))) "the primary is still serving; promotion refused"

unfoldable pub probe_configured : Option String → (ℕ → Result Json) → Result (Unit {0})
probe_configured none answer = ok tt
probe_configured (some url) answer = probe_peer answer promotion_probes

-- `Date.parse(lastPrimaryContactAt || "") || 0`
unfoldable pub contact_time : Option ℕ → ℕ
contact_time none = 0
contact_time (some t) = t

-- The checks of `promoteToPrimary`.
unfoldable pub may_take_over : Config → (ℕ → Result Json) → ℕ → Node → Result (Unit {0})
may_take_over config answer now n = do
  guard (is_custodian n.state.replica_role) "only a custodian can be promoted"
  guard
      (not
        (ltb now (contact_time (date_parse n.health.last_primary_contact_at) + promotion_quiet_ms)))
      "the primary was heard from too recently"
  probe_configured config.peer_url answer

unfoldable pub take_over : Node → Result (Unit {0}) → Result (Unit {0}) × Node
take_over n (err e) = (err e, n)
take_over n (ok _) =
    let (outcome, s) = promote_replica_to_primary n.state in (outcome, record n { state = s })

-- `promoteToPrimary`
unfoldable pub promote_to_primary : Config → (ℕ → Result Json) → ℕ → Node → Result (Unit {0}) × Node
promote_to_primary config answer now n = take_over n (may_take_over config answer now n)
