-- ===== src/Custody/Pull.antt =====
-- src/governance-replica-custody.js: the side of a fresh replica that asks its peer for the lineage key.
use auth_broker_tee.Base.{
  ℕ, String, Option, none, some, ◌&&◌, Result, ok, err, ◌>>=◌, if◌then◌else◌,
}
use auth_broker_tee.Json.{Json, null, str, time, get}
use auth_broker_tee.Crypto.{Crypto}
use auth_broker_tee.Governance.{State, Role, primary, custodian, inactive, Peer}
use auth_broker_tee.Governance.Sealing.{Cipher}
use auth_broker_tee.Governance.Activation.{is_status, is_empty}
use auth_broker_tee.Governance.Replica.{apply_replica_custody_transfer}
use auth_broker_tee.Custody.{Node, Health, Config}
use auth_broker_tee.Custody.Keys.{PeerKeys, build_key_attestation}
use auth_broker_tee.Custody.Exchange.{opposite, role_of, check_custody_answer}
use auth_broker_tee.Custody.Sync.{acknowledged}

-- The two requests of `pullCustodyFromPeer`: for a challenge, and with the challenge and the evidence.
pub record PeerRequests : Type 0 where
  pub fetch_challenge : String → Result Json
  pub request_custody : String → Json → Json → Result Json

-- What is applied, once the answer was checked.
pub record Custody : Type 0 where
  pub challenge : Json
  pub response : Json
  pub sender : PeerKeys
  pub payload : Json
  pub role : Role

module _ (c : Crypto) (z : Cipher) where
  -- The exchange with the peer.
  unfoldable pub custody_from :
      (Json → Result Json)
      → (Json → String → Result Json)
      → PeerRequests
      → Config
      → String
      → ℕ
      → State
      → Result Custody
  custody_from verify_jwt request_token peer config url now s = do
    answer ← peer.fetch_challenge url
    let challenge = get "challenge" answer
    evidence ← build_key_attestation c request_token (str "custody-request") challenge s
    response ← peer.request_custody url challenge evidence
    checked ← check_custody_answer c z verify_jwt config challenge response now s
    role ← role_of (get "role" (get "aad" checked.1))
    ok (record {
      challenge = challenge;
      response = response;
      sender = checked.0;
      payload = checked.1;
      role = role;
    })

  -- The health after the transfer, by the role that was taken.
  unfoldable pub health_for : Role → Json → ℕ → Health → Health
  health_for custodian serial now h = record h {
    last_primary_contact_at = time now;
    last_error = null;
  }
  health_for primary serial now h = acknowledged now serial h

  -- The peer and the health that a transfer leaves.
  unfoldable pub custody_taken :
      Custody → String → ℕ → Node → Result (Unit {0}) × State → Result (Option (Unit {0})) × Node
  custody_taken x url now n (err e, s) = (err e, record n { state = s })
  custody_taken x url now n (ok _, s) =
      let peer : Peer = record {
        instance_name = x.sender.instance_name;
        activation_public_key_pem = x.sender.activation_public_key_pem;
        activation_key_id = str x.sender.activation_key_id;
        role = opposite x.role;
        sync_url = some url;
      } in
      let s' : State = record s { replica_peer = some peer } in
      (
        ok (some tt),
        record n {
          state = s';
          health = health_for x.role (get "replicaSerial" (get "aad" x.payload)) now n.health;
        },
      )

  unfoldable pub take_custody_from :
      String → ℕ → Node → Result Custody → Result (Option (Unit {0})) × Node
  take_custody_from url now n (err e) = (err e, n)
  take_custody_from url now n (ok x) = custody_taken x url now n (
      apply_replica_custody_transfer c z (get "encryptedState" x.payload) (get "aad" x.payload)
        x.role (str x.sender.governance_key_id) now n.state)

  unfoldable pub pull_from :
      (Json → Result Json)
      → (Json → String → Result Json)
      → PeerRequests
      → Config
      → ℕ
      → Node
      → Option String
      → Result (Option (Unit {0})) × Node
  pull_from verify_jwt request_token peer config now n none = (ok none, n)
  pull_from verify_jwt request_token peer config now n (some url) =
      if is_status n.state.status inactive && is_empty n.state.lineage
      then take_custody_from url now n
          (custody_from verify_jwt request_token peer config url now n.state)
      else (ok none, n)

  -- `pullCustodyFromPeer`: `none` where there is nothing to ask for.
  unfoldable pub pull_custody_from_peer :
      (Json → Result Json)
      → (Json → String → Result Json)
      → PeerRequests
      → Config
      → ℕ
      → Node
      → Result (Option (Unit {0})) × Node
  pull_custody_from_peer verify_jwt request_token peer config now n =
      pull_from verify_jwt request_token peer config now n config.peer_url
