-- ===== src/Custody.antt =====
-- src/governance-replica-custody.js: what two replicas say to each other. `Node` is a replica with what
-- this file keeps besides the governance state; the answers of the peer, random texts and the tokens
-- of the launcher are arguments.
pub mod Keys
pub mod Challenges
pub mod Sync
pub mod Mirrored
pub mod Exchange
pub mod Takeover
pub mod Pull
pub mod Sealed
pub mod Bound
pub mod Taken
use Prim.Native.Char.{code}
use auth_broker_tee.Base.{
  ℕ, ◌*◌, String, Bool, true, false, Option, none, some, List, [], ◌∷◌, ◌&&◌, ◌==◌, if◌then◌else◌,
}
use auth_broker_tee.Json.{Json, null, str, get, truthy, same}
use auth_broker_tee.Governance.{State, Role, primary, custodian, Peer}

abbrev pub replica_custody_audience : String
replica_custody_audience = "https://oauth-tee.femled.ai/replica-custody"

abbrev pub key_attestation_schema : String
key_attestation_schema = "femled.auth_broker.replica_key_attestation.v1"

abbrev pub custody_bundle_schema : String
custody_bundle_schema = "femled.auth_broker.replica_custody_bundle.v1"

abbrev pub sync_bundle_schema : String
sync_bundle_schema = "femled.auth_broker.replica_sync_bundle.v1"

abbrev pub heartbeat_schema : String
heartbeat_schema = "femled.auth_broker.replica_heartbeat.v1"

abbrev pub challenge_ttl_ms : ℕ
challenge_ttl_ms = 2 * 60 * 1000

abbrev pub max_open_challenges : ℕ
max_open_challenges = 32

abbrev pub bundle_ttl_ms : ℕ
bundle_ttl_ms = 2 * 60 * 1000

abbrev pub promotion_quiet_ms : ℕ
promotion_quiet_ms = 3 * 60 * 1000

abbrev pub promotion_probes : ℕ
promotion_probes = 3

-- `replicaHealth`
pub record Health : Type 0 where
  pub last_acknowledged_at : Json
  pub peer_serial : Json
  pub last_primary_contact_at : Json
  pub last_error : Json

pub record Node : Type 0 where
  pub state : State
  pub open_challenges : List (String × ℕ)
  pub health : Health
  pub background_sync_due : Bool

pub record Config : Type 0 where
  pub boot_role : Role
  pub peer_url : Option String
  pub peer_instance : Json

-- A text of slashes only.
unfoldable pub only_slashes : String → Bool
only_slashes String.[] = true
only_slashes (String.◌∷◌ d s) = code d == b'/' && only_slashes s

-- `text.replace(/\/+$/, "")`
unfoldable pub without_last_slashes : String → String
without_last_slashes String.[] = String.[]
without_last_slashes (String.◌∷◌ d s) =
    let rest = without_last_slashes s in
    if only_slashes (String.◌∷◌ d s) then String.[] else String.◌∷◌ d rest

unfoldable pub boot_role_of : Json → Role
boot_role_of v = if same v (str "custodian") then custodian else primary

unfoldable pub peer_url_of : Json → Option String
peer_url_of (str url) = if truthy (str url) then some (without_last_slashes url) else none
peer_url_of _ = none

-- `replicaConfig`
unfoldable pub replica_config : Json → Config
replica_config env = record {
  boot_role = boot_role_of (get "REPLICA_ROLE" env);
  peer_url = peer_url_of (get "REPLICA_PEER_URL" env);
  peer_instance =
      if truthy (get "REPLICA_PEER_INSTANCE" env) then get "REPLICA_PEER_INSTANCE" env else null;
}

abbrev pub role_text : Role → String
role_text primary = "primary"
role_text custodian = "custodian"

unfoldable pub is_primary : Option Role → Bool
is_primary (some primary) = true
is_primary (some custodian) = false
is_primary none = false
