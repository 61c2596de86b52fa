-- ===== src/Governance.antt =====
-- src/governance-state.js: the state of one replica, its snapshot, and the commit that every
-- released change goes through.
pub mod Sealing
pub mod Commit
pub mod Returns
pub mod Activation
pub mod Gate
pub mod Genesis
pub mod Invariant
pub mod Protocol
pub mod Replica
pub mod Tenants
pub mod Preapproval
pub mod Proposals
use auth_broker_tee.Base.{
  ℕ, ◌+◌, String, Bool, true, false, Option, none, some, List, [], ◌∷◌, Result, ok, err, guard,
}
use auth_broker_tee.Json.{Json, undefined, time}
use auth_broker_tee.Crypto.{KeyMaterial}

pub data Status : Type 0 where
  active inactive activating_successor retired : Status

pub data Role : Type 0 where
  primary custodian : Role

-- An entry of `routePolicy.admittedTenants`.
pub record AdmittedTenant : Type 0 where
  pub tenant : Json
  pub admission_payload_digest : Json
  pub governance_key_id : Json
  pub governance_epoch : Json
  pub min_route_version : ℕ
  pub tenant_route_signing_keys : Json
  pub allowed_api_hosts : Json
  pub allowed_app_hosts : Json
  pub allowed_broker_audiences : Json
  pub revoked_route_key_ids : List String
  pub latest_accepted_route_version : ℕ
  pub latest_accepted_route_digest : Json
  pub updated_at : Json

-- `transferredState`: its route policy, a map by tenant.
pub record TransferredState : Type 0 where
  pub admitted_tenants : List (String × AdmittedTenant)

pub record PendingActivation : Type 0 where
  pub activation_nonce : String
  pub candidate_image_digest : Json
  pub candidate_governance_key_id : Json
  pub candidate_governance_public_key_pem : Json
  pub candidate_activation_public_key_pem : Json
  pub successor_certificate : Json
  pub successor_payload_digest : Json
  pub successor_decision_packet_digest : Json
  pub successor_arbitration_digest : Json
  pub issued_at : Json
  pub expires_at : Json
  pub activation_proof : Option Json

pub record AbortedActivation : Type 0 where
  pub activation_nonce : String
  pub successor_payload_digest : Json
  pub candidate_image_digest : Json
  pub reason : String
  pub aborted_at : Json

pub record Challenge : Type 0 where
  pub preapproval_envelope : Json
  pub candidate_governance_public_key_pem : Json
  pub candidate_activation_public_key_pem : Json
  pub candidate_image_digest : Json

pub record Peer : Type 0 where
  pub instance_name : Json
  pub activation_public_key_pem : Json
  pub activation_key_id : Json
  pub role : Role
  pub sync_url : Option String

-- The state of the process, less the model supervisor's bookkeeping, the replica's health and the
-- queue, which the functions modelled here do not read.
pub record State : Type 0 where
  pub status : Status
  pub epoch : ℕ
  pub image_digest : Json
  pub key_material : KeyMaterial
  pub lineage : List Json
  pub latest_preapproval : Option Json
  pub latest_successor_certificate : Option Json
  pub latest_retirement_certificate : Option Json
  pub pending_successor_activation : Option PendingActivation
  pub self_healing_proposals : List Json
  pub pending_activation_challenges : List (String × Challenge)
  pub genesis_self_adjudications : List (String × Json)
  pub activation_readiness : List (String × Json)
  pub declined_activation_nonces : List String
  pub latest_activation_proof : Option Json
  pub latest_aborted_activation : Option AbortedActivation
  pub expired_successor_activation : Option PendingActivation
  pub replica_role : Option Role
  pub replica_serial : ℕ
  pub replica_peer : Option Peer
  pub transferred_state : TransferredState

pub record Snapshot : Type 0 where
  pub status : Status
  pub epoch : ℕ
  pub lineage : List Json
  pub transferred_state : TransferredState
  pub latest_preapproval : Option Json
  pub latest_successor_certificate : Option Json
  pub latest_retirement_certificate : Option Json
  pub pending_successor_activation : Option PendingActivation
  pub latest_activation_proof : Option Json
  pub latest_aborted_activation : Option AbortedActivation
  pub expired_successor_activation : Option PendingActivation
  pub replica_serial : ℕ

abbrev pub empty_route_policy_state : TransferredState
empty_route_policy_state = record { admitted_tenants = [] }

-- `initializeGovernance` in the mode `inactive`.
unfoldable pub initialize_governance : KeyMaterial → Json → State
initialize_governance key_material image_digest = record {
  status = inactive;
  epoch = 0;
  image_digest = image_digest;
  key_material = key_material;
  lineage = [];
  latest_preapproval = none;
  latest_successor_certificate = none;
  latest_retirement_certificate = none;
  pending_successor_activation = none;
  self_healing_proposals = [];
  pending_activation_challenges = [];
  genesis_self_adjudications = [];
  activation_readiness = [];
  declined_activation_nonces = [];
  latest_activation_proof = none;
  latest_aborted_activation = none;
  expired_successor_activation = none;
  replica_role = none;
  replica_serial = 0;
  replica_peer = none;
  transferred_state = empty_route_policy_state;
}

unfoldable pub export_replica_snapshot : State → Snapshot
export_replica_snapshot s = record {
  status = s.status;
  epoch = s.epoch;
  lineage = s.lineage;
  transferred_state = s.transferred_state;
  latest_preapproval = s.latest_preapproval;
  latest_successor_certificate = s.latest_successor_certificate;
  latest_retirement_certificate = s.latest_retirement_certificate;
  pending_successor_activation = s.pending_successor_activation;
  latest_activation_proof = s.latest_activation_proof;
  latest_aborted_activation = s.latest_aborted_activation;
  expired_successor_activation = s.expired_successor_activation;
  replica_serial = s.replica_serial;
}

unfoldable pub apply_replica_snapshot : State → Snapshot → State
apply_replica_snapshot s t = record s {
  status = t.status;
  epoch = t.epoch;
  lineage = t.lineage;
  transferred_state = t.transferred_state;
  latest_preapproval = t.latest_preapproval;
  latest_successor_certificate = t.latest_successor_certificate;
  latest_retirement_certificate = t.latest_retirement_certificate;
  pending_successor_activation = t.pending_successor_activation;
  latest_activation_proof = t.latest_activation_proof;
  latest_aborted_activation = t.latest_aborted_activation;
  expired_successor_activation = t.expired_successor_activation;
  replica_serial = t.replica_serial;
}

-- A function on the state that may throw: what it changed before it threw stays changed.
abbrev pub M {ℓ} : Type ℓ → Type ℓ
M A = State → Result A × State

-- A change of the state that the checks before it allow: they read the state and may throw; then the
-- state changes, and the result is returned.
unfoldable pub changed {ℓ κ} :
    {A : Type ℓ} {B : Type κ} → State → (B → State → State) → (B → A) → Result B → Result A × State
changed s next answer (ok b) = (ok (answer b), next b s)
changed s next answer (err e) = (err e, s)

unfoldable pub change {ℓ κ} :
    {A : Type ℓ} {B : Type κ} → (State → Result B) → (B → State → State) → (State → B → A) → M A
unfolding changed
change check next answer s = changed s next (answer s) (check s)

-- What follows a part that returned; a part that threw ends the sequence.
unfoldable pub continue {ℓ κ} :
    {A : Type ℓ} {B : Type κ} → (A → M B) → Result A → State → Result B × State
continue f (ok a) s = f a s
continue f (err e) s = (err e, s)

-- The `catch` of a commit: the snapshot from before it, under the serial that it took.
unfoldable pub rolled_back : State → State → State
unfolding export_replica_snapshot apply_replica_snapshot
rolled_back before s = record (apply_replica_snapshot s (export_replica_snapshot before)) {
  replica_serial = before.replica_serial + 1;
}

-- The change has been made: its outcome, and then the custodian's answer.
unfoldable pub settle {ℓ} :
    {A : Type ℓ} → State → State → Result A → Result (Unit {0}) → Result A × State
unfolding rolled_back
settle before s (err e) answer = (err e, rolled_back before s)
settle before s (ok a) (ok _) = (ok a, record s { replica_serial = before.replica_serial + 1 })
settle before s (ok a) (err e) =
    (err e, rolled_back before (record s { replica_serial = before.replica_serial + 1 }))

-- `withGovernanceCommit`: the replicator's answer decides whether the change stays. Without a
-- replicator the answer is `ok tt`.
unfoldable pub commit {ℓ} : {A : Type ℓ} → (State → Result (Unit {0})) → M A → M A
unfolding settle
commit replicate mutate s =
    let (outcome, s') = mutate s in
    settle s s' outcome (replicate (record s' { replica_serial = s.replica_serial + 1 }))
