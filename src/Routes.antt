-- ===== src/Routes.antt =====
-- src/governance-routes.js: the limit on the rate of requests, and `handleReplicaPromote`. A reply is
-- its status.
pub mod Promoted
use Prim.Native.String.{◌++◌ as text_append}
use auth_broker_tee.Base.{
  ℕ, ◌+◌, ◌-◌, ◌*◌, ◌/◌, String, Bool, true, false, Option, none, some, List, [], ◌∷◌, ◌++◌, not,
  ltb, leb, max, if◌then◌else◌, str_eq, lookup, insert, length, Result, ok, err,
}
use auth_broker_tee.Json.{Json, undefined, str, Items, nil, cons}
use auth_broker_tee.Custody.{Node, Config}
use auth_broker_tee.Custody.Exchange.{promote_to_primary}
use auth_broker_tee.Oidc.{Expected, Cache, Response}
use auth_broker_tee.Oidc.Token.{Platform, verify_github_actions_oidc}

pub record RateLimit : Type 0 where
  pub window_ms : ℕ
  pub max_requests : ℕ

abbrev pub coarse_rate_limit : RateLimit
coarse_rate_limit = record { window_ms = 60 * 1000; max_requests = 120 }

abbrev pub Buckets : Type 0
Buckets = List (String × List ℕ)

pub record Allowance : Type 0 where
  pub is_allowed : Bool
  pub retry_after_seconds : ℕ

-- `timestamps.filter((timestamp) => timestamp > now - windowMs)`
unfoldable pub in_window : ℕ → ℕ → List ℕ → List ℕ
in_window window_ms now [] = []
in_window window_ms now (t ∷ ts) =
    let rest = in_window window_ms now ts in if ltb now (t + window_ms) then t ∷ rest else rest

unfoldable pub stamps : Option (List ℕ) → List ℕ
stamps none = []
stamps (some ts) = ts

-- The seconds, rounded up, until the oldest of the requests has left the window.
unfoldable pub retry_after : ℕ → ℕ → List ℕ → ℕ
retry_after window_ms now [] = 1
retry_after window_ms now (t ∷ ts) = (max 1 (t + window_ms - now) + 999) / 1000

-- `consumeRateLimit`, with a limit of at least one request
unfoldable pub consume_rate_limit : Buckets → String → RateLimit → ℕ → Allowance × Buckets
unfolding in_window stamps retry_after
consume_rate_limit buckets key limit now =
    let timestamps = in_window limit.window_ms now (stamps (lookup key buckets)) in
    if leb limit.max_requests (length timestamps)
    then (
      record {
        is_allowed = false;
        retry_after_seconds = retry_after limit.window_ms now timestamps;
      },
      insert key timestamps buckets,
    )
    else (
      record { is_allowed = true; retry_after_seconds = 0 },
      insert key (timestamps ++ now ∷ []) buckets,
    )

abbrev pub governance_oidc_audience : String
governance_oidc_audience = "https://oauth-tee.femled.ai/governance"

abbrev pub genesis_allowed_events : Items
genesis_allowed_events = cons (str "workflow_dispatch") nil

abbrev pub replica_failover_workflow_refs : Items
replica_failover_workflow_refs =
    cons (str "FemLed/auth-broker-tee/.github/workflows/replica-failover.yml@refs/heads/master") nil

abbrev pub failover_expected : Expected
failover_expected = record {
  audience = str governance_oidc_audience;
  repository = undefined;
  workflow_refs = some replica_failover_workflow_refs;
  allowed_events = some genesis_allowed_events;
  event_name = undefined;
  workflow_run_id = undefined;
  base_sha = undefined;
  head_sha = undefined;
}

-- A request's `method`, its `clientAddress` and its authorization header.
pub record Request : Type 0 where
  pub method : String
  pub client_address : String
  pub authorization : Json

-- What the handler reads and changes: the buckets, the keys of GitHub and the replica.
pub record Server : Type 0 where
  pub coarse_rate_buckets : Buckets
  pub jwks : Cache
  pub node : Node

unfoldable pub promoted_reply : Result (Unit {0}) × Node → Server → ℕ × Server
promoted_reply (ok _, node) server = (202, record server { node = node })
promoted_reply (err message, node) server = (409, record server { node = node })

unfoldable pub authorized_reply :
    Config → (ℕ → Result Json) → ℕ → Result Json × Cache → Server → ℕ × Server
unfolding promote_to_primary promoted_reply
authorized_reply config probe now (err message, cache) server =
    (401, record server { jwks = cache })
authorized_reply config probe now (ok claims, cache) server =
    promoted_reply (promote_to_primary config probe now server.node)
      (record server { jwks = cache })

unfoldable pub limited_reply :
    Platform
    → Config
    → (ℕ → Result Json)
    → Result Response
    → ℕ
    → Request
    → Allowance × Buckets
    → Server
    → ℕ × Server
unfolding verify_github_actions_oidc authorized_reply
limited_reply platform config probe answer now request (allowance, buckets) server =
    if allowance.is_allowed
    then authorized_reply config probe now
        (verify_github_actions_oidc platform request.authorization failover_expected answer now now
          server.jwks)
        (record server { coarse_rate_buckets = buckets })
    else (429, record server { coarse_rate_buckets = buckets })

-- `handleReplicaPromote`, at one time
unfoldable pub handle_replica_promote :
    Platform → Config → (ℕ → Result Json) → Result Response → ℕ → Request → Server → ℕ × Server
unfolding consume_rate_limit limited_reply
handle_replica_promote platform config probe answer now request server =
    if str_eq request.method "POST"
    then limited_reply platform config probe answer now request
        (consume_rate_limit server.coarse_rate_buckets
          (text_append "replica-promote:" request.client_address) coarse_rate_limit now)
        server
    else (405, server)
