-- ===== src/Routes/Promoted.antt =====
-- src/governance-routes.js: what a request for a promotion does to a replica.
use Prim.Native.String.{◌++◌ as text_append}
use auth_broker_tee.Base.{ℕ, String, ◌≡◌, ◌⊎◌, refl, inl, inr, Result, ok, err, Bool-cases, str_eq}
use auth_broker_tee.Json.{Json}
use auth_broker_tee.Custody.{Node, Config}
use auth_broker_tee.Custody.Exchange.{may_take_over, take_over, promote_to_primary}
use auth_broker_tee.Governance.{changed, change}
use auth_broker_tee.Governance.Replica.{may_promote, promoted, promote_replica_to_primary}
use auth_broker_tee.Oidc.{Cache, Response, fetch_jwks}
use auth_broker_tee.Oidc.Token.{Platform, verify_github_actions_oidc}
use auth_broker_tee.Oidc.Allowed.{IsAllowed}
use auth_broker_tee.Oidc.Signed.{IsSigned, verify_github_actions_oidc-IsSigned}
use auth_broker_tee.Routes.{
  Allowance, Buckets, Request, Server, failover_expected, promoted_reply, authorized_reply,
  limited_reply, handle_replica_promote, consume_rate_limit, coarse_rate_limit,
}

module _ (platform : Platform) (config : Config) (probe : ℕ → Result Json)
    (answer : Result Response) (now : ℕ) (request : Request) where
  -- The promotion of a replica that a run of the failover workflow asked for, in a token that is signed
  -- by one of the keys that the key server answers now or that the cache still holds.
  pub record IsAuthorized (held : Cache) (before after : Node) : Type 0 where
    pub jwks : Json
    pub payload : Json
    pub fetched : (fetch_jwks answer now held).0 ≡ ok jwks
    pub signed : IsSigned platform request.authorization jwks payload
    pub allowed : IsAllowed failover_expected payload now
    pub promoted : promote_to_primary config probe now before ≡ (ok tt, after)

  Outcome : Cache → Node → Node → Type 0
  Outcome held before after = (after ≡ before) ⊎ IsAuthorized held before after

  changed-same :
      (n : Node) (checked : Result (Unit {0})) {m : String} {after : Node}
      → ◌≡◌ {A = Result (Unit {0}) × Node}
          (
            (changed {0, 0} n.state (λ _. promoted) (λ _. tt) checked).0,
            record n { state = (changed {0, 0} n.state (λ _. promoted) (λ _. tt) checked).1 },
          )
          (err m, after)
      → after ≡ n
  unfolding changed
  changed-same n (err e) h = cc
  changed-same n (ok u) h = cc

  refused-same :
      (n : Node) (outcome : Result (Unit {0})) {m : String} {after : Node}
      → take_over n outcome ≡ (err m, after)
      → after ≡ n
  unfolding take_over promote_replica_to_primary change
  refused-same n (err e) h = cc
  refused-same n (ok u) h = changed-same n (may_promote n.state) h

  promoted_reply-Outcome :
      (held : Cache) (jwks payload : Json) (server : Server) (outcome : Result (Unit {0}))
      (after : Node)
      → (fetch_jwks answer now held).0 ≡ ok jwks
      → IsSigned platform request.authorization jwks payload
      → IsAllowed failover_expected payload now
      → promote_to_primary config probe now server.node ≡ (outcome, after)
      → Outcome held server.node (promoted_reply (outcome, after) server).1.node
  unfolding promoted_reply promote_to_primary Outcome
  promoted_reply-Outcome held jwks payload server (ok u) after fetched signed allowed h =
      inr (record {
        jwks = jwks;
        payload = payload;
        fetched = fetched;
        signed = signed;
        allowed = allowed;
        promoted = h;
      })
  promoted_reply-Outcome held jwks payload server (err m) after fetched signed allowed h =
      inl (refused-same server.node (may_take_over config probe now server.node) h)

  authorized_reply-Outcome :
      (server : Server) (verified : Result Json) (cache : Cache)
      → (verify_github_actions_oidc platform request.authorization failover_expected answer now now
          server.jwks).0
        ≡ verified
      → Outcome server.jwks server.node
          (authorized_reply config probe now (verified, cache) server).1.node
  unfolding authorized_reply Outcome
  authorized_reply-Outcome server (err m) cache h = inl refl
  authorized_reply-Outcome server (ok payload) cache h =
      let (jwks, fetched, signed, allowed) =
        verify_github_actions_oidc-IsSigned platform request.authorization failover_expected answer
          now now server.jwks payload h in
      promoted_reply-Outcome server.jwks jwks payload (record server { jwks = cache })
        (promote_to_primary config probe now server.node).0
        (promote_to_primary config probe now server.node).1 fetched signed allowed refl

  limited_reply-Outcome :
      (server : Server) (allowance : Allowance) (buckets : Buckets)
      → Outcome server.jwks server.node
          (limited_reply platform config probe answer now request
            (allowance, buckets)
            server).1.node
  unfolding limited_reply Outcome
  limited_reply-Outcome server allowance buckets = elim (Bool-cases allowance.is_allowed) [
    | inl e ↦
        let s : Server = record server { coarse_rate_buckets = buckets } in
        let v =
          verify_github_actions_oidc platform request.authorization failover_expected answer now now
            server.jwks in
        rw e (authorized_reply-Outcome s v.0 v.1 refl)
    | inr e ↦ rw e (inl refl)
  ]

  -- Whatever the reply, a request leaves the replica as it is, or bears a token of the failover workflow
  -- in the broker's repository, signed by one of the keys that the key server answers now or that the
  -- cache still holds, and the promotion passed its checks.
  pub handle_replica_promote-Outcome :
      (server : Server)
      → ((handle_replica_promote platform config probe answer now request server).1.node
          ≡ server.node)
        ⊎ IsAuthorized server.jwks server.node
            (handle_replica_promote platform config probe answer now request server).1.node
  unfolding handle_replica_promote Outcome
  handle_replica_promote-Outcome server = elim (Bool-cases (str_eq request.method "POST")) [
    | inl e ↦
        let (allowance, buckets) =
          consume_rate_limit server.coarse_rate_buckets
            (text_append "replica-promote:" request.client_address) coarse_rate_limit now in
        rw e (limited_reply-Outcome server allowance buckets)
    | inr e ↦ rw e (inl refl)
  ]
