-- ===== src/Tests/Routes.antt =====
-- src/governance-routes.js at concrete requests.
use auth_broker_tee.Base.{false, [], ◌∷◌, ◌≡◌, ◌⊎◌, refl, str_eq, if◌then◌else◌, ok, ◌&&◌}
use auth_broker_tee.Json.{Json, str, num, object}
use auth_broker_tee.Oidc.{empty_cache}
use auth_broker_tee.Oidc.Token.{Platform}
use auth_broker_tee.Routes.{
  Request, Server, RateLimit, Buckets, consume_rate_limit, handle_replica_promote,
}
use auth_broker_tee.Routes.Promoted.{IsAuthorized, handle_replica_promote-Outcome}
use auth_broker_tee.Tests.Custody.{config, silence, node}
use auth_broker_tee.Tests.Oidc.{answer}

abbrev claims : Json
claims = object (
    ("iss", str "https://token.actions.githubusercontent.com")
    ∷ ("aud", str "https://oauth-tee.femled.ai/governance")
    ∷ ("repository", str "FemLed/auth-broker-tee")
    ∷ (
      "job_workflow_ref",
      str "FemLed/auth-broker-tee/.github/workflows/replica-failover.yml@refs/heads/master",
    )
    ∷ ("event_name", str "workflow_dispatch")
    ∷ ("exp", num 300)
    ∷ [])

abbrev platform : Platform
platform = record {
  parse_part = λ part. ok (
      if str_eq part "head"
      then object (("alg", str "RS256") ∷ ("kid", str "k1") ∷ [])
      else claims);
  verify =
      λ key signed_data signature. ok (str_eq signed_data "head.body" && str_eq signature "sig");
}

abbrev request : Request
request = record {
  method = "POST";
  client_address = "10.0.0.2";
  authorization = str "Bearer head.body.sig";
}

abbrev server : Server
server = record { coarse_rate_buckets = []; jwks = empty_cache; node = node }

abbrev two_a_second : RateLimit
two_a_second = record { window_ms = 1000; max_requests = 2 }

abbrev busy : Buckets
busy = ("a", 2000 ∷ 2400 ∷ 2500 ∷ []) ∷ []

limits :
    (consume_rate_limit busy "a" two_a_second 3100)
    ≡ (record { is_allowed = false; retry_after_seconds = 1 }, ("a", 2400 ∷ 2500 ∷ []) ∷ [])
unfolding consume_rate_limit
limits = refl

promotes : (handle_replica_promote platform config silence answer 200000 request server).0 ≡ 202
unfolding handle_replica_promote auth_broker_tee.Json.fields
    auth_broker_tee.Custody.Exchange.take_over auth_broker_tee.Custody.Exchange.may_take_over
    auth_broker_tee.Custody.Exchange.contact_time auth_broker_tee.Custody.Exchange.probe_configured
    auth_broker_tee.Custody.Exchange.probe_peer auth_broker_tee.Custody.Exchange.serves_as_primary
    auth_broker_tee.Governance.Replica.is_custodian
    auth_broker_tee.Governance.Replica.promote_replica_to_primary
    auth_broker_tee.Governance.Replica.may_promote auth_broker_tee.Json.date_parse
    auth_broker_tee.Governance.change auth_broker_tee.Governance.Activation.is_status
promotes = refl

refuses : (handle_replica_promote platform config silence answer 400000 request server).0 ≡ 401
unfolding handle_replica_promote auth_broker_tee.Json.fields
refuses = refl

handle_replica_promote-Outcome_example :
    ((handle_replica_promote platform config silence answer 200000 request server).1.node
      ≡ server.node)
    ⊎ IsAuthorized platform config silence answer 200000 request server.jwks server.node
        (handle_replica_promote platform config silence answer 200000 request server).1.node
handle_replica_promote-Outcome_example =
    handle_replica_promote-Outcome platform config silence answer 200000 request server
