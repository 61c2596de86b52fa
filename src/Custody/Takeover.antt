-- ===== src/Custody/Takeover.antt =====
-- src/governance-replica-custody.js: when a custodian takes over.
use auth_broker_tee.Base.{
  ℕ, zero, suc, ◌+◌, ◌≤◌, ◌<◌, String, true, false, Option, none, some, ◌≡◌, refl, not, ltb, Result,
  ok, err, guard-ok, >>=-eq-ok, arith, subst, Bool-cases, ◌⊎◌, inl, inr,
}
use auth_broker_tee.Json.{Json, date_parse}
use auth_broker_tee.Governance.{active, change}
use auth_broker_tee.Governance.Returns.{made-ok}
use auth_broker_tee.Governance.Activation.{is_status}
use auth_broker_tee.Governance.Activation.Preserves.{guard-eq-ok}
use auth_broker_tee.Governance.Replica.{
  is_custodian, promote_replica_to_primary, may_promote, promoted,
}
use auth_broker_tee.Custody.{Node, Config, promotion_quiet_ms, promotion_probes}
use auth_broker_tee.Custody.Exchange.{
  serves_as_primary, probe_peer, probe_configured, contact_time, may_take_over, take_over,
  promote_to_primary,
}

probe_peer-ok :
    (answer : ℕ → Result Json) (probes : ℕ)
    → probe_peer answer probes ≡ ok tt
    → (i : ℕ) → i < probes
    → serves_as_primary (answer i) ≡ false
unfolding probe_peer
probe_peer-ok answer zero h i less = absurd (omega (arith, less))
probe_peer-ok answer (suc probes) h i less =
    let (u, before, r) = >>=-eq-ok (probe_peer answer probes) _ h in
    let absent : serves_as_primary (answer probes) ≡ false = ground (arith, guard-eq-ok _ _ r) in
    elim (Bool-cases (ltb i probes)) [
      | inl l ↦ probe_peer-ok answer probes before i (ground arith)
      | inr g ↦
          let here : probes ≡ i = ground arith in
          subst (λ j. serves_as_primary (answer j) ≡ false) here absent
    ]

probed :
    (url : Option String) (answer : ℕ → Result Json)
    → probe_configured url answer ≡ ok tt
    → (url ≡ none) ⊎ ((i : ℕ) → i < promotion_probes → serves_as_primary (answer i) ≡ false)
unfolding probe_configured
probed none answer h = inl refl
probed (some url) answer h = inr (probe_peer-ok answer promotion_probes h)

take_over-ok :
    (n : Node) (r : Result (Unit {0}))
    → (take_over n r).0 ≡ ok tt
    → (r ≡ ok tt)
      × (is_status n.state.status active ≡ true)
      × ((take_over n r).1.state ≡ promoted n.state)
unfolding take_over promote_replica_to_primary change may_promote
take_over-ok n (err e) h = absurd cc
take_over-ok n (ok tt) h =
    let (u, allowed, _, next) = made-ok n.state (λ _. promoted) (λ _. tt) (may_promote n.state) h in
    let (holder, r) = guard-ok (is_custodian n.state.replica_role) _ _ allowed in
    (refl, guard-eq-ok _ _ r, next)

-- A custodian becomes the primary only where it is one with an active lineage, the primary has not been
-- heard from for the quiet period, and, if a peer is configured, none of the three probes found it
-- serving as primary.
pub promote_to_primary-quiet :
    (config : Config) (answer : ℕ → Result Json) (now : ℕ) (n : Node)
    → (promote_to_primary config answer now n).0 ≡ ok tt
    → (is_custodian n.state.replica_role ≡ true)
      × (is_status n.state.status active ≡ true)
      × (contact_time (date_parse n.health.last_primary_contact_at) + promotion_quiet_ms ≤ now)
      × ((config.peer_url ≡ none)
          ⊎ ((i : ℕ) → i < promotion_probes → serves_as_primary (answer i) ≡ false))
      × ((promote_to_primary config answer now n).1.state ≡ promoted n.state)
unfolding promote_to_primary may_take_over
promote_to_primary-quiet config answer now n h =
    let (allowed, was_active, next) = take_over-ok n (may_take_over config answer now n) h in
    let (holder, r) = guard-ok (is_custodian n.state.replica_role) _ _ allowed in
    let (quiet, r1) =
      guard-ok
        (not (
          ltb now
            (contact_time (date_parse n.health.last_primary_contact_at) + promotion_quiet_ms)))
        _ _ r in
    (holder, was_active, ground arith, probed config.peer_url answer r1, next)
