-- ===== src/Governance/Tenants/Admissions.antt =====
-- src/governance-state.js: what a verified tenant admission is, and how the route policy moves.
use auth_broker_tee.Base.{
  ℕ, ◌≤◌, String, true, false, Option, none, some, List, [], ◌∷◌, ◌&&◌, not, ltb, length, take, max,
  lookup, lookup-insert_same, ◌≡◌, refl, sym, ◌∙◌, subst, ok, guard-ok, >>=-eq-ok, ok-injective,
  arith, All, Bool-cases, inl, inr,
}
use auth_broker_tee.Json.{Json, Items, str, num, get, same, truthy, natural, or_null}
use auth_broker_tee.Crypto.{Crypto, verify_governance_envelope, is_expired}
use auth_broker_tee.Crypto.Envelopes.{IsSignedBy, verify-body}
use auth_broker_tee.Certificates.Admission.{assert_tenant_admission_payload}
use auth_broker_tee.Governance.{State, AdmittedTenant}
use auth_broker_tee.Governance.Activation.{lineage_digest}
use auth_broker_tee.Governance.Tenants.Keys.{IsKeyAt, governance_key_at_epoch-IsKeyAt}
use auth_broker_tee.Governance.Tenants.{
  admitted, tenants_of, least_version, accepted_version, version_of, entry_for, record_entry,
  record_tenant_admission, governance_key_at_epoch, epoch_in, has_key, route_keys, none_revoked,
  check_policy, verify_tenant_admission_envelope, newer_version, record_accepted_route_version,
  with_newer,
}

max_left : (m n : ℕ) → m ≤ max m n
max_left m n = ground arith

max_right : (m n : ℕ) → n ≤ max m n
max_right m n = ground arith

record_entry-lookup :
    (tenants : List (String × AdmittedTenant)) (v payload payload_digest : Json) (now : ℕ)
    {tenant : String}
    → v ≡ str tenant
    → lookup tenant (record_entry tenants v payload payload_digest now)
      ≡ some (entry_for (lookup tenant tenants) payload payload_digest now)
unfolding record_entry admitted
record_entry-lookup tenants v payload payload_digest now {tenant} e =
    rw e (lookup-insert_same tenant _ tenants)

-- An admission that is recorded never lowers the least route version of its tenant, takes at least
-- the version that it names, and leaves the version that was accepted last.
pub record_tenant_admission-monotone :
    (envelope : Json) (tenant : String) (now : ℕ) (s : State)
    → get "tenant" (get "payload" envelope) ≡ str tenant
    → (t : AdmittedTenant) × (lookup tenant (tenants_of (record_tenant_admission envelope now s))
        ≡ some t)
      × (least_version (lookup tenant (tenants_of s)) ≤ t.min_route_version)
      × (version_of (get "minRouteVersion" (get "payload" envelope)) ≤ t.min_route_version)
      × (t.latest_accepted_route_version ≡ accepted_version (lookup tenant (tenants_of s)))
unfolding record_tenant_admission entry_for
record_tenant_admission-monotone envelope tenant now s e =
    let payload = get "payload" envelope in
    let before = lookup tenant (tenants_of s) in
    (
      entry_for before payload (get "payloadDigest" envelope) now,
      record_entry-lookup (tenants_of s) (get "tenant" payload) payload
          (get "payloadDigest" envelope) now e,
      max_left (least_version before) (version_of (get "minRouteVersion" payload)),
      max_right (least_version before) (version_of (get "minRouteVersion" payload)),
      refl,
    )

-- The version that a tenant's route policy has accepted is the greatest that was recorded.
pub record_accepted_route_version-max :
    (tenant : String) (v : ℕ) (route_digest : Json) (s : State) (t : AdmittedTenant)
    → lookup tenant (tenants_of s) ≡ some t
    → (t' : AdmittedTenant) × (lookup tenant
          (tenants_of (record_accepted_route_version tenant (num v) route_digest s))
        ≡ some t')
      × (t'.latest_accepted_route_version ≡ max t.latest_accepted_route_version v)
      × (t'.min_route_version ≡ t.min_route_version)
unfolding record_accepted_route_version natural newer_version with_newer
record_accepted_route_version-max tenant v route_digest s t e =
    elim (Bool-cases (ltb t.latest_accepted_route_version v)) [
      | inl newer ↦ (
        record t {
          latest_accepted_route_version = v;
          latest_accepted_route_digest = or_null route_digest;
        },
        rw (e, newer) (lookup-insert_same tenant _ (tenants_of s)),
        ground arith,
        refl,
      )
      | inr older ↦ (t, rw (e, older) e, ground arith, refl)
    ]

none_revoked-All :
    (ids : List String) (keys : Items)
    → none_revoked ids keys ≡ ok tt
    → All (λ id. has_key keys id ≡ false) ids
unfolding none_revoked
none_revoked-All [] keys h = tt
none_revoked-All (id ∷ ids) keys h =
    let (absent, r) = guard-ok (not (has_key keys id)) _ _ h in
    (ground arith, none_revoked-All ids keys r)

module _ (c : Crypto) where
  -- A payload that the lineage vouches for and the route policy allows.
  pub record IsVouched (s : State) (envelope payload : Json) (now : ℕ) : Type 0 where
    pub epoch : ℕ
    pub in_lineage : epoch ≤ length s.lineage
    pub positive : 1 ≤ epoch
    pub issued_under :
        same (get "governanceLineageDigest" payload) (lineage_digest c (take epoch s.lineage))
        ≡ true
    pub key : Json
    pub key_of : IsKeyAt s.lineage epoch key
    pub signed : IsSignedBy c key envelope payload
    pub fresh : is_expired payload now ≡ false
    pub allowed :
        (t : AdmittedTenant)
        → admitted (tenants_of s) (get "tenant" payload) ≡ some t
        → (t.min_route_version ≤ version_of (get "minRouteVersion" payload))
          × All
              (λ id. has_key (route_keys (get "tenantRouteSigningKeys" payload)) id ≡ false)
              t.revoked_route_key_ids

  epoch_in-ok :
      (v : Json) (certificates : ℕ) {epoch : ℕ}
      → epoch_in v certificates ≡ ok epoch
      → (1 ≤ epoch) × (epoch ≤ certificates)
  unfolding epoch_in
  epoch_in-ok (num epoch) certificates h = ground arith
  epoch_in-ok v certificates h = ground arith

  check_policy-ok :
      (o : Option AdmittedTenant) (payload : Json) (t : AdmittedTenant)
      → check_policy o payload ≡ ok tt
      → o ≡ some t
      → (t.min_route_version ≤ version_of (get "minRouteVersion" payload))
        × All
            (λ id. has_key (route_keys (get "tenantRouteSigningKeys" payload)) id ≡ false)
            t.revoked_route_key_ids
  unfolding check_policy
  check_policy-ok none payload t h e = cc
  check_policy-ok (some t') payload t h e =
      let (high, r) =
        guard-ok (not (ltb (version_of (get "minRouteVersion" payload)) t'.min_route_version)) _ _
          h in
      let same_t : t' ≡ t = cc in
      subst
        (λ x.
          (x.min_route_version ≤ version_of (get "minRouteVersion" payload))
          × All (λ id. has_key (route_keys (get "tenantRouteSigningKeys" payload)) id ≡ false)
              x.revoked_route_key_ids)
        same_t
        (
          ground arith,
          none_revoked-All t'.revoked_route_key_ids
              (route_keys (get "tenantRouteSigningKeys" payload)) r,
        )

  -- An admission is verified only if it was issued under a prefix of this lineage, signed by the key that
  -- the certificate of that prefix's epoch names and not expired, names no lower route version than the policy has for its
  -- tenant, and none of its route keys is revoked.
  pub verify_tenant_admission_envelope-IsVouched :
      (s : State) (envelope : Json) (now : ℕ) {payload : Json}
      → verify_tenant_admission_envelope c s envelope now ≡ ok payload
      → IsVouched s envelope payload now
  unfolding verify_tenant_admission_envelope
  verify_tenant_admission_envelope-IsVouched s envelope now {payload} h =
      let body = get "payload" envelope in
      let (epoch, range, r) =
        >>=-eq-ok (epoch_in (get "governanceEpoch" body) (length s.lineage)) _ h in
      let (positive, in_lineage) =
        epoch_in-ok (get "governanceEpoch" body) (length s.lineage) range in
      let (under, r1) =
        guard-ok
          (same (get "governanceLineageDigest" body) (lineage_digest c (take epoch s.lineage))) _ _
          r in
      let key = governance_key_at_epoch s.lineage epoch in
      let (keyed, r2) =
        guard-ok (truthy key.1 && same (get "signingKeyId" envelope) key.0) _ _ r1 in
      let (payload', verified, r3) =
        >>=-eq-ok (verify_governance_envelope c envelope key.1 now true) _ r2 in
      let (carried, signed, fresh) = verify-body c envelope key.1 now true verified in
      let (admission, formed, r4) = >>=-eq-ok (assert_tenant_admission_payload payload' now) _ r3 in
      let (named, r5) =
        guard-ok (same (get "governanceKeyId" payload') (get "signingKeyId" envelope)) _ _ r4 in
      let (u, policy, r6) =
        >>=-eq-ok (check_policy (admitted (tenants_of s) (get "tenant" payload')) payload') _ r5 in
      subst (λ x. IsVouched s envelope x now) (sym carried ∙ ok-injective r6)
        (record {
          epoch = epoch;
          in_lineage = in_lineage;
          positive = positive;
          issued_under = under;
          key = key.1;
          key_of = governance_key_at_epoch-IsKeyAt s.lineage epoch (ground arith);
          signed = signed;
          fresh = fresh;
          allowed = λ t e.
              check_policy-ok (admitted (tenants_of s) (get "tenant" body)) body t
                (subst (λ x. check_policy (admitted (tenants_of s) (get "tenant" x)) x ≡ ok tt)
                  carried policy)
                e;
        })
