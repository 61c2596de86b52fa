-- ===== src/Registry/Governed.antt =====
-- src/server.js sets the governance state's verifier of admissions and its recorder of accepted
-- routes; here the registry runs with them.
use auth_broker_tee.Base.{
  ℕ, String, Bool, true, false, Option, none, some, Bool-cases, [], ◌∷◌, ◌≡◌, refl, sym, ap, subst,
  ◌∙◌, ◌⊎◌, inl, inr, insert, ok, ok-injective, >>=-eq-ok, guard-ok, ◌>>◌, arith,
}
use auth_broker_tee.Json.{Json, get_field, fields, str, get, same, is_object, object}
use auth_broker_tee.Crypto.{Crypto}
use auth_broker_tee.Governance.{State, AdmittedTenant}
use auth_broker_tee.Governance.Tenants.{
  verify_tenant_admission_envelope, record_accepted_route_version, with_newer,
}
use auth_broker_tee.Governance.Tenants.Admissions.{
  IsVouched, verify_tenant_admission_envelope-IsVouched,
}
use auth_broker_tee.Registry.{
  Anchors, VerifiedRoute, Registry, get_tenant_api_route, tenant_api_route_schema,
  route_trust_anchors_schema, assert_exact_keys,
}
use auth_broker_tee.Registry.Payload.{Url, is_below}
use auth_broker_tee.Registry.Trust.{
  anchor_keys, tenant_name, route_trust_anchors_from_admission, validate_trust_anchors,
  tenants_object, check_tenants, check_tenant,
}
use auth_broker_tee.Registry.Signed.{
  anchor_of, signing_key, verify_route_signature, enforce_admission_route_policy,
}
use auth_broker_tee.Registry.Build.{Admissions, build_registry_state, verifier_at, record_accepted}
use auth_broker_tee.Registry.Verified.{IsAnchored, IsCurrent}
use auth_broker_tee.Registry.Vouched.{Recorded, unchanged, recorded, IsAdmitted}
use auth_broker_tee.Registry.Answers.{build_registry_state-tenant_routes}

-- `recordAcceptedRouteVersion`, of a route's fields
unfoldable pub accept_route : Json → Json → Json → State → State
accept_route (str tenant) version route_digest s =
    record_accepted_route_version tenant version route_digest s
accept_route _ version route_digest s = s

-- `setTenantAdmissionVerifier(...)` and `setAcceptedRouteRecorder(...)` of `main`.
unfoldable pub governance_admissions : Crypto → Admissions State
governance_admissions c = record {
  verify_admission = some (λ envelope now s. verify_tenant_admission_envelope c s envelope now);
  accepted_route = some accept_route;
}

abbrev one_tenant : String → Json → Json
one_tenant name body =
    object
      (("schema", str route_trust_anchors_schema) ∷ ("tenants", object ((name, body) ∷ [])) ∷ [])

one_tenant-tenants :
    (name : String) (body : Json) (anchors : Anchors)
    → validate_trust_anchors (one_tenant name body) ≡ ok anchors
    → anchors.tenants ≡ (name, body) ∷ []
unfolding validate_trust_anchors tenants_object check_tenants get get_field fields
one_tenant-tenants name body anchors h =
    let raw = one_tenant name body in
    let (o, r) = guard-ok (is_object raw) _ _ h in
    let (u, k, r1) = >>=-eq-ok (assert_exact_keys raw ("schema" ∷ "tenants" ∷ [])) _ r in
    let (d, r2) = guard-ok (same (get "schema" raw) (str route_trust_anchors_schema)) _ _ r1 in
    let (t, e, r3) = >>=-eq-ok (check_tenant name body >> ok (insert name body [])) _ r2 in
    let (u1, v, r4) = >>=-eq-ok (check_tenant name body) _ e in
    sym (ap (λ a. a.tenants) (ok-injective r3)) ∙ sym (ok-injective r4)

the_anchor :
    (name : String) (body : Json) (anchors : Anchors) (tenant anchor : Json)
    → anchors.tenants ≡ (name, body) ∷ []
    → anchor_of anchors tenant ≡ some anchor
    → body ≡ anchor
unfolding anchor_of
the_anchor name body anchors (str t) anchor e h = ground arith
the_anchor name body anchors tenant anchor e h = cc

-- The anchors of an admission hold its tenant's keys and least version for its tenant.
admission_anchor :
    (admission raw : Json) (anchors : Anchors) (tenant anchor : Json)
    → route_trust_anchors_from_admission admission ≡ ok raw
    → validate_trust_anchors raw ≡ ok anchors
    → anchor_of anchors tenant ≡ some anchor
    → (anchor_keys (get "tenantRouteSigningKeys" admission) ≡ ok (get "routeSigningKeys" anchor))
      × (get "minRouteVersion" anchor ≡ get "minRouteVersion" admission)
unfolding route_trust_anchors_from_admission get get_field fields
admission_anchor admission raw anchors tenant anchor made valid anchored =
    let (keys, k, r) = >>=-eq-ok (anchor_keys (get "tenantRouteSigningKeys" admission)) _ made in
    let (name, n, r1) = >>=-eq-ok (tenant_name (get "tenant" admission)) _ r in
    let body =
      object
        (("minRouteVersion", get "minRouteVersion" admission) ∷ ("routeSigningKeys", keys) ∷ []) in
    let is_raw : one_tenant name body ≡ raw = ok-injective r1 in
    let valid' = subst (λ x. validate_trust_anchors x ≡ ok anchors) (sym is_raw) valid in
    let same_body =
      the_anchor name body anchors tenant anchor (one_tenant-tenants name body anchors valid')
        anchored in
    (
      k ∙ ap (λ b. ok (get "routeSigningKeys" b)) same_body,
      sym (ap (get "minRouteVersion") same_body),
    )

with_newer-lineage :
    (tenant : String) (entry : Option AdmittedTenant) (s : State)
    → (with_newer tenant entry s).lineage ≡ s.lineage
unfolding with_newer
with_newer-lineage tenant none s = refl
with_newer-lineage tenant (some t) s = refl

accept_route-lineage :
    (tenant version route_digest : Json) (s : State)
    → (accept_route tenant version route_digest s).lineage ≡ s.lineage
unfolding accept_route record_accepted_route_version
accept_route-lineage (str tenant) version route_digest s = with_newer-lineage tenant _ s
accept_route-lineage tenant version route_digest s = refl

record_accepted-lineage :
    (c : Crypto) (parse_url : Json → Option Url) (route : VerifiedRoute) (s : State)
    → (record_accepted c parse_url (governance_admissions c) route s).lineage ≡ s.lineage
unfolding record_accepted governance_admissions
record_accepted-lineage c parse_url route s =
    elim (Bool-cases (same (get "schema" route.payload) (str tenant_api_route_schema))) [
      | inl api ↦ rw api (accept_route-lineage _ _ _ s)
      | inr other ↦ rw other refl
    ]

Recorded-lineage :
    (c : Crypto) (parse_url : Json → Option Url) (s : State) {s' : State}
    → Recorded c parse_url (governance_admissions c) s s'
    → s'.lineage ≡ s.lineage
Recorded-lineage c parse_url s (unchanged e) = sym (ap (λ x. x.lineage) e)
Recorded-lineage c parse_url s (recorded {s'} route before e) =
    sym (ap (λ x. x.lineage) e)
    ∙ record_accepted-lineage c parse_url route s'
    ∙ Recorded-lineage c parse_url s before

module _ (c : Crypto) (parse_url : Json → Option Url) (now : ℕ) (start : State) where
  -- The lineage vouches for an admission of the route's tenant, and the route is signed by a key of
  -- that admission, no older than it allows, within its lists of hosts and audiences, and current: its
  -- own schema holds, it was issued no later than the clock's skew from now, and it has not expired.
  pub record IsGoverned (route : VerifiedRoute) : Type 0 where
    pub state : State
    pub same_lineage : state.lineage ≡ start.lineage
    pub envelope : Json
    pub admission : Json
    pub vouched : IsVouched c state envelope admission now
    pub same_tenant : same (get "tenant" route.payload) (get "tenant" admission) ≡ true
    pub keys : Json
    pub keys_of : anchor_keys (get "tenantRouteSigningKeys" admission) ≡ ok keys
    pub key : Json
    pub keyed : signing_key keys route.signature ≡ some key
    pub signed : verify_route_signature c parse_url route.payload route.signature key ≡ true
    pub new_enough :
        is_below (get "version" route.payload) (get "minRouteVersion" admission) ≡ false
    pub in_policy : enforce_admission_route_policy admission route.payload ≡ ok tt
    pub current : IsCurrent c parse_url now route.payload (get "minRouteVersion" admission)

  IsAdmitted-IsGoverned :
      (route : VerifiedRoute)
      → IsAdmitted c parse_url now (governance_admissions c) start route
      → IsGoverned route
  unfolding governance_admissions verifier_at
  IsAdmitted-IsGoverned route a =
      let (keys, version) =
        admission_anchor a.admission a.raw a.anchors (get "tenant" route.payload) a.anchored.anchor
          a.made a.valid a.anchored.anchored in
      let verified : verify_tenant_admission_envelope c a.state a.envelope now ≡ ok a.admission =
        ground arith in
      record {
        state = a.state;
        same_lineage = Recorded-lineage c parse_url start a.reached;
        envelope = a.envelope;
        admission = a.admission;
        vouched = verify_tenant_admission_envelope-IsVouched c a.state a.envelope now verified;
        same_tenant = a.same_tenant;
        keys = get "routeSigningKeys" a.anchored.anchor;
        keys_of = keys;
        key = a.anchored.key;
        keyed = a.anchored.keyed;
        signed = a.anchored.signed;
        new_enough =
            subst (λ m. is_below (get "version" route.payload) m ≡ false) version
              a.anchored.current.not_below;
        in_policy = a.in_policy;
        current = subst (IsCurrent c parse_url now route.payload) version a.anchored.current;
      }

  -- In the broker, the registry answers a tenant only with a current API route of that tenant that is
  -- signed by a key that the trust anchors hold for it, or under an admission that the governance
  -- lineage vouches for.
  pub build_registry_state-IsGoverned :
      (ignore : Bool) (trust_anchors bundle documents : Json) (started : ℕ) (r : Registry)
      (tenant : Json) (route : VerifiedRoute)
      → (build_registry_state c parse_url
          (governance_admissions c)
          ignore
          trust_anchors
          bundle
          documents
          now
          started
          start).0
        ≡ ok r
      → get_tenant_api_route r tenant ≡ some route
      → (same (get "tenant" route.payload) tenant ≡ true)
        × (same (get "schema" route.payload) (str tenant_api_route_schema) ≡ true)
        × (IsAnchored c parse_url now r.trust_anchors route ⊎ IsGoverned route)
  build_registry_state-IsGoverned ignore trust_anchors bundle documents started r tenant route h e =
      let (of_tenant, api, listed) =
        build_registry_state-tenant_routes c parse_url now (governance_admissions c) ignore
          trust_anchors bundle documents started start r tenant route h e in
      (
        of_tenant,
        api,
        elim listed [
          | inl anchored ↦ inl anchored
          | inr admitted ↦ inr (IsAdmitted-IsGoverned route admitted)
        ],
      )
