-- ===== src/Registry/Answers.antt =====
-- src/route-registry.js: what the registry answers for a tenant and for a repository.
use auth_broker_tee.Base.{
  ℕ, Bool, true, Option, some, List, ◌≡◌, refl, subst, Result, ok, err, ok-injective, >>=-eq-ok,
}
use auth_broker_tee.Json.{Json, str, get, same}
use auth_broker_tee.Crypto.{Crypto}
use auth_broker_tee.Registry.{
  Anchors, VerifiedRoute, Registry, Tables, tenant_api_route_schema, deploy_webhook_route_schema,
  get_tenant_api_route, get_deploy_webhook_route_for_repo,
}
use auth_broker_tee.Registry.Payload.{Url}
use auth_broker_tee.Registry.Build.{
  Admissions, load_routes, no_tables, with_routes, registry_of, build_from, build_registry_state,
}
use auth_broker_tee.Registry.Kept.{route_at-All}
use auth_broker_tee.Registry.Vouched.{unchanged}
use auth_broker_tee.Registry.Served.{IsListed, Listed, load_documents-Listed, load_routes-Listed}

module _ {ℓ} {S : Type ℓ} (c : Crypto) (parse_url : Json → Option Url) (now : ℕ)
    (admissions : Admissions S) where
  with_routes-Listed :
      (start : S) (anchors : Anchors) (routes documents : List Json) (started : ℕ)
      (loaded : Result Tables) {r : Registry}
      → ((t : Tables) → loaded ≡ ok t → Listed c parse_url now admissions start anchors t)
      → with_routes c parse_url anchors routes documents now started loaded ≡ ok r
      → Listed c parse_url now admissions start r.trust_anchors r.tables
  unfolding with_routes registry_of
  with_routes-Listed start anchors routes documents started loaded all h =
      let (t, l, r) = >>=-eq-ok loaded _ h in
      let (t', k, r1) = >>=-eq-ok (load_routes c parse_url anchors now routes t) _ r in
      subst (λ x. Listed c parse_url now admissions start x.trust_anchors x.tables)
        (ok-injective r1)
        (load_routes-Listed c parse_url now admissions start anchors routes t (all t l) k)

  build_from-Listed :
      (ignore : Bool) (started : ℕ) (sources : Result (Anchors × List Json × List Json)) (s : S)
      {r : Registry}
      → (build_from c parse_url admissions ignore now started sources s).0 ≡ ok r
      → Listed c parse_url now admissions s r.trust_anchors r.tables
  unfolding build_from
  build_from-Listed ignore started (err e) s h = absurd cc
  build_from-Listed ignore started (ok (anchors, routes, documents)) s h =
      with_routes-Listed s anchors routes documents started _
        (λ t.
          load_documents-Listed c parse_url now admissions s anchors ignore documents no_tables s
            (unchanged refl) (record { tenants = tt; repos = tt }))
        h

  -- The registry answers a tenant only with an API route of that tenant, which is current at the time
  -- of the build and signed by a key that the trust anchors hold for the tenant, or that the verifier
  -- of admissions accepted for it.
  pub build_registry_state-tenant_routes :
      (ignore : Bool) (trust_anchors bundle documents : Json) (started : ℕ) (s : S) (r : Registry)
      (tenant : Json) (route : VerifiedRoute)
      → (build_registry_state c parse_url admissions ignore trust_anchors bundle documents now
          started s).0
        ≡ ok r
      → get_tenant_api_route r tenant ≡ some route
      → (same (get "tenant" route.payload) tenant ≡ true)
        × (same (get "schema" route.payload) (str tenant_api_route_schema) ≡ true)
        × IsListed c parse_url now admissions s r.trust_anchors route
  unfolding build_registry_state get_tenant_api_route
  build_registry_state-tenant_routes ignore trust_anchors bundle documents started s r tenant route
        h e =
      let all = build_from-Listed ignore started _ s h in
      let (key, found, (of_key, api, listed)) =
        route_at-All _ tenant r.tables.tenant_api_routes all.tenants e in
      (subst (λ k. same k tenant ≡ true) of_key found, api, listed)

  -- The same for the deployment webhook of a repository.
  pub build_registry_state-webhook_routes :
      (ignore : Bool) (trust_anchors bundle documents : Json) (started : ℕ) (s : S) (r : Registry)
      (repo : Json) (route : VerifiedRoute)
      → (build_registry_state c parse_url admissions ignore trust_anchors bundle documents now
          started s).0
        ≡ ok r
      → get_deploy_webhook_route_for_repo r repo ≡ some route
      → (same (get "githubRepoName" route.payload) repo ≡ true)
        × (same (get "schema" route.payload) (str deploy_webhook_route_schema) ≡ true)
        × IsListed c parse_url now admissions s r.trust_anchors route
  unfolding build_registry_state get_deploy_webhook_route_for_repo
  build_registry_state-webhook_routes ignore trust_anchors bundle documents started s r repo route h
        e =
      let all = build_from-Listed ignore started _ s h in
      let (key, found, (of_key, hook, listed)) =
        route_at-All _ repo r.tables.deploy_webhook_routes all.repos e in
      (subst (λ k. same k repo ≡ true) of_key found, hook, listed)
