-- ===== src/Registry/Kept.antt =====
-- src/route-registry.js: what holds of every route in the tables stays, as a route with it is added.
use auth_broker_tee.Base.{
  String, true, some, List, [], ◌∷◌, ◌≡◌, refl, subst, inl, inr, not, ok, err, ok-injective,
  guard-ok, arith, Bool-cases, All, if◌then◌else◌, if-cases,
}
use auth_broker_tee.Json.{Json, str, get, same}
use auth_broker_tee.Registry.{
  VerifiedRoute, Tables, tenant_api_route_schema, deploy_webhook_route_schema, route_at, set_route,
}
use auth_broker_tee.Registry.Build.{
  add_verified_route, add_tenant_route, add_webhook_route, assert_unique, is_known,
}

module _ {ℓ} (P : Json × VerifiedRoute → Type ℓ) where
  pub set_route-All :
      (key : Json) (route : VerifiedRoute) (routes : List (Json × VerifiedRoute))
      → All P routes
      → P (key, route)
      → All P (set_route key route routes)
  unfolding set_route
  set_route-All key route [] h p = (p, tt)
  set_route-All key route (entry ∷ rest) h p = elim (Bool-cases (same entry.0 key)) [
    | inl e ↦ rw e (p, h.1)
    | inr e ↦ rw e (h.0, set_route-All key route rest h.1 p)
  ]

  pub route_at-All :
      (key : Json) (routes : List (Json × VerifiedRoute)) {route : VerifiedRoute}
      → All P routes
      → route_at key routes ≡ some route
      → (k : Json) × (same k key ≡ true) × P (k, route)
  unfolding route_at
  route_at-All key [] h e = cc
  route_at-All key (entry ∷ rest) {route} h e = elim (Bool-cases (same entry.0 key)) [
    | inl t ↦
        let here : entry.1 ≡ route = ground arith in
        (entry.0, t, subst (λ x. P (entry.0, x)) here h.0)
    | inr t ↦ route_at-All key rest h.1 (ground arith)
  ]

-- What is asked of the routes in a registry's tables: of every route, and of its key.
pub record AllRoutes {ℓ} (Good : VerifiedRoute → Type ℓ) (t : Tables) : Type ℓ where
  pub tenants :
      All
        (λ entry.
          (entry.0 ≡ get "tenant" entry.1.payload)
          × (same (get "schema" entry.1.payload) (str tenant_api_route_schema) ≡ true)
          × Good entry.1)
        t.tenant_api_routes
  pub repos :
      All
        (λ entry.
          (entry.0 ≡ get "githubRepoName" entry.1.payload)
          × (same (get "schema" entry.1.payload) (str deploy_webhook_route_schema) ≡ true)
          × Good entry.1)
        t.deploy_webhook_routes

module _ {ℓ} (Good : VerifiedRoute → Type ℓ) where
  add_tenant_route-AllRoutes :
      (route : VerifiedRoute) (source : String) (t : Tables) {t' : Tables}
      → AllRoutes Good t
      → same (get "schema" route.payload) (str tenant_api_route_schema) ≡ true
      → Good route
      → add_tenant_route route source t ≡ ok t'
      → AllRoutes Good t'
  unfolding add_tenant_route assert_unique
  add_tenant_route-AllRoutes route source t all api good h =
      let key = get "tenant" route.payload in
      let (u, e) = guard-ok (not (is_known (route_at key t.tenant_api_routes))) _ _ h in
      subst (AllRoutes Good) (ok-injective e) (record {
        tenants = set_route-All _ key route t.tenant_api_routes all.tenants (refl, api, good);
        repos = all.repos;
      })

  add_webhook_route-AllRoutes :
      (route : VerifiedRoute) (source : String) (t : Tables) {t' : Tables}
      → AllRoutes Good t
      → same (get "schema" route.payload) (str deploy_webhook_route_schema) ≡ true
      → Good route
      → add_webhook_route route source t ≡ ok t'
      → AllRoutes Good t'
  unfolding add_webhook_route assert_unique
  add_webhook_route-AllRoutes route source t all hook good h =
      let key = get "githubRepoName" route.payload in
      let (u, e) = guard-ok (not (is_known (route_at key t.deploy_webhook_routes))) _ _ h in
      subst (AllRoutes Good) (ok-injective e) (record {
        tenants = all.tenants;
        repos = set_route-All _ key route t.deploy_webhook_routes all.repos (refl, hook, good);
      })

  pub add_verified_route-AllRoutes :
      (route : VerifiedRoute) (source : String) (t : Tables) {t' : Tables}
      → AllRoutes Good t
      → Good route
      → add_verified_route route source t ≡ ok t'
      → AllRoutes Good t'
  unfolding add_verified_route
  add_verified_route-AllRoutes route source t {t'} all good h =
      let is_hook = same (get "schema" route.payload) (str deploy_webhook_route_schema) in
      let hook_or_not =
        if is_hook then add_webhook_route route source t else err "unsupported route schema" in
      elim (if-cases (same (get "schema" route.payload) (str tenant_api_route_schema))
        (add_tenant_route route source t) hook_or_not h) [
          | inl (api, e) ↦ add_tenant_route-AllRoutes route source t all api good e
          | inr (other, e) ↦
              elim (if-cases is_hook (add_webhook_route route source t)
                (err "unsupported route schema") e) [
                  | inl (hook, e') ↦ add_webhook_route-AllRoutes route source t all hook good e'
                  | inr (neither, e') ↦ absurd cc
                ]
        ]
