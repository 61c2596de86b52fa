-- ===== src/Registry/Counted.antt =====
-- src/route-registry.js: no route is lost or replaced while the registry is built, and no route
-- document can stop the build that ignores invalid ones.
use auth_broker_tee.Base.{
  ℕ, suc, ◌+◌, String, true, false, Option, List, [], ◌∷◌, length, length-append, ◌≡◌, refl, sym,
  ap, ap₂, subst, ◌||◌, ◌∙◌, Result, ok, err, ok-injective, >>=-eq-ok, guard-ok, not, arith,
  if-cases, inl, inr, Bool-cases, if◌then◌else◌,
}
use auth_broker_tee.Json.{Json, str, arr, items, of_items-items, get, same, truthy}
use auth_broker_tee.Crypto.{Crypto}
use auth_broker_tee.Registry.{
  Anchors, VerifiedRoute, Registry, Tables, tenant_api_route_schema, deploy_webhook_route_schema,
  route_bundle_schema, route_at, set_route,
}
use auth_broker_tee.Registry.Payload.{Url}
use auth_broker_tee.Registry.Trust.{validate_trust_anchors}
use auth_broker_tee.Registry.Signed.{
  check_route_document, with_admission, verify_signed_route_envelope,
}
use auth_broker_tee.Registry.Build.{
  Admissions, add_verified_route, add_tenant_route, add_webhook_route, assert_unique, is_known,
  bundle_routes, load_routes, load_documents, load_document, take_document, or_rejected,
  next_document, no_tables, check_sources, with_routes, build_from, build_registry_state,
  verifier_at, documents_array, registry_of,
}

-- The routes in the tables.
abbrev pub route_count : Tables → ℕ
route_count t = length t.tenant_api_routes + length t.deploy_webhook_routes

set_route-length :
    (key : Json) (route : VerifiedRoute) (routes : List (Json × VerifiedRoute))
    → not (is_known (route_at key routes)) ≡ true
    → length (set_route key route routes) ≡ suc (length routes)
unfolding set_route route_at is_known
set_route-length key route [] h = refl
set_route-length key route (entry ∷ rest) h = elim (Bool-cases (same entry.0 key)) [
  | inl e ↦ absurd (ground arith)
  | inr e ↦ rw e (ap suc (set_route-length key route rest (ground arith)))
]

-- One more route, and one more summary.
abbrev Grown : Tables → Tables → Type 0
Grown t t' =
    (route_count t' ≡ suc (route_count t))
    × (length t'.route_summaries ≡ suc (length t.route_summaries))

add_verified_route-Grown :
    (route : VerifiedRoute) (source : String) (t : Tables) {t' : Tables}
    → add_verified_route route source t ≡ ok t'
    → Grown t t'
unfolding add_verified_route add_tenant_route add_webhook_route assert_unique
add_verified_route-Grown route source t {t'} h =
    let is_hook = same (get "schema" route.payload) (str deploy_webhook_route_schema) in
    let tenant = get "tenant" route.payload in
    let repo = get "githubRepoName" route.payload in
    elim (if-cases (same (get "schema" route.payload) (str tenant_api_route_schema))
      (add_tenant_route route source t)
      (if is_hook then add_webhook_route route source t else err "unsupported route schema") h) [
        | inl (api, e) ↦
            let (fresh, r) =
              guard-ok (not (is_known (route_at tenant t.tenant_api_routes))) _ _ e in
            subst (Grown t) (ok-injective r) (
              omega (arith, set_route-length tenant route t.tenant_api_routes fresh),
              length-append t.route_summaries _ ∙ omega arith,
            )
        | inr (other, e) ↦
            elim (if-cases is_hook (add_webhook_route route source t)
              (err "unsupported route schema") e) [
                | inl (hook, e') ↦
                    let (fresh, r) =
                      guard-ok (not (is_known (route_at repo t.deploy_webhook_routes))) _ _ e' in
                    subst (Grown t) (ok-injective r) (
                      omega (arith, set_route-length repo route t.deploy_webhook_routes fresh),
                      length-append t.route_summaries _ ∙ omega arith,
                    )
                | inr (neither, e') ↦ absurd cc
              ]
      ]

module _ {ℓ} {S : Type ℓ} (c : Crypto) (parse_url : Json → Option Url) (now : ℕ)
    (admissions : Admissions S) where
  load_routes-count :
      (anchors : Anchors) (routes : List Json) (t : Tables) {t' : Tables}
      → load_routes c parse_url anchors now routes t ≡ ok t'
      → route_count t' ≡ route_count t + length routes
  unfolding load_routes
  load_routes-count anchors [] t h =
      subst (λ x. route_count x ≡ route_count t + 0) (ok-injective h) (omega arith)
  load_routes-count anchors (envelope ∷ rest) t h =
      let (route, v, r) =
        >>=-eq-ok (verify_signed_route_envelope c parse_url anchors envelope now) _ h in
      let (t1, a, r1) = >>=-eq-ok (add_verified_route route "route-bundle" t) _ r in
      let grown = add_verified_route-Grown route "route-bundle" t a in
      omega (arith, load_routes-count anchors rest t1 r1, grown.0)

  loaded-Grown :
      (document : Json) (t : Tables) (s : S) (r : Result (Json × VerifiedRoute)) {t' : Tables}
      → (take_document c parse_url admissions document t s r).0 ≡ ok t'
      → Grown t t'
  unfolding take_document
  loaded-Grown document t s (err e) h = absurd cc
  loaded-Grown document t s (ok (a, v)) h =
      add_verified_route-Grown (with_admission c parse_url document a v) _ t h

  -- The first document and the others, where the loop returns.
  next-ok :
      (r : Result Tables) (s : S) (next : Tables → S → Result Tables × S) {t' : Tables}
      → (next_document c parse_url admissions r s next).0 ≡ ok t'
      → (t : Tables) × (r ≡ ok t) × ((next t s).0 ≡ ok t')
  unfolding next_document
  next-ok (err e) s next h = absurd cc
  next-ok (ok t) s next h = (t, refl, h)

  strict :
      (document : Json) (t : Tables) (r : Result Tables) {t' : Tables}
      → or_rejected c parse_url admissions false document t r ≡ ok t'
      → r ≡ ok t'
  unfolding or_rejected
  strict document t (ok t1) h = h
  strict document t (err e) h = absurd cc

  load_documents-count :
      (documents : List Json) (t : Tables) (s : S) {t' : Tables}
      → (load_documents c parse_url admissions false now documents t s).0 ≡ ok t'
      → route_count t' ≡ route_count t + length documents
  unfolding load_documents load_document
  load_documents-count [] t s h =
      subst (λ x. route_count x ≡ route_count t + 0) (ok-injective h) (omega arith)
  load_documents-count (document ∷ rest) t s h =
      let (t1, e, r) = next-ok _ _ _ h in
      let grown = loaded-Grown document t s _ (strict document t _ e) in
      omega (arith, load_documents-count rest t1 _ r, grown.0)

  ignored :
      (document : Json) (t : Tables) (r : Result Tables)
      → ((t' : Tables) → r ≡ ok t' → Grown t t')
      → (t' : Tables) × (or_rejected c parse_url admissions true document t r ≡ ok t')
        × (length t'.route_summaries ≡ suc (length t.route_summaries))
  unfolding or_rejected
  ignored document t (ok t') grown = (t', refl, (grown t' refl).1)
  ignored document t (err e) grown = (_, refl, length-append t.route_summaries _ ∙ omega arith)

  next_loaded :
      (r : Result Tables) (s : S) (next : Tables → S → Result Tables × S) {t : Tables}
      → r ≡ ok t
      → next_document c parse_url admissions r s next ≡ next t s
  unfolding next_document
  next_loaded (ok t) s next e = ap (λ x. next x s) (ok-injective e)
  next_loaded (err m) s next e = absurd cc

  -- Where invalid route documents are ignored, the documents are always loaded, whatever they are and
  -- whatever the verifier of admissions answers; the registry has one summary for each of them.
  pub load_documents-total :
      (documents : List Json) (t : Tables) (s : S)
      → (t' : Tables) × ((load_documents c parse_url admissions true now documents t s).0 ≡ ok t')
        × (length t'.route_summaries ≡ length t.route_summaries + length documents)
  unfolding load_documents load_document
  load_documents-total [] t s = (t, refl, omega arith)
  load_documents-total (document ∷ rest) t s =
      let checked =
        check_route_document c parse_url (verifier_at c parse_url admissions now s) document now in
      let loaded = take_document c parse_url admissions document t s checked in
      let (t1, e, one) = ignored document t loaded.0 (λ t'. loaded-Grown document t s checked) in
      let (t2, later, more) = load_documents-total rest t1 loaded.1 in
      (t2, ap (λ p. p.0) (next_loaded _ _ _ e) ∙ later, omega (arith, one, more))

  sources :
      (trust_anchors bundle : Json) (documents : List Json)
      {checked : Anchors × List Json × List Json}
      → check_sources c parse_url trust_anchors bundle (arr (items documents)) ≡ ok checked
      → (checked.1 ≡ bundle_routes (get "routes" bundle)) × (checked.2 ≡ documents)
  unfolding check_sources documents_array
  sources trust_anchors bundle documents h =
      let (anchors, v, r) = >>=-eq-ok (validate_trust_anchors trust_anchors) _ h in
      let (schema, r1) =
        guard-ok (not (truthy bundle) || same (get "schema" bundle) (str route_bundle_schema)) _ _
          r in
      let e = ok-injective r1 in
      (sym (ap (λ p. p.1) e), sym (ap (λ p. p.2) e) ∙ of_items-items documents)

  built-count :
      (checked : Result (Anchors × List Json × List Json)) (routes documents : List Json)
      (started : ℕ) (s : S) {r : Registry}
      → ((p : Anchors × List Json × List Json)
          → checked ≡ ok p
          → (p.1 ≡ routes) × (p.2 ≡ documents))
      → (build_from c parse_url admissions false now started checked s).0 ≡ ok r
      → route_count r.tables ≡ length documents + length routes
  unfolding build_from with_routes registry_of
  built-count (err e) routes documents started s known h = absurd cc
  built-count (ok (anchors, rs, ds)) routes documents started s known h =
      let (these, those) = known _ refl in
      let loaded = (load_documents c parse_url admissions false now ds no_tables s).0 in
      let (t, l, r) = >>=-eq-ok loaded _ h in
      let (t', k, r1) = >>=-eq-ok (load_routes c parse_url anchors now rs t) _ r in
      let counted : route_count t' ≡ length ds + length rs =
        omega (arith, load_routes-count anchors rs t k, load_documents-count ds no_tables s l) in
      subst (λ x. route_count x.tables ≡ length documents + length routes) (ok-injective r1)
        (counted ∙ ap₂ (λ a b. length a + length b) those these)

  -- A registry that is built without ignoring invalid documents has exactly one route for each route
  -- document and each route of the bundle: none is left out, and none takes the place of another.
  pub build_registry_state-count :
      (trust_anchors bundle : Json) (documents : List Json) (started : ℕ) (s : S) (r : Registry)
      → (build_registry_state c parse_url admissions false trust_anchors bundle
          (arr (items documents))
          now
          started
          s).0
        ≡ ok r
      → route_count r.tables ≡ length documents + length (bundle_routes (get "routes" bundle))
  unfolding build_registry_state
  build_registry_state-count trust_anchors bundle documents started s r h =
      built-count _ (bundle_routes (get "routes" bundle)) documents started s
        (λ p e. sources trust_anchors bundle documents e) h
