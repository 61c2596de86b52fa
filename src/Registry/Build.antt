-- ===== src/Registry/Build.antt =====
-- src/route-registry.js: how the registry is built from a bundle and the route documents, and how a
-- refresh replaces it. `S` is the state of the verifier and the recorder that server.js sets.
use auth_broker_tee.Base.{
  ℕ, String, Bool, true, false, Option, none, some, List, [], ◌∷◌, ◌++◌, ◌||◌, not, length, Result,
  ok, err, ◌>>=◌, ◌>>◌, guard, if◌then◌else◌,
}
use auth_broker_tee.Json.{
  Json, null, bool, str, time, arr, nil, object, items, of_items, get, same, truthy,
}
use auth_broker_tee.Crypto.{Crypto, digest}
use auth_broker_tee.Registry.{
  VerifiedRoute, Tables, Anchors, Registry, tenant_api_route_schema, deploy_webhook_route_schema,
  route_bundle_schema, route_trust_anchors_schema, rejected_route_document_schema, route_at,
  set_route,
}
use auth_broker_tee.Registry.Payload.{Url}
use auth_broker_tee.Registry.Trust.{validate_trust_anchors}
use auth_broker_tee.Registry.Signed.{
  verify_signed_route_envelope, check_route_document, with_admission,
}

-- `map.has(key)`
unfoldable pub is_known : Option VerifiedRoute → Bool
is_known none = false
is_known (some route) = true

-- `assertUnique`
unfoldable pub assert_unique : List (Json × VerifiedRoute) → Json → Result (Unit {0})
assert_unique routes key = guard (not (is_known (route_at key routes))) "duplicate route"

unfoldable pub route_summary : VerifiedRoute → String → Json
route_summary verified source = object (
    ("schema", get "schema" verified.payload)
    ∷ ("tenant", get "tenant" verified.payload)
    ∷ ("version", get "version" verified.payload)
    ∷ ("digest", str verified.payload_digest)
    ∷ ("expiresAt", get "expiresAt" verified.payload)
    ∷ ("source", str source)
    ∷ [])

abbrev pub summarized : VerifiedRoute → String → Tables → List Json
summarized verified source t = t.route_summaries ++ route_summary verified source ∷ []

unfoldable pub add_tenant_route : VerifiedRoute → String → Tables → Result Tables
add_tenant_route verified source t =
    let key = get "tenant" verified.payload in
    assert_unique t.tenant_api_routes key
    >> ok (record t {
      tenant_api_routes = set_route key verified t.tenant_api_routes;
      route_summaries = summarized verified source t;
    })

unfoldable pub add_webhook_route : VerifiedRoute → String → Tables → Result Tables
add_webhook_route verified source t =
    let key = get "githubRepoName" verified.payload in
    assert_unique t.deploy_webhook_routes key
    >> ok (record t {
      deploy_webhook_routes = set_route key verified t.deploy_webhook_routes;
      route_summaries = summarized verified source t;
    })

-- `addVerifiedRoute`
unfoldable pub add_verified_route : VerifiedRoute → String → Tables → Result Tables
add_verified_route verified source t =
    if same (get "schema" verified.payload) (str tenant_api_route_schema)
    then add_tenant_route verified source t
    else if same (get "schema" verified.payload) (str deploy_webhook_route_schema)
    then add_webhook_route verified source t
    else err "unsupported route schema"

-- What the registry asks of the governance state: `tenantAdmissionVerifier` and
-- `acceptedRouteRecorder`, by tenant, version and digest.
pub record Admissions {ℓ} (S : Type ℓ) : Type ℓ where
  pub verify_admission : Option (Json → ℕ → S → Result Json)
  pub accepted_route : Option (Json → Json → Json → S → S)

abbrev pub no_tables : Tables
no_tables = record { tenant_api_routes = []; deploy_webhook_routes = []; route_summaries = [] }

unfoldable pub bundle_routes : Json → List Json
bundle_routes (arr routes) = of_items routes
bundle_routes _ = []

unfoldable pub documents_array : Json → Result (List Json)
documents_array (arr documents) = ok (of_items documents)
documents_array _ = err "routeDocuments must be an array"

module _ (c : Crypto) (parse_url : Json → Option Url) where
  unfoldable pub rejected_summary : Json → String → Json
  rejected_summary document message = object (
      ("schema", str rejected_route_document_schema)
      ∷ ("tenant", null)
      ∷ ("version", null)
      ∷ ("digest", str (digest c document))
      ∷ ("expiresAt", null)
      ∷ ("source", str "firestore-route-document")
      ∷ ("rejected", bool true)
      ∷ ("reasonDigest", str (c.hash_text (str message)))
      ∷ [])

  -- The loop over the routes of the bundle.
  unfoldable pub load_routes : Anchors → ℕ → List Json → Tables → Result Tables
  load_routes anchors now [] t = ok t
  load_routes anchors now (envelope ∷ rest) t = do
    verified ← verify_signed_route_envelope c parse_url anchors envelope now
    t' ← add_verified_route verified "route-bundle" t
    load_routes anchors now rest t'

  -- `emptyRegistryState`
  unfoldable pub empty_registry_state : Registry
  empty_registry_state =
      let raw = object (("schema", str route_trust_anchors_schema) ∷ ("tenants", object []) ∷ []) in
      record {
        initialized_at = null;
        trust_anchors = record { raw = raw; tenants = [] };
        trust_anchors_digest = digest c raw;
        bundle_digest =
            digest c (object (("schema", str route_bundle_schema) ∷ ("routes", arr nil) ∷ []));
        route_document_count = 0;
        route_document_digest = digest c (arr nil);
        tables = no_tables;
      }

  -- The registry that `buildRegistryState` returns.
  unfoldable pub registry_of : Anchors → List Json → List Json → ℕ → Tables → Registry
  registry_of anchors routes documents started t = record {
    initialized_at = time started;
    trust_anchors = anchors;
    trust_anchors_digest = digest c anchors.raw;
    bundle_digest = digest c (
        object (
          ("schema", str route_bundle_schema)
          ∷ ("routes", arr (items routes))
          ∷ ("routeDocuments", arr (items documents))
          ∷ []));
    route_document_count = length documents;
    route_document_digest = digest c (arr (items documents));
    tables = t;
  }

  -- The arguments of `buildRegistryState`, checked.
  unfoldable pub check_sources : Json → Json → Json → Result (Anchors × List Json × List Json)
  check_sources trust_anchors bundle route_documents = do
    anchors ← validate_trust_anchors trust_anchors
    let routes = bundle_routes (get "routes" bundle)
    guard (not (truthy bundle) || same (get "schema" bundle) (str route_bundle_schema))
        "route bundle schema mismatch"
    documents ← documents_array route_documents
    ok (anchors, routes, documents)

  -- The end of `buildRegistryState`, when the documents have been loaded.
  unfoldable pub with_routes :
      Anchors → List Json → List Json → ℕ → ℕ → Result Tables → Result Registry
  with_routes anchors routes documents now started loaded = do
    t ← loaded
    t' ← load_routes anchors now routes t
    ok (registry_of anchors routes documents started t')

  module _ {ℓ} {S : Type ℓ} (admissions : Admissions S) where
    -- `verifyAdmission`, as the state is.
    unfoldable pub verifier_at : ℕ → S → Option (Json → Result Json)
    verifier_at now s = elim admissions.verify_admission [
      | none ↦ none
      | some verify ↦ some (λ envelope. verify envelope now s)
    ]

    -- The call of `acceptedRouteRecorder`.
    unfoldable pub record_accepted : VerifiedRoute → S → S
    record_accepted verified s = elim admissions.accepted_route [
      | none ↦ s
      | some accept ↦
          if same (get "schema" verified.payload) (str tenant_api_route_schema)
          then accept (get "tenant" verified.payload) (get "version" verified.payload)
              (str verified.payload_digest) s
          else s
    ]

    -- `verifyTenantRouteDocument` and `addVerifiedRoute`, when the checks have returned.
    unfoldable pub take_document :
        Json → Tables → S → Result (Json × VerifiedRoute) → Result Tables × S
    take_document document t s (err e) = (err e, s)
    take_document document t s (ok checked) = (
      add_verified_route (with_admission c parse_url document checked.0 checked.1)
          "firestore-route-document" t,
      record_accepted checked.1 s,
    )

    unfoldable pub load_document : ℕ → Json → Tables → S → Result Tables × S
    load_document now document t s =
        take_document document t s
          (check_route_document c parse_url (verifier_at now s) document now)

    -- The `catch` around a document.
    unfoldable pub or_rejected : Bool → Json → Tables → Result Tables → Result Tables
    or_rejected ignore document t (ok t') = ok t'
    or_rejected ignore document t (err e) =
        if ignore
        then ok
            (record t { route_summaries = t.route_summaries ++ rejected_summary document e ∷ [] })
        else err e

    -- The loop goes on with the tables, where there are any.
    unfoldable pub next_document :
        Result Tables → S → (Tables → S → Result Tables × S) → Result Tables × S
    next_document (err e) s next = (err e, s)
    next_document (ok t) s next = next t s

    -- The loop over the route documents.
    unfoldable pub load_documents : Bool → ℕ → List Json → Tables → S → Result Tables × S
    load_documents ignore now [] t s = (ok t, s)
    load_documents ignore now (document ∷ rest) t s =
        let (loaded, s') = load_document now document t s in
        next_document (or_rejected ignore document t loaded) s'
          (λ t' s''. load_documents ignore now rest t' s'')

    unfoldable pub build_from :
        Bool → ℕ → ℕ → Result (Anchors × List Json × List Json) → S → Result Registry × S
    build_from ignore now started (err e) s = (err e, s)
    build_from ignore now started (ok (anchors, routes, documents)) s =
        let (loaded, s') = load_documents ignore now documents no_tables s in
        (with_routes anchors routes documents now started loaded, s')

    -- `buildRegistryState`
    unfoldable pub build_registry_state :
        Bool → Json → Json → Json → ℕ → ℕ → S → Result Registry × S
    build_registry_state ignore trust_anchors bundle route_documents now started s =
        build_from ignore now started (check_sources trust_anchors bundle route_documents) s

    -- `registryState = buildRegistryState(...)`: where it throws, the registry stays.
    unfoldable pub replaced : Registry → Result Registry × S → Result (Unit {0}) × (Registry × S)
    replaced old (ok registry, s) = (ok tt, (registry, s))
    replaced old (err e, s) = (err e, (old, s))

    -- `refreshRouteRegistry`: what was loaded, or why not.
    unfoldable pub refresh_route_registry :
        Bool
        → Result (Json × Json × Json)
        → ℕ
        → ℕ
        → Registry × S
        → Result (Unit {0}) × (Registry × S)
    refresh_route_registry ignore (err e) now started (registry, s) = (err e, (registry, s))
    refresh_route_registry ignore (ok (anchors, bundle, documents)) now started (registry, s) =
        replaced registry (build_registry_state ignore anchors bundle documents now started s)
