-- ===== src/Tests/Registry.antt =====
-- A registry with one tenant's route document and the route of a webhook.
use auth_broker_tee.Base.{
  String, Option, true, false, none, some, [], ◌∷◌, ok, err, ◌≡◌, refl, ◌⊎◌, length, ◌+◌, Result,
}
use auth_broker_tee.Json.{
  Json, Items, nil, cons, null, str, num, time, arr, object, get, same, items,
}
use auth_broker_tee.Certificates.Admission.{broker_audience}
use auth_broker_tee.Governance.{State}
use auth_broker_tee.Governance.Tenants.{sign_admission}
use auth_broker_tee.Registry.{
  Tables, VerifiedRoute, Registry, get_tenant_api_route, get_deploy_webhook_route_for_repo,
  tenant_api_route_schema, deploy_webhook_route_schema, route_document_schema, route_bundle_schema,
  route_trust_anchors_schema,
}
use auth_broker_tee.Registry.Payload.{Url}
use auth_broker_tee.Registry.Build.{
  load_documents, no_tables, build_registry_state, empty_registry_state, bundle_routes,
}
use auth_broker_tee.Registry.Verified.{IsAnchored}
use auth_broker_tee.Registry.Served.{IsListed}
use auth_broker_tee.Registry.Governed.{
  governance_admissions, IsGoverned, build_registry_state-IsGoverned,
}
use auth_broker_tee.Registry.Counted.{load_documents-total, route_count, build_registry_state-count}
use auth_broker_tee.Registry.Answers.{build_registry_state-webhook_routes}
use auth_broker_tee.Tests.Setup.{toy, predecessor, some_digest}

abbrev tenant : String
tenant = "01234567-89ab-cdef-0123-456789abcdef"

abbrev pem : String
pem = "-----BEGIN PUBLIC KEY-----"

abbrev route_key : Json
route_key = object (("alg", str "Ed25519") ∷ ("keyId", str "k1") ∷ ("publicKeyPem", str pem) ∷ [])

abbrev one : Json → Json
one v = arr (cons v nil)

abbrev input : Json
input = object (
    ("tenant", str tenant)
    ∷ ("minRouteVersion", num 3)
    ∷ ("allowedApiHosts", one (str "api-a.femled.ai"))
    ∷ ("allowedAppHosts", one (str "app-a.femled.ai"))
    ∷ ("allowedBrokerAudiences", one (str broker_audience))
    ∷ ("tenantRouteSigningKeys", one route_key)
    ∷ [])

abbrev envelope : Json
envelope = elim (sign_admission toy input null 60000 2000 predecessor) [ ok e ↦ e | err m ↦ null ]

abbrev signed : Json → Json
signed payload = object (
    ("payload", payload)
    ∷ ("payloadDigest", str some_digest)
    ∷ ("signature", object (("alg", str "Ed25519") ∷ ("keyId", str "k1") ∷ ("sig", str pem) ∷ []))
    ∷ [])

abbrev api_payload : Json
api_payload = object (
    ("schema", str tenant_api_route_schema)
    ∷ ("tenant", str tenant)
    ∷ ("version", num 4)
    ∷ ("issuedAt", time 2000)
    ∷ ("expiresAt", time 9000)
    ∷ ("apiHost", str "api-a.femled.ai")
    ∷ ("appHost", str "app-a.femled.ai")
    ∷ ("allowedBrokerAudiences", one (str broker_audience))
    ∷ [])

abbrev document : Json
document = object (
    ("schema", str route_document_schema)
    ∷ ("admissionEnvelope", envelope)
    ∷ ("routeEnvelope", signed api_payload)
    ∷ ("sourceLegacyCoupleDigest", null)
    ∷ ("updatedAt", time 2500)
    ∷ [])

abbrev hook_payload : Json
hook_payload = object (
    ("schema", str deploy_webhook_route_schema)
    ∷ ("tenant", str tenant)
    ∷ ("version", num 1)
    ∷ ("issuedAt", time 2000)
    ∷ ("expiresAt", time 9000)
    ∷ ("githubRepoName", str "site")
    ∷ ("cloudBuildDeployTriggerUrl", str "https://cloudbuild.googleapis.com/t")
    ∷ [])

abbrev bundle : Json
bundle = object (("schema", str route_bundle_schema) ∷ ("routes", one (signed hook_payload)) ∷ [])

abbrev trust_anchors : Json
trust_anchors = object (
    ("schema", str route_trust_anchors_schema)
    ∷ (
      "tenants",
      object (
          (tenant, object (("minRouteVersion", num 1) ∷ ("routeSigningKeys", one route_key) ∷ []))
          ∷ []),
    )
    ∷ [])

abbrev parse_url : Json → Option Url
parse_url v = some (record { protocol = "https:"; hostname = "cloudbuild.googleapis.com" })

abbrev built : Result Registry
built =
    (build_registry_state toy parse_url (governance_admissions toy) false trust_anchors bundle
      (arr (items (document ∷ []))) 3000 3000 predecessor).0

abbrev registry : Registry
registry = elim built [ ok r ↦ r | err e ↦ empty_registry_state toy parse_url ]

abbrev or_no_route : Option VerifiedRoute → VerifiedRoute
or_no_route none = record {
  payload = null;
  payload_digest = "";
  signature = null;
  canonical_payload = null;
  admitted = none;
}
or_no_route (some route) = route

abbrev api_route : VerifiedRoute
api_route = or_no_route (get_tenant_api_route registry (str tenant))

abbrev hook_route : VerifiedRoute
hook_route = or_no_route (get_deploy_webhook_route_for_repo registry (str "site"))

build_registry_state-IsGoverned_example :
    (same (get "tenant" api_route.payload) (str tenant) ≡ true)
    × (same (get "schema" api_route.payload) (str tenant_api_route_schema) ≡ true)
    × (IsAnchored toy parse_url 3000 registry.trust_anchors api_route
        ⊎ IsGoverned toy parse_url 3000 predecessor api_route)
unfolding auth_broker_tee.Registry.field_keys auth_broker_tee.Registry.object_keys
    auth_broker_tee.Registry.insert_key auth_broker_tee.Registry.sort_keys
    auth_broker_tee.Registry.equal_keys auth_broker_tee.Registry.assert_exact_keys
    auth_broker_tee.Registry.route_at auth_broker_tee.Registry.set_route
    auth_broker_tee.Registry.get_tenant_api_route
    auth_broker_tee.Registry.get_deploy_webhook_route_for_repo
    auth_broker_tee.Registry.Payload.has_url_syntax auth_broker_tee.Registry.Payload.validate_host
    auth_broker_tee.Registry.Payload.is_femled_host
    auth_broker_tee.Registry.Payload.validate_tenant_api_route
    auth_broker_tee.Registry.Payload.reads_as_repo
    auth_broker_tee.Registry.Payload.validate_deploy_webhook_route
    auth_broker_tee.Registry.Payload.validate_by_schema auth_broker_tee.Registry.Payload.is_below
    auth_broker_tee.Registry.Payload.validate_route_payload
    auth_broker_tee.Registry.Trust.assert_supported_route_algorithm
    auth_broker_tee.Registry.Trust.check_signing_keys auth_broker_tee.Registry.Trust.check_key_array
    auth_broker_tee.Registry.Trust.check_tenant auth_broker_tee.Registry.Trust.check_tenants
    auth_broker_tee.Registry.Trust.tenants_object
    auth_broker_tee.Registry.Trust.validate_trust_anchors auth_broker_tee.Registry.Trust.anchor_key
    auth_broker_tee.Registry.Trust.anchor_keys auth_broker_tee.Registry.Trust.tenant_name
    auth_broker_tee.Registry.Trust.route_trust_anchors_from_admission
    auth_broker_tee.Registry.Signed.anchor_of auth_broker_tee.Registry.Signed.find_key
    auth_broker_tee.Registry.Signed.signing_key auth_broker_tee.Registry.Signed.all_admitted
    auth_broker_tee.Registry.Signed.audiences_admitted
    auth_broker_tee.Registry.Signed.enforce_admission_route_policy
    auth_broker_tee.Registry.Signed.verify_route_signature
    auth_broker_tee.Registry.Signed.verify_signed_route_envelope
    auth_broker_tee.Registry.Signed.check_route_document
    auth_broker_tee.Registry.Signed.with_admission auth_broker_tee.Registry.Build.is_known
    auth_broker_tee.Registry.Build.assert_unique auth_broker_tee.Registry.Build.route_summary
    auth_broker_tee.Registry.Build.add_tenant_route auth_broker_tee.Registry.Build.add_webhook_route
    auth_broker_tee.Registry.Build.add_verified_route auth_broker_tee.Registry.Build.bundle_routes
    auth_broker_tee.Registry.Build.documents_array auth_broker_tee.Registry.Build.rejected_summary
    auth_broker_tee.Registry.Build.load_routes auth_broker_tee.Registry.Build.empty_registry_state
    auth_broker_tee.Registry.Build.registry_of auth_broker_tee.Registry.Build.check_sources
    auth_broker_tee.Registry.Build.with_routes auth_broker_tee.Registry.Build.verifier_at
    auth_broker_tee.Registry.Build.record_accepted auth_broker_tee.Registry.Build.take_document
    auth_broker_tee.Registry.Build.load_document auth_broker_tee.Registry.Build.or_rejected
    auth_broker_tee.Registry.Build.next_document auth_broker_tee.Registry.Build.load_documents
    auth_broker_tee.Registry.Build.build_from auth_broker_tee.Registry.Build.build_registry_state
    auth_broker_tee.Registry.Build.replaced auth_broker_tee.Registry.Build.refresh_route_registry
    auth_broker_tee.Registry.Governed.accept_route
    auth_broker_tee.Registry.Governed.governance_admissions
    auth_broker_tee.Governance.Tenants.admitted
    auth_broker_tee.Governance.Tenants.route_key_fingerprint
    auth_broker_tee.Governance.Tenants.fingerprints auth_broker_tee.Governance.Tenants.keeps_keys
    auth_broker_tee.Governance.Tenants.least_version auth_broker_tee.Governance.Tenants.revoked_keys
    auth_broker_tee.Governance.Tenants.accepted_version
    auth_broker_tee.Governance.Tenants.accepted_digest auth_broker_tee.Governance.Tenants.version_of
    auth_broker_tee.Governance.Tenants.entry_for auth_broker_tee.Governance.Tenants.record_entry
    auth_broker_tee.Governance.Tenants.record_tenant_admission
    auth_broker_tee.Governance.Tenants.key_of_certificate
    auth_broker_tee.Governance.Tenants.governance_key_at_epoch
    auth_broker_tee.Governance.Tenants.epoch_in auth_broker_tee.Governance.Tenants.has_key
    auth_broker_tee.Governance.Tenants.route_keys auth_broker_tee.Governance.Tenants.none_revoked
    auth_broker_tee.Governance.Tenants.check_policy
    auth_broker_tee.Governance.Tenants.verify_tenant_admission_envelope
    auth_broker_tee.Governance.Tenants.sign_admission auth_broker_tee.Governance.Tenants.may_record
    auth_broker_tee.Governance.Tenants.issue_tenant_admission_certificate
    auth_broker_tee.Governance.Tenants.newer_version auth_broker_tee.Governance.Tenants.with_newer
    auth_broker_tee.Governance.Tenants.record_accepted_route_version
    auth_broker_tee.Patterns.in_range auth_broker_tee.Patterns.is_lower_hex
    auth_broker_tee.Patterns.is_hex auth_broker_tee.Patterns.to_lower
    auth_broker_tee.Patterns.is_end auth_broker_tee.Patterns.repeated
    auth_broker_tee.Patterns.literally auth_broker_tee.Patterns.is_digest
    auth_broker_tee.Patterns.is_lower_digest auth_broker_tee.Patterns.is_uuid
    auth_broker_tee.Patterns.includes auth_broker_tee.Patterns.text_length
    auth_broker_tee.Patterns.ends_with auth_broker_tee.Patterns.is_host_edge
    auth_broker_tee.Patterns.is_host_inner auth_broker_tee.Patterns.is_host_rest
    auth_broker_tee.Patterns.is_host auth_broker_tee.Patterns.is_repo_char
    auth_broker_tee.Patterns.each_char auth_broker_tee.Patterns.is_repo
    auth_broker_tee.Patterns.is_sha auth_broker_tee.Json.get_field auth_broker_tee.Json.get
    auth_broker_tee.Json.truthy auth_broker_tee.Json.same auth_broker_tee.Json.is_undefined
    auth_broker_tee.Json.is_object auth_broker_tee.Json.is_string auth_broker_tee.Json.date_parse
    auth_broker_tee.Json.natural auth_broker_tee.Json.items auth_broker_tee.Json.of_items
    auth_broker_tee.Json.fields auth_broker_tee.Json.or_null auth_broker_tee.Json.equal
    auth_broker_tee.Json.equal_items auth_broker_tee.Json.equal_fields
    auth_broker_tee.Certificates.require_digest
    auth_broker_tee.Certificates.assert_certificate_fresh auth_broker_tee.Certificates.has_items
    auth_broker_tee.Certificates.last auth_broker_tee.Certificates.verify_successor
    auth_broker_tee.Certificates.verify_successors auth_broker_tee.Certificates.verify_genesis
    auth_broker_tee.Certificates.verify_lineage
    auth_broker_tee.Certificates.Admission.assert_each_matches
    auth_broker_tee.Certificates.Admission.assert_preapproval_matches_candidate
    auth_broker_tee.Certificates.Admission.nonempty_text
    auth_broker_tee.Certificates.Admission.all_nonempty
    auth_broker_tee.Certificates.Admission.is_nonempty_string_array
    auth_broker_tee.Certificates.Admission.items_include
    auth_broker_tee.Certificates.Admission.array_includes
    auth_broker_tee.Certificates.Admission.text_is
    auth_broker_tee.Certificates.Admission.is_positive
    auth_broker_tee.Certificates.Admission.assert_route_keys
    auth_broker_tee.Certificates.Admission.assert_key_array
    auth_broker_tee.Certificates.Admission.assert_tenant_admission_input
    auth_broker_tee.Certificates.Admission.assert_optional_digest
    auth_broker_tee.Certificates.Admission.is_time
    auth_broker_tee.Certificates.Admission.assert_tenant_admission_payload
    auth_broker_tee.Certificates.Admission.proof_or_null
    auth_broker_tee.Certificates.Admission.sign_tenant_admission_certificate
    auth_broker_tee.Crypto.reached auth_broker_tee.Crypto.is_expired auth_broker_tee.Crypto.digest
    auth_broker_tee.Crypto.key_id auth_broker_tee.Crypto.build_in_memory_key_material
    auth_broker_tee.Crypto.sign_governance_payload auth_broker_tee.Crypto.signature_holds
    auth_broker_tee.Crypto.verify_governance_envelope
    auth_broker_tee.Governance.initialize_governance
    auth_broker_tee.Governance.Activation.assert_active
    auth_broker_tee.Governance.Activation.is_status
    auth_broker_tee.Governance.Activation.lineage_digest
    auth_broker_tee.Certificates.Signing.sign_genesis_certificate auth_broker_tee.Json.Order.key_le
build_registry_state-IsGoverned_example =
    build_registry_state-IsGoverned toy parse_url 3000 predecessor false trust_anchors bundle
      (arr (items (document ∷ []))) 3000 registry (str tenant) api_route refl refl

build_registry_state-webhook_routes_example :
    (same (get "githubRepoName" hook_route.payload) (str "site") ≡ true)
    × (same (get "schema" hook_route.payload) (str deploy_webhook_route_schema) ≡ true)
    × IsListed toy parse_url 3000
        (governance_admissions toy)
        predecessor
        registry.trust_anchors
        hook_route
unfolding auth_broker_tee.Registry.field_keys auth_broker_tee.Registry.object_keys
    auth_broker_tee.Registry.insert_key auth_broker_tee.Registry.sort_keys
    auth_broker_tee.Registry.equal_keys auth_broker_tee.Registry.assert_exact_keys
    auth_broker_tee.Registry.route_at auth_broker_tee.Registry.set_route
    auth_broker_tee.Registry.get_tenant_api_route
    auth_broker_tee.Registry.get_deploy_webhook_route_for_repo
    auth_broker_tee.Registry.Payload.has_url_syntax auth_broker_tee.Registry.Payload.validate_host
    auth_broker_tee.Registry.Payload.is_femled_host
    auth_broker_tee.Registry.Payload.validate_tenant_api_route
    auth_broker_tee.Registry.Payload.reads_as_repo
    auth_broker_tee.Registry.Payload.validate_deploy_webhook_route
    auth_broker_tee.Registry.Payload.validate_by_schema auth_broker_tee.Registry.Payload.is_below
    auth_broker_tee.Registry.Payload.validate_route_payload
    auth_broker_tee.Registry.Trust.assert_supported_route_algorithm
    auth_broker_tee.Registry.Trust.check_signing_keys auth_broker_tee.Registry.Trust.check_key_array
    auth_broker_tee.Registry.Trust.check_tenant auth_broker_tee.Registry.Trust.check_tenants
    auth_broker_tee.Registry.Trust.tenants_object
    auth_broker_tee.Registry.Trust.validate_trust_anchors auth_broker_tee.Registry.Trust.anchor_key
    auth_broker_tee.Registry.Trust.anchor_keys auth_broker_tee.Registry.Trust.tenant_name
    auth_broker_tee.Registry.Trust.route_trust_anchors_from_admission
    auth_broker_tee.Registry.Signed.anchor_of auth_broker_tee.Registry.Signed.find_key
    auth_broker_tee.Registry.Signed.signing_key auth_broker_tee.Registry.Signed.all_admitted
    auth_broker_tee.Registry.Signed.audiences_admitted
    auth_broker_tee.Registry.Signed.enforce_admission_route_policy
    auth_broker_tee.Registry.Signed.verify_route_signature
    auth_broker_tee.Registry.Signed.verify_signed_route_envelope
    auth_broker_tee.Registry.Signed.check_route_document
    auth_broker_tee.Registry.Signed.with_admission auth_broker_tee.Registry.Build.is_known
    auth_broker_tee.Registry.Build.assert_unique auth_broker_tee.Registry.Build.route_summary
    auth_broker_tee.Registry.Build.add_tenant_route auth_broker_tee.Registry.Build.add_webhook_route
    auth_broker_tee.Registry.Build.add_verified_route auth_broker_tee.Registry.Build.bundle_routes
    auth_broker_tee.Registry.Build.documents_array auth_broker_tee.Registry.Build.rejected_summary
    auth_broker_tee.Registry.Build.load_routes auth_broker_tee.Registry.Build.empty_registry_state
    auth_broker_tee.Registry.Build.registry_of auth_broker_tee.Registry.Build.check_sources
    auth_broker_tee.Registry.Build.with_routes auth_broker_tee.Registry.Build.verifier_at
    auth_broker_tee.Registry.Build.record_accepted auth_broker_tee.Registry.Build.take_document
    auth_broker_tee.Registry.Build.load_document auth_broker_tee.Registry.Build.or_rejected
    auth_broker_tee.Registry.Build.next_document auth_broker_tee.Registry.Build.load_documents
    auth_broker_tee.Registry.Build.build_from auth_broker_tee.Registry.Build.build_registry_state
    auth_broker_tee.Registry.Build.replaced auth_broker_tee.Registry.Build.refresh_route_registry
    auth_broker_tee.Registry.Governed.accept_route
    auth_broker_tee.Registry.Governed.governance_admissions
    auth_broker_tee.Governance.Tenants.admitted
    auth_broker_tee.Governance.Tenants.route_key_fingerprint
    auth_broker_tee.Governance.Tenants.fingerprints auth_broker_tee.Governance.Tenants.keeps_keys
    auth_broker_tee.Governance.Tenants.least_version auth_broker_tee.Governance.Tenants.revoked_keys
    auth_broker_tee.Governance.Tenants.accepted_version
    auth_broker_tee.Governance.Tenants.accepted_digest auth_broker_tee.Governance.Tenants.version_of
    auth_broker_tee.Governance.Tenants.entry_for auth_broker_tee.Governance.Tenants.record_entry
    auth_broker_tee.Governance.Tenants.record_tenant_admission
    auth_broker_tee.Governance.Tenants.key_of_certificate
    auth_broker_tee.Governance.Tenants.governance_key_at_epoch
    auth_broker_tee.Governance.Tenants.epoch_in auth_broker_tee.Governance.Tenants.has_key
    auth_broker_tee.Governance.Tenants.route_keys auth_broker_tee.Governance.Tenants.none_revoked
    auth_broker_tee.Governance.Tenants.check_policy
    auth_broker_tee.Governance.Tenants.verify_tenant_admission_envelope
    auth_broker_tee.Governance.Tenants.sign_admission auth_broker_tee.Governance.Tenants.may_record
    auth_broker_tee.Governance.Tenants.issue_tenant_admission_certificate
    auth_broker_tee.Governance.Tenants.newer_version auth_broker_tee.Governance.Tenants.with_newer
    auth_broker_tee.Governance.Tenants.record_accepted_route_version
    auth_broker_tee.Patterns.in_range auth_broker_tee.Patterns.is_lower_hex
    auth_broker_tee.Patterns.is_hex auth_broker_tee.Patterns.to_lower
    auth_broker_tee.Patterns.is_end auth_broker_tee.Patterns.repeated
    auth_broker_tee.Patterns.literally auth_broker_tee.Patterns.is_digest
    auth_broker_tee.Patterns.is_lower_digest auth_broker_tee.Patterns.is_uuid
    auth_broker_tee.Patterns.includes auth_broker_tee.Patterns.text_length
    auth_broker_tee.Patterns.ends_with auth_broker_tee.Patterns.is_host_edge
    auth_broker_tee.Patterns.is_host_inner auth_broker_tee.Patterns.is_host_rest
    auth_broker_tee.Patterns.is_host auth_broker_tee.Patterns.is_repo_char
    auth_broker_tee.Patterns.each_char auth_broker_tee.Patterns.is_repo
    auth_broker_tee.Patterns.is_sha auth_broker_tee.Json.get_field auth_broker_tee.Json.get
    auth_broker_tee.Json.truthy auth_broker_tee.Json.same auth_broker_tee.Json.is_undefined
    auth_broker_tee.Json.is_object auth_broker_tee.Json.is_string auth_broker_tee.Json.date_parse
    auth_broker_tee.Json.natural auth_broker_tee.Json.items auth_broker_tee.Json.of_items
    auth_broker_tee.Json.fields auth_broker_tee.Json.or_null auth_broker_tee.Json.equal
    auth_broker_tee.Json.equal_items auth_broker_tee.Json.equal_fields
    auth_broker_tee.Certificates.require_digest
    auth_broker_tee.Certificates.assert_certificate_fresh auth_broker_tee.Certificates.has_items
    auth_broker_tee.Certificates.last auth_broker_tee.Certificates.verify_successor
    auth_broker_tee.Certificates.verify_successors auth_broker_tee.Certificates.verify_genesis
    auth_broker_tee.Certificates.verify_lineage
    auth_broker_tee.Certificates.Admission.assert_each_matches
    auth_broker_tee.Certificates.Admission.assert_preapproval_matches_candidate
    auth_broker_tee.Certificates.Admission.nonempty_text
    auth_broker_tee.Certificates.Admission.all_nonempty
    auth_broker_tee.Certificates.Admission.is_nonempty_string_array
    auth_broker_tee.Certificates.Admission.items_include
    auth_broker_tee.Certificates.Admission.array_includes
    auth_broker_tee.Certificates.Admission.text_is
    auth_broker_tee.Certificates.Admission.is_positive
    auth_broker_tee.Certificates.Admission.assert_route_keys
    auth_broker_tee.Certificates.Admission.assert_key_array
    auth_broker_tee.Certificates.Admission.assert_tenant_admission_input
    auth_broker_tee.Certificates.Admission.assert_optional_digest
    auth_broker_tee.Certificates.Admission.is_time
    auth_broker_tee.Certificates.Admission.assert_tenant_admission_payload
    auth_broker_tee.Certificates.Admission.proof_or_null
    auth_broker_tee.Certificates.Admission.sign_tenant_admission_certificate
    auth_broker_tee.Crypto.reached auth_broker_tee.Crypto.is_expired auth_broker_tee.Crypto.digest
    auth_broker_tee.Crypto.key_id auth_broker_tee.Crypto.build_in_memory_key_material
    auth_broker_tee.Crypto.sign_governance_payload auth_broker_tee.Crypto.signature_holds
    auth_broker_tee.Crypto.verify_governance_envelope
    auth_broker_tee.Governance.initialize_governance
    auth_broker_tee.Governance.Activation.assert_active
    auth_broker_tee.Governance.Activation.is_status
    auth_broker_tee.Governance.Activation.lineage_digest
    auth_broker_tee.Certificates.Signing.sign_genesis_certificate auth_broker_tee.Json.Order.key_le
build_registry_state-webhook_routes_example =
    build_registry_state-webhook_routes toy parse_url 3000 (governance_admissions toy) false
      trust_anchors bundle (arr (items (document ∷ []))) 3000 predecessor registry (str "site")
      hook_route refl refl

build_registry_state-count_example :
    route_count registry.tables
    ≡ length (document ∷ []) + length (bundle_routes (get "routes" bundle))
unfolding auth_broker_tee.Registry.field_keys auth_broker_tee.Registry.object_keys
    auth_broker_tee.Registry.insert_key auth_broker_tee.Registry.sort_keys
    auth_broker_tee.Registry.equal_keys auth_broker_tee.Registry.assert_exact_keys
    auth_broker_tee.Registry.route_at auth_broker_tee.Registry.set_route
    auth_broker_tee.Registry.get_tenant_api_route
    auth_broker_tee.Registry.get_deploy_webhook_route_for_repo
    auth_broker_tee.Registry.Payload.has_url_syntax auth_broker_tee.Registry.Payload.validate_host
    auth_broker_tee.Registry.Payload.is_femled_host
    auth_broker_tee.Registry.Payload.validate_tenant_api_route
    auth_broker_tee.Registry.Payload.reads_as_repo
    auth_broker_tee.Registry.Payload.validate_deploy_webhook_route
    auth_broker_tee.Registry.Payload.validate_by_schema auth_broker_tee.Registry.Payload.is_below
    auth_broker_tee.Registry.Payload.validate_route_payload
    auth_broker_tee.Registry.Trust.assert_supported_route_algorithm
    auth_broker_tee.Registry.Trust.check_signing_keys auth_broker_tee.Registry.Trust.check_key_array
    auth_broker_tee.Registry.Trust.check_tenant auth_broker_tee.Registry.Trust.check_tenants
    auth_broker_tee.Registry.Trust.tenants_object
    auth_broker_tee.Registry.Trust.validate_trust_anchors auth_broker_tee.Registry.Trust.anchor_key
    auth_broker_tee.Registry.Trust.anchor_keys auth_broker_tee.Registry.Trust.tenant_name
    auth_broker_tee.Registry.Trust.route_trust_anchors_from_admission
    auth_broker_tee.Registry.Signed.anchor_of auth_broker_tee.Registry.Signed.find_key
    auth_broker_tee.Registry.Signed.signing_key auth_broker_tee.Registry.Signed.all_admitted
    auth_broker_tee.Registry.Signed.audiences_admitted
    auth_broker_tee.Registry.Signed.enforce_admission_route_policy
    auth_broker_tee.Registry.Signed.verify_route_signature
    auth_broker_tee.Registry.Signed.verify_signed_route_envelope
    auth_broker_tee.Registry.Signed.check_route_document
    auth_broker_tee.Registry.Signed.with_admission auth_broker_tee.Registry.Build.is_known
    auth_broker_tee.Registry.Build.assert_unique auth_broker_tee.Registry.Build.route_summary
    auth_broker_tee.Registry.Build.add_tenant_route auth_broker_tee.Registry.Build.add_webhook_route
    auth_broker_tee.Registry.Build.add_verified_route auth_broker_tee.Registry.Build.bundle_routes
    auth_broker_tee.Registry.Build.documents_array auth_broker_tee.Registry.Build.rejected_summary
    auth_broker_tee.Registry.Build.load_routes auth_broker_tee.Registry.Build.empty_registry_state
    auth_broker_tee.Registry.Build.registry_of auth_broker_tee.Registry.Build.check_sources
    auth_broker_tee.Registry.Build.with_routes auth_broker_tee.Registry.Build.verifier_at
    auth_broker_tee.Registry.Build.record_accepted auth_broker_tee.Registry.Build.take_document
    auth_broker_tee.Registry.Build.load_document auth_broker_tee.Registry.Build.or_rejected
    auth_broker_tee.Registry.Build.next_document auth_broker_tee.Registry.Build.load_documents
    auth_broker_tee.Registry.Build.build_from auth_broker_tee.Registry.Build.build_registry_state
    auth_broker_tee.Registry.Build.replaced auth_broker_tee.Registry.Build.refresh_route_registry
    auth_broker_tee.Registry.Governed.accept_route
    auth_broker_tee.Registry.Governed.governance_admissions
    auth_broker_tee.Governance.Tenants.admitted
    auth_broker_tee.Governance.Tenants.route_key_fingerprint
    auth_broker_tee.Governance.Tenants.fingerprints auth_broker_tee.Governance.Tenants.keeps_keys
    auth_broker_tee.Governance.Tenants.least_version auth_broker_tee.Governance.Tenants.revoked_keys
    auth_broker_tee.Governance.Tenants.accepted_version
    auth_broker_tee.Governance.Tenants.accepted_digest auth_broker_tee.Governance.Tenants.version_of
    auth_broker_tee.Governance.Tenants.entry_for auth_broker_tee.Governance.Tenants.record_entry
    auth_broker_tee.Governance.Tenants.record_tenant_admission
    auth_broker_tee.Governance.Tenants.key_of_certificate
    auth_broker_tee.Governance.Tenants.governance_key_at_epoch
    auth_broker_tee.Governance.Tenants.epoch_in auth_broker_tee.Governance.Tenants.has_key
    auth_broker_tee.Governance.Tenants.route_keys auth_broker_tee.Governance.Tenants.none_revoked
    auth_broker_tee.Governance.Tenants.check_policy
    auth_broker_tee.Governance.Tenants.verify_tenant_admission_envelope
    auth_broker_tee.Governance.Tenants.sign_admission auth_broker_tee.Governance.Tenants.may_record
    auth_broker_tee.Governance.Tenants.issue_tenant_admission_certificate
    auth_broker_tee.Governance.Tenants.newer_version auth_broker_tee.Governance.Tenants.with_newer
    auth_broker_tee.Governance.Tenants.record_accepted_route_version
    auth_broker_tee.Patterns.in_range auth_broker_tee.Patterns.is_lower_hex
    auth_broker_tee.Patterns.is_hex auth_broker_tee.Patterns.to_lower
    auth_broker_tee.Patterns.is_end auth_broker_tee.Patterns.repeated
    auth_broker_tee.Patterns.literally auth_broker_tee.Patterns.is_digest
    auth_broker_tee.Patterns.is_lower_digest auth_broker_tee.Patterns.is_uuid
    auth_broker_tee.Patterns.includes auth_broker_tee.Patterns.text_length
    auth_broker_tee.Patterns.ends_with auth_broker_tee.Patterns.is_host_edge
    auth_broker_tee.Patterns.is_host_inner auth_broker_tee.Patterns.is_host_rest
    auth_broker_tee.Patterns.is_host auth_broker_tee.Patterns.is_repo_char
    auth_broker_tee.Patterns.each_char auth_broker_tee.Patterns.is_repo
    auth_broker_tee.Patterns.is_sha auth_broker_tee.Json.get_field auth_broker_tee.Json.get
    auth_broker_tee.Json.truthy auth_broker_tee.Json.same auth_broker_tee.Json.is_undefined
    auth_broker_tee.Json.is_object auth_broker_tee.Json.is_string auth_broker_tee.Json.date_parse
    auth_broker_tee.Json.natural auth_broker_tee.Json.items auth_broker_tee.Json.of_items
    auth_broker_tee.Json.fields auth_broker_tee.Json.or_null auth_broker_tee.Json.equal
    auth_broker_tee.Json.equal_items auth_broker_tee.Json.equal_fields
    auth_broker_tee.Certificates.require_digest
    auth_broker_tee.Certificates.assert_certificate_fresh auth_broker_tee.Certificates.has_items
    auth_broker_tee.Certificates.last auth_broker_tee.Certificates.verify_successor
    auth_broker_tee.Certificates.verify_successors auth_broker_tee.Certificates.verify_genesis
    auth_broker_tee.Certificates.verify_lineage
    auth_broker_tee.Certificates.Admission.assert_each_matches
    auth_broker_tee.Certificates.Admission.assert_preapproval_matches_candidate
    auth_broker_tee.Certificates.Admission.nonempty_text
    auth_broker_tee.Certificates.Admission.all_nonempty
    auth_broker_tee.Certificates.Admission.is_nonempty_string_array
    auth_broker_tee.Certificates.Admission.items_include
    auth_broker_tee.Certificates.Admission.array_includes
    auth_broker_tee.Certificates.Admission.text_is
    auth_broker_tee.Certificates.Admission.is_positive
    auth_broker_tee.Certificates.Admission.assert_route_keys
    auth_broker_tee.Certificates.Admission.assert_key_array
    auth_broker_tee.Certificates.Admission.assert_tenant_admission_input
    auth_broker_tee.Certificates.Admission.assert_optional_digest
    auth_broker_tee.Certificates.Admission.is_time
    auth_broker_tee.Certificates.Admission.assert_tenant_admission_payload
    auth_broker_tee.Certificates.Admission.proof_or_null
    auth_broker_tee.Certificates.Admission.sign_tenant_admission_certificate
    auth_broker_tee.Crypto.reached auth_broker_tee.Crypto.is_expired auth_broker_tee.Crypto.digest
    auth_broker_tee.Crypto.key_id auth_broker_tee.Crypto.build_in_memory_key_material
    auth_broker_tee.Crypto.sign_governance_payload auth_broker_tee.Crypto.signature_holds
    auth_broker_tee.Crypto.verify_governance_envelope
    auth_broker_tee.Governance.initialize_governance
    auth_broker_tee.Governance.Activation.assert_active
    auth_broker_tee.Governance.Activation.is_status
    auth_broker_tee.Governance.Activation.lineage_digest
    auth_broker_tee.Certificates.Signing.sign_genesis_certificate auth_broker_tee.Json.Order.key_le
build_registry_state-count_example =
    build_registry_state-count toy parse_url 3000 (governance_admissions toy) trust_anchors bundle
      (document ∷ []) 3000 predecessor registry refl

load_documents-total_example :
    (t : Tables) × ((load_documents toy parse_url
        (governance_admissions toy)
        true
        3000
        (null ∷ document ∷ null ∷ [])
        no_tables
        predecessor).0
      ≡ ok t)
    × (length t.route_summaries
        ≡ length no_tables.route_summaries + length (null ∷ document ∷ null ∷ []))
load_documents-total_example =
    load_documents-total toy parse_url 3000 (governance_admissions toy)
      (null ∷ document ∷ null ∷ []) no_tables predecessor
