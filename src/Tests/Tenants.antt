-- ===== src/Tests/Tenants.antt =====
-- A tenant that is admitted after the genesis.
use auth_broker_tee.Base.{String, some, [], ◌∷◌, ok, err, ◌≡◌, refl, ◌≤◌, max, lookup}
use auth_broker_tee.Json.{Json, Items, nil, cons, null, str, num, arr, object, get}
use auth_broker_tee.Governance.{State, AdmittedTenant}
use auth_broker_tee.Certificates.Admission.{broker_audience}
use auth_broker_tee.Governance.Tenants.{
  tenants_of, least_version, accepted_version, version_of, record_tenant_admission, sign_admission,
  record_accepted_route_version,
}
use auth_broker_tee.Governance.Tenants.Admissions.{
  IsVouched, record_tenant_admission-monotone, record_accepted_route_version-max,
  verify_tenant_admission_envelope-IsVouched,
}
use auth_broker_tee.Tests.Setup.{toy, predecessor, some_digest}

abbrev tenant : String
tenant = "01234567-89ab-cdef-0123-456789abcdef"

abbrev hosts : Json
hosts = arr (cons (str "api.example.org") nil)

abbrev input : Json
input = object (
    ("tenant", str tenant)
    ∷ ("minRouteVersion", num 3)
    ∷ ("allowedApiHosts", hosts)
    ∷ ("allowedAppHosts", hosts)
    ∷ ("allowedBrokerAudiences", arr (cons (str broker_audience) nil))
    ∷ (
      "tenantRouteSigningKeys",
      arr (
          cons
            (object (
              ("alg", str "Ed25519")
              ∷ ("keyId", str some_digest)
              ∷ ("publicKeyPem", str "-----BEGIN PUBLIC KEY-----")
              ∷ []))
            nil),
    )
    ∷ [])

abbrev envelope : Json
envelope = elim (sign_admission toy input null 60000 2000 predecessor) [ ok e ↦ e | err m ↦ null ]

abbrev admitting : State
admitting = record_tenant_admission envelope 2000 predecessor

record_tenant_admission-monotone_example :
    (t : AdmittedTenant) × (lookup tenant (tenants_of admitting) ≡ some t)
    × (least_version (lookup tenant (tenants_of predecessor)) ≤ t.min_route_version)
    × (version_of (get "minRouteVersion" (get "payload" envelope)) ≤ t.min_route_version)
    × (t.latest_accepted_route_version ≡ accepted_version (lookup tenant (tenants_of predecessor)))
unfolding auth_broker_tee.Governance.initialize_governance
    auth_broker_tee.Governance.Tenants.sign_admission
    auth_broker_tee.Governance.Tenants.verify_tenant_admission_envelope
    auth_broker_tee.Governance.Tenants.admitted auth_broker_tee.Governance.Tenants.keeps_keys
    auth_broker_tee.Governance.Tenants.check_policy auth_broker_tee.Governance.Tenants.epoch_in
    auth_broker_tee.Governance.Tenants.governance_key_at_epoch
    auth_broker_tee.Governance.Tenants.key_of_certificate
    auth_broker_tee.Governance.Activation.assert_active
    auth_broker_tee.Governance.Activation.is_status
    auth_broker_tee.Governance.Activation.lineage_digest
    auth_broker_tee.Certificates.Admission.sign_tenant_admission_certificate
    auth_broker_tee.Certificates.Admission.assert_tenant_admission_input
    auth_broker_tee.Certificates.Admission.assert_tenant_admission_payload
    auth_broker_tee.Certificates.Admission.assert_key_array
    auth_broker_tee.Certificates.Admission.assert_route_keys
    auth_broker_tee.Certificates.Admission.text_is
    auth_broker_tee.Certificates.Admission.is_positive
    auth_broker_tee.Certificates.Admission.is_nonempty_string_array
    auth_broker_tee.Certificates.Admission.all_nonempty
    auth_broker_tee.Certificates.Admission.nonempty_text
    auth_broker_tee.Certificates.Admission.array_includes
    auth_broker_tee.Certificates.Admission.items_include
    auth_broker_tee.Certificates.Admission.assert_optional_digest
    auth_broker_tee.Certificates.Admission.is_time
    auth_broker_tee.Certificates.Admission.proof_or_null auth_broker_tee.Certificates.require_digest
    auth_broker_tee.Certificates.assert_certificate_fresh auth_broker_tee.Patterns.is_digest
    auth_broker_tee.Patterns.is_uuid auth_broker_tee.Patterns.includes auth_broker_tee.Json.get
    auth_broker_tee.Json.get_field auth_broker_tee.Json.fields auth_broker_tee.Json.same
    auth_broker_tee.Json.is_object auth_broker_tee.Json.is_string auth_broker_tee.Json.truthy
    auth_broker_tee.Json.date_parse auth_broker_tee.Crypto.digest auth_broker_tee.Crypto.key_id
    auth_broker_tee.Crypto.sign_governance_payload auth_broker_tee.Crypto.signature_holds
    auth_broker_tee.Crypto.is_expired auth_broker_tee.Crypto.reached
    auth_broker_tee.Crypto.verify_governance_envelope
    auth_broker_tee.Certificates.Signing.sign_genesis_certificate
record_tenant_admission-monotone_example =
    record_tenant_admission-monotone envelope tenant 2000 predecessor refl

abbrev entry : AdmittedTenant
entry = record {
  tenant = str tenant;
  admission_payload_digest = str some_digest;
  governance_key_id = str "sha256:g1";
  governance_epoch = num 1;
  min_route_version = 3;
  tenant_route_signing_keys = null;
  allowed_api_hosts = hosts;
  allowed_app_hosts = hosts;
  allowed_broker_audiences = hosts;
  revoked_route_key_ids = [];
  latest_accepted_route_version = 4;
  latest_accepted_route_digest = null;
  updated_at = null;
}

abbrev with_entry : State
with_entry = record predecessor {
  transferred_state = record { admitted_tenants = (tenant, entry) ∷ [] };
}

record_accepted_route_version-max_example :
    (t : AdmittedTenant) × (lookup tenant
        (tenants_of (record_accepted_route_version tenant (num 6) (str "d") with_entry))
      ≡ some t)
    × (t.latest_accepted_route_version ≡ max 4 6)
    × (t.min_route_version ≡ 3)
record_accepted_route_version-max_example =
    record_accepted_route_version-max tenant 6 (str "d") with_entry entry refl

verify_tenant_admission_envelope-IsVouched_example :
    IsVouched toy predecessor envelope (get "payload" envelope) 3000
unfolding auth_broker_tee.Governance.initialize_governance
    auth_broker_tee.Governance.Tenants.sign_admission
    auth_broker_tee.Governance.Tenants.verify_tenant_admission_envelope
    auth_broker_tee.Governance.Tenants.admitted auth_broker_tee.Governance.Tenants.keeps_keys
    auth_broker_tee.Governance.Tenants.check_policy auth_broker_tee.Governance.Tenants.epoch_in
    auth_broker_tee.Governance.Tenants.governance_key_at_epoch
    auth_broker_tee.Governance.Tenants.key_of_certificate
    auth_broker_tee.Governance.Activation.assert_active
    auth_broker_tee.Governance.Activation.is_status
    auth_broker_tee.Governance.Activation.lineage_digest
    auth_broker_tee.Certificates.Admission.sign_tenant_admission_certificate
    auth_broker_tee.Certificates.Admission.assert_tenant_admission_input
    auth_broker_tee.Certificates.Admission.assert_tenant_admission_payload
    auth_broker_tee.Certificates.Admission.assert_key_array
    auth_broker_tee.Certificates.Admission.assert_route_keys
    auth_broker_tee.Certificates.Admission.text_is
    auth_broker_tee.Certificates.Admission.is_positive
    auth_broker_tee.Certificates.Admission.is_nonempty_string_array
    auth_broker_tee.Certificates.Admission.all_nonempty
    auth_broker_tee.Certificates.Admission.nonempty_text
    auth_broker_tee.Certificates.Admission.array_includes
    auth_broker_tee.Certificates.Admission.items_include
    auth_broker_tee.Certificates.Admission.assert_optional_digest
    auth_broker_tee.Certificates.Admission.is_time
    auth_broker_tee.Certificates.Admission.proof_or_null auth_broker_tee.Certificates.require_digest
    auth_broker_tee.Certificates.assert_certificate_fresh auth_broker_tee.Patterns.is_digest
    auth_broker_tee.Patterns.is_uuid auth_broker_tee.Patterns.includes auth_broker_tee.Json.get
    auth_broker_tee.Json.get_field auth_broker_tee.Json.fields auth_broker_tee.Json.same
    auth_broker_tee.Json.is_object auth_broker_tee.Json.is_string auth_broker_tee.Json.truthy
    auth_broker_tee.Json.date_parse auth_broker_tee.Crypto.digest auth_broker_tee.Crypto.key_id
    auth_broker_tee.Crypto.sign_governance_payload auth_broker_tee.Crypto.signature_holds
    auth_broker_tee.Crypto.is_expired auth_broker_tee.Crypto.reached
    auth_broker_tee.Crypto.verify_governance_envelope
    auth_broker_tee.Certificates.Signing.sign_genesis_certificate
verify_tenant_admission_envelope-IsVouched_example =
    verify_tenant_admission_envelope-IsVouched toy predecessor envelope 3000 refl
