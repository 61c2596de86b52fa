-- ===== src/Governance/Tenants.antt =====
-- src/governance-state.js: tenant admissions in the state. A tenant admission is issued under the
-- lineage, recorded in the route policy, and verified against the key of its epoch. Monitoring
-- events are left out. The time of an entry's update is an argument, and the time to live of an
-- admission is always given.
pub mod Keys
pub mod Admissions
use auth_broker_tee.Base.{
  ℕ, suc, ◌-◌, String, Bool, true, false, Option, none, some, List, [], ◌∷◌, ◌&&◌, ◌||◌, not, leb,
  ltb, length, take, get_elem?, max, lookup, insert, str_eq, ◌==◌, Result, ok, err, ◌>>=◌, ◌>>◌,
  guard, if◌then◌else◌, map,
}
use auth_broker_tee.Json.{
  Json, Items, nil, cons, undefined, null, str, num, time, arr, object, get, same, truthy, natural,
  items, of_items, or_null, equal, equal,
}
use auth_broker_tee.Json.Canonical.{canonicalize}
use auth_broker_tee.Crypto.{Crypto, digest, verify_governance_envelope}
use auth_broker_tee.Certificates.Admission.{
  assert_tenant_admission_payload, sign_tenant_admission_certificate,
}
use auth_broker_tee.Governance.{
  State, AdmittedTenant, TransferredState, M, change, continue, commit,
}
use auth_broker_tee.Governance.Activation.{assert_active, lineage_digest}

-- The route policy's entry of a tenant.
unfoldable pub admitted : List (String × AdmittedTenant) → Json → Option AdmittedTenant
admitted tenants (str tenant) = lookup tenant tenants
admitted tenants _ = none

-- `routeKeyFingerprint`
unfoldable pub route_key_fingerprint : Json → Json
route_key_fingerprint key = object (
    ("alg", get "alg" key)
    ∷ ("keyId", get "keyId" key)
    ∷ ("publicKeyPem", get "publicKeyPem" key)
    ∷ [])

-- `(keys || []).map(routeKeyFingerprint)`
unfoldable pub fingerprints : Json → Json
fingerprints (arr keys) = arr (items (map route_key_fingerprint (of_items keys)))
fingerprints _ = arr nil

-- `assertTenantAdmissionDoesNotReplaceExistingKey`
unfoldable pub keeps_keys : Option AdmittedTenant → Json → Result (Unit {0})
keeps_keys none keys = ok tt
keeps_keys (some t) keys =
    guard
      (equal (canonicalize (fingerprints t.tenant_route_signing_keys))
        (canonicalize (fingerprints keys)))
      "tenant route key replacement requires an explicit key-rotation certificate"

-- `existing.minRouteVersion || 1`
unfoldable pub least_version : Option AdmittedTenant → ℕ
least_version none = 1
least_version (some t) = if t.min_route_version == 0 then 1 else t.min_route_version

unfoldable pub revoked_keys : Option AdmittedTenant → List String
revoked_keys none = []
revoked_keys (some t) = t.revoked_route_key_ids

unfoldable pub accepted_version : Option AdmittedTenant → ℕ
accepted_version none = 0
accepted_version (some t) = t.latest_accepted_route_version

unfoldable pub accepted_digest : Option AdmittedTenant → Json
accepted_digest none = null
accepted_digest (some t) = or_null t.latest_accepted_route_digest

unfoldable pub version_of : Json → ℕ
version_of v = elim (natural v) [ none ↦ 0 | some n ↦ n ]

unfoldable pub entry_for : Option AdmittedTenant → Json → Json → ℕ → AdmittedTenant
unfolding least_version revoked_keys accepted_version accepted_digest version_of
entry_for existing payload payload_digest now = record {
  tenant = get "tenant" payload;
  admission_payload_digest = payload_digest;
  governance_key_id = get "governanceKeyId" payload;
  governance_epoch = get "governanceEpoch" payload;
  min_route_version = max (least_version existing) (version_of (get "minRouteVersion" payload));
  tenant_route_signing_keys = get "tenantRouteSigningKeys" payload;
  allowed_api_hosts = get "allowedApiHosts" payload;
  allowed_app_hosts = get "allowedAppHosts" payload;
  allowed_broker_audiences = get "allowedBrokerAudiences" payload;
  revoked_route_key_ids = revoked_keys existing;
  latest_accepted_route_version = accepted_version existing;
  latest_accepted_route_digest = accepted_digest existing;
  updated_at = time now;
}

-- `recordTenantAdmissionInState` on the route policy. The tenant of an issued admission is a text.
unfoldable pub record_entry :
    List (String × AdmittedTenant) → Json → Json → Json → ℕ → List (String × AdmittedTenant)
unfolding admitted entry_for
record_entry tenants (str tenant) payload payload_digest now =
    insert tenant (entry_for (admitted tenants (str tenant)) payload payload_digest now) tenants
record_entry tenants _ payload payload_digest now = tenants

abbrev pub tenants_of : State → List (String × AdmittedTenant)
tenants_of s = s.transferred_state.admitted_tenants

abbrev pub with_tenants : List (String × AdmittedTenant) → State → State
with_tenants tenants s = record s { transferred_state = record { admitted_tenants = tenants } }

unfoldable pub record_tenant_admission : Json → ℕ → State → State
record_tenant_admission envelope now s =
    let payload = get "payload" envelope in
    with_tenants
      (record_entry (tenants_of s) (get "tenant" payload) payload (get "payloadDigest" envelope)
        now)
      s

-- The governance key of an epoch, its id and its PEM; absent where the certificate is another's.
unfoldable pub key_of_certificate : Json → ℕ → Json × Json
key_of_certificate payload epoch =
    if epoch == 1
    then (if same (get "epoch" payload) (num 1)
        then (get "governanceKeyId" payload, get "governancePublicKeyPem" payload)
        else (undefined, undefined))
    else (if same (get "successorEpoch" payload) (num epoch)
        then (get "successorGovernanceKeyId" payload, get "successorGovernancePublicKeyPem" payload)
        else (undefined, undefined))

-- `governanceKeyAtEpoch`, from epoch 1 on
unfoldable pub governance_key_at_epoch : List Json → ℕ → Json × Json
governance_key_at_epoch lineage epoch = elim (get_elem? lineage (epoch - 1)) [
  | none ↦ (undefined, undefined)
  | some certificate ↦ key_of_certificate (get "payload" certificate) epoch
]

-- The test of the epoch: an index of the lineage, from 1.
unfoldable pub epoch_in : Json → ℕ → Result ℕ
epoch_in (num epoch) certificates =
    if not (ltb epoch 1) && not (ltb certificates epoch)
    then ok epoch
    else err "tenant admission epoch is not in the accepted governance lineage"
epoch_in _ certificates = err "tenant admission epoch is not in the accepted governance lineage"

-- No key of the list has one of the revoked ids.
unfoldable pub has_key : Items → String → Bool
has_key nil id = false
has_key (cons key keys) id = same (get "keyId" key) (str id) || has_key keys id

unfoldable pub route_keys : Json → Items
route_keys (arr keys) = keys
route_keys _ = nil

unfoldable pub none_revoked : List String → Items → Result (Unit {0})
none_revoked [] keys = ok tt
none_revoked (id ∷ ids) keys =
    guard (not (has_key keys id)) "tenant admission includes revoked route key"
    >> none_revoked ids keys

unfoldable pub check_policy : Option AdmittedTenant → Json → Result (Unit {0})
unfolding version_of
check_policy none payload = ok tt
check_policy (some t) payload = do
  guard (not (ltb (version_of (get "minRouteVersion" payload)) t.min_route_version))
      "tenant admission minRouteVersion is below TEE route policy state"
  none_revoked t.revoked_route_key_ids (route_keys (get "tenantRouteSigningKeys" payload))

module _ (c : Crypto) where
  -- `verifyTenantAdmissionEnvelope`: the payload.
  unfoldable pub verify_tenant_admission_envelope : State → Json → ℕ → Result Json
  unfolding admitted
  verify_tenant_admission_envelope s envelope now = do
    epoch ← epoch_in (get "governanceEpoch" (get "payload" envelope)) (length s.lineage)
    guard
        (same (get "governanceLineageDigest" (get "payload" envelope))
          (lineage_digest c (take epoch s.lineage)))
        "tenant admission was not issued under the accepted governance lineage"
    let key = governance_key_at_epoch s.lineage epoch
    guard (truthy key.1 && same (get "signingKeyId" envelope) key.0)
        "tenant admission is not signed by the governance key of its epoch"
    payload ← verify_governance_envelope c envelope key.1 now true
    admission ← assert_tenant_admission_payload payload now
    guard (same (get "governanceKeyId" payload) (get "signingKeyId" envelope))
        "tenant admission governanceKeyId must match envelope signingKeyId"
    check_policy (admitted (tenants_of s) (get "tenant" payload)) payload
    ok payload

  -- What is signed before the commit of `issueTenantAdmissionCertificate`.
  unfoldable pub sign_admission : Json → Json → ℕ → ℕ → State → Result Json
  sign_admission input proof ttl now s = do
    assert_active s
    keeps_keys (admitted (tenants_of s) (get "tenant" input)) (get "tenantRouteSigningKeys" input)
    sign_tenant_admission_certificate c s.key_material s.epoch (lineage_digest c s.lineage) input
        proof ttl now

  -- What the commit checks again.
  unfoldable pub may_record : Json → Json → State → Result (Unit {0})
  may_record input digest s = do
    assert_active s
    guard (same (lineage_digest c s.lineage) digest)
        "governance lineage changed while the tenant admission was being issued"
    keeps_keys (admitted (tenants_of s) (get "tenant" input)) (get "tenantRouteSigningKeys" input)

  -- `issueTenantAdmissionCertificate`: the envelope.
  unfoldable pub issue_tenant_admission_certificate :
      (State → Result (Unit {0})) → Json → Json → ℕ → ℕ → M Json
  issue_tenant_admission_certificate replicate input proof ttl now s =
      continue
        (λ envelope. commit replicate (
          change (may_record input (lineage_digest c s.lineage))
            (λ _. record_tenant_admission envelope now) (λ _ _. envelope)))
        (sign_admission input proof ttl now s) s

-- The entry with a newer accepted version, where there is one.
unfoldable pub newer_version : Option AdmittedTenant → Json → Option ℕ → Option AdmittedTenant
newer_version none route_digest version = none
newer_version (some t) route_digest none = none
newer_version (some t) route_digest (some v) =
    if ltb t.latest_accepted_route_version v
    then some (record t {
      latest_accepted_route_version = v;
      latest_accepted_route_digest = or_null route_digest;
    })
    else none

unfoldable pub with_newer : String → Option AdmittedTenant → State → State
with_newer tenant none s = s
with_newer tenant (some t) s = with_tenants (insert tenant t (tenants_of s)) s

-- `recordAcceptedRouteVersion`
unfoldable pub record_accepted_route_version : String → Json → Json → State → State
record_accepted_route_version tenant version route_digest s =
    with_newer tenant (newer_version (lookup tenant (tenants_of s)) route_digest (natural version))
      s
