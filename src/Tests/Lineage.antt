-- ===== src/Tests/Lineage.antt =====
-- The lineage of one genesis certificate.
use auth_broker_tee.Base.{true, false, ◌≡◌, refl, [], ◌∷◌, ok, err, ◌&&◌}
use auth_broker_tee.Json.{
  Json, null, num, time, str, object, fields, get, same, is_object, truthy, date_parse,
}
use auth_broker_tee.Crypto.{sign_governance_payload, verify_governance_envelope, is_expired}
use auth_broker_tee.Certificates.{Verified, verify_lineage, verify_successor, last}
use auth_broker_tee.Certificates.Signing.{sign_genesis_certificate, sign_successor_certificate}
use auth_broker_tee.Certificates.Succession.{sign_successor-Chain}
use auth_broker_tee.Certificates.Lineage.{Chain, verify_lineage-Chain, Chain-verify_lineage, body}
use auth_broker_tee.Tests.Setup.{
  toy, toy-IsSound, keys, keys-IsInMemory, genesis_certificate, one_certificate, policy, successor,
}

Chain-verify_lineage_example :
    (v : Verified) × (verify_lineage toy 0 (genesis_certificate ∷ []) false ≡ ok v)
    × (v.current_epoch ≡ 1)
    × (v.current_governance_public_key_pem ≡ str "g1")
Chain-verify_lineage_example = Chain-verify_lineage toy 0 one_certificate

verify_lineage-Chain_example :
    Chain toy (genesis_certificate ∷ []) 1 (str "g1")
    × ((true && is_expired (body (last (genesis_certificate ∷ []))) 0) ≡ false)
unfolding verify_lineage auth_broker_tee.Certificates.verify_genesis verify_governance_envelope
    is_object sign_genesis_certificate sign_governance_payload same get fields
    auth_broker_tee.Crypto.digest auth_broker_tee.Crypto.key_id truthy
    auth_broker_tee.Json.is_string auth_broker_tee.Crypto.signature_holds
    auth_broker_tee.Certificates.verify_successors is_expired last auth_broker_tee.Json.get_field
verify_lineage-Chain_example =
    verify_lineage-Chain toy 0 (genesis_certificate ∷ []) true
      {v = record {
        current_epoch = 1;
        current_governance_public_key_pem = str "g1";
        certificates = get "payload" genesis_certificate ∷ [];
      }}
      refl

abbrev second_certificate : Json
second_certificate =
    elim (sign_successor_certificate toy policy (keys "g1" "a1") 1 2 successor 2000) [
      | ok certificate ↦ certificate
      | err e ↦ null
    ]

sign_successor-Chain_example :
    Chain toy (genesis_certificate ∷ second_certificate ∷ []) 2 (str "g2")
unfolding sign_successor_certificate auth_broker_tee.Certificates.require_digest
    auth_broker_tee.Patterns.is_digest
sign_successor-Chain_example =
    sign_successor-Chain toy toy-IsSound policy (keys "g1" "a1") 1 successor 2000
      (genesis_certificate ∷ []) refl (keys-IsInMemory "g1" "a1") one_certificate
