-- ===== src/Governance/Tenants/Keys.antt =====
-- src/governance-state.js: the governance key of an epoch.
use auth_broker_tee.Base.{
  ℕ, ◌-◌, true, some, List, ◌≡◌, ◌⊎◌, refl, sym, subst, inl, inr, get_elem?, ◌==◌, ==_iff,
  Bool-cases, Option-cases, arith,
}
use auth_broker_tee.Json.{Json, num, get, same, truthy}
use auth_broker_tee.Governance.Tenants.{key_of_certificate, governance_key_at_epoch}

-- The public key that the certificate of an epoch names, the first one as the genesis.
pub record IsKeyAt (lineage : List Json) (epoch : ℕ) (key : Json) : Type 0 where
  pub certificate : Json
  pub at_epoch : get_elem? lineage (epoch - 1) ≡ some certificate
  pub named :
      ((epoch ≡ 1)
        × (same (get "epoch" (get "payload" certificate)) (num 1) ≡ true)
        × (key ≡ get "governancePublicKeyPem" (get "payload" certificate)))
      ⊎ ((same (get "successorEpoch" (get "payload" certificate)) (num epoch) ≡ true)
          × (key ≡ get "successorGovernancePublicKeyPem" (get "payload" certificate)))

key_of_certificate-named :
    (payload : Json) (epoch : ℕ)
    → truthy (key_of_certificate payload epoch).1 ≡ true
    → ((epoch ≡ 1)
        × (same (get "epoch" payload) (num 1) ≡ true)
        × ((key_of_certificate payload epoch).1 ≡ get "governancePublicKeyPem" payload))
      ⊎ ((same (get "successorEpoch" payload) (num epoch) ≡ true)
          × ((key_of_certificate payload epoch).1 ≡ get "successorGovernancePublicKeyPem" payload))
unfolding key_of_certificate truthy
key_of_certificate-named payload epoch h = elim (Bool-cases (epoch == 1)) [
  | inl first ↦ elim (Bool-cases (same (get "epoch" payload) (num 1))) [
    | inl e ↦ inl ((==_iff epoch 1).0 first, e, rw (first, e) refl)
    | inr e ↦ absurd (ground arith)
  ]
  | inr later ↦ elim (Bool-cases (same (get "successorEpoch" payload) (num epoch))) [
    | inl e ↦ inr (e, rw (later, e) refl)
    | inr e ↦ absurd (ground arith)
  ]
]

pub governance_key_at_epoch-IsKeyAt :
    (lineage : List Json) (epoch : ℕ)
    → truthy (governance_key_at_epoch lineage epoch).1 ≡ true
    → IsKeyAt lineage epoch (governance_key_at_epoch lineage epoch).1
unfolding governance_key_at_epoch truthy
governance_key_at_epoch-IsKeyAt lineage epoch h =
    elim (Option-cases (get_elem? lineage (epoch - 1))) [
      | inl e ↦ absurd (ground arith)
      | inr (certificate, e) ↦
          let payload = get "payload" certificate in
          let same_key : governance_key_at_epoch lineage epoch ≡ key_of_certificate payload epoch =
            ground (arith, e) in
          let keyed = subst (λ (k : Json × Json). truthy k.1 ≡ true) same_key h in
          subst (λ (k : Json × Json). IsKeyAt lineage epoch k.1) (sym same_key)
            (record {
              certificate = certificate;
              at_epoch = e;
              named = key_of_certificate-named payload epoch keyed;
            })
    ]
