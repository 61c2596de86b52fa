-- ===== src/Governance/Genesis/Keeps.antt =====
-- src/governance-state.js: the genesis of a lineage leaves a good state.
use auth_broker_tee.Base.{
  ℕ, Option, none, some, [], ◌∷◌, ◌≡◌, refl, sym, subst, Result, ok, err, >>=-eq-ok, ok-injective,
  &&-true,
}
use auth_broker_tee.Json.{Json, str, get, get_field, fields, same, is_object}
use auth_broker_tee.Crypto.{Crypto, IsSound, KeyMaterial, sign_governance_payload}
use auth_broker_tee.Crypto.Envelopes.{IsInMemory, sign-IsSignedBy}
use auth_broker_tee.Certificates.{ReviewPolicy}
use auth_broker_tee.Certificates.Lineage.{Chain, genesis}
use auth_broker_tee.Certificates.Signing.{sign_genesis_certificate}
use auth_broker_tee.Governance.{
  active, inactive, State, PendingActivation, commit, export_replica_snapshot,
}
use auth_broker_tee.Governance.Invariant.{
  IsGood, PendingFits, ExpiredFits, Continues, commit-change-IsGood,
}
use auth_broker_tee.Governance.Activation.{Environment}
use auth_broker_tee.Governance.Activation.Operations.{continue-IsGood}
use auth_broker_tee.Governance.Activation.Preserves.{eq_of_is_status, guard-eq-ok}
use auth_broker_tee.Governance.Genesis.{
  ImageSource, check_adjudication, check_revision, read_current_image_provenance, genesis_for,
  may_begin, begin_with, cleared, bootstrap_genesis,
}

no_pending : (p : Option PendingActivation) → PendingFits inactive p → p ≡ none
no_pending none f = refl
no_pending (some p) f = absurd f

no_expired : (p : Option PendingActivation) → ExpiredFits inactive p → p ≡ none
no_expired none f = refl
no_expired (some p) f = absurd f

module _ (c : Crypto) (policy : ReviewPolicy) (env : Environment) (source : ImageSource)
    (route_registry_status attestation_digest : Json) where
  -- The genesis certificate of key material is a chain of one.
  genesis-Chain :
      (sound : IsSound c) (k : KeyMaterial) (image bootstrap : Json) (now : ℕ)
      → IsInMemory c k
      → Chain c
          (sign_genesis_certificate c policy k image route_registry_status attestation_digest
              bootstrap now
            ∷ [])
          1
          (str k.governance_public_key_pem)
  unfolding sign_genesis_certificate sign_governance_payload get get_field fields same is_object
  genesis-Chain sound k image bootstrap now m =
      genesis _ refl refl refl (sign-IsSignedBy c sound k _ m refl) refl

  -- What is signed is the genesis certificate of the state's own key.
  genesis_for-Chain :
      (sound : IsSound c) (request response target : Json) (now : ℕ) (s : State)
      {certificate : Json}
      → IsInMemory c s.key_material
      → genesis_for c policy env source route_registry_status attestation_digest request response
          target now s
        ≡ ok certificate
      → Chain c (certificate ∷ []) 1 (str s.key_material.governance_public_key_pem)
  unfolding genesis_for
  genesis_for-Chain sound request response target now s m h =
      let (image, a, r) =
        >>=-eq-ok (check_adjudication c env source request response target now s) _ h in
      let (p, b, r1) = >>=-eq-ok (read_current_image_provenance c source) _ r in
      let (u, d, r2) = >>=-eq-ok (check_revision c request (get "payload" response) p now) _ r1 in
      subst (λ x. Chain c (x ∷ []) 1 (str s.key_material.governance_public_key_pem))
        (ok-injective r2) (genesis-Chain sound s.key_material s.image_digest _ now m)

  cleared-IsGood :
      (r : Result (Unit {0})) (s : State)
      → IsGood c s
      → IsGood c (cleared c policy env source route_registry_status attestation_digest (r, s)).1
  unfolding cleared export_replica_snapshot
  cleared-IsGood (ok u) s good = record {
    in_memory = good.in_memory;
    lineage_fits = good.lineage_fits;
    pending_fits = good.pending_fits;
    expired_fits = good.expired_fits;
    pending_continues = good.pending_continues;
    expired_continues = good.expired_continues;
  }
  cleared-IsGood (err e) s good = good

  begun-IsGood :
      (certificate : Json) (s : State)
      → Chain c (certificate ∷ []) 1 (str s.key_material.governance_public_key_pem)
      → IsGood c s
      → IsGood c
          (commit env.replicate
            (begin_with c policy env source route_registry_status attestation_digest certificate)
            s).1
  unfolding begin_with may_begin export_replica_snapshot
  begun-IsGood certificate s chain good = commit-change-IsGood c env.replicate _ _ _ s good λ u h.
      let e = eq_of_is_status s.status inactive (&&-true _ _ (guard-eq-ok _ _ h)).0 in
      let pending =
        no_pending s.pending_successor_activation
          (subst (λ t. PendingFits t s.pending_successor_activation) e good.pending_fits) in
      let expired =
        no_expired s.expired_successor_activation
          (subst (λ t. ExpiredFits t s.expired_successor_activation) e good.expired_fits) in
      (
        refl,
        record {
          in_memory = good.in_memory;
          lineage_fits = chain;
          pending_fits = subst (PendingFits active) (sym pending) tt;
          expired_fits = tt;
          pending_continues = subst (Continues c (certificate ∷ []) 1) (sym pending) tt;
          expired_continues = subst (Continues c (certificate ∷ []) 1) (sym expired) tt;
        },
      )

  -- The genesis keeps a good state good, whether it returns or throws.
  pub bootstrap_genesis-IsGood :
      (sound : IsSound c) (request response target : Json) (now : ℕ) (s : State)
      → IsGood c s
      → IsGood c
          (bootstrap_genesis c policy env source route_registry_status attestation_digest request
            response target now s).1
  unfolding bootstrap_genesis
  bootstrap_genesis-IsGood sound request response target now s good =
      continue-IsGood c sound _ _ s good λ certificate signed. cleared-IsGood _ _ (
        begun-IsGood certificate s
          (genesis_for-Chain sound request response target now s good.in_memory signed) good)
