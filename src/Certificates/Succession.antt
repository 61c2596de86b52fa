-- ===== src/Certificates/Succession.antt =====
-- A successor certificate that the current key signs continues the lineage.
use auth_broker_tee.Base.{
  ℕ, ◌+◌, true, List, [], ◌∷◌, ◌++◌, ◌≡◌, refl, sym, subst, ok, >>=-eq-ok, ok-injective, arith,
}
use auth_broker_tee.Json.{Json, str, get, fields, same, is_object}
use auth_broker_tee.Crypto.{Crypto, IsSound, KeyMaterial, sign_governance_payload}
use auth_broker_tee.Crypto.Envelopes.{IsSignedBy, IsInMemory, sign-IsSignedBy}
use auth_broker_tee.Certificates.{ReviewPolicy, successor_schema, require_digest}
use auth_broker_tee.Certificates.Signing.{Successor, sign_successor_certificate}
use auth_broker_tee.Certificates.Lineage.{Chain, succeeded, body, succeeds}

module _ (c : Crypto) (sound : IsSound c) where
  -- An envelope of a successor payload for the next epoch.
  signed_payload-Chain :
      (k : KeyMaterial) (payload : Json) (l : List Json) (n : ℕ) (pem : Json)
      → IsInMemory c k
      → Chain c l n (str k.governance_public_key_pem)
      → is_object payload ≡ true
      → same (get "schema" payload) (str successor_schema) ≡ true
      → succeeds n payload ≡ true
      → pem ≡ get "successorGovernancePublicKeyPem" payload
      → Chain c (l ++ sign_governance_payload c payload k ∷ []) (n + 1) pem
  signed_payload-Chain k payload l n pem m chain o schema next named =
      let signed = sign-IsSignedBy c sound k payload m o in
      let carried : body (sign_governance_payload c payload k) ≡ payload = signed.carried in
      succeeded (sign_governance_payload c payload k) chain refl refl (rw carried named)
        (subst
          (IsSignedBy c (str k.governance_public_key_pem) (sign_governance_payload c payload k))
          (sym carried) signed)
        (rw carried schema) (rw carried next)

  -- A successor certificate that was signed with the key at the end of a chain, for the epoch after
  -- the chain's, extends the chain to the key that it names. Signatures are sound, and the key
  -- material is held in memory.
  pub sign_successor-Chain :
      (policy : ReviewPolicy) (k : KeyMaterial) (n : ℕ) (s : Successor) (now : ℕ) (l : List Json)
      {certificate : Json}
      → sign_successor_certificate c policy k n (n + 1) s now ≡ ok certificate
      → IsInMemory c k
      → Chain c l n (str k.governance_public_key_pem)
      → Chain c (l ++ certificate ∷ []) (n + 1) s.governance_public_key_pem
  unfolding sign_successor_certificate get fields same is_object
  sign_successor-Chain policy k n s now l h m chain =
      let (image, h1, r1) = >>=-eq-ok (require_digest s.candidate_image_digest) _ h in
      let (attestation, h2, r2) = >>=-eq-ok (require_digest s.candidate_attestation_digest) _ r1 in
      let (preapproval, h3, r3) = >>=-eq-ok (require_digest s.preapproval_payload_digest) _ r2 in
      let (packet, h4, r4) = >>=-eq-ok (require_digest s.decision_packet_digest) _ r3 in
      let (arbitration, h5, r5) = >>=-eq-ok (require_digest s.arbitration_digest) _ r4 in
      subst (λ x. Chain c (l ++ x ∷ []) (n + 1) s.governance_public_key_pem) (ok-injective r5)
        (signed_payload-Chain k _ l n s.governance_public_key_pem m chain refl refl (ground arith)
          refl)
