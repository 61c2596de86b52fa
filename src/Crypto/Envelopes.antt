-- ===== src/Crypto/Envelopes.antt =====
-- What a verified envelope is, and that a signed one verifies.
use auth_broker_tee.Base.{
  ℕ, String, Bool, true, false, ◌≡◌, refl, sym, subst, ◌&&◌, ◌||◌, ok, err, arith, eq_refl,
}
use auth_broker_tee.Json.{Json, str, get, fields, truthy, same, is_object, is_string}
use auth_broker_tee.Json.Canonical.{canonicalize}
use auth_broker_tee.Crypto.{
  Crypto, IsSound, KeyMaterial, envelope_schema, is_expired, digest, key_id,
  sign_governance_payload, signature_holds, verify_governance_envelope,
  build_in_memory_key_material,
}

module _ (c : Crypto) where
  -- The envelope is a governance envelope of `payload`, under its digest, signed by the key.
  pub record IsSignedBy (pem : Json) (envelope : Json) (payload : Json) : Type 0 where
    pub carried : get "payload" envelope ≡ payload
    pub is_envelope :
        (is_object envelope && same (get "schema" envelope) (str envelope_schema)) ≡ true
    pub object_payload : is_object payload ≡ true
    pub digested : same (get "payloadDigest" envelope) (str (digest c payload)) ≡ true
    pub id : String
    pub id_of : key_id c pem ≡ ok id
    pub named : same (get "signingKeyId" envelope) (str id) ≡ true
    pub well_formed :
        (truthy (get "alg" (get "signature" envelope))
          && is_string (get "sig" (get "signature" envelope)))
        ≡ true
    pub supported :
        (same (get "alg" (get "signature" envelope)) (str "Ed25519")
          || same (get "alg" (get "signature" envelope)) (str "ECDSA_P256_SHA256"))
        ≡ true
    pub signed :
        signature_holds c
          (get "alg" (get "signature" envelope))
          pem
          payload
          (get "sig" (get "signature" envelope))
        ≡ true

  pub verify-IsSignedBy :
      (envelope pem : Json) (now : ℕ) (enforce : Bool) {payload : Json}
      → verify_governance_envelope c envelope pem now enforce ≡ ok payload
      → IsSignedBy pem envelope payload × ((enforce && is_expired payload now) ≡ false)
  unfolding verify_governance_envelope
  verify-IsSignedBy envelope pem now enforce {payload} h =
      elim (key_id c pem)
          as (λ r.
            key_id c pem ≡ r
            → IsSignedBy pem envelope payload × ((enforce && is_expired payload now) ≡ false)) [
              | ok id ↦ λ e. (
                record {
                  carried = ground arith;
                  is_envelope = ground arith;
                  object_payload = ground arith;
                  digested = ground arith;
                  id = id;
                  id_of = e;
                  named = ground arith;
                  well_formed = ground arith;
                  supported = ground arith;
                  signed = ground arith;
                },
                ground arith,
              )
              | err m ↦ λ e. absurd (ground arith)
            ]
        refl

  -- And only these: what is required suffices.
  pub IsSignedBy-verify :
      (envelope pem payload : Json) (now : ℕ) (enforce : Bool)
      → IsSignedBy pem envelope payload
      → (enforce && is_expired payload now) ≡ false
      → verify_governance_envelope c envelope pem now enforce ≡ ok payload
  unfolding verify_governance_envelope
  IsSignedBy-verify envelope pem payload now enforce s fresh = ground (
    arith, s.id_of, s.carried, s.is_envelope, s.object_payload, s.digested, s.named, s.well_formed,
    s.supported, s.signed,
  )

  -- Key material as the broker builds it.
  pub record IsInMemory (k : KeyMaterial) : Type 0 where
    pub kind : k.kind ≡ "in-memory"
    pub algorithm : k.signature_algorithm ≡ "Ed25519"
    pub public_half : k.governance_public_key_pem ≡ c.public_pem k.signing_key
    pub exchange_half : k.activation_public_key_pem ≡ c.exchange_pem k.activation_key
    pub id_of : key_id c (str k.governance_public_key_pem) ≡ ok k.governance_key_id
    pub activation_id_of : key_id c (str k.activation_public_key_pem) ≡ ok k.activation_key_id

  pub build-IsInMemory :
      (signing activation : String) {k : KeyMaterial}
      → build_in_memory_key_material c signing activation ≡ ok k
      → IsInMemory k × (k.signing_key ≡ signing) × (k.activation_key ≡ activation)
  unfolding build_in_memory_key_material
  build-IsInMemory signing activation h = ground arith

  -- What key material signs is an envelope of it under its own public key.
  pub sign-IsSignedBy :
      (sound : IsSound c) (k : KeyMaterial) (payload : Json)
      → IsInMemory k
      → is_object payload ≡ true
      → IsSignedBy (str k.governance_public_key_pem) (sign_governance_payload c payload k) payload
  unfolding sign_governance_payload get same fields is_object is_string truthy signature_holds
      digest
  sign-IsSignedBy sound k payload m o = record {
    carried = refl;
    is_envelope = refl;
    object_payload = o;
    digested = eq_refl _;
    id = k.governance_key_id;
    id_of = m.id_of;
    named = eq_refl _;
    well_formed = rw m.algorithm refl;
    supported = rw m.algorithm refl;
    signed =
        rw (m.algorithm, m.public_half) (sound.verify_sign k.signing_key (canonicalize payload));
  }

  -- An object that is signed with key material in memory verifies under its public key and is
  -- given back, unless its expiry is enforced and has passed. Signatures are sound.
  pub verify-sign :
      (sound : IsSound c) (k : KeyMaterial) (payload : Json) (now : ℕ) (enforce : Bool)
      → IsInMemory k
      → is_object payload ≡ true
      → (enforce && is_expired payload now) ≡ false
      → verify_governance_envelope c
          (sign_governance_payload c payload k)
          (str k.governance_public_key_pem)
          now
          enforce
        ≡ ok payload
  verify-sign sound k payload now enforce m o fresh =
      IsSignedBy-verify _ _ payload now enforce (sign-IsSignedBy sound k payload m o) fresh

  -- The same by the envelope's own payload.
  pub verify-body :
      (envelope pem : Json) (now : ℕ) (enforce : Bool) {payload : Json}
      → verify_governance_envelope c envelope pem now enforce ≡ ok payload
      → (payload ≡ get "payload" envelope)
        × IsSignedBy pem envelope (get "payload" envelope)
        × ((enforce && is_expired (get "payload" envelope) now) ≡ false)
  verify-body envelope pem now enforce {payload} h =
      let (s, fresh) = verify-IsSignedBy envelope pem now enforce h in
      (sym s.carried, subst (IsSignedBy pem envelope) (sym s.carried) s, rw s.carried fresh)
