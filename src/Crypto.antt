-- ===== src/Crypto.antt =====
-- src/governance-crypto.js, and the digests of src/canonical-json.js. What node:crypto computes is
-- the parameter `Crypto`.
pub mod Envelopes
use Prim.Native.String.{◌++◌ as text_append}
use auth_broker_tee.Base.{
  ◌≡◌, ℕ, String, Bool, true, false, Option, none, some, [], ◌∷◌, ◌&&◌, ◌||◌, not, leb, Result, ok,
  err, ◌>>=◌, ◌>>◌, guard, or_throw,
}
use auth_broker_tee.Json.{
  Json, str, time, obj, object, fields, get, truthy, same, is_object, is_string, date_parse,
}
use auth_broker_tee.Json.Canonical.{canonicalize}

-- node:crypto. `hash v` is the SHA-256 (`sha256:<hex>`) of the JSON text of a canonical value and
-- `hash_text` that of a text; `fingerprint` is the hex SHA-256 of the DER form of a public key in
-- PEM, `none` where the PEM is refused; `key_type` is the `asymmetricKeyType` of a private key in
-- PEM, `none` where it is refused; `public_pem` and `exchange_pem` are the public halves of
-- the private Ed25519 and X25519 keys; `sign` and `verify` work on the JSON text of a canonical
-- value, `verify` with the algorithm's name and the PEM.
pub record Crypto : Type 0 where
  pub hash : Json → String
  pub hash_text : Json → String
  pub fingerprint : String → Option String
  pub key_type : String → Option String
  pub public_pem : String → String
  pub exchange_pem : String → String
  pub sign : String → Json → String
  pub verify : String → String → Json → Json → Bool

-- What the broker relies on: the fingerprint of an exported key exists, and a signature verifies
-- under the public half of the key that made it.
pub record IsSound (c : Crypto) : Type 0 where
  pub fingerprint_exists : (k : String) → (f : String) × (c.fingerprint (c.public_pem k) ≡ some f)
  pub verify_sign :
      (k : String) (v : Json) → c.verify "Ed25519" (c.public_pem k) v (str (c.sign k v)) ≡ true

abbrev pub envelope_schema : String
envelope_schema = "femled.tee.governance.envelope.v1"

pub record KeyMaterial : Type 0 where
  pub kind : String
  pub signature_algorithm : String
  pub governance_public_key_pem : String
  pub governance_key_id : String
  pub activation_public_key_pem : String
  pub activation_key_id : String
  -- the private keys that the closures hold
  pub signing_key : String
  pub activation_key : String

-- `Date.parse(…) <= now.getTime()`, which fails at NaN.
unfoldable pub reached : Option ℕ → ℕ → Bool
reached none now = false
reached (some t) now = leb t now

-- `payload.expiresAt && Date.parse(payload.expiresAt) <= now.getTime()`
unfoldable pub is_expired : Json → ℕ → Bool
unfolding reached
is_expired payload now =
    truthy (get "expiresAt" payload) && reached (date_parse (get "expiresAt" payload)) now

module _ (c : Crypto) where
  -- `sha256Digest(canonicalStringify(value))`
  unfoldable pub digest : Json → String
  digest v = c.hash (canonicalize v)

  unfoldable pub key_id : Json → Result String
  key_id (str pem) = elim (c.fingerprint pem) [
    | none ↦ err "invalid public key"
    | some f ↦ ok (text_append "sha256:" f)
  ]
  key_id _ = err "invalid public key"

  unfoldable pub build_in_memory_key_material : String → String → Result KeyMaterial
  build_in_memory_key_material signing activation = do
    let governance_public_key_pem = c.public_pem signing
    let activation_public_key_pem = c.exchange_pem activation
    governance_key_id ← key_id (str governance_public_key_pem)
    activation_key_id ← key_id (str activation_public_key_pem)
    ok (record {
      kind = "in-memory";
      signature_algorithm = "Ed25519";
      governance_public_key_pem = governance_public_key_pem;
      governance_key_id = governance_key_id;
      activation_public_key_pem = activation_public_key_pem;
      activation_key_id = activation_key_id;
      signing_key = signing;
      activation_key = activation;
    })

  unfoldable pub sign_governance_payload : Json → KeyMaterial → Json
  sign_governance_payload payload k = object (
      ("schema", str envelope_schema)
      ∷ ("payload", payload)
      ∷ ("payloadDigest", str (digest payload))
      ∷ ("signingKeyId", str k.governance_key_id)
      ∷ (
        "signature",
        object (
            ("alg", str k.signature_algorithm)
            ∷ ("sig", str (c.sign k.signing_key (canonicalize payload)))
            ∷ []),
      )
      ∷ [])

  -- `crypto.verify` under the envelope's algorithm.
  unfoldable pub signature_holds : Json → Json → Json → Json → Bool
  signature_holds (str alg) (str pem) payload sig = c.verify alg pem (canonicalize payload) sig
  signature_holds _ _ _ _ = false

  unfoldable pub verify_governance_envelope : Json → Json → ℕ → Bool → Result Json
  verify_governance_envelope envelope public_key_pem now enforce_expiry = do
    guard (is_object envelope) "governance envelope must be an object"
    guard (same (get "schema" envelope) (str envelope_schema)) "governance envelope schema mismatch"
    let payload = get "payload" envelope
    guard (is_object payload) "governance envelope payload missing"
    guard (same (get "payloadDigest" envelope) (str (digest payload)))
        "governance payload digest mismatch"
    id ← key_id public_key_pem
    guard (same (get "signingKeyId" envelope) (str id)) "governance signing key mismatch"
    let alg = get "alg" (get "signature" envelope)
    let sig = get "sig" (get "signature" envelope)
    guard (truthy alg && is_string sig) "governance signature is malformed"
    guard (same alg (str "Ed25519") || same alg (str "ECDSA_P256_SHA256"))
        "unsupported governance signature algorithm"
    guard (signature_holds alg public_key_pem payload sig)
        "governance signature verification failed"
    guard (not (enforce_expiry && is_expired payload now)) "governance certificate expired"
    ok payload
