-- ===== src/Governance/Sealing.antt =====
-- src/governance-crypto.js: governance state encrypted to a replica's activation key. What Node computes
-- for it (X25519, HKDF, AES-256-GCM, random bytes) is the parameter `Cipher`.
use auth_broker_tee.Base.{
  ℕ, String, Option, some, List, [], ◌∷◌, ◌≡◌, Result, ok, err, ◌>>=◌, ◌>>◌, guard, or_throw, false,
  eq_refl, str_eq, if◌then◌else◌, refl,
}
use auth_broker_tee.Json.{Json, str, object, fields, get, same, truthy}
use auth_broker_tee.Json.Canonical.{canonicalize}
use auth_broker_tee.Crypto.{Crypto, KeyMaterial, digest, build_in_memory_key_material}
use auth_broker_tee.Governance.{TransferredState, Snapshot}

-- What the broker encrypts: the state for a successor, the signing key with a snapshot for a
-- replica, or a snapshot alone.
pub data Plain : Type 0 where
  transferable : List Json → ℕ → TransferredState → Plain
  custody_transfer : String → Snapshot → Plain
  replica_snapshot : Snapshot → Plain

-- What the module takes from Node. `diffie_hellman` takes a private X25519 key and a PEM, `hkdf` the
-- shared secret, the salt and the JSON text of a canonical value, `encrypt` (AES-256-GCM) the key, the
-- nonce, the associated data and the text, to the ciphertext and the tag, and `decrypt` the key, the
-- nonce, the associated data, the ciphertext and the tag, with `none` where it throws. Bytes are their
-- base64url text. `random_bytes` are those that an encryption draws, by their number, and `stringify`
-- and `parse` are the JSON text of a plaintext and what is read back. A PEM that Node refuses makes the
-- source throw; the broker encrypts only to a key whose fingerprint it has taken.
pub record Cipher : Type 0 where
  pub diffie_hellman : String → Json → String
  pub hkdf : String → Json → Json → String
  pub random_bytes : ℕ → Json → Plain → String
  pub encrypt : String → String → Json → String → String × String
  pub decrypt : String → Json → Json → Json → Json → Option String
  pub stringify : Plain → String
  pub parse : String → Option Plain

-- Two key pairs agree on a secret, what is encrypted under a key and a nonce is read under them and the
-- same associated data, and the text of a plaintext, which is an argument, reads back.
pub record IsCipher (c : Crypto) (z : Cipher) (p : Plain) : Type 0 where
  pub agreement :
      (a b : String)
      → z.diffie_hellman a (str (c.exchange_pem b)) ≡ z.diffie_hellman b (str (c.exchange_pem a))
  pub decrypt_encrypt :
      (key iv : String) (aad : Json) (text : String)
      → z.decrypt key
          (str iv)
          aad
          (str (z.encrypt key iv aad text).0)
          (str (z.encrypt key iv aad text).1)
        ≡ some text
  pub parse_stringify : z.parse (z.stringify p) ≡ some p

abbrev pub state_encryption_alg : String
state_encryption_alg = "X25519-HKDF-SHA256-AES-256-GCM"

-- `aad || {}`
unfoldable pub or_object : Json → Json
unfolding truthy
or_object aad = if truthy aad then aad else object []

module _ (c : Crypto) (z : Cipher) where
  -- `deriveStateKey`
  unfoldable pub derive_state_key : String → Json → Json → String
  unfolding or_object
  derive_state_key shared salt aad = z.hkdf shared salt (
      canonicalize (
        object (
          ("purpose", str "femled-tee-governance-state-transfer")
          ∷ ("aadDigest", str (digest c (or_object aad)))
          ∷ [])))

  -- `encryptStateEnvelope`
  unfoldable pub encrypt_state_envelope : KeyMaterial → Json → Plain → Json → Json
  unfolding derive_state_key or_object
  encrypt_state_envelope k recipient plain aad =
      let salt = z.random_bytes 32 aad plain in
      let key = derive_state_key (z.diffie_hellman k.activation_key recipient) (str salt) aad in
      let iv = z.random_bytes 12 aad plain in
      let sealed = z.encrypt key iv (canonicalize (or_object aad)) (z.stringify plain) in
      object (
        ("schema", str "femled.tee.governance.encrypted_state.v1")
        ∷ ("alg", str state_encryption_alg)
        ∷ ("senderActivationPublicKeyPem", str k.activation_public_key_pem)
        ∷ ("recipientActivationPublicKeyPem", recipient)
        ∷ ("aadDigest", str (digest c (or_object aad)))
        ∷ ("salt", str salt)
        ∷ ("iv", str iv)
        ∷ ("ciphertext", str sealed.0)
        ∷ ("tag", str sealed.1)
        ∷ [])

  -- `decryptStateEnvelope`. The sender's key is an argument, since `applyActivationBundle` may replace
  -- the envelope's.
  unfoldable pub decrypt_state_envelope : KeyMaterial → Json → Json → Json → Result Plain
  unfolding derive_state_key or_object
  decrypt_state_envelope k envelope sender aad = do
    guard (same (get "alg" envelope) (str state_encryption_alg))
        "unsupported governance state encryption envelope"
    guard (same (get "aadDigest" envelope) (str (digest c (or_object aad))))
        "encrypted governance state AAD mismatch"
    let key = derive_state_key (z.diffie_hellman k.activation_key sender) (get "salt" envelope) aad
    text ←
        or_throw
          (z.decrypt key (get "iv" envelope) (canonicalize (or_object aad))
            (get "ciphertext" envelope) (get "tag" envelope))
          "unable to authenticate data"
    or_throw (z.parse text) "Unexpected token in JSON"

  -- `keyMaterial.decryptState`
  unfoldable pub decrypt_state : KeyMaterial → Json → Json → Result Plain
  decrypt_state k envelope aad =
      decrypt_state_envelope k envelope (get "senderActivationPublicKeyPem" envelope) aad

  unfoldable pub custody_of : Plain → Result (String × Snapshot)
  custody_of (custody_transfer key s) = ok (key, s)
  custody_of _ = err "custody transfer schema mismatch"

  -- `keyMaterial.acceptCustodyTransfer`: the transferred signing key beside the own activation key.
  unfoldable pub accept_custody_transfer :
      KeyMaterial → Json → Json → Result (KeyMaterial × Snapshot)
  unfolding custody_of
  accept_custody_transfer k envelope aad = do
    plain ← decrypt_state k envelope aad
    transfer ← custody_of plain
    key_type ← or_throw (c.key_type transfer.0) "unsupported private key"
    guard (str_eq key_type "ed25519") "custody transfer signing key must be Ed25519"
    k' ← build_in_memory_key_material c transfer.0 k.activation_key
    ok (k', transfer.1)

  pub decrypt-encrypt :
      (plain : Plain) (sound : IsCipher c z plain) (k k' : KeyMaterial) (aad : Json)
      → k.activation_public_key_pem ≡ c.exchange_pem k.activation_key
      → k'.activation_public_key_pem ≡ c.exchange_pem k'.activation_key
      → (decrypt_state_envelope k'
            (encrypt_state_envelope k (str k'.activation_public_key_pem) plain aad)
            (str k.activation_public_key_pem)
            aad
          ≡ ok plain)
        × ((other : Json)
            → str_eq (digest c (or_object aad)) (digest c (or_object other)) ≡ false
            → decrypt_state_envelope k'
                (encrypt_state_envelope k (str k'.activation_public_key_pem) plain aad)
                (str k.activation_public_key_pem)
                other
              ≡ err "encrypted governance state AAD mismatch")
  unfolding decrypt_state_envelope encrypt_state_envelope get same fields
  decrypt-encrypt plain sound k k' aad e e' = (
    rw (eq_refl (digest c (or_object aad))) (
        rw
          (
            e,
            e',
            sound.agreement k'.activation_key k.activation_key,
            sound.decrypt_encrypt,
            sound.parse_stringify,
          )
          refl),
    λ other differs. rw differs refl,
  )
