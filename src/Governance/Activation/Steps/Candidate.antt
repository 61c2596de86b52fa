-- ===== src/Governance/Activation/Steps/Candidate.antt =====
-- src/governance-state.js: `declineActivation` and `issueActivationReadiness`, on the candidate.
use auth_broker_tee.Base.{
  ℕ, ◌+◌, ◌*◌, String, List, [], ◌∷◌, ◌&&◌, not, ltb, length, Result, ok, ◌>>=◌, ◌>>◌, guard,
  insert, contains, if◌then◌else◌,
}
use auth_broker_tee.Json.{Json, str, time, object}
use auth_broker_tee.Crypto.{Crypto, sign_governance_payload}
use auth_broker_tee.Patterns.{is_lower_digest}
use auth_broker_tee.Governance.{inactive, State, M, change}
use auth_broker_tee.Governance.Activation.{
  Environment, decline_schema, readiness_schema, is_status, is_empty, assert_enclave_key,
}
use auth_broker_tee.Governance.Activation.Checks.{build_activation_readiness_nonce}

abbrev pub refuse : String → State → State
refuse nonce s = record s { declined_activation_nonces = nonce ∷ s.declined_activation_nonces }

-- `declineActivation`: the signed decline.
unfoldable pub decline_for : Crypto → String → ℕ → State → Result Json
decline_for c nonce now s = do
  guard (is_lower_digest nonce) "activationNonce must be a sha256 digest"
  guard (is_status s.status inactive && is_empty s.lineage)
      "only a candidate that has not applied an activation can decline it"
  ok (
      sign_governance_payload c
        (object (
          ("schema", str decline_schema)
          ∷ ("activationNonce", str nonce)
          ∷ ("candidateImageDigest", s.image_digest)
          ∷ ("governanceKeyId", str s.key_material.governance_key_id)
          ∷ ("declinedAt", time now)
          ∷ []))
        s.key_material)

unfoldable pub decline_activation : Crypto → String → ℕ → M Json
decline_activation c nonce now =
    change (decline_for c nonce now) (λ _. refuse nonce) (λ _ decline. decline)

-- `while (map.size > limit) map.delete(oldest)`: the newest so many entries stay.
unfoldable pub keep_newest {ℓ} : {A : Type ℓ} → ℕ → List A → List A
keep_newest limit [] = []
keep_newest limit (x ∷ xs) = if ltb limit (length (x ∷ xs)) then keep_newest limit xs else x ∷ xs

abbrev pub activation_readiness_limit : ℕ
activation_readiness_limit = 8

abbrev pub note_readiness : String → ℕ → State → State
note_readiness nonce now s = record s {
  activation_readiness =
      keep_newest activation_readiness_limit (insert nonce (time now) s.activation_readiness);
}

-- The readiness statement and its attestation token. `request_token` asks the launcher for a token
-- that carries two nonces.
unfoldable pub readiness_for :
    Crypto → Environment → (Json → Json → Result Json) → String → ℕ → State → Result (Json × Json)
readiness_for c env request_token nonce now s = do
  guard (is_status s.status inactive && is_empty s.lineage)
      "activation readiness is issued only by a fresh inactive candidate"
  guard (is_lower_digest nonce) "activationNonce must be a sha256 digest"
  guard (not (contains nonce s.declined_activation_nonces))
      "this candidate declined that activation"
  assert_enclave_key env.production s
  let k = s.key_material
  token ← request_token (str nonce) (
      build_activation_readiness_nonce c nonce (str k.governance_key_id) (str k.activation_key_id)
        s.image_digest)
  ok (
    sign_governance_payload c
        (object (
          ("schema", str readiness_schema)
          ∷ ("activationNonce", str nonce)
          ∷ ("candidateImageDigest", s.image_digest)
          ∷ ("governanceKeyId", str k.governance_key_id)
          ∷ ("activationKeyId", str k.activation_key_id)
          ∷ ("custody", str "in-enclave-memory")
          ∷ ("issuedAt", time now)
          ∷ ("expiresAt", time (now + 10 * 60 * 1000))
          ∷ []))
        k,
    token,
  )

-- `issueActivationReadiness`
unfoldable pub issue_activation_readiness :
    Crypto → Environment → (Json → Json → Result Json) → String → ℕ → M (Json × Json)
issue_activation_readiness c env request_token nonce now =
    change (readiness_for c env request_token nonce now) (λ _. note_readiness nonce now) (λ _ r. r)
