-- ===== src/Governance/Activation/Steps/Apply.antt =====
-- src/governance-state.js: `applyActivationBundle`, on the candidate.
use auth_broker_tee.Base.{ℕ, some, ◌&&◌, not, Result, ◌>>◌, guard, contains}
use auth_broker_tee.Json.{Json, str, get}
use auth_broker_tee.Crypto.{Crypto}
use auth_broker_tee.Certificates.Signing.{sign_activation_proof_certificate}
use auth_broker_tee.Governance.{active, inactive, State, M, change, continue, commit}
use auth_broker_tee.Governance.Sealing.{Cipher}
use auth_broker_tee.Governance.Activation.{Environment, is_status, is_empty, lineage_digest}
use auth_broker_tee.Governance.Activation.Checks.{ApplyRequest, Transferred, open_bundle}

abbrev pub install : Transferred → Json → State → State
install t certificate s = record s {
  status = active;
  epoch = t.epoch;
  lineage = t.lineage;
  transferred_state = t.transferred_state;
  latest_successor_certificate = some certificate;
}

abbrev pub keep_proof : Json → State → State
keep_proof proof s = record s { latest_activation_proof = some proof }

-- What is checked again in the commit of `applyActivationBundle`.
unfoldable pub may_apply : ApplyRequest → State → Result (Unit {0})
may_apply r s = do
  guard (is_status s.status inactive && is_empty s.lineage)
      "activation bundle can only be applied to inactive candidate"
  guard (not (contains r.activation_nonce s.declined_activation_nonces))
      "this candidate declined that activation"

module _ (c : Crypto) (z : Cipher) where
  unfoldable pub sign_proof : ApplyRequest → Transferred → ℕ → State → Result Json
  sign_proof r t now s =
      sign_activation_proof_certificate c s.key_material t.epoch
        (get "payloadDigest" r.successor_certificate) (str r.activation_nonce) s.image_digest
        (lineage_digest c t.lineage) now

  -- The commit of `applyActivationBundle`: the activation proof. The state is installed before the
  -- proof is signed, and stays installed here where that throws.
  unfoldable pub apply_transferred : ApplyRequest → Transferred → ℕ → M Json
  apply_transferred r t now s =
      continue
        (λ _ s'.
          change (sign_proof r t now) keep_proof (λ _ proof. proof)
            (install t r.successor_certificate s'))
        (may_apply r s) s

  -- `applyActivationBundle`
  unfoldable pub apply_activation_bundle : Environment → ApplyRequest → ℕ → M Json
  apply_activation_bundle env r now s =
      continue (λ t. commit env.replicate (apply_transferred r t now)) (open_bundle c z env s r now)
        s
