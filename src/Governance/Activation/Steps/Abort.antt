-- ===== src/Governance/Activation/Steps/Abort.antt =====
-- src/governance-state.js: `abortActivation`, on the predecessor.
use auth_broker_tee.Base.{
  ℕ, String, Bool, Option, none, some, Result, ok, err, ◌>>=◌, delete, str_eq, if◌then◌else◌,
}
use auth_broker_tee.Json.{Json, time}
use auth_broker_tee.Crypto.{Crypto}
use auth_broker_tee.Governance.{
  Status, active, activating_successor, State, PendingActivation, M, change, continue, commit,
}
use auth_broker_tee.Governance.Activation.{Environment}
use auth_broker_tee.Governance.Activation.Checks.{abort_reason}

-- `reason === "expired" ? pending : null`
unfoldable pub kept_after : String → PendingActivation → Option PendingActivation
kept_after reason p = if str_eq reason "expired" then some p else none

abbrev pub abort : String → PendingActivation → ℕ → State → State
abort reason p now s = record s {
  status = active;
  pending_successor_activation = none;
  latest_successor_certificate = none;
  expired_successor_activation = kept_after reason p;
  latest_aborted_activation = some (record {
    activation_nonce = p.activation_nonce;
    successor_payload_digest = p.successor_payload_digest;
    candidate_image_digest = p.candidate_image_digest;
    reason = reason;
    aborted_at = time now;
  });
}

-- The activation that may be aborted: pending, and with no proof of it seen.
unfoldable pub abortable : Status → Option PendingActivation → Result PendingActivation
abortable activating_successor (some p) = elim p.activation_proof [
  | none ↦ ok p
  | some _ ↦ err "the successor proved its activation; finalize it instead of aborting"
]
abortable _ _ = err "activation abort requires activating_successor governance"

-- Why which activation is aborted.
unfoldable pub abort_of :
    Crypto → Option Json → Bool → Option String → ℕ → State → Result (PendingActivation × String)
unfolding abortable
abort_of c decline expired nonce now s = do
  p ← abortable s.status s.pending_successor_activation
  reason ← abort_reason c p decline expired nonce now
  ok (p, reason)

-- The commit of `abortActivation`: the nonce of the aborted activation.
unfoldable pub abort_pending : Crypto → Option Json → Bool → Option String → ℕ → M String
abort_pending c decline expired nonce now =
    change (abort_of c decline expired nonce now) (λ a. abort a.1 a.0 now)
      (λ _ a. a.0.activation_nonce)

abbrev pub forget_challenge : String → State → State
forget_challenge nonce s = record s {
  pending_activation_challenges = delete nonce s.pending_activation_challenges;
}

-- `abortActivation`
unfoldable pub abort_activation :
    Crypto → Environment → Option Json → Bool → Option String → ℕ → M String
abort_activation c env decline expired nonce now s =
    let (aborted, s1) = commit env.replicate (abort_pending c decline expired nonce now) s in
    continue (λ n s2. (ok n, forget_challenge n s2)) aborted s1
