-- ===== src/Governance/Activation/Steps/Finalize.antt =====
-- src/governance-state.js: `finalizeActivation`, on the predecessor.
use auth_broker_tee.Base.{
  ℕ, ◌+◌, Bool, true, false, Option, none, some, [], ◌&&◌, Result, ok, ◌>>◌, guard, if◌then◌else◌,
}
use auth_broker_tee.Json.{Json, same}
use auth_broker_tee.Crypto.{Crypto, digest}
use auth_broker_tee.Certificates.Signing.{sign_retirement_certificate}
use auth_broker_tee.Governance.{
  active, activating_successor, retired, State, PendingActivation, M, change, continue, commit,
}
use auth_broker_tee.Governance.Activation.{Environment, is_status}
use auth_broker_tee.Governance.Activation.Checks.{check_proof}

-- Whether the pending activation has this payload digest.
unfoldable pub is_pending : Option PendingActivation → Json → Bool
is_pending none digest = false
is_pending (some p) digest = same p.successor_payload_digest digest

abbrev pub with_proof : PendingActivation → Json → PendingActivation
with_proof p proof = record p { activation_proof = some proof }

abbrev pub proved : Option PendingActivation → Json → Option PendingActivation
proved none proof = none
proved (some p) proof = some (with_proof p proof)

abbrev pub reopen : PendingActivation → Json → State → State
reopen p proof s = record s {
  status = activating_successor;
  pending_successor_activation = some (with_proof p proof);
  latest_successor_certificate = some p.successor_certificate;
  expired_successor_activation = none;
}

abbrev pub attach_proof : Json → State → State
attach_proof proof s = record s {
  pending_successor_activation = proved s.pending_successor_activation proof;
}

-- The first commit of `finalizeActivation`: the proof is recorded, so that no abort follows.
unfoldable pub still_finalizable : Bool → PendingActivation → State → Result (Unit {0})
still_finalizable true pending s =
    guard
      (is_status s.status active
        && is_pending s.expired_successor_activation pending.successor_payload_digest)
      "the expired successor activation changed before finalize"
still_finalizable false pending s =
    guard
      (is_status s.status activating_successor
        && is_pending s.pending_successor_activation pending.successor_payload_digest)
      "pending successor activation changed before finalize"

unfoldable pub with_recorded_proof : Bool → PendingActivation → Json → State → State
with_recorded_proof true pending proof = reopen pending proof
with_recorded_proof false pending proof = attach_proof proof

unfoldable pub record_proof : Bool → PendingActivation → Json → M (Unit {0})
record_proof reopened pending proof =
    change (still_finalizable reopened pending) (λ _. with_recorded_proof reopened pending proof)
      (λ _ _. tt)

abbrev pub retire : Json → State → State
retire certificate s = record s {
  status = retired;
  latest_retirement_certificate = some certificate;
  pending_successor_activation = none;
}

unfoldable pub retirement_for : Crypto → PendingActivation → ℕ → State → Result Json
retirement_for c pending now s = do
  still_finalizable false pending s
  sign_retirement_certificate c s.key_material s.epoch (s.epoch + 1)
      pending.candidate_governance_key_id pending.successor_payload_digest now

-- The second commit of `finalizeActivation`: the retirement certificate.
unfoldable pub retire_for : Crypto → PendingActivation → ℕ → M Json
retire_for c pending now =
    change (retirement_for c pending now) retire (λ _ certificate. certificate)

abbrev pub clear_challenges : State → State
clear_challenges s = record s { pending_activation_challenges = [] }

-- The first commit runs unless the proof of the pending activation is known.
unfoldable pub needs_proof : Bool → PendingActivation → Bool
needs_proof true pending = true
needs_proof false pending = elim pending.activation_proof [ none ↦ true | some _ ↦ false ]

unfoldable pub record_first : Environment → Bool × PendingActivation → Json → M (Unit {0})
unfolding needs_proof
record_first env found activation_proof s =
    if needs_proof found.0 found.1
    then commit env.replicate (record_proof found.0 found.1 activation_proof) s
    else (ok tt, s)

-- The rest of `finalizeActivation`, once its checks have passed.
unfoldable pub retire_found : Crypto → Environment → ℕ → Bool × PendingActivation → Json → M Json
retire_found c env now found activation_proof s =
    let (recorded, s1) = record_first env found activation_proof s in
    continue
      (λ _ s1'.
        let (certificate, s2) = commit env.replicate (retire_for c found.1 now) s1' in
        continue (λ done s2'. (ok done, clear_challenges s2')) certificate s2)
      recorded s1

-- `finalizeActivation`: the retirement certificate.
unfoldable pub finalize_activation : Crypto → Environment → Json → ℕ → M Json
finalize_activation c env activation_proof now s =
    continue (λ found. retire_found c env now found activation_proof)
      (check_proof c s activation_proof now) s
