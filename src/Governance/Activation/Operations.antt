-- ===== src/Governance/Activation/Operations.antt =====
-- Each operation of the predecessor, as a whole, keeps the invariant of the state.
use auth_broker_tee.Base.{
  ℕ, String, Bool, Option, none, some, List, ◌≡◌, refl, subst, ap, ◌∙◌, arith, Result, ok, err,
  >>=-eq-ok, ok-injective, Bool-cases, inl, inr,
}
use auth_broker_tee.Json.{Json}
use auth_broker_tee.Crypto.{Crypto, IsSound}
use auth_broker_tee.Certificates.{ReviewPolicy}
use auth_broker_tee.Governance.{
  Status, active, inactive, activating_successor, retired, State, PendingActivation, M, continue,
  commit, export_replica_snapshot,
}
use auth_broker_tee.Governance.Sealing.{Cipher}
use auth_broker_tee.Governance.Invariant.{IsGood, Continues}
use auth_broker_tee.Governance.Activation.{Environment}
use auth_broker_tee.Governance.Activation.Checks.{
  CompleteRequest, check_proof, finalizable, pending_to_finalize,
}
use auth_broker_tee.Governance.Activation.Steps.{
  complete_activation, finalize_activation, record_first, retire_found, retire_for,
  abort_activation, abort_pending, needs_proof,
}
use auth_broker_tee.Governance.Activation.Preserves.{
  certify-IsGood, record_proof-IsGood, retire_for-IsGood, abort_pending-IsGood,
}

module _ (c : Crypto) (sound : IsSound c) where
  pub continue-IsGood {ℓ κ} :
      {A : Type ℓ} {B : Type κ} (f : A → M B) (r : Result A) (s : State)
      → IsGood c s
      → ((a : A) → r ≡ ok a → IsGood c (f a s).1)
      → IsGood c (continue f r s).1
  unfolding continue
  continue-IsGood f (ok a) s good kept = kept a refl
  continue-IsGood f (err e) s good kept = good

  pub complete_activation-IsGood :
      (z : Cipher) (policy : ReviewPolicy) (env : Environment) (r : CompleteRequest) (now : ℕ)
      (s : State)
      → IsGood c s
      → IsGood c (complete_activation c z policy env r now s).1
  unfolding complete_activation
  complete_activation-IsGood z policy env r now s good =
      continue-IsGood _ _ s good λ d h. certify-IsGood c sound z policy r d now env.replicate s good

  pub abort_activation-IsGood :
      (env : Environment) (decline : Option Json) (expired : Bool) (nonce : Option String) (now : ℕ)
      (s : State)
      → IsGood c s
      → IsGood c (abort_activation c env decline expired nonce now s).1
  unfolding abort_activation export_replica_snapshot
  abort_activation-IsGood env decline expired nonce now s good =
      let kept = abort_pending-IsGood c sound env.replicate decline expired nonce now s good in
      continue-IsGood _ (commit env.replicate (abort_pending c decline expired nonce now) s).0 _
        kept (λ n h. kept)

  -- The activation to finalize is one whose certificate continues the lineage.
  finalizable-Continues :
      (l : List Json) (n : ℕ) (st : Status) (expired pending : Option PendingActivation)
      {found : Bool × PendingActivation}
      → finalizable st expired pending ≡ ok found
      → Continues c l n expired
      → Continues c l n pending
      → Continues c l n (some found.1)
  unfolding finalizable
  finalizable-Continues l n active (some p) pending h e f =
      subst (λ x. Continues c l n (some x.1)) (ok-injective h) e
  finalizable-Continues l n active none pending h e f = cc
  finalizable-Continues l n activating_successor expired (some p) h e f =
      subst (λ x. Continues c l n (some x.1)) (ok-injective h) f
  finalizable-Continues l n activating_successor expired none h e f = cc
  finalizable-Continues l n inactive expired pending h e f = cc
  finalizable-Continues l n retired expired pending h e f = cc

  check_proof-found :
      (s : State) (proof : Json) (now : ℕ) {found : Bool × PendingActivation}
      → check_proof c s proof now ≡ ok found
      → pending_to_finalize s ≡ ok found
  unfolding check_proof
  check_proof-found s proof now {found} h =
      let (found', e, r) = >>=-eq-ok (pending_to_finalize s) _ h in
      let same_found : found' ≡ found = ground arith in e ∙ ap ok same_found

  record_first-IsGood :
      (env : Environment) (found : Bool × PendingActivation) (proof : Json) (s : State)
      → Continues c s.lineage s.epoch (some found.1)
      → IsGood c s
      → IsGood c (record_first env found proof s).1
  unfolding record_first
  record_first-IsGood env found proof s continues good =
      elim (Bool-cases (needs_proof found.0 found.1)) [
        | inl e ↦
            rw e (record_proof-IsGood c sound env.replicate found.0 found.1 proof s continues good)
        | inr e ↦ rw e good
      ]

  retire_found-IsGood :
      (env : Environment) (now : ℕ) (found : Bool × PendingActivation) (proof : Json) (s : State)
      → Continues c s.lineage s.epoch (some found.1)
      → IsGood c s
      → IsGood c (retire_found c env now found proof s).1
  unfolding retire_found export_replica_snapshot
  retire_found-IsGood env now found proof s continues good =
      let (recorded, s1) = record_first env found proof s in
      continue-IsGood _ recorded s1 (record_first-IsGood env found proof s continues good) λ u h.
        let kept =
          retire_for-IsGood c sound env.replicate found.1 now s1
            (record_first-IsGood env found proof s continues good) in
        continue-IsGood _ (commit env.replicate (retire_for c found.1 now) s1).0 _ kept
          (λ certificate h'. kept)

  pub finalize_activation-IsGood :
      (env : Environment) (proof : Json) (now : ℕ) (s : State)
      → IsGood c s
      → IsGood c (finalize_activation c env proof now s).1
  unfolding finalize_activation pending_to_finalize export_replica_snapshot
  finalize_activation-IsGood env proof now s good = continue-IsGood _ _ s good λ found h.
      retire_found-IsGood env now found proof s
        (finalizable-Continues s.lineage s.epoch s.status s.expired_successor_activation
          s.pending_successor_activation (check_proof-found s proof now h) good.expired_continues
          good.pending_continues)
        good
