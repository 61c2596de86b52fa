-- ===== src/Governance/Activation/Preserves.antt =====
-- The operations of the handoff keep the invariant of the state.
use auth_broker_tee.Base.{
  ℕ, ◌+◌, String, Bool, true, false, Option, none, some, List, [], ◌∷◌, ◌++◌, ◌≡◌, refl, ap, subst,
  inl, inr, Bool-cases, str_eq, Result, ok, guard, arith, >>=-eq-ok, ok-injective, &&-true,
}
use auth_broker_tee.Json.{Json}
use auth_broker_tee.Crypto.{Crypto, IsSound}
use auth_broker_tee.Certificates.{ReviewPolicy}
use auth_broker_tee.Certificates.Lineage.{Chain}
use auth_broker_tee.Certificates.Succession.{sign_successor-Chain}
use auth_broker_tee.Governance.{
  Status, active, inactive, activating_successor, retired, State, PendingActivation, commit,
  export_replica_snapshot,
}
use auth_broker_tee.Governance.Sealing.{Cipher}
use auth_broker_tee.Governance.Invariant.{
  IsGood, commit-change-IsGood, PendingFits, ExpiredFits, Continues, LineageFits,
}
use auth_broker_tee.Governance.Activation.{is_status, assert_active}
use auth_broker_tee.Governance.Activation.Checks.{CompleteRequest, SuccessorDecision, abort_reason}
use auth_broker_tee.Governance.Activation.Steps.{
  certificate_for, certify_successor, record_proof, retire_for, abort_pending, abortable,
  kept_after, proved, still_finalizable, with_recorded_proof, retirement_for, abort_of,
}

pub eq_of_is_status : (a b : Status) → is_status a b ≡ true → a ≡ b
unfolding is_status
eq_of_is_status active active h = refl
eq_of_is_status inactive inactive h = refl
eq_of_is_status activating_successor activating_successor h = refl
eq_of_is_status retired retired h = refl
eq_of_is_status active b h = ground arith
eq_of_is_status inactive b h = ground arith
eq_of_is_status activating_successor b h = ground arith
eq_of_is_status retired b h = ground arith

pub guard-eq-ok : (b : Bool) (e : String) {u : Unit {0}} → guard b e ≡ ok u → b ≡ true
guard-eq-ok true e h = refl
guard-eq-ok false e h = cc

-- What may be aborted is pending, without a proof.
pub abortable-ok :
    (st : Status) (pending : Option PendingActivation) {p : PendingActivation}
    → abortable st pending ≡ ok p
    → (st ≡ activating_successor) × (pending ≡ some p) × (p.activation_proof ≡ none)
unfolding abortable
abortable-ok activating_successor (some p) h = ground arith
abortable-ok st pending h = ground arith

module _ (c : Crypto) (sound : IsSound c) where
  module _ (z : Cipher) (policy : ReviewPolicy) (r : CompleteRequest) (d : SuccessorDecision)
      (now : ℕ) where
    certificate_for-ok :
        (s : State) {certificate : Json}
        → certificate_for c z policy r d now s ≡ ok certificate
        → (s.status ≡ active)
          × (IsGood c s
              → Chain c
                  (s.lineage ++ certificate ∷ [])
                  (s.epoch + 1)
                  r.candidate_governance_public_key_pem)
    unfolding certificate_for assert_active export_replica_snapshot
    certificate_for-ok s h =
        let (u, was_active, signed) = >>=-eq-ok (assert_active s) _ h in
        let e = eq_of_is_status s.status active (guard-eq-ok _ _ was_active) in
        (
          e,
          λ good.
              sign_successor-Chain c sound policy s.key_material s.epoch _ now s.lineage signed
                good.in_memory
                (subst (λ st. LineageFits c s.key_material st s.lineage s.epoch) e
                  good.lineage_fits),
        )

    -- What is certified leaves a good state: the activation is pending, with a certificate that
    -- continues the lineage.
    pub certify-IsGood :
        (replicate : State → Result (Unit {0})) (s : State)
        → IsGood c s
        → IsGood c (commit replicate (certify_successor c z policy r d now) s).1
    unfolding certify_successor export_replica_snapshot
    certify-IsGood replicate s good = commit-change-IsGood c replicate _ _ _ s good λ certificate h.
        let (e, continues) = certificate_for-ok s h in
        (
          refl,
          record {
            in_memory = good.in_memory;
            lineage_fits =
                subst (λ st. LineageFits c s.key_material st s.lineage s.epoch) e good.lineage_fits;
            pending_fits = tt;
            expired_fits = tt;
            pending_continues = continues good;
            expired_continues = tt;
          },
        )

  -- The lineage is a chain in every status but `inactive`.
  chain_of :
      (s : State) (st : Status)
      → s.status ≡ st
      → LineageFits c s.key_material s.status s.lineage s.epoch
      → LineageFits c s.key_material st s.lineage s.epoch
  chain_of s st e = subst (λ t. LineageFits c s.key_material t s.lineage s.epoch) e

  proved-fits :
      (st : Status) (p : Option PendingActivation) (proof : Json)
      → PendingFits st p
      → PendingFits st (proved p proof)
  proved-fits st none proof f = f
  proved-fits active (some p) proof f = f
  proved-fits inactive (some p) proof f = f
  proved-fits activating_successor (some p) proof f = f
  proved-fits retired (some p) proof f = f

  proved-Continues :
      (l : List Json) (n : ℕ) (p : Option PendingActivation) (proof : Json)
      → Continues c l n p
      → Continues c l n (proved p proof)
  proved-Continues l n none proof f = f
  proved-Continues l n (some p) proof f = f

  -- Recording the proof keeps the state good, for an activation that continues the lineage.
  pub record_proof-IsGood :
      (replicate : State → Result (Unit {0})) (reopened : Bool) (p : PendingActivation)
      (proof : Json) (s : State)
      → Continues c s.lineage s.epoch (some p)
      → IsGood c s
      → IsGood c (commit replicate (record_proof reopened p proof) s).1
  unfolding record_proof still_finalizable with_recorded_proof export_replica_snapshot
  record_proof-IsGood replicate true p proof s continues good =
      commit-change-IsGood c replicate _ _ _ s good λ u h.
        let e = eq_of_is_status s.status active (&&-true _ _ (guard-eq-ok _ _ h)).0 in
        (
          refl,
          record {
            in_memory = good.in_memory;
            lineage_fits = chain_of s active e good.lineage_fits;
            pending_fits = tt;
            expired_fits = tt;
            pending_continues = continues;
            expired_continues = tt;
          },
        )
  record_proof-IsGood replicate false p proof s continues good =
      commit-change-IsGood c replicate _ _ _ s good λ u h. (
        refl,
        record {
          in_memory = good.in_memory;
          lineage_fits = good.lineage_fits;
          pending_fits =
              proved-fits s.status s.pending_successor_activation proof good.pending_fits;
          expired_fits = good.expired_fits;
          pending_continues =
              proved-Continues s.lineage s.epoch s.pending_successor_activation proof
                good.pending_continues;
          expired_continues = good.expired_continues;
        },
      )

  still-retired :
      (p : Option PendingActivation) → ExpiredFits activating_successor p → ExpiredFits retired p
  still-retired none f = f
  still-retired (some p) f = f

  pub retire_for-IsGood :
      (replicate : State → Result (Unit {0})) (p : PendingActivation) (now : ℕ) (s : State)
      → IsGood c s
      → IsGood c (commit replicate (retire_for c p now) s).1
  unfolding retire_for retirement_for still_finalizable export_replica_snapshot
  retire_for-IsGood replicate p now s good =
      commit-change-IsGood c replicate _ _ _ s good λ certificate h.
        let (u, allowed, signed) = >>=-eq-ok (still_finalizable false p s) _ h in
        let e =
          eq_of_is_status s.status activating_successor (&&-true _ _ (guard-eq-ok _ _ allowed)).0 in
        (
          refl,
          record {
            in_memory = good.in_memory;
            lineage_fits = chain_of s activating_successor e good.lineage_fits;
            pending_fits = tt;
            expired_fits =
                still-retired s.expired_successor_activation
                  (subst (λ t. ExpiredFits t s.expired_successor_activation) e good.expired_fits);
            pending_continues = tt;
            expired_continues = good.expired_continues;
          },
        )

  kept_after-Continues :
      (l : List Json) (n : ℕ) (reason : String) (p : PendingActivation)
      → Continues c l n (some p)
      → Continues c l n (kept_after reason p)
  unfolding kept_after
  kept_after-Continues l n reason p f = elim (Bool-cases (str_eq reason "expired")) [
    | inl e ↦ rw e f
    | inr e ↦ rw e tt
  ]

  pub abort_pending-IsGood :
      (replicate : State → Result (Unit {0})) (decline : Option Json) (expired : Bool)
      (nonce : Option String) (now : ℕ) (s : State)
      → IsGood c s
      → IsGood c (commit replicate (abort_pending c decline expired nonce now) s).1
  unfolding abort_pending abort_of export_replica_snapshot
  abort_pending-IsGood replicate decline expired nonce now s good =
      commit-change-IsGood c replicate _ _ _ s good λ a h.
        let (p, allowed, r) = >>=-eq-ok (abortable s.status s.pending_successor_activation) _ h in
        let (reason, agreed, r') = >>=-eq-ok (abort_reason c p decline expired nonce now) _ r in
        let (e, was_pending, unproved) =
          abortable-ok s.status s.pending_successor_activation allowed in
        let same_p : p ≡ a.0 = ap (λ x. x.0) (ok-injective r') in
        (
          refl,
          record {
            in_memory = good.in_memory;
            lineage_fits = chain_of s activating_successor e good.lineage_fits;
            pending_fits = tt;
            expired_fits = tt;
            pending_continues = tt;
            expired_continues = kept_after-Continues s.lineage s.epoch a.1 a.0 (
                subst (λ q. Continues c s.lineage s.epoch (some q)) same_p
                  (subst (Continues c s.lineage s.epoch) was_pending good.pending_continues));
          },
        )
