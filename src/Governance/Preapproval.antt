-- ===== src/Governance/Preapproval.antt =====
-- src/governance-state.js: preapprovals, the adjudications of a replica before its genesis, and the
-- commit that changes nothing. Monitoring events are left out.
use auth_broker_tee.Base.{
  ℕ, ◌≤◌, String, Bool, true, false, Option, none, some, List, [], ◌∷◌, ◌&&◌, ◌||◌, not, ltb,
  length, insert, ◌≡◌, ap, Result, ok, ◌>>◌, guard, if◌then◌else◌, arith, >>=-eq-ok, Bool-cases,
  inl, inr, sym, ◌∙◌, subst,
}
use auth_broker_tee.Json.{Json, str, get, same, truthy, date_parse}
use auth_broker_tee.Crypto.{Crypto}
use auth_broker_tee.Certificates.{has_items}
use auth_broker_tee.Certificates.Preapproved.{
  IsPreapprovalOf, sign_preapproval_certificate-IsPreapprovalOf,
}
use auth_broker_tee.Certificates.Signing.{Authorization, sign_preapproval_certificate}
use auth_broker_tee.Certificates.{ReviewPolicy}
use auth_broker_tee.Governance.{active, inactive, State, M, change, continue, commit}
use auth_broker_tee.Governance.Commit.{commit-ok}
use auth_broker_tee.Governance.Returns.{made-ok, continue-ok}
use auth_broker_tee.Governance.Activation.{is_status, is_empty, assert_active}
use auth_broker_tee.Governance.Activation.Steps.{
  keep_newest, note_readiness, activation_readiness_limit,
}

-- `Date.parse(expiresAt) > Date.now()`; a comparison with NaN fails.
unfoldable pub is_after : Option ℕ → ℕ → Bool
is_after none now = false
is_after (some t) now = ltb now t

unfoldable pub is_live : Json → Json → ℕ → Bool
unfolding is_after
is_live proposal digest now =
    same (get "payloadDigest" proposal) digest
    && (not (truthy (get "expiresAt" (get "payload" proposal)))
        || is_after (date_parse (get "expiresAt" (get "payload" proposal))) now)

unfoldable pub some_live : List Json → Json → ℕ → Bool
some_live [] digest now = false
some_live (proposal ∷ rest) digest now = is_live proposal digest now || some_live rest digest now

-- `assertCandidateSelfHealingProposalIsLive`
unfoldable pub assert_proposal_is_live : Json → ℕ → State → Result (Unit {0})
assert_proposal_is_live candidate now s =
    guard
      (not (truthy (get "selfHealingProposalDigest" candidate))
        || some_live s.self_healing_proposals (get "selfHealingProposalDigest" candidate) now)
      "candidate references missing or expired self-healing proposal"

abbrev pub keep_preapproval : Json → State → State
keep_preapproval envelope s = record s { latest_preapproval = some envelope }

abbrev pub nothing_to_check : State → Result (Unit {0})
nothing_to_check s = ok tt

module _ (c : Crypto) (policy : ReviewPolicy) where
  -- What is signed before the commit of `issuePreapprovalCertificate`.
  unfoldable pub sign_preapproval :
      Json → Json → Json → Json → Authorization → ℕ → State → Result Json
  sign_preapproval candidate checks decision response_digest by now s = do
    assert_active s
    assert_proposal_is_live candidate now s
    sign_preapproval_certificate c policy s.key_material s.epoch candidate checks decision
        response_digest by now

  -- `issuePreapprovalCertificate`: the envelope.
  unfoldable pub issue_preapproval_certificate :
      (State → Result (Unit {0})) → Json → Json → Json → Json → Authorization → ℕ → M Json
  issue_preapproval_certificate replicate candidate checks decision response_digest by now s =
      continue
        (λ envelope.
          commit replicate
            (change nothing_to_check (λ _. keep_preapproval envelope) (λ _ _. envelope)))
        (sign_preapproval candidate checks decision response_digest by now s) s

-- `replicateGovernanceState`
unfoldable pub replicate_governance_state : (State → Result (Unit {0})) → M (Unit {0})
replicate_governance_state replicate =
    commit replicate (change nothing_to_check (λ _ s. s) (λ _ _. tt))

abbrev pub genesis_self_adjudication_limit : ℕ
genesis_self_adjudication_limit = 8

-- `recordGenesisSelfAdjudication`: whether it was recorded, and the state.
unfoldable pub record_genesis_self_adjudication : String → Json → State → Bool × State
record_genesis_self_adjudication digest expires_at s =
    if is_status s.status inactive && is_empty s.lineage
    then (
      true,
      record s {
        genesis_self_adjudications =
            keep_newest genesis_self_adjudication_limit
              (insert digest expires_at s.genesis_self_adjudications);
      },
    )
    else (false, s)

keep_newest-length {ℓ} :
    {A : Type ℓ} (limit : ℕ) (xs : List A) → length (keep_newest limit xs) ≤ limit
unfolding keep_newest
keep_newest-length limit [] = omega arith
keep_newest-length limit (x ∷ xs) = ground (arith, keep_newest-length limit xs)

-- However often a replica records adjudications before its genesis, and readiness statements, it keeps
-- at most eight of each.
pub record_genesis_self_adjudication-bounded :
    (digest : String) (expires_at : Json) (nonce : String) (now : ℕ) (s : State)
    → length s.genesis_self_adjudications ≤ genesis_self_adjudication_limit
    → (length (record_genesis_self_adjudication digest expires_at s).1.genesis_self_adjudications
        ≤ genesis_self_adjudication_limit)
      × (length (note_readiness nonce now s).activation_readiness ≤ activation_readiness_limit)
unfolding record_genesis_self_adjudication
record_genesis_self_adjudication-bounded digest expires_at nonce now s h =
    elim (Bool-cases (is_status s.status inactive && is_empty s.lineage)) [
      | inl e ↦ (rw e (keep_newest-length 8 _), keep_newest-length 8 _)
      | inr e ↦ (rw e h, keep_newest-length 8 _)
    ]

module _ (c : Crypto) (policy : ReviewPolicy) where
  -- A preapproval that is issued was signed by active governance for a candidate that the model
  -- approved without a violated principle and whose hard checks passed, whose proposal, if it names
  -- one, was open; it certifies this candidate's image, source tree and filesystem digests, its checks
  -- and its proposal for the epoch, as the request that authorized it did; and the state keeps it.
  pub issue_preapproval_certificate-approved :
      (replicate : State → Result (Unit {0})) (candidate checks decision response_digest : Json)
      (by : Authorization) (now : ℕ) (s : State) {envelope : Json}
      → (issue_preapproval_certificate c policy replicate candidate checks decision response_digest
          by now s).0
        ≡ ok envelope
      → (is_status s.status active ≡ true)
        × (same (get "decision" decision) (str "APPROVE") ≡ true)
        × (has_items (get "violatedPrinciples" decision) ≡ false)
        × (same (get "status" checks) (str "passed") ≡ true)
        × ((not (truthy (get "selfHealingProposalDigest" candidate))
              || some_live s.self_healing_proposals (get "selfHealingProposalDigest" candidate) now)
            ≡ true)
        × ((issue_preapproval_certificate c policy replicate candidate checks decision
              response_digest by now s).1.latest_preapproval
            ≡ some envelope)
        × IsPreapprovalOf c policy s.key_material s.epoch candidate checks by now envelope
  unfolding issue_preapproval_certificate change sign_preapproval assert_active
      assert_proposal_is_live sign_preapproval_certificate
  issue_preapproval_certificate-approved replicate candidate checks decision response_digest by now
        s {envelope} h =
      let (signed_one, signed, e) =
        continue-ok
          (λ x. commit replicate (change nothing_to_check (λ _. keep_preapproval x) (λ _ _. x)))
          (sign_preapproval c policy candidate checks decision response_digest by now s) s h in
      let (u, was_active, r) = >>=-eq-ok (assert_active s) _ signed in
      let (u', live, r1) = >>=-eq-ok (assert_proposal_is_live candidate now s) _ r in
      let released =
        commit replicate
          (change nothing_to_check (λ _. keep_preapproval signed_one) (λ _ _. signed_one)) s in
      let (made, _, state) =
        commit-ok replicate
          (change nothing_to_check (λ _. keep_preapproval signed_one) (λ _ _. signed_one)) s
          (ap (λ x. (x, released.1)) (ap (λ x. x.0) (sym e) ∙ h)) in
      let (_, _, named, _) =
        made-ok s (λ _. keep_preapproval signed_one) (λ _. signed_one) (nothing_to_check s) made in
      (
        ground arith,
        ground arith,
        ground arith,
        ground arith,
        ground arith,
        rw (e, ← state) (ap some named),
        subst (IsPreapprovalOf c policy s.key_material s.epoch candidate checks by now) named (
            sign_preapproval_certificate-IsPreapprovalOf c policy s.key_material s.epoch candidate
              checks decision response_digest by now r1),
      )
