-- ===== src/Governance/Activation/Aborts.antt =====
-- src/governance-state.js: when `abortActivation` may bring the predecessor back to active.
use auth_broker_tee.Base.{
  if◌then◌else◌, str_eq, ℕ, String, Bool, true, false, Option, none, some, ◌&&◌, not, ◌≡◌, refl, ap,
  subst, ◌∙◌, ok, >>=-eq-ok, ok-injective, guard-ok, eq_iff, arith,
}
use auth_broker_tee.Json.{Json, str, get, same, date_parse}
use auth_broker_tee.Crypto.{Crypto, verify_governance_envelope}
use auth_broker_tee.Crypto.Envelopes.{IsSignedBy, verify-body}
use auth_broker_tee.Governance.{
  active, activating_successor, State, PendingActivation, commit, change,
}
use auth_broker_tee.Governance.Commit.{commit-ok}
use auth_broker_tee.Governance.Returns.{made-ok, then-ok}
use auth_broker_tee.Governance.Activation.{Environment, decline_schema}
use auth_broker_tee.Governance.Activation.Checks.{abort_reason, names, too_early}
use auth_broker_tee.Governance.Activation.Steps.{
  abort_pending, abort_of, abortable, kept_after, abort_activation, abort, forget_challenge,
}
use auth_broker_tee.Governance.Activation.Preserves.{abortable-ok}

module _ (c : Crypto) where
  -- A decline of this activation, signed by the candidate's key.
  pub record IsDecline (p : PendingActivation) (decline : Json) : Type 0 where
    pub signed : IsSignedBy c p.candidate_governance_public_key_pem decline (get "payload" decline)
    pub schema : same (get "schema" (get "payload" decline)) (str decline_schema) ≡ true
    pub nonce : same (get "activationNonce" (get "payload" decline)) (str p.activation_nonce) ≡ true
    pub key :
        same (get "governanceKeyId" (get "payload" decline)) p.candidate_governance_key_id ≡ true
    pub image :
        same (get "candidateImageDigest" (get "payload" decline)) p.candidate_image_digest ≡ true

  -- Why an activation may be aborted.
  pub data MayAbort (p : PendingActivation) (decline : Option Json) (requested : Option String)
      (now : ℕ) : String → Type 0 where
    by_candidate :
        (statement : Json)
        → decline ≡ some statement
        → IsDecline p statement
        → MayAbort p decline requested now "declined"
    by_expiry :
        decline ≡ none
        → requested ≡ some p.activation_nonce
        → too_early (date_parse p.expires_at) now ≡ false
        → MayAbort p decline requested now "expired"

  abbrev IsDeclineOf : PendingActivation → Json → Type 0
  IsDeclineOf p payload =
      (same (get "schema" payload) (str decline_schema)
        && same (get "activationNonce" payload) (str p.activation_nonce)
        && same (get "governanceKeyId" payload) p.candidate_governance_key_id
        && same (get "candidateImageDigest" payload) p.candidate_image_digest)
      ≡ true

  IsDecline-of :
      (p : PendingActivation) (decline : Json)
      → IsSignedBy c p.candidate_governance_public_key_pem decline (get "payload" decline)
      → IsDeclineOf p (get "payload" decline)
      → IsDecline p decline
  IsDecline-of p decline s h = record {
    signed = s;
    schema = ground arith;
    nonce = ground arith;
    key = ground arith;
    image = ground arith;
  }

  named_nonce :
      (requested : Option String) (nonce : String)
      → names requested nonce ≡ true
      → requested ≡ some nonce
  unfolding names
  named_nonce (some n) nonce h = ap some ((eq_iff n nonce).0 h)
  named_nonce none nonce h = cc

  abort_reason-MayAbort :
      (p : PendingActivation) (decline : Option Json) (expired : Bool) (requested : Option String)
      (now : ℕ) {reason : String}
      → abort_reason c p decline expired requested now ≡ ok reason
      → MayAbort p decline requested now reason
  unfolding abort_reason
  abort_reason-MayAbort p (some decline) expired requested now {reason} h =
      let (payload, verified, r) =
        >>=-eq-ok
          (verify_governance_envelope c decline p.candidate_governance_public_key_pem now false) _
          h in
      let (carried, signed, _) =
        verify-body c decline p.candidate_governance_public_key_pem now false verified in
      let (matched, r') =
        guard-ok
          (same (get "schema" payload) (str decline_schema)
            && same (get "activationNonce" payload) (str p.activation_nonce)
            && same (get "governanceKeyId" payload) p.candidate_governance_key_id
            && same (get "candidateImageDigest" payload) p.candidate_image_digest)
          _ _ r in
      subst (MayAbort p (some decline) requested now) (ok-injective r') (
        by_candidate decline refl
          (IsDecline-of p decline signed (subst (IsDeclineOf p) carried matched)))
  abort_reason-MayAbort p none true requested now {reason} h =
      let (named, r) = guard-ok (names requested p.activation_nonce) _ _ h in
      let (late, r') = guard-ok (not (too_early (date_parse p.expires_at) now)) _ _ r in
      subst (MayAbort p none requested now) (ok-injective r')
        (by_expiry refl (named_nonce requested p.activation_nonce named) (ground arith))
  abort_reason-MayAbort p none false requested now h = cc

  abort_of-ok :
      (decline : Option Json) (expired : Bool) (requested : Option String) (now : ℕ) (s : State)
      {a : PendingActivation × String}
      → abort_of c decline expired requested now s ≡ ok a
      → (abortable s.status s.pending_successor_activation ≡ ok a.0)
        × MayAbort a.0 decline requested now a.1
  unfolding abort_of
  abort_of-ok decline expired requested now s {a} h =
      let (p, found, r) = >>=-eq-ok (abortable s.status s.pending_successor_activation) _ h in
      let (reason, agreed, r') = >>=-eq-ok (abort_reason c p decline expired requested now) _ r in
      let e = ok-injective r' in
      (
        found ∙ ap (λ x. ok x.0) e,
        subst (λ x. MayAbort x.0 decline requested now x.1) e
            (abort_reason-MayAbort p decline expired requested now agreed),
      )

  -- An abort that returns aborts the activation that was pending, of which no proof had been seen:
  -- either its candidate signed a decline of it, or the request names it and the time is not
  -- before its expiry and the grace period, where its expiry is a date. The predecessor is then
  -- active with nothing pending, and what stays finalizable is the activation that was aborted on
  -- expiry.
  pub abort_activation-authorized :
      (env : Environment) (decline : Option Json) (expired : Bool) (requested : Option String)
      (now : ℕ) (s : State) {nonce : String}
      → (abort_activation c env decline expired requested now s).0 ≡ ok nonce
      → (p : PendingActivation) × (reason : String) × (s.status ≡ activating_successor)
        × (s.pending_successor_activation ≡ some p)
        × (p.activation_proof ≡ none)
        × (p.activation_nonce ≡ nonce)
        × MayAbort p decline requested now reason
        × ((abort_activation c env decline expired requested now s).1.status ≡ active)
        × ((abort_activation c env decline expired requested now s).1.pending_successor_activation
            ≡ none)
        × ((abort_activation c env decline expired requested now s).1.expired_successor_activation
            ≡ (if str_eq reason "expired" then some p else none))
  unfolding abort_activation abort_pending change kept_after
  abort_activation-authorized env decline expired requested now s {nonce} h =
      let released = commit env.replicate (abort_pending c decline expired requested now) s in
      let (returned, end) = then-ok released.0 released.1 forget_challenge h in
      let (made, _, state) =
        commit-ok env.replicate (abort_pending c decline expired requested now) s
          (ap (λ r. (r, released.1)) returned) in
      let (a, found, named, next) =
        made-ok s (λ x. abort x.1 x.0 now) (λ x. x.0.activation_nonce)
          (abort_of c decline expired requested now s) made in
      let (pending, agreed) = abort_of-ok decline expired requested now s found in
      let (was, some_pending, unproved) =
        abortable-ok s.status s.pending_successor_activation pending in
      (
        a.0,
        a.1,
        was,
        some_pending,
        unproved,
        named,
        agreed,
        rw (end, ← state, next) refl,
        rw (end, ← state, next) refl,
        rw (end, ← state, next) refl,
      )
