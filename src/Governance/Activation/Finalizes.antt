-- ===== src/Governance/Activation/Finalizes.antt =====
-- src/governance-state.js: what `finalizeActivation` has established when it returns.
use auth_broker_tee.Base.{
  ℕ, ◌+◌, Bool, true, none, some, [], ◌∷◌, ◌++◌, ◌≡◌, refl, ap, ◌∙◌, subst, sym, ok, guard-ok,
  >>=-eq-ok, arith,
}
use auth_broker_tee.Json.{Json, str, num, get, same, truthy}
use auth_broker_tee.Crypto.{Crypto, verify_governance_envelope}
use auth_broker_tee.Crypto.Envelopes.{IsSignedBy, verify-body}
use auth_broker_tee.Certificates.{activation_proof_schema}
use auth_broker_tee.Governance.{retired, State, PendingActivation, commit, change}
use auth_broker_tee.Governance.Commit.{commit-ok}
use auth_broker_tee.Governance.Returns.{made-ok, then-ok, continue-ok}
use auth_broker_tee.Governance.Activation.{Environment, assert_entries, lineage_digest}
use auth_broker_tee.Governance.Activation.Checks.{check_proof, pending_to_finalize, proved_in_time}
use auth_broker_tee.Governance.Activation.Steps.{
  finalize_activation, retire_found, record_first, retire_for, retirement_for, retire,
  clear_challenges,
}

module _ (c : Crypto) where
  -- A proof, signed by the candidate's key, that the candidate applied the pending activation to the
  -- lineage that the predecessor ends, in the time that its certificate allowed.
  pub record IsProof (s : State) (p : PendingActivation) (proof : Json) : Type 0 where
    pub signed : IsSignedBy c p.candidate_governance_public_key_pem proof (get "payload" proof)
    pub schema : same (get "schema" (get "payload" proof)) (str activation_proof_schema) ≡ true
    pub certificate :
        same (get "successorPayloadDigest" (get "payload" proof)) p.successor_payload_digest ≡ true
    pub nonce : same (get "activationNonce" (get "payload" proof)) (str p.activation_nonce) ≡ true
    pub image :
        same (get "candidateImageDigest" (get "payload" proof)) p.candidate_image_digest ≡ true
    pub lineage :
        same
          (get "lineageDigest" (get "payload" proof))
          (lineage_digest c (s.lineage ++ p.successor_certificate ∷ []))
        ≡ true
    pub epoch : same (get "epoch" (get "payload" proof)) (num (s.epoch + 1)) ≡ true
    pub key :
        same (get "governanceKeyId" (get "payload" proof)) p.candidate_governance_key_id ≡ true
    pub in_time :
        proved_in_time (get "provedAt" (get "payload" proof)) p.issued_at p.expires_at ≡ true

  check_proof-IsProof :
      (s : State) (proof : Json) (now : ℕ) {found : Bool × PendingActivation}
      → check_proof c s proof now ≡ ok found
      → (pending_to_finalize s ≡ ok found) × IsProof s found.1 proof
  unfolding check_proof assert_entries
  check_proof-IsProof s proof now {found} h =
      let (found', e, r) = >>=-eq-ok (pending_to_finalize s) _ h in
      let (there, r1) = guard-ok (truthy found'.1.successor_certificate) _ _ r in
      let (payload, verified, r2) =
        >>=-eq-ok
          (verify_governance_envelope c proof found'.1.candidate_governance_public_key_pem now true)
          _ r1 in
      let (carried, signed, _) =
        verify-body c proof found'.1.candidate_governance_public_key_pem now true verified in
      let same_found : found' ≡ found = ground arith in
      (
        e ∙ ap ok same_found,
        subst (λ x. IsProof s x.1 proof) same_found
            (record {
              signed = signed;
              schema = ground arith;
              certificate = ground arith;
              nonce = ground arith;
              image = ground arith;
              lineage = ground arith;
              epoch = ground arith;
              key = ground arith;
              in_time = ground arith;
            }),
      )

  retire_found-ok :
      (env : Environment) (now : ℕ) (found : Bool × PendingActivation) (proof : Json) (s : State)
      {certificate : Json}
      → (retire_found c env now found proof s).0 ≡ ok certificate
      → ((retire_found c env now found proof s).1.status ≡ retired)
        × ((retire_found c env now found proof s).1.pending_successor_activation ≡ none)
        × ((retire_found c env now found proof s).1.latest_retirement_certificate
            ≡ some certificate)
  unfolding retire_found retire_for change
  retire_found-ok env now found proof s {certificate} h =
      let s1 = (record_first env found proof s).1 in
      let released = commit env.replicate (retire_for c found.1 now) s1 in
      let (u, recorded, e) = continue-ok _ (record_first env found proof s).0 s1 h in
      let (returned, end) =
        then-ok released.0 released.1 (λ _. clear_challenges) (ap (λ x. x.0) (sym e) ∙ h) in
      let (made, _, state) =
        commit-ok env.replicate (retire_for c found.1 now) s1
          (ap (λ r. (r, released.1)) returned) in
      let (b, allowed, same_certificate, next) =
        made-ok s1 retire (λ x. x) (retirement_for c found.1 now s1) made in
      (
        rw (e, end, ← state, next) refl,
        rw (e, end, ← state, next) refl,
        rw (e, end, ← state, next) (ap some same_certificate),
      )

  -- A predecessor that finalizes has retired with the retirement certificate that it returns, and
  -- it had the proof: signed by the key of the candidate that it was activating, or whose
  -- activation had only expired, for that very certificate, on the lineage that ends with it, and
  -- made while the certificate was valid, up to the clock skew.
  pub finalize_activation-proved :
      (env : Environment) (proof : Json) (now : ℕ) (s : State) {certificate : Json}
      → (finalize_activation c env proof now s).0 ≡ ok certificate
      → (found : Bool × PendingActivation) × (pending_to_finalize s ≡ ok found)
        × IsProof s found.1 proof
        × ((finalize_activation c env proof now s).1.status ≡ retired)
        × ((finalize_activation c env proof now s).1.pending_successor_activation ≡ none)
        × ((finalize_activation c env proof now s).1.latest_retirement_certificate
            ≡ some certificate)
  unfolding finalize_activation
  finalize_activation-proved env proof now s h =
      let (found, checked, e) =
        continue-ok (λ x. retire_found c env now x proof) (check_proof c s proof now) s h in
      let (was, is_proof) = check_proof-IsProof s proof now checked in
      let (status, pending, kept) =
        retire_found-ok env now found proof s (ap (λ x. x.0) (sym e) ∙ h) in
      (found, was, is_proof, rw e status, rw e pending, rw e kept)
