-- ===== src/Decision/Vetoes.antt =====
-- src/governance-successor-decision.js: what a packet must show for no veto to fall.
use auth_broker_tee.Base.{
  String, Bool, true, false, List, [], ◌∷◌, ◌≡◌, refl, ◌↔◌, ◌&&◌, All, &&-true, arith,
}
use auth_broker_tee.Json.{Json, str, get, same, truthy}
use auth_broker_tee.Decision.{
  packet_schema, nonce_matches, current_tee, candidate_tee, activation_evidence,
  attestation_evidence, preapproval_evidence, hard_checks, failures_of, veto_failures,
}

-- What the packet must show, part by part.
pub record IsAdmissible (p : Json) : Type 0 where
  pub packet : same (get "schema" p) (str packet_schema) ≡ true
  pub broker :
      (same (get "status" (current_tee p)) (str "active") ≡ true)
      × (truthy (get "lineageDigest" (current_tee p)) ≡ true)
  pub image :
      (same
          (get "imageDigest" (candidate_tee p))
          (get "expectedCandidateImageDigest" (activation_evidence p))
        ≡ true)
      × (same (get "imageDigest" (attestation_evidence p)) (get "imageDigest" (candidate_tee p))
          ≡ true)
  pub fresh :
      (same
          (get "activationNonce" (activation_evidence p))
          (get "expectedActivationNonce" (activation_evidence p))
        ≡ true)
      × (nonce_matches
            (get "eatNonce" (attestation_evidence p))
            (get "activationNonce" (activation_evidence p))
          ≡ true)
  pub workload :
      (same (get "swname" (attestation_evidence p)) (str "CONFIDENTIAL_SPACE") ≡ true)
      × (same (get "dbgstat" (attestation_evidence p)) (str "disabled-since-boot") ≡ true)
  pub evidence :
      (same (get "hardCheckStatus" (candidate_tee p)) (str "passed") ≡ true)
      × (same (get "criticalSourceStatus" (get "evidenceCompleteness" p)) (str "complete") ≡ true)
  pub named :
      (truthy (get "governanceKeyId" (candidate_tee p)) ≡ true)
      × (truthy (get "activationPublicKeyPem" (candidate_tee p)) ≡ true)
  pub preapproval :
      (same (get "aiDecision" (preapproval_evidence p)) (str "APPROVE") ≡ true)
      × (same (get "predecessorEpoch" (preapproval_evidence p)) (get "epoch" (current_tee p))
          ≡ true)
      × (same
            (get "predecessorGovernanceKeyId" (preapproval_evidence p))
            (get "governanceKeyId" (current_tee p))
          ≡ true)

pub failures_of-none :
    (checks : List (Bool × String)) → failures_of checks ≡ [] → All (λ x. x.0 ≡ true) checks
unfolding failures_of
failures_of-none [] h = tt
failures_of-none ((true, m) ∷ rest) h = (refl, failures_of-none rest h)
failures_of-none ((false, m) ∷ rest) h = cc

pub none-failures_of :
    (checks : List (Bool × String)) → All (λ x. x.0 ≡ true) checks → failures_of checks ≡ []
unfolding failures_of
none-failures_of [] h = refl
none-failures_of ((true, m) ∷ rest) h = none-failures_of rest h.1
none-failures_of ((false, m) ∷ rest) h = absurd (ground arith)

both_true : {a b : Bool} → a ≡ true → b ≡ true → (a && b) ≡ true
both_true h k = rw (h, k) refl

admissible : (p : Json) → All (λ x. x.0 ≡ true) (hard_checks p) → IsAdmissible p
unfolding hard_checks
admissible p h = record {
  packet = h.0;
  broker = (h.1.0, h.1.1.0);
  image = (h.1.1.1.0, h.1.1.1.1.1.0);
  fresh = (h.1.1.1.1.0, h.1.1.1.1.1.1.0);
  workload = (h.1.1.1.1.1.1.1.0, h.1.1.1.1.1.1.1.1.0);
  evidence = (h.1.1.1.1.1.1.1.1.1.0, h.1.1.1.1.1.1.1.1.1.1.0);
  named = &&-true _ _ h.1.1.1.1.1.1.1.1.1.1.1.0;
  preapproval =
      (h.1.1.1.1.1.1.1.1.1.1.1.1.0, h.1.1.1.1.1.1.1.1.1.1.1.1.1.0, h.1.1.1.1.1.1.1.1.1.1.1.1.1.1.0);
}

-- No veto falls on a packet exactly if the broker of the packet is active with a lineage, the
-- candidate's image is the expected and the attested one, its attestation is of a Confidential Space
-- without debugging and carries the nonce of the activation, the hard checks passed on complete
-- critical sources, the candidate's keys are there, and the model approved it for this epoch and key.
pub veto_failures_iff : (p : Json) → (veto_failures p ≡ []) ↔ IsAdmissible p
unfolding veto_failures hard_checks
veto_failures_iff p = (
  λ h. admissible p (failures_of-none (hard_checks p) h),
  λ x. none-failures_of (hard_checks p) (
    x.packet,
    (
      x.broker.0,
      (
        x.broker.1,
        (
          x.image.0,
          (
            x.fresh.0,
            (
              x.image.1,
              (
                x.fresh.1,
                (
                  x.workload.0,
                  (
                    x.workload.1,
                    (
                      x.evidence.0,
                      (
                        x.evidence.1,
                        (
                          both_true x.named.0 x.named.1,
                          (x.preapproval.0, (x.preapproval.1, (x.preapproval.2, tt))),
                        ),
                      ),
                    ),
                  ),
                ),
              ),
            ),
          ),
        ),
      ),
    ),
  ),
)
