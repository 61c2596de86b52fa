-- ===== src/Governance/Activation/Applied.antt =====
-- The candidate's `applyActivationBundle` keeps the invariant of the state.
use auth_broker_tee.Governance.Activation.Operations.{continue-IsGood}
use auth_broker_tee.Base.{
  ℕ, true, Option, none, some, List, ◌≡◌, refl, sym, subst, ◌&&◌, length, arith, Result, ok, err,
  guard-ok, >>=-eq-ok, ok-injective, &&-true,
}
use auth_broker_tee.Json.{Json, str, same, same-str}
use auth_broker_tee.Crypto.{Crypto, IsSound}
use auth_broker_tee.Certificates.{verify_lineage}
use auth_broker_tee.Certificates.Lineage.{Chain, verify_lineage-Chain, Chain-length}
use auth_broker_tee.Governance.{
  active, inactive, State, PendingActivation, continue, export_replica_snapshot, change, changed,
}
use auth_broker_tee.Governance.Sealing.{Cipher}
use auth_broker_tee.Governance.Invariant.{
  IsGood, Continues, PendingFits, ExpiredFits, commit-IsGood,
}
use auth_broker_tee.Governance.Activation.{Environment, is_status, is_empty}
use auth_broker_tee.Governance.Activation.Checks.{
  ApplyRequest, Transferred, open_bundle, check_bundle, decrypt_bundle, transferred_of,
}
use auth_broker_tee.Governance.Activation.Steps.{
  apply_activation_bundle, apply_transferred, may_apply, sign_proof, keep_proof, install,
}
use auth_broker_tee.Governance.Activation.Preserves.{eq_of_is_status}

module _ (c : Crypto) (sound : IsSound c) where
  -- What is opened is a lineage that ends with the own key.
  pub open_bundle-Chain :
      (z : Cipher) (env : Environment) (s : State) (r : ApplyRequest) (now : ℕ) {t : Transferred}
      → open_bundle c z env s r now ≡ ok t
      → Chain c t.lineage (length t.lineage) (str s.key_material.governance_public_key_pem)
  unfolding open_bundle
  open_bundle-Chain z env s r now {t} h =
      let (u, checked, h1) = >>=-eq-ok (check_bundle c env s r) _ h in
      let (plain, opened, h2) = >>=-eq-ok (decrypt_bundle c z s r) _ h1 in
      let (t', read, h3) = >>=-eq-ok (transferred_of c plain) _ h2 in
      let (v, verified, h4) = >>=-eq-ok (verify_lineage c now t'.lineage true) _ h3 in
      let same_t : t' ≡ t = ground arith in
      let own : same v.current_governance_public_key_pem
            (str s.key_material.governance_public_key_pem)
          ≡ true =
        ground arith in
      let chain = (verify_lineage-Chain c now t'.lineage true verified).0 in
      subst
        (λ x. Chain c x.lineage (length x.lineage) (str s.key_material.governance_public_key_pem))
        same_t
        (subst (λ n. Chain c t'.lineage n (str s.key_material.governance_public_key_pem))
          (Chain-length c chain)
          (subst (Chain c t'.lineage v.current_epoch)
            (same-str v.current_governance_public_key_pem s.key_material.governance_public_key_pem
              own)
            chain))

  fresh-PendingFits : (p : Option PendingActivation) → PendingFits inactive p → PendingFits active p
  fresh-PendingFits none f = f
  fresh-PendingFits (some p) f = f

  no_longer-Continues :
      (l : List Json) (n : ℕ) (p : Option PendingActivation)
      → PendingFits inactive p
      → Continues c l n p
  no_longer-Continues l n none f = tt
  no_longer-Continues l n (some p) f = absurd f

  expired-fits :
      (l : List Json) (n : ℕ) (p : Option PendingActivation)
      → ExpiredFits inactive p
      → Continues c l n p
  expired-fits l n none f = tt
  expired-fits l n (some p) f = absurd f

  -- The state of a successor is good once the bundle is applied.
  applied-IsGood :
      (r : ApplyRequest) (t : Transferred) (now : ℕ) (s : State)
      → Chain c t.lineage t.epoch (str s.key_material.governance_public_key_pem)
      → IsGood c s
      → may_apply r s ≡ ok tt
      → (proof : Json) → IsGood c (keep_proof proof (install t r.successor_certificate s))
  unfolding may_apply export_replica_snapshot
  applied-IsGood r t now s chain good h proof =
      let e =
        eq_of_is_status s.status inactive
          (&&-true _ (is_empty s.lineage)
            (guard-ok (is_status s.status inactive && is_empty s.lineage) _ _ h).0).0 in
      let none_pending =
        subst (λ st. PendingFits st s.pending_successor_activation) e good.pending_fits in
      record {
        in_memory = good.in_memory;
        lineage_fits = chain;
        pending_fits = fresh-PendingFits s.pending_successor_activation none_pending;
        expired_fits = tt;
        pending_continues =
            no_longer-Continues t.lineage t.epoch s.pending_successor_activation none_pending;
        expired_continues =
            expired-fits t.lineage t.epoch s.expired_successor_activation
              (subst (λ st. ExpiredFits st s.expired_successor_activation) e good.expired_fits);
      }

  apply_transferred-key :
      (z : Cipher) (r : ApplyRequest) (t : Transferred) (now : ℕ) (s : State)
      → s.key_material ≡ (apply_transferred c z r t now s).1.key_material
  unfolding apply_transferred continue change changed
  apply_transferred-key z r t now s = ground arith

  changed-kept :
      (s : State) (r : Result Json) {proof : Json}
      → (changed s keep_proof (λ b. b) r).0 ≡ ok proof
      → (changed s keep_proof (λ b. b) r).1 ≡ keep_proof proof s
  unfolding changed
  changed-kept s (ok b) h = rw (ok-injective h) refl
  changed-kept s (err e) h = cc

  applied-kept :
      (z : Cipher) (r : ApplyRequest) (t : Transferred) (now : ℕ) (s : State)
      (r1 : Result (Unit {0})) {proof : Json}
      → (continue
          (λ _ s'.
            change
              (sign_proof c z r t now)
              keep_proof
              (λ _ p. p)
              (install t r.successor_certificate s'))
          r1
          s).0
        ≡ ok proof
      → (r1 ≡ ok tt)
        × ((continue
              (λ _ s'.
                change
                  (sign_proof c z r t now)
                  keep_proof
                  (λ _ p. p)
                  (install t r.successor_certificate s'))
              r1
              s).1
            ≡ keep_proof proof (install t r.successor_certificate s))
  unfolding continue change
  applied-kept z r t now s (ok u) h =
      (refl, changed-kept _ (sign_proof c z r t now (install t r.successor_certificate s)) h)
  applied-kept z r t now s (err e) h = absurd (ground arith)

  apply_transferred-IsGood :
      (z : Cipher) (r : ApplyRequest) (t : Transferred) (now : ℕ) (s : State) {proof : Json}
      → Chain c t.lineage t.epoch (str s.key_material.governance_public_key_pem)
      → IsGood c s
      → (apply_transferred c z r t now s).0 ≡ ok proof
      → IsGood c (apply_transferred c z r t now s).1
  unfolding apply_transferred
  apply_transferred-IsGood z r t now s {proof} chain good h =
      let (allowed, end) = applied-kept z r t now s (may_apply r s) h in
      rw end (applied-IsGood r t now s chain good allowed proof)

  -- Applying a bundle keeps the state good, if the epoch in it counts the certificates in it.
  pub apply_activation_bundle-IsGood :
      (z : Cipher) (env : Environment) (r : ApplyRequest) (now : ℕ) (s : State)
      → ((t : Transferred) → open_bundle c z env s r now ≡ ok t → t.epoch ≡ length t.lineage)
      → IsGood c s
      → IsGood c (apply_activation_bundle c z env r now s).1
  unfolding apply_activation_bundle
  apply_activation_bundle-IsGood z env r now s honest good =
      continue-IsGood c sound _ _ s good λ t h.
        let chain =
          subst (λ n. Chain c t.lineage n (str s.key_material.governance_public_key_pem))
            (sym (honest t h)) (open_bundle-Chain z env s r now h) in
        commit-IsGood c env.replicate (apply_transferred c z r t now) s good
          (apply_transferred-key z r t now s)
          (λ proof returned. apply_transferred-IsGood z r t now s chain good returned)
