-- ===== src/Certificates/Lineage.antt =====
-- What `verifyLineage` accepts: an unbroken chain of keys and epochs from the genesis certificate.
use mathlib.Core.List.{append-nil, append_assoc}
use auth_broker_tee.Base.{
  ℕ, ◌+◌, String, Bool, true, false, List, [], ◌∷◌, ◌++◌, ◌&&◌, ◌≡◌, refl, ◌∙◌, Result, ok, err,
  ◌>>=◌, >>=-eq-ok, arith, length, length-append, subst, sym, ◌⊎◌, inl, inr,
}
use auth_broker_tee.Json.{Json, str, num, get, same}
use auth_broker_tee.Crypto.{Crypto, verify_governance_envelope, is_expired}
use auth_broker_tee.Crypto.Envelopes.{IsSignedBy, verify-body, IsSignedBy-verify}
use auth_broker_tee.Certificates.{
  genesis_schema, successor_schema, Verified, verify_successor, verify_successors, verify_genesis,
  verify_lineage, last,
}

abbrev pub body : Json → Json
body envelope = get "payload" envelope

abbrev pub is_genesis : Json → Bool
is_genesis payload =
    same (get "schema" payload) (str genesis_schema) && same (get "epoch" payload) (num 1)

abbrev pub succeeds : ℕ → Json → Bool
succeeds n payload =
    same (get "predecessorEpoch" payload) (num n)
    && same (get "successorEpoch" payload) (num (n + 1))

Result-cases {ℓ} :
    {A : Type ℓ} (r : Result A) → ((a : A) × (r ≡ ok a)) ⊎ ((m : String) × (r ≡ err m))
Result-cases (ok a) = inl (a, refl)
Result-cases (err m) = inr (m, refl)

bind_ok {ℓ} : {A : Type ℓ} (r : Result A) → (r >>= λ a. ok a) ≡ r
bind_ok (ok a) = refl
bind_ok (err m) = refl

drop_guard {ℓ κ} :
    {A : Type ℓ} {B : Type κ} (r : Result A) (f : A → Result B)
    → ((r >>= f) >>= λ b. ok b) ≡ ((r >>= λ a. ok a) >>= f)
drop_guard (ok a) f = bind_ok (f a)
drop_guard (err m) f = refl

module _ (c : Crypto) where
  -- A chain with its epoch and its current key: the genesis certificate is signed by the key that it
  -- names, and each successor certificate by the key before it, for the next epoch.
  pub data Chain : List Json → ℕ → Json → Type 0 where
    genesis :
        {l : List Json} {n : ℕ} {pem : Json} (envelope : Json)
        → l ≡ envelope ∷ []
        → n ≡ 1
        → pem ≡ get "governancePublicKeyPem" (body envelope)
        → IsSignedBy c pem envelope (body envelope)
        → is_genesis (body envelope) ≡ true
        → Chain l n pem
    succeeded :
        {l l' : List Json} {n n' : ℕ} {pem pem' : Json} (certificate : Json)
        → Chain l n pem
        → l' ≡ l ++ certificate ∷ []
        → n' ≡ n + 1
        → pem' ≡ get "successorGovernancePublicKeyPem" (body certificate)
        → IsSignedBy c pem certificate (body certificate)
        → same (get "schema" (body certificate)) (str successor_schema) ≡ true
        → succeeds n (body certificate) ≡ true
        → Chain l' n' pem'

  module _ (now : ℕ) where
    abbrev ChainOf : List Json → Verified → Type 0
    ChainOf l v = Chain l v.current_epoch v.current_governance_public_key_pem

    verify_genesis-Chain :
        (g : Json) {v : Verified} → verify_genesis c now g ≡ ok v → ChainOf (g ∷ []) v
    unfolding verify_genesis
    verify_genesis-Chain g {v} h =
        let key = get "governancePublicKeyPem" (body g) in
        let (payload, verified, r) = >>=-eq-ok (verify_governance_envelope c g key now false) _ h in
        let (carried, s, _) = verify-body c g key now false verified in
        let named : v.current_governance_public_key_pem ≡ key = ground arith in
        genesis g refl (ground arith) named (rw named s) (ground arith)

    verify_successor-Chain :
        (l : List Json) (x : Json) (v : Verified) {v' : Verified}
        → ChainOf l v
        → verify_successor c now v x ≡ ok v'
        → ChainOf (l ++ x ∷ []) v'
    unfolding verify_successor
    verify_successor-Chain l x v {v'} before h =
        let key = v.current_governance_public_key_pem in
        let (payload, verified, r) = >>=-eq-ok (verify_governance_envelope c x key now false) _ h in
        let (carried, s, _) = verify-body c x key now false verified in
        succeeded x before refl (ground arith) (ground arith) s (ground arith) (ground arith)

    verify_successors-Chain :
        (l xs : List Json) (v : Verified) {v' : Verified}
        → ChainOf l v
        → verify_successors c now v xs ≡ ok v'
        → ChainOf (l ++ xs) v'
    unfolding verify_successors
    verify_successors-Chain l [] v {v'} before h =
        let same_end : v ≡ v' = ground arith in rw append-nil (subst (ChainOf l) same_end before)
    verify_successors-Chain l (x ∷ xs) v {v'} before h =
        let (v1, first, r) = >>=-eq-ok (verify_successor c now v x) _ h in
        subst (λ k. ChainOf k v') (append_assoc l (x ∷ []) xs)
          (verify_successors-Chain (l ++ x ∷ []) xs v1 (verify_successor-Chain l x v before first)
            r)

    -- An accepted lineage is a chain, whose epoch and key are those returned, and where the test
    -- of the last expiry is asked for, the last certificate has not expired.
    pub verify_lineage-Chain :
        (l : List Json) (enforce : Bool) {v : Verified}
        → verify_lineage c now l enforce ≡ ok v
        → ChainOf l v × ((enforce && is_expired (body (last l)) now) ≡ false)
    unfolding verify_lineage
    verify_lineage-Chain [] enforce h = absurd (ground arith)
    verify_lineage-Chain (g ∷ rest) enforce {v} h =
        let (v0, first, r) = >>=-eq-ok (verify_genesis c now g) _ h in
        let (v1, others, r') = >>=-eq-ok (verify_successors c now v0 rest) _ r in
        let same_end : v1 ≡ v = ground arith in
        (
          subst (ChainOf (g ∷ rest)) same_end
              (verify_successors-Chain (g ∷ []) rest v0 (verify_genesis-Chain g first) others),
          ground arith,
        )

    verify_successors-append :
        (v : Verified) (xs : List Json) (x : Json)
        → verify_successors c now v (xs ++ x ∷ [])
          ≡ (verify_successors c now v xs >>= λ v'. verify_successor c now v' x)
    unfolding verify_successors
    verify_successors-append v [] x = ground arith
    verify_successors-append v (y ∷ ys) x = elim (Result-cases (verify_successor c now v y)) [
      | inl (v', e) ↦ rw e (verify_successors-append v' ys x)
      | inr (m, e) ↦ rw e
    ]

    -- Without the test of the last expiry, a lineage with one more certificate is accepted as far as
    -- the lineage before it is, and the certificate succeeds it.
    pub verify_lineage-append :
        (g : Json) (xs : List Json) (x : Json)
        → verify_lineage c now (g ∷ xs ++ x ∷ []) false
          ≡ (verify_lineage c now (g ∷ xs) false >>= λ v. verify_successor c now v x)
    unfolding verify_lineage
    verify_lineage-append g xs x = elim (Result-cases (verify_genesis c now g)) [
      | inl (v, e) ↦
          rw (e, verify_successors-append v xs x) (drop_guard (verify_successors c now v xs) _)
      | inr (m, e) ↦ rw e
    ]

    Chain-cons :
        {l : List Json} {n : ℕ} {pem : Json}
        → Chain l n pem
        → (g : Json) × (xs : List Json) × (l ≡ g ∷ xs)
    Chain-cons (genesis envelope e _ _ _ _) = (envelope, [], e)
    Chain-cons (succeeded certificate before e _ _ _ _ _) =
        let (g, xs, e') = Chain-cons before in (g, xs ++ certificate ∷ [], rw (e, e'))

    verify_successor-accepts :
        (v : Verified) (x : Json)
        → IsSignedBy c v.current_governance_public_key_pem x (body x)
        → same (get "schema" (body x)) (str successor_schema) ≡ true
        → succeeds v.current_epoch (body x) ≡ true
        → verify_successor c now v x
          ≡ ok (record {
            current_epoch = v.current_epoch + 1;
            current_governance_public_key_pem = get "successorGovernancePublicKeyPem" (body x);
            certificates = v.certificates ++ body x ∷ [];
          })
    unfolding verify_successor
    verify_successor-accepts v x s schema t =
        rw (IsSignedBy-verify c x _ (body x) now false s refl) (rw schema (rw t))

    -- Every chain is accepted where the test of the last expiry is not asked for, and the epoch
    -- and the key that are returned are the chain's.
    pub Chain-verify_lineage :
        {l : List Json} {n : ℕ} {pem : Json}
        → Chain l n pem
        → (v : Verified) × (verify_lineage c now l false ≡ ok v)
          × (v.current_epoch ≡ n)
          × (v.current_governance_public_key_pem ≡ pem)
    unfolding verify_lineage verify_genesis verify_successors
    Chain-verify_lineage (genesis {pem = pem} envelope e one named s t) =
        let accepted = IsSignedBy-verify c envelope pem (body envelope) now false s refl in
        (
          record {
            current_epoch = 1;
            current_governance_public_key_pem = get "governancePublicKeyPem" (body envelope);
            certificates = body envelope ∷ [];
          },
          rw e (rw (rw named at accepted, t)),
          sym one,
          sym named,
        )
    Chain-verify_lineage
          (succeeded {n = n} {pem = pem} certificate before e next named s schema t) =
        let (v, accepted, same_n, same_pem) = Chain-verify_lineage before in
        let (g, xs, e') = Chain-cons before in
        let step = verify_successor-accepts v certificate (rw same_pem s) schema (rw same_n t) in
        (
          record {
            current_epoch = v.current_epoch + 1;
            current_governance_public_key_pem =
                get "successorGovernancePublicKeyPem" (body certificate);
            certificates = v.certificates ++ body certificate ∷ [];
          },
          rw (e, e') (verify_lineage-append g xs certificate ∙ rw (rw e' at accepted) step),
          rw (same_n, next),
          sym named,
        )

  -- The epoch counts the certificates.
  pub Chain-length : {l : List Json} {n : ℕ} {pem : Json} → Chain l n pem → n ≡ length l
  Chain-length (genesis envelope e one _ _ _) = rw e one
  Chain-length (succeeded {l = l} certificate before e next _ _ _ _) =
      rw (e, length-append l (certificate ∷ [])) (omega (arith, Chain-length before))
