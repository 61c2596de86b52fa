-- ===== src/Governance/Invariant.antt =====
-- What holds of the state between any two operations, and that the handoff keeps it.
use auth_broker_tee.Base.{
  ℕ, ◌+◌, String, Option, none, some, List, [], ◌∷◌, ◌++◌, ◌≡◌, refl, sym, subst, Result, ok, err,
}
use auth_broker_tee.Json.{Json, str}
use auth_broker_tee.Crypto.{Crypto, KeyMaterial}
use auth_broker_tee.Crypto.Envelopes.{IsInMemory}
use auth_broker_tee.Certificates.Lineage.{Chain}
use auth_broker_tee.Governance.{
  Status, active, inactive, activating_successor, retired, State, Snapshot, PendingActivation, M,
  change, changed, commit, settle, export_replica_snapshot,
}

-- An activation is pending exactly while a successor is being activated.
abbrev pub PendingFits : Status → Option PendingActivation → Type 0
PendingFits activating_successor none = ⊥
PendingFits activating_successor (some p) = Unit
PendingFits active none = Unit
PendingFits inactive none = Unit
PendingFits retired none = Unit
PendingFits _ (some p) = ⊥

-- An activation that was aborted on expiry can be reopened only from `active`.
abbrev pub ExpiredFits : Status → Option PendingActivation → Type 0
ExpiredFits active _ = Unit
ExpiredFits activating_successor none = Unit
ExpiredFits inactive none = Unit
ExpiredFits retired none = Unit
ExpiredFits _ (some p) = ⊥

pub err≢ok {ℓ} : {A : Type ℓ} {a : A} {e : String} → err e ≡ ok a → ⊥
err≢ok h = cc

module _ (c : Crypto) where
  -- The certificate of an activation continues the lineage, under the candidate's key.
  abbrev pub Continues : List Json → ℕ → Option PendingActivation → Type 0
  Continues l n none = Unit
  Continues l n (some p) =
      Chain c (l ++ p.successor_certificate ∷ []) (n + 1) p.candidate_governance_public_key_pem

  -- Before genesis there is no lineage; after it, the lineage is a chain to the held key.
  abbrev pub LineageFits : KeyMaterial → Status → List Json → ℕ → Type 0
  LineageFits k inactive l n = l ≡ []
  LineageFits k _ l n = Chain c l n (str k.governance_public_key_pem)

  pub record IsWell (k : KeyMaterial) (t : Snapshot) : Type 0 where
    pub in_memory : IsInMemory c k
    pub lineage_fits : LineageFits k t.status t.lineage t.epoch
    pub pending_fits : PendingFits t.status t.pending_successor_activation
    pub expired_fits : ExpiredFits t.status t.expired_successor_activation
    pub pending_continues : Continues t.lineage t.epoch t.pending_successor_activation
    pub expired_continues : Continues t.lineage t.epoch t.expired_successor_activation

  abbrev pub IsGood : State → Type 0
  IsGood s = IsWell s.key_material (export_replica_snapshot s)

  -- The serial is no part of the invariant.
  IsWell-serial :
      {k k' : KeyMaterial} {t : Snapshot} (n : ℕ)
      → k ≡ k'
      → IsWell k t
      → IsWell k' (record t { replica_serial = n })
  IsWell-serial {t = t} n e w =
      subst (λ j. IsWell j (record t { replica_serial = n })) e
        (record {
          in_memory = w.in_memory;
          lineage_fits = w.lineage_fits;
          pending_fits = w.pending_fits;
          expired_fits = w.expired_fits;
          pending_continues = w.pending_continues;
          expired_continues = w.expired_continues;
        })

  settle-IsGood {ℓ} :
      {A : Type ℓ} (before s : State) (r : Result A) (answer : Result (Unit {0}))
      → IsGood before
      → before.key_material ≡ s.key_material
      → ((a : A) → r ≡ ok a → IsGood s)
      → IsGood (settle before s r answer).1
  unfolding settle
  settle-IsGood before s (err e) answer good same_key changed = IsWell-serial _ same_key good
  settle-IsGood before s (ok a) (ok _) good same_key changed = IsWell-serial _ refl (changed a refl)
  settle-IsGood before s (ok a) (err e) good same_key changed = IsWell-serial _ same_key good

  -- A commit keeps the invariant, if its change does where it does not throw: where it throws, and
  -- where the custodian does not answer, the old snapshot is back.
  pub commit-IsGood {ℓ} :
      {A : Type ℓ} (replicate : State → Result (Unit {0})) (mutate : M A) (s : State)
      → IsGood s
      → s.key_material ≡ (mutate s).1.key_material
      → ((a : A) → (mutate s).0 ≡ ok a → IsGood (mutate s).1)
      → IsGood (commit replicate mutate s).1
  unfolding commit
  commit-IsGood replicate mutate s good same_key changed =
      settle-IsGood s (mutate s).1 (mutate s).0 _ good same_key changed

  changed-IsGood {ℓ κ} :
      {A : Type ℓ} {B : Type κ} (s : State) (next : B → State → State) (answer : B → A)
      (r : Result B) (k : KeyMaterial)
      → s.key_material ≡ k
      → ((b : B) → r ≡ ok b → ((next b s).key_material ≡ k) × IsGood (next b s))
      → ((changed s next answer r).1.key_material ≡ k)
        × ((a : A) → (changed s next answer r).0 ≡ ok a → IsGood (changed s next answer r).1)
  unfolding changed
  changed-IsGood s next answer (ok b) k e good = ((good b refl).0, λ a h. (good b refl).1)
  changed-IsGood s next answer (err m) k e good = (e, λ a h. absurd (err≢ok h))

  -- The same for a change that checks allow.
  pub commit-change-IsGood {ℓ κ} :
      {A : Type ℓ} {B : Type κ} (replicate : State → Result (Unit {0})) (check : State → Result B)
      (next : B → State → State) (answer : State → B → A) (s : State)
      → IsGood s
      → ((b : B) → check s ≡ ok b → ((next b s).key_material ≡ s.key_material) × IsGood (next b s))
      → IsGood (commit replicate (change check next answer) s).1
  unfolding change
  commit-change-IsGood replicate check next answer s good changes =
      let (same_key, kept) =
        changed-IsGood s next (answer s) (check s) s.key_material refl changes in
      commit-IsGood replicate (change check next answer) s good (sym same_key) kept
