-- ===== src/Governance/Commit.antt =====
-- `withGovernanceCommit` is atomic in all that the custodian holds a copy of.
use auth_broker_tee.Base.{◌+◌, String, ◌≡◌, refl, sym, ap, Result, ok, err}
use auth_broker_tee.Governance.{State, Snapshot, M, commit, settle, export_replica_snapshot}

pub ok≢err {ℓ} : {A : Type ℓ} {a : A} {e : String} → ok a ≡ err e → ⊥
ok≢err h = cc

abbrev pub retaken : State → Snapshot
retaken s = record (export_replica_snapshot s) { replica_serial = s.replica_serial + 1 }

module _ {ℓ} {A : Type ℓ} where
  settle-err :
      (before s : State) (r : Result A) (answer : Result (Unit {0})) {e : String} {s' : State}
      → settle before s r answer ≡ (err e, s')
      → export_replica_snapshot s' ≡ retaken before
  unfolding settle
  settle-err before s (err _) answer h = rw (← ap (λ p. p.1) h) refl
  settle-err before s (ok a) (ok _) h = absurd (ok≢err (ap (λ p. p.0) h))
  settle-err before s (ok a) (err _) h = rw (← ap (λ p. p.1) h) refl

  settle-ok :
      (before s : State) (r : Result A) (answer : Result (Unit {0})) {a : A} {s' : State}
      → settle before s r answer ≡ (ok a, s')
      → (r ≡ ok a)
        × (answer ≡ ok tt)
        × (record s { replica_serial = before.replica_serial + 1 } ≡ s')
  unfolding settle
  settle-ok before s (err _) answer h = absurd (ok≢err (sym (ap (λ p. p.0) h)))
  settle-ok before s (ok a) (ok _) h = (ap (λ p. p.0) h, refl, ap (λ p. p.1) h)
  settle-ok before s (ok a) (err _) h = absurd (ok≢err (sym (ap (λ p. p.0) h)))

  module _ (replicate : State → Result (Unit {0})) (mutate : M A) (s : State) where
    -- A commit that throws, in the change itself or because the custodian did not acknowledge it,
    -- leaves every replicated field as it was; only the serial moves on.
    pub commit-err :
        {e : String} {s' : State}
        → commit replicate mutate s ≡ (err e, s')
        → export_replica_snapshot s' ≡ retaken s
    unfolding commit
    commit-err h = settle-err s (mutate s).1 (mutate s).0 _ h

    -- A commit that returns was acknowledged, and its state is that of the change under the next
    -- serial.
    pub commit-ok :
        {a : A} {s' : State}
        → commit replicate mutate s ≡ (ok a, s')
        → ((mutate s).0 ≡ ok a)
          × (replicate s' ≡ ok tt)
          × (record (mutate s).1 { replica_serial = s.replica_serial + 1 } ≡ s')
    unfolding commit
    commit-ok h =
        let (made, acknowledged, end) = settle-ok s (mutate s).1 (mutate s).0 _ h in
        (made, rw (← end) acknowledged, end)

  settle-serial :
      (before s : State) (r : Result A) (answer : Result (Unit {0}))
      → (settle before s r answer).1.replica_serial ≡ before.replica_serial + 1
  unfolding settle
  settle-serial before s (err _) answer = refl
  settle-serial before s (ok a) (ok _) = refl
  settle-serial before s (ok a) (err _) = refl

  -- Each commit takes the next serial, whether it throws or not.
  pub commit-serial :
      (replicate : State → Result (Unit {0})) (mutate : M A) (s : State)
      → (commit replicate mutate s).1.replica_serial ≡ s.replica_serial + 1
  unfolding commit
  commit-serial replicate mutate s = settle-serial s (mutate s).1 (mutate s).0 _
