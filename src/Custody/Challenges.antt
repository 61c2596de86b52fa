-- ===== src/Custody/Challenges.antt =====
-- src/governance-replica-custody.js: the challenges that a replica has issued and that were not used.
use auth_broker_tee.Base.{
  ℕ, suc, ◌+◌, ◌≤◌, String, Bool, true, false, Option, none, some, List, [], ◌∷◌, ◌≡◌, refl, leb,
  not, length, lookup, insert, delete, str_eq, eq_iff, eq_refl, Result, ok, err, guard,
  if◌then◌else◌, Bool-cases, inl, inr, arith, subst,
}
use auth_broker_tee.Governance.{State}
use auth_broker_tee.Governance.Replica.{is_governance_key_holder}
use auth_broker_tee.Custody.{challenge_ttl_ms, max_open_challenges}

-- `for (...) if (expiresAt <= now) openChallenges.delete(value)`
unfoldable pub without_expired : ℕ → List (String × ℕ) → List (String × ℕ)
without_expired now [] = []
without_expired now (entry ∷ rest) =
    let kept = without_expired now rest in if leb entry.1 now then kept else entry ∷ kept

-- The end of `issueCustodyChallenge`, with the challenges that are still open.
unfoldable pub open_challenge :
    String → ℕ → List (String × ℕ) → Result (String × ℕ) × List (String × ℕ)
open_challenge challenge now opened =
    if leb max_open_challenges (length opened)
    then (err "too many open custody challenges", opened)
    else (ok (challenge, now + challenge_ttl_ms), insert challenge (now + challenge_ttl_ms) opened)

-- `issueCustodyChallenge`: the random challenge with its expiry.
unfoldable pub issue_custody_challenge :
    State → String → ℕ → List (String × ℕ) → Result (String × ℕ) × List (String × ℕ)
issue_custody_challenge s challenge now opened =
    if is_governance_key_holder s
    then open_challenge challenge now (without_expired now opened)
    else (err "this replica does not hold the lineage key", opened)

-- Whether a challenge that was found may be used.
unfoldable pub usable : Option ℕ → ℕ → Bool
usable none now = false
usable (some expires_at) now = not (leb expires_at now)

-- `consumeCustodyChallenge`: the challenge is gone, whether it may be used or not.
unfoldable pub consume_custody_challenge :
    String → ℕ → List (String × ℕ) → Result (Unit {0}) × List (String × ℕ)
consume_custody_challenge challenge now opened = (
  guard (usable (lookup challenge opened) now) "unknown or expired custody challenge",
  delete challenge opened,
)

-- No challenge is in the map twice.
abbrev pub Distinct : List (String × ℕ) → Type 0
Distinct [] = Unit
Distinct (entry ∷ rest) = (lookup entry.0 rest ≡ none) × Distinct rest

-- Distinct challenges, at most 32.
abbrev pub IsBounded : List (String × ℕ) → Type 0
IsBounded opened = Distinct opened × (length opened ≤ max_open_challenges)

lookup-delete_other :
    (k key : String) (m : List (String × ℕ)) → lookup k m ≡ none → lookup k (delete key m) ≡ none
lookup-delete_other k key [] h = refl
lookup-delete_other k key (entry ∷ rest) h = ground (arith, lookup-delete_other k key rest)

lookup-delete_same :
    (key : String) (m : List (String × ℕ)) → Distinct m → lookup key (delete key m) ≡ none
lookup-delete_same key [] d = refl
lookup-delete_same key (entry ∷ rest) d = elim (Bool-cases (str_eq entry.0 key)) [
  | inl e ↦
      let same_key : entry.0 ≡ key = (eq_iff entry.0 key).0 e in
      rw e (subst (λ k. lookup k rest ≡ none) same_key d.0)
  | inr e ↦ rw e (rw e (lookup-delete_same key rest d.1))
]

delete-Distinct : (key : String) (m : List (String × ℕ)) → Distinct m → Distinct (delete key m)
delete-Distinct key [] d = tt
delete-Distinct key (entry ∷ rest) d = elim (Bool-cases (str_eq entry.0 key)) [
  | inl e ↦ rw e d.1
  | inr e ↦ rw e (lookup-delete_other entry.0 key rest d.0, delete-Distinct key rest d.1)
]

delete-length : (key : String) (m : List (String × ℕ)) → length (delete key m) ≤ length m
delete-length key [] = omega arith
delete-length key (entry ∷ rest) = ground (arith, delete-length key rest)

lookup-without :
    (k : String) (now : ℕ) (m : List (String × ℕ))
    → lookup k m ≡ none
    → lookup k (without_expired now m) ≡ none
unfolding without_expired
lookup-without k now [] h = refl
lookup-without k now (entry ∷ rest) h = ground (arith, lookup-without k now rest)

without-Distinct : (now : ℕ) (m : List (String × ℕ)) → Distinct m → Distinct (without_expired now m)
unfolding without_expired
without-Distinct now [] d = tt
without-Distinct now (entry ∷ rest) d = elim (Bool-cases (leb entry.1 now)) [
  | inl e ↦ rw e (without-Distinct now rest d.1)
  | inr e ↦ rw e (lookup-without entry.0 now rest d.0, without-Distinct now rest d.1)
]

without-length : (now : ℕ) (m : List (String × ℕ)) → length (without_expired now m) ≤ length m
unfolding without_expired
without-length now [] = omega arith
without-length now (entry ∷ rest) = ground (arith, without-length now rest)

lookup-insert_other :
    (k key : String) (v : ℕ) (m : List (String × ℕ))
    → str_eq key k ≡ false
    → lookup k m ≡ none
    → lookup k (insert key v m) ≡ none
lookup-insert_other k key v [] e h = rw e refl
lookup-insert_other k key v (entry ∷ rest) e h = ground (arith, lookup-insert_other k key v rest e)

differs_sym : (a b : String) → str_eq a b ≡ false → str_eq b a ≡ false
differs_sym a b h = elim (Bool-cases (str_eq b a)) [
  | inl e ↦
      let same_text : b ≡ a = (eq_iff b a).0 e in
      let self : str_eq a a ≡ false = subst (λ x. str_eq a x ≡ false) same_text h in
      let true_self : str_eq a a ≡ true = eq_refl a in absurd cc
  | inr e ↦ e
]

insert-Distinct :
    (key : String) (v : ℕ) (m : List (String × ℕ)) → Distinct m → Distinct (insert key v m)
insert-Distinct key v [] d = (refl, tt)
insert-Distinct key v (entry ∷ rest) d = elim (Bool-cases (str_eq entry.0 key)) [
  | inl e ↦
      let same_key : entry.0 ≡ key = (eq_iff entry.0 key).0 e in
      rw e (subst (λ k. lookup k rest ≡ none) same_key d.0, d.1)
  | inr e ↦ rw e (
    lookup-insert_other entry.0 key v rest (differs_sym entry.0 key e) d.0,
    insert-Distinct key v rest d.1,
  )
]

insert-length :
    (key : String) (v : ℕ) (m : List (String × ℕ)) → length (insert key v m) ≤ suc (length m)
insert-length key v [] = omega arith
insert-length key v (entry ∷ rest) = ground (arith, insert-length key v rest)

-- However challenges are issued and used, by whoever asks: the open ones are distinct and never more
-- than 32.
pub issue-consume-IsBounded :
    (s : State) (challenge : String) (now : ℕ) (opened : List (String × ℕ))
    → IsBounded opened
    → IsBounded (issue_custody_challenge s challenge now opened).1
      × IsBounded (consume_custody_challenge challenge now opened).1
unfolding issue_custody_challenge open_challenge consume_custody_challenge
issue-consume-IsBounded s challenge now opened (d, few) = (
  elim (Bool-cases (is_governance_key_holder s)) [
    | inr e ↦ rw e (d, few)
    | inl e ↦
        let kept = without_expired now opened in
        let kept_d = without-Distinct now opened d in
        let fewer = without-length now opened in
        rw e (elim (Bool-cases (leb max_open_challenges (length kept))) [
          | inl full ↦ rw full (kept_d, omega (arith, few, fewer))
          | inr room ↦ rw room (
            insert-Distinct challenge (now + challenge_ttl_ms) kept kept_d,
            ground (arith, insert-length challenge (now + challenge_ttl_ms) kept),
          )
        ])
  ],
  (delete-Distinct challenge opened d, omega (arith, few, delete-length challenge opened)),
)

-- A challenge is used at most once: whatever becomes of the first use, a second one without a new
-- challenge throws.
pub consume_custody_challenge-once :
    (challenge : String) (now later : ℕ) (opened : List (String × ℕ))
    → IsBounded opened
    → (consume_custody_challenge challenge later
        (consume_custody_challenge challenge now opened).1).0
      ≡ err "unknown or expired custody challenge"
unfolding consume_custody_challenge usable
consume_custody_challenge-once challenge now later opened (d, few) =
    rw (lookup-delete_same challenge opened d) refl
