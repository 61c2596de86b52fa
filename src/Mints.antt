-- ===== src/Mints.antt =====
-- src/tls-mint-log.js: the ledger of certificate mints and the token bucket that guards a boot. The
-- source counts tokens as floating-point numbers; here a token is the window, so that a bucket of
-- `max` tokens holds `max * window` and refills by `max` in each millisecond, without rounding. The
-- object store is the argument that a read returned.
use auth_broker_tee.Base.{
  ℕ, ◌+◌, ◌-◌, ◌*◌, ◌≤◌, String, Option, none, some, List, [], ◌∷◌, ◌++◌, ◌&&◌, leb, ltb, min, max,
  ◌≡◌, refl, Result, ok, err, guard, if◌then◌else◌, arith, Bool-cases, inl, inr, subst, All, sym,
}
use auth_broker_tee.Json.{Json, Items, nil, cons, str, time, arr, get, same, truthy}

abbrev pub mint_log_schema : String
mint_log_schema = "femled.tee.tls_mint_log.v1"

abbrev pub window_ms : ℕ
window_ms = 7 * 24 * 60 * 60 * 1000

unfoldable pub times : Items → List ℕ
times nil = []
times (cons (time t) rest) = t ∷ times rest
times (cons _ rest) = times rest

unfoldable pub mints_in : Json → List ℕ
mints_in (arr entries) = times entries
mints_in _ = []

-- `readMintTimestamps`, of the document that was read
unfoldable pub read_mint_timestamps : Json → List ℕ
read_mint_timestamps doc =
    if truthy doc && same (get "schema" doc) (str mint_log_schema)
    then mints_in (get "mints" doc)
    else []

unfoldable pub insert_time : ℕ → List ℕ → List ℕ
insert_time t [] = t ∷ []
insert_time t (u ∷ us) = let rest = insert_time t us in if leb t u then t ∷ u ∷ us else u ∷ rest

-- `pruneToWindow`
unfoldable pub prune_to_window : List ℕ → ℕ → List ℕ
prune_to_window [] now = []
prune_to_window (t ∷ ts) now =
    let rest = prune_to_window ts now in
    if leb now (t + window_ms) then insert_time t rest else rest

-- A bucket: its tokens, and the time up to which it was refilled.
pub record Bucket : Type 0 where
  pub tokens : ℕ
  pub cursor : Option ℕ

unfoldable pub refilled : ℕ → Option ℕ → ℕ → ℕ → ℕ
refilled capacity none at tokens = tokens
refilled capacity (some cursor) at tokens =
    if ltb cursor at then min (capacity * window_ms) (tokens + (at - cursor) * capacity) else tokens

unfoldable pub moved : Option ℕ → ℕ → ℕ
moved none at = at
moved (some cursor) at = max cursor at

-- One round of the loop of `tokensAvailable`: refill, and one token less.
unfoldable pub minted : ℕ → Bucket → ℕ → Bucket
unfolding refilled moved
minted capacity b at = record {
  tokens = refilled capacity b.cursor at b.tokens - window_ms;
  cursor = some (moved b.cursor at);
}

unfoldable pub all_minted : ℕ → Bucket → List ℕ → Bucket
all_minted capacity b [] = b
all_minted capacity b (at ∷ rest) = all_minted capacity (minted capacity b at) rest

-- `tokensAvailable`
unfoldable pub tokens_available : ℕ → List ℕ → ℕ → ℕ
unfolding all_minted
tokens_available capacity mints now =
    let b = all_minted capacity (record { tokens = capacity * window_ms; cursor = none }) mints in
    refilled capacity b.cursor now b.tokens

-- `assertMintWithinWeeklyBudget`: a failed read lets the boot go on.
unfoldable pub assert_mint_within_weekly_budget : ℕ → Result Json → ℕ → Result (Unit {0})
assert_mint_within_weekly_budget capacity (err e) now = ok tt
assert_mint_within_weekly_budget capacity (ok doc) now =
    guard
      (leb window_ms
        (tokens_available capacity (prune_to_window (read_mint_timestamps doc) now) now))
      "issuance budget exhausted"

-- The mints that `recordSuccessfulMint` writes.
unfoldable pub record_successful_mint : Result Json → ℕ → Option (List ℕ)
record_successful_mint (err e) now = none
record_successful_mint (ok doc) now =
    some (prune_to_window (read_mint_timestamps doc) now ++ now ∷ [])

refilled-bounded :
    (capacity : ℕ) (o : Option ℕ) (at tokens : ℕ)
    → tokens ≤ capacity * window_ms
    → refilled capacity o at tokens ≤ capacity * window_ms
unfolding refilled
refilled-bounded capacity none at tokens h = h
refilled-bounded capacity (some cursor) at tokens h = ground arith

all_minted-bounded :
    (capacity : ℕ) (b : Bucket) (mints : List ℕ)
    → b.tokens ≤ capacity * window_ms
    → (all_minted capacity b mints).tokens ≤ capacity * window_ms
unfolding all_minted minted
all_minted-bounded capacity b [] h = h
all_minted-bounded capacity b (at ∷ rest) h =
    all_minted-bounded capacity (minted capacity b at) rest
      (omega (arith, refilled-bounded capacity b.cursor at b.tokens h))

-- The bucket never holds more than its capacity, whatever the ledger says and in whatever order.
pub tokens_available-bounded :
    (capacity : ℕ) (mints : List ℕ) (now : ℕ)
    → tokens_available capacity mints now ≤ capacity * window_ms
unfolding tokens_available
tokens_available-bounded capacity mints now =
    let b = all_minted capacity (record { tokens = capacity * window_ms; cursor = none }) mints in
    refilled-bounded capacity b.cursor now b.tokens (
      all_minted-bounded capacity (record { tokens = capacity * window_ms; cursor = none }) mints
        (omega arith))

-- When a token's time has passed since the bucket was last refilled, there is a token.
refilled-token :
    (capacity cursor at tokens : ℕ)
    → 1 ≤ capacity
    → window_ms ≤ (at - cursor) * capacity
    → window_ms ≤ refilled capacity (some cursor) at tokens
unfolding refilled
refilled-token capacity cursor at tokens some_capacity waited = elim (Bool-cases (ltb cursor at)) [
  | inl e ↦ rw e (omega (arith, some_capacity, waited))
  | inr e ↦
      let none_waited : at - cursor ≡ 0 = ground arith in
      let nothing = subst (λ d. window_ms ≤ d * capacity) none_waited waited in
      absurd (omega (arith, nothing))
]

times_monotone : (a b k : ℕ) → a ≤ b → a * k ≤ b * k
times_monotone a b k h =
    let e : b ≡ a + (b - a) = omega (arith, h) in subst (λ x. a * k ≤ x * k) (sym e) (omega arith)

-- The cursor is one of the mints, so no later than a time that none of them is after.
EarlierThan : ℕ → Option ℕ → Type 0
EarlierThan t none = Unit
EarlierThan t (some cursor) = cursor ≤ t

moved-earlier : (t : ℕ) (o : Option ℕ) (at : ℕ) → EarlierThan t o → at ≤ t → moved o at ≤ t
unfolding moved EarlierThan
moved-earlier t none at h le = le
moved-earlier t (some cursor) at h le = omega (arith, h, le)

all_minted-earlier :
    (capacity t : ℕ) (b : Bucket) (mints : List ℕ)
    → EarlierThan t b.cursor
    → All (λ m. m ≤ t) mints
    → EarlierThan t (all_minted capacity b mints).cursor
unfolding all_minted minted EarlierThan
all_minted-earlier capacity t b [] h le = h
all_minted-earlier capacity t b (at ∷ rest) h le =
    all_minted-earlier capacity t (minted capacity b at) rest (moved-earlier t b.cursor at h le.0)
      le.1

recovered :
    (capacity t now tokens : ℕ) (o : Option ℕ)
    → 1 ≤ capacity
    → EarlierThan t o
    → window_ms ≤ (now - t) * capacity
    → (o ≡ none → window_ms ≤ tokens)
    → window_ms ≤ refilled capacity o now tokens
unfolding EarlierThan refilled
recovered capacity t now tokens none some_capacity h waited full = full refl
recovered capacity t now tokens (some cursor) some_capacity h waited full =
    refilled-token capacity cursor now tokens some_capacity
      (omega (arith, waited, times_monotone (now - t) (now - cursor) capacity (omega (arith, h))))

still_none :
    (capacity : ℕ) (b : Bucket) (mints : List ℕ)
    → (all_minted capacity b mints).cursor ≡ none
    → b.cursor ≡ none
unfolding all_minted minted
still_none capacity b [] h = h
still_none capacity b (at ∷ rest) h =
    let e : some (moved b.cursor at) ≡ none = still_none capacity (minted capacity b at) rest h in
    absurd cc

never_minted :
    (capacity : ℕ) (b : Bucket) (mints : List ℕ)
    → (all_minted capacity b mints).cursor ≡ none
    → (all_minted capacity b mints).tokens ≡ b.tokens
unfolding all_minted minted
never_minted capacity b [] h = refl
never_minted capacity b (at ∷ rest) h =
    let e : some (moved b.cursor at) ≡ none = still_none capacity (minted capacity b at) rest h in
    absurd cc

-- A boot that the ledger blocks is not blocked for longer than the refill of one token: if no mint is
-- later than `t` and a token's time has passed since, there is a token, however many mints there were.
pub tokens_available-recovers :
    (capacity : ℕ) (mints : List ℕ) (t now : ℕ)
    → 1 ≤ capacity
    → All (λ m. m ≤ t) mints
    → window_ms ≤ (now - t) * capacity
    → window_ms ≤ tokens_available capacity mints now
unfolding tokens_available EarlierThan
tokens_available-recovers capacity mints t now some_capacity le waited =
    let full : Bucket = record { tokens = capacity * window_ms; cursor = none } in
    recovered capacity t now (all_minted capacity full mints).tokens
      (all_minted capacity full mints).cursor some_capacity
      (all_minted-earlier capacity t full mints tt le) waited
      (λ e. rw (never_minted capacity full mints e) (omega (arith, some_capacity)))
