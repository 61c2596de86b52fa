-- ===== src/Oidc/Fetched.antt =====
-- src/github-oidc.js: where the keys that `fetchJWKS` returns come from.
use auth_broker_tee.Base.{
  ℕ, ◌+◌, ◌<◌, Bool, true, List, [], ◌∷◌, ◌≡◌, ◌⊎◌, refl, ltb, ◌&&◌, &&-true, Result, ok, err, inl,
  inr, arith, subst, ok-injective, Bool-cases, false, String,
}
use auth_broker_tee.Json.{Json, truthy}
use auth_broker_tee.Oidc.{Cache, Response, empty_cache, jwks_cache_ttl_ms, store_jwks, fetch_jwks}

-- The key server answered with these keys.
unfoldable pub Served : Result Response → Json → Type 0
Served answer jwks = answer ≡ ok (record { is_ok = true; body = ok jwks })

-- The cache after fetches, the last one first: each at a time, with what the server would have
-- answered then.
unfoldable pub cache_after : List (ℕ × Result Response) → Cache
unfolding fetch_jwks
cache_after [] = empty_cache
cache_after ((t, answer) ∷ earlier) = (fetch_jwks answer t (cache_after earlier)).1

-- One of the fetches was answered with these keys, which are then kept until a time.
unfoldable pub Fetched : List (ℕ × Result Response) → Json → ℕ → Type 0
Fetched [] jwks expiry = ⊥
Fetched ((t, answer) ∷ earlier) jwks expiry =
    (Served answer jwks × (expiry ≡ t + jwks_cache_ttl_ms)) ⊎ Fetched earlier jwks expiry

-- What a fetch may do: it uses the cache, stores what the server answers, or fails.
data FetchCase (answer : Result Response) (now : ℕ) (cache : Cache)
    : Result Json × Cache → Type 0 where
  cached :
      truthy cache.jwks_cache ≡ true
      → now < cache.jwks_cache_expiry
      → FetchCase answer now cache (ok cache.jwks_cache, cache)
  stored :
      (jwks : Json)
      → Served answer jwks
      → FetchCase answer now cache
          (ok jwks, record { jwks_cache = jwks; jwks_cache_expiry = now + jwks_cache_ttl_ms })
  failed : (message : String) → FetchCase answer now cache (err message, cache)

store_jwks-FetchCase :
    (is_ok : Bool) (body : Result Json) (now : ℕ) (cache : Cache)
    → FetchCase
        (ok (record { is_ok = is_ok; body = body }))
        now
        cache
        (store_jwks (record { is_ok = is_ok; body = body }) now cache)
unfolding store_jwks Served
store_jwks-FetchCase true (ok jwks) now cache = stored jwks refl
store_jwks-FetchCase true (err m) now cache = failed m
store_jwks-FetchCase false body now cache = failed _

ltb-less : (a b : ℕ) → ltb a b ≡ true → a < b
ltb-less a b h = ground arith

fetch_jwks-FetchCase :
    (answer : Result Response) (now : ℕ) (cache : Cache)
    → FetchCase answer now cache (fetch_jwks answer now cache)
unfolding fetch_jwks
fetch_jwks-FetchCase answer now cache =
    elim (Bool-cases (truthy cache.jwks_cache && ltb now cache.jwks_cache_expiry)) [
      | inl e ↦
          let (t, l) = &&-true _ _ e in rw e (cached t (ltb-less now cache.jwks_cache_expiry l))
      | inr e ↦ rw e (asked answer)
    ]
  where
    asked :
        (a : Result Response)
        → FetchCase a now cache (elim a [
          | err message ↦ (err message, cache)
          | ok response ↦ store_jwks response now cache
        ])
    asked (err m) = failed m
    asked (ok response) = store_jwks-FetchCase response.is_ok response.body now cache

-- What the cache holds was the answer to one of the fetches.
kept_after :
    (answer : Result Response) (t : ℕ) (earlier : List (ℕ × Result Response))
    (outcome : Result Json × Cache)
    → FetchCase answer t (cache_after earlier) outcome
    → (truthy (cache_after earlier).jwks_cache ≡ true
        → Fetched earlier (cache_after earlier).jwks_cache (cache_after earlier).jwks_cache_expiry)
    → truthy outcome.1.jwks_cache ≡ true
    → Fetched ((t, answer) ∷ earlier) outcome.1.jwks_cache outcome.1.jwks_cache_expiry
unfolding Fetched
kept_after answer t earlier outcome (cached _ _) before h = inr (before h)
kept_after answer t earlier outcome (stored jwks served) before h = inl (served, refl)
kept_after answer t earlier outcome (failed m) before h = inr (before h)

kept :
    (earlier : List (ℕ × Result Response))
    → truthy (cache_after earlier).jwks_cache ≡ true
    → Fetched earlier (cache_after earlier).jwks_cache (cache_after earlier).jwks_cache_expiry
unfolding cache_after truthy
kept [] h = absurd (ground arith)
kept ((t, answer) ∷ earlier) h =
    kept_after answer t earlier _ (fetch_jwks-FetchCase answer t (cache_after earlier))
      (kept earlier) h

recent_in :
    (answer : Result Response) (now : ℕ) (earlier : List (ℕ × Result Response)) (jwks : Json)
    (outcome : Result Json × Cache)
    → FetchCase answer now (cache_after earlier) outcome
    → outcome.0 ≡ ok jwks
    → Served answer jwks ⊎ ((expiry : ℕ) × (now < expiry) × Fetched earlier jwks expiry)
recent_in answer now earlier jwks outcome (cached present live) h = inr (
  (cache_after earlier).jwks_cache_expiry,
  live,
  subst (λ j. Fetched earlier j (cache_after earlier).jwks_cache_expiry) (ok-injective h)
      (kept earlier present),
)
recent_in answer now earlier jwks outcome (stored jwks' served) h =
    inl (subst (Served answer) (ok-injective h) served)
recent_in answer now earlier jwks outcome (failed m) h = cc

-- After any sequence of fetches, failed ones included, the keys that a fetch returns are what the key
-- server answers now, or what it answered to an earlier fetch that was less than an hour before.
pub fetch_jwks-IsRecent :
    (earlier : List (ℕ × Result Response)) (answer : Result Response) (now : ℕ) (jwks : Json)
    → (fetch_jwks answer now (cache_after earlier)).0 ≡ ok jwks
    → Served answer jwks ⊎ ((expiry : ℕ) × (now < expiry) × Fetched earlier jwks expiry)
fetch_jwks-IsRecent earlier answer now jwks h =
    recent_in answer now earlier jwks _ (fetch_jwks-FetchCase answer now (cache_after earlier)) h
