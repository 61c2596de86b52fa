-- ===== src/Tests/Mints.antt =====
-- A ledger with one mint.
use auth_broker_tee.Base.{[], ◌∷◌, ◌*◌, ◌-◌, ◌≤◌, arith}
use auth_broker_tee.Mints.{
  window_ms, tokens_available, tokens_available-bounded, tokens_available-recovers,
}

tokens_available-bounded_example : tokens_available 5 (1000 ∷ []) 2000 ≤ 5 * window_ms
tokens_available-bounded_example = tokens_available-bounded 5 (1000 ∷ []) 2000

one_token_later : window_ms ≤ (120961000 - 1000) * 5
one_token_later = omega arith

no_later : (1000 ≤ 1000) × Unit {0}
no_later = (omega arith, tt)

tokens_available-recovers_example : window_ms ≤ tokens_available 5 (1000 ∷ []) 120961000
tokens_available-recovers_example =
    tokens_available-recovers 5 (1000 ∷ []) 1000 120961000 (omega arith) no_later one_token_later
