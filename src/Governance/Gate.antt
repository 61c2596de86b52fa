-- ===== src/Governance/Gate.antt =====
-- src/governance-state.js: `mayServePath`, and src/server.js's use of it before every handler. The
-- event that a denial records is left out.
use text.Mathlib.Text.{starts_with}
use auth_broker_tee.Base.{
  String, Bool, true, Option, none, some, ◌||◌, ◌≡◌, ◌⊎◌, ◌≢◌, ◌↔◌, str_eq, arith,
}
use auth_broker_tee.Governance.{
  Status, active, inactive, activating_successor, retired, Role, primary, custodian, State,
}

-- The paths that every replica serves.
unfoldable pub is_public : String → Bool
is_public path =
    str_eq path "/health"
    || str_eq path "/attestation"
    || str_eq path "/.well-known/femled-tee-governance.json"

-- The rest of `mayServePath`, for a replica that is no custodian.
unfoldable pub may_serve_as : Status → String → Bool
unfolding is_public
may_serve_as active path = true
may_serve_as activating_successor path = true
may_serve_as inactive path =
    is_public path
    || str_eq path "/governance/genesis-bootstrap"
    || starts_with path "/governance/activation-"
    || str_eq path "/.well-known/femled-tee-policy.json"
    || str_eq path "/first-principles/adjudicate"
may_serve_as retired path =
    is_public path
    || str_eq path "/governance/genesis-bootstrap"
    || starts_with path "/governance/activation-"

unfoldable pub may_serve : Option Role → Status → String → Bool
may_serve (some custodian) status path = is_public path
may_serve (some primary) status path = may_serve_as status path
may_serve none status path = may_serve_as status path

unfoldable pub may_serve_path : State → String → Bool
unfolding may_serve
may_serve_path s path = may_serve s.replica_role s.status path

-- A replica serves a path outside the public ones and the activation protocol only while it is active
-- or activating a successor, and never as a custodian; an inactive one also serves its policy and its
-- own adjudication, which genesis needs.
pub may_serve_path_iff :
    (s : State) (path : String)
    → (may_serve_path s path ≡ true) ↔ (
        (is_public path ≡ true)
        ⊎ ((s.replica_role ≢ some custodian)
            × ((s.status ≡ active)
                ⊎ (s.status ≡ activating_successor)
                ⊎ (str_eq path "/governance/genesis-bootstrap" ≡ true)
                ⊎ (starts_with path "/governance/activation-" ≡ true)
                ⊎ ((s.status ≡ inactive)
                    × ((str_eq path "/.well-known/femled-tee-policy.json" ≡ true)
                        ⊎ (str_eq path "/first-principles/adjudicate" ≡ true))))))
unfolding may_serve_path may_serve_as
may_serve_path_iff s path = ((λ h. ground arith), (λ h. ground arith))
