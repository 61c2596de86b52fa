-- ===== src/Tests/Serving.antt =====
-- A path that a replica serves after its genesis.
use text.Mathlib.Text.{starts_with}
use auth_broker_tee.Base.{◌↔◌, ◌≡◌, ◌≢◌, ◌⊎◌, true, some, str_eq}
use auth_broker_tee.Governance.{custodian, active, inactive, activating_successor}
use auth_broker_tee.Governance.Gate.{is_public, may_serve_path, may_serve_path_iff}
use auth_broker_tee.Tests.Setup.{predecessor}

may_serve_path_iff_example : (may_serve_path predecessor "/token" ≡ true) ↔ (
    (is_public "/token" ≡ true)
    ⊎ ((predecessor.replica_role ≢ some custodian)
        × ((predecessor.status ≡ active)
            ⊎ (predecessor.status ≡ activating_successor)
            ⊎ (str_eq "/token" "/governance/genesis-bootstrap" ≡ true)
            ⊎ (starts_with "/token" "/governance/activation-" ≡ true)
            ⊎ ((predecessor.status ≡ inactive)
                × ((str_eq "/token" "/.well-known/femled-tee-policy.json" ≡ true)
                    ⊎ (str_eq "/token" "/first-principles/adjudicate" ≡ true))))))
may_serve_path_iff_example = may_serve_path_iff predecessor "/token"
