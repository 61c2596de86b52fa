-- ===== src/Governance/Returns.antt =====
-- What the parts of a sequence of changes did, where the sequence returned.
use auth_broker_tee.Base.{◌≡◌, refl, ap, sym, Result, ok, err, ok-injective}
use auth_broker_tee.Governance.{State, M, changed, continue}
use auth_broker_tee.Governance.Commit.{ok≢err}

-- A change that returned was allowed by its checks.
pub made-ok {ℓ κ} :
    {A : Type ℓ} {B : Type κ} (s : State) (next : B → State → State) (answer : B → A) (r : Result B)
    {a : A}
    → (changed s next answer r).0 ≡ ok a
    → (b : B) × (r ≡ ok b) × (answer b ≡ a) × ((changed s next answer r).1 ≡ next b s)
unfolding changed
made-ok s next answer (ok b) h = (b, refl, ok-injective h, refl)
made-ok s next answer (err e) h = cc

pub then-ok {ℓ} :
    {A : Type ℓ} (r : Result A) (s : State) (g : A → State → State) {a : A}
    → (continue (λ x s'. (ok x, g x s')) r s).0 ≡ ok a
    → (r ≡ ok a) × ((continue (λ x s'. (ok x, g x s')) r s).1 ≡ g a s)
unfolding continue
then-ok (ok x) s g h = (h, ap (λ y. g y s) (ok-injective h))
then-ok (err e) s g h = absurd (ok≢err (sym h))

-- Two parts that returned: the second began where the first ended.
pub continue-ok {ℓ κ} :
    {A : Type ℓ} {B : Type κ} (f : A → M B) (r : Result A) (s : State) {b : B}
    → (continue f r s).0 ≡ ok b
    → (a : A) × (r ≡ ok a) × (continue f r s ≡ f a s)
unfolding continue
continue-ok f (ok a) s h = (a, refl, refl)
continue-ok f (err e) s h = absurd (ok≢err (sym h))
