-- ===== src/Registry/Served.antt =====
-- src/route-registry.js: where each route of a registry that was built comes from.
use auth_broker_tee.Base.{
  ℕ, Bool, true, false, Option, List, [], ◌∷◌, ◌≡◌, refl, subst, ◌⊎◌, inl, inr, Result, ok, err,
  ok-injective, >>=-eq-ok,
}
use auth_broker_tee.Json.{Json}
use auth_broker_tee.Crypto.{Crypto}
use auth_broker_tee.Registry.{Anchors, VerifiedRoute, Tables}
use auth_broker_tee.Registry.Payload.{Url}
use auth_broker_tee.Registry.Signed.{verify_signed_route_envelope, with_admission}
use auth_broker_tee.Registry.Build.{
  Admissions, add_verified_route, load_routes, load_documents, load_document, take_document,
  or_rejected, next_document,
}
use auth_broker_tee.Registry.Verified.{IsAnchored, verify_signed_route_envelope-IsAnchored}
use auth_broker_tee.Registry.Kept.{AllRoutes, add_verified_route-AllRoutes}
-- Where a route comes from.
use auth_broker_tee.Registry.Vouched.{
  Recorded, recorded, IsAdmitted, check_route_document-IsAdmitted,
}

module _ {ℓ} {S : Type ℓ} (c : Crypto) (parse_url : Json → Option Url) (now : ℕ)
    (admissions : Admissions S) (start : S) where
  -- A route of the registry: of the bundle, under the trust anchors, or of a document.
  abbrev pub IsListed : Anchors → VerifiedRoute → Type ℓ
  IsListed anchors route =
      IsAnchored c parse_url now anchors route ⊎ IsAdmitted c parse_url now admissions start route

  module _ (anchors : Anchors) where
    abbrev pub Listed : Tables → Type ℓ
    Listed = AllRoutes (IsListed anchors)

    taken-Listed :
        (document : Json) (t : Tables) (s : S) (r : Result (Json × VerifiedRoute)) {t' : Tables}
        → ((a : Json) (v : VerifiedRoute)
            → r ≡ ok (a, v)
            → IsAdmitted c parse_url now admissions start (with_admission c parse_url document a v))
        → Listed t
        → (take_document c parse_url admissions document t s r).0 ≡ ok t'
        → Listed t'
    unfolding take_document
    taken-Listed document t s (err e) admitted all h = absurd cc
    taken-Listed document t s (ok (a, v)) admitted all h =
        add_verified_route-AllRoutes _ (with_admission c parse_url document a v) _ t all
          (inr (admitted a v refl)) h

    loaded-Listed :
        (document : Json) (t : Tables) (s : S) {t' : Tables}
        → Recorded c parse_url admissions start s
        → Listed t
        → (load_document c parse_url admissions now document t s).0 ≡ ok t'
        → Listed t'
    unfolding load_document
    loaded-Listed document t s reached all h =
        taken-Listed document t s _
          (λ a v e.
            check_route_document-IsAdmitted c parse_url now admissions start s document reached e)
          all h

    taken-Recorded :
        (document : Json) (t : Tables) (s : S) (r : Result (Json × VerifiedRoute))
        → Recorded c parse_url admissions start s
        → Recorded c parse_url admissions start
            (take_document c parse_url admissions document t s r).1
    unfolding take_document
    taken-Recorded document t s (err e) reached = reached
    taken-Recorded document t s (ok (a, v)) reached = recorded v reached refl

    kept-Listed :
        (ignore : Bool) (document : Json) (t : Tables) (r : Result Tables) {t' : Tables}
        → Listed t
        → ((t1 : Tables) → r ≡ ok t1 → Listed t1)
        → or_rejected c parse_url admissions ignore document t r ≡ ok t'
        → Listed t'
    unfolding or_rejected
    kept-Listed ignore document t (ok t1) all loaded h =
        subst Listed (ok-injective h) (loaded t1 refl)
    kept-Listed true document t (err e) all loaded h =
        subst Listed (ok-injective h) (record { tenants = all.tenants; repos = all.repos })
    kept-Listed false document t (err e) all loaded h = absurd cc

    next-Listed :
        (r : Result Tables) (s : S) (next : Tables → S → Result Tables × S) {t' : Tables}
        → ((t1 : Tables) → r ≡ ok t1 → Listed t1)
        → ((t1 : Tables) → Listed t1 → (next t1 s).0 ≡ ok t' → Listed t')
        → (next_document c parse_url admissions r s next).0 ≡ ok t'
        → Listed t'
    unfolding next_document
    next-Listed (err e) s next first later h = absurd cc
    next-Listed (ok t) s next first later h = later t (first t refl) h

    pub load_documents-Listed :
        (ignore : Bool) (documents : List Json) (t : Tables) (s : S) {t' : Tables}
        → Recorded c parse_url admissions start s
        → Listed t
        → (load_documents c parse_url admissions ignore now documents t s).0 ≡ ok t'
        → Listed t'
    unfolding load_documents load_document
    load_documents-Listed ignore [] t s reached all h = subst Listed (ok-injective h) all
    load_documents-Listed ignore (document ∷ rest) t s reached all h =
        next-Listed _ _ _
          (λ t1 e.
            kept-Listed ignore document t _ all (λ t2. loaded-Listed document t s reached all) e)
          (λ t1. load_documents-Listed ignore rest t1 _ (taken-Recorded document t s _ reached)) h

    pub load_routes-Listed :
        (routes : List Json) (t : Tables) {t' : Tables}
        → Listed t
        → load_routes c parse_url anchors now routes t ≡ ok t'
        → Listed t'
    unfolding load_routes
    load_routes-Listed [] t all h = subst Listed (ok-injective h) all
    load_routes-Listed (envelope ∷ rest) t all h =
        let (route, v, r) =
          >>=-eq-ok (verify_signed_route_envelope c parse_url anchors envelope now) _ h in
        let (t1, a, r1) = >>=-eq-ok (add_verified_route route "route-bundle" t) _ r in
        let anchored = verify_signed_route_envelope-IsAnchored c parse_url now anchors envelope v in
        load_routes-Listed rest t1
          (add_verified_route-AllRoutes _ route "route-bundle" t all (inl anchored) a) r1
