-- ===== src/Certificates/Preapproved.antt =====
-- src/governance-certificates.js: what a preapproval certificate that is signed says of the candidate.
use auth_broker_tee.Base.{
  ℕ, ◌+◌, ◌*◌, not, ◌≡◌, refl, sym, subst, ok, ok-injective, >>=-eq-ok, guard-ok, if-cases, inl,
  inr,
}
use auth_broker_tee.Json.{
  Json, undefined, null, bool, num, other_number, str, time, arr, obj, get, get_field, fields, same,
  or_null,
}
use auth_broker_tee.Patterns.{is_digest}
use auth_broker_tee.Crypto.{Crypto, KeyMaterial, digest, sign_governance_payload}
use auth_broker_tee.Certificates.{preapproval_schema, ReviewPolicy, require_digest, has_items}
use auth_broker_tee.Certificates.Signing.{
  Authorization, reasoning_digest, sign_preapproval_certificate,
}

pub require_digest-ok : (v : Json) {d : Json} → require_digest v ≡ ok d → d ≡ v
unfolding require_digest
require_digest-ok (str s) h = elim (if-cases (is_digest s) _ _ h) [
  | inl e ↦ sym (ok-injective e.1)
  | inr e ↦ absurd cc
]
require_digest-ok undefined h = absurd cc
require_digest-ok null h = absurd cc
require_digest-ok (bool b) h = absurd cc
require_digest-ok (num n) h = absurd cc
require_digest-ok (other_number s) h = absurd cc
require_digest-ok (time t) h = absurd cc
require_digest-ok (arr xs) h = absurd cc
require_digest-ok (obj fs) h = absurd cc

module _ (c : Crypto) (policy : ReviewPolicy) (k : KeyMaterial) where
  -- The envelope is signed with the key over a certificate of this candidate, its checks and its
  -- proposal, for the epoch and the key, with who authorized it and until when.
  pub record IsPreapprovalOf (epoch : ℕ) (candidate checks : Json) (by : Authorization) (now : ℕ)
      (envelope : Json) : Type 0 where
    pub payload : Json
    pub signed : envelope ≡ sign_governance_payload c payload k
    pub schema : get "schema" payload ≡ str preapproval_schema
    pub of_epoch : get "predecessorEpoch" payload ≡ num epoch
    pub of_key : get "predecessorGovernanceKeyId" payload ≡ str k.governance_key_id
    pub image : get "candidateImageDigest" payload ≡ get "candidateImageDigest" candidate
    pub tree : get "candidateSourceTreeDigest" payload ≡ get "candidateSourceTreeDigest" candidate
    pub filesystem :
        get "candidateFilesystemDigest" payload ≡ get "candidateFilesystemDigest" candidate
    pub proposal :
        get "selfHealingProposalDigest" payload
        ≡ or_null (get "selfHealingProposalDigest" candidate)
    pub checked : get "hardCheckResultsDigest" payload ≡ str (digest c checks)
    pub request : get "requestDigest" payload ≡ by.request_digest
    pub challenge : get "challengeDigest" payload ≡ by.challenge_digest
    pub nonce : get "nonce" payload ≡ by.nonce
    pub expires : get "expiresAt" payload ≡ time (now + 30 * 60 * 1000)

  pub sign_preapproval_certificate-IsPreapprovalOf :
      (epoch : ℕ) (candidate checks decision response_digest : Json) (by : Authorization) (now : ℕ)
      {envelope : Json}
      → sign_preapproval_certificate c policy k epoch candidate checks decision response_digest by
          now
        ≡ ok envelope
      → IsPreapprovalOf epoch candidate checks by now envelope
  unfolding sign_preapproval_certificate get get_field fields
  sign_preapproval_certificate-IsPreapprovalOf epoch candidate checks decision response_digest by
        now h =
      let (a, r) = guard-ok (same (get "decision" decision) (str "APPROVE")) _ _ h in
      let (b, r1) = guard-ok (not (has_items (get "violatedPrinciples" decision))) _ _ r in
      let (d, r2) = guard-ok (same (get "status" checks) (str "passed")) _ _ r1 in
      let (image, i, r3) = >>=-eq-ok (require_digest (get "candidateImageDigest" candidate)) _ r2 in
      let (tree, t, r4) =
        >>=-eq-ok (require_digest (get "candidateSourceTreeDigest" candidate)) _ r3 in
      let (filesystem, f, r5) =
        >>=-eq-ok (require_digest (get "candidateFilesystemDigest" candidate)) _ r4 in
      let (reasoning, g, r6) =
        >>=-eq-ok (reasoning_digest c response_digest (get "reasoning" decision)) _ r5 in
      subst (IsPreapprovalOf epoch candidate checks by now) (ok-injective r6) (record {
        payload = _;
        signed = refl;
        schema = refl;
        of_epoch = refl;
        of_key = refl;
        image = require_digest-ok (get "candidateImageDigest" candidate) i;
        tree = require_digest-ok (get "candidateSourceTreeDigest" candidate) t;
        filesystem = require_digest-ok (get "candidateFilesystemDigest" candidate) f;
        proposal = refl;
        checked = refl;
        request = refl;
        challenge = refl;
        nonce = refl;
        expires = refl;
      })
