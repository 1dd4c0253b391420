-- ===== src/Token/Verify/Rules.antt =====
-- The rules on the claims of a token of src/token/jwks.rs, one by one.
use axiam_rust_sdk.Prelude.{
  ℕ, ◌≡◌, refl, ◌↔◌, String, Bool, true, false, Option, none, some, List, [], ◌∷◌, ok, ok_or,
  >>=-ok, ok_or-ok, arith,
}
use axiam_rust_sdk.Prelude.Text.{Text, text, trim}
use axiam_rust_sdk.Token.Binding.{Claims}
use axiam_rust_sdk.Token.Verify.{tenant_matches, assert_tenant, refuse_revoked}
use axiam_rust_sdk.Token.Validation.{Validation, claims_validation}

tenant_matches-ok :
    (expected : ℕ) (actual : Option ℕ)
    → tenant_matches expected actual ≡ ok tt
    → actual ≡ some expected
unfolding tenant_matches
tenant_matches-ok expected none h = cc
tenant_matches-ok expected (some actual) h = ground (arith, h)

tenant_matches_refl : (t : ℕ) → tenant_matches t (some t) ≡ ok tt
unfolding tenant_matches
tenant_matches_refl t = ground arith

pub refuse_revoked-ok : (listed : Bool) → refuse_revoked listed ≡ ok tt → listed ≡ false
unfolding refuse_revoked
refuse_revoked-ok true h = cc
refuse_revoked-ok false h = refl

module _ (parse_str : Text → Option ℕ) where
  abbrev pub SameTenant : Option ℕ → Claims → Type 0
  SameTenant expected_tenant_id claims =
      (tenant : ℕ) × (expected_tenant_id ≡ some tenant)
      × (parse_str (trim (text claims.tenant_id)) ≡ some tenant)

  pub assert_tenant_iff :
      (expected_tenant_id : Option ℕ) (claims : Claims)
      → (assert_tenant parse_str expected_tenant_id claims ≡ ok tt)
        ↔ SameTenant expected_tenant_id claims
  unfolding assert_tenant
  assert_tenant_iff expected_tenant_id claims = (
    λ h.
        let (tenant, configured, matches) = >>=-ok (ok_or expected_tenant_id _) _ h in
        (tenant, ok_or-ok expected_tenant_id _ configured, tenant_matches-ok tenant _ matches),
    λ (tenant, configured, parsed). rw (configured, parsed) (tenant_matches_refl tenant),
  )

abbrev strict : List String → Bool → Option (List String) → Option (List String) → Validation
strict required validate_aud aud iss = record {
  leeway = 60;
  required_spec_claims = required;
  validate_exp = true;
  validate_nbf = true;
  validate_aud = validate_aud;
  aud = aud;
  iss = iss;
}

-- What a token is to show under an issuer and an audience, each where it is configured: an expiry later and a
-- first use no later than now, within a minute, and the configured ones.
abbrev pub demanded : Option String → Option String → Validation
demanded none none = strict ("exp" ∷ []) false none none
demanded (some iss) none = strict ("iss" ∷ "exp" ∷ []) false none (some (iss ∷ []))
demanded none (some aud) = strict ("aud" ∷ "exp" ∷ []) true (some (aud ∷ [])) none
demanded (some iss) (some aud) =
    strict ("aud" ∷ "iss" ∷ "exp" ∷ []) true (some (aud ∷ [])) (some (iss ∷ []))

pub claims_validation-demanded :
    (issuer audience : Option String) → claims_validation issuer audience ≡ demanded issuer audience
unfolding claims_validation
claims_validation-demanded none none = refl
claims_validation-demanded (some iss) none = refl
claims_validation-demanded none (some aud) = refl
claims_validation-demanded (some iss) (some aud) = refl
