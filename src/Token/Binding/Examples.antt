-- ===== src/Token/Binding/Examples.antt =====
-- Runs of the check of a confirmation of src/token/jwks.rs, on tokens bound to a certificate, or to that and
-- a key.
use axiam_rust_sdk.Prelude.{◌≡◌, ◌↔◌, refl, Option, none, some, ok, err}
use axiam_rust_sdk.Prelude.Int.{pos}
use axiam_rust_sdk.Error.{new_auth}
use axiam_rust_sdk.Token.Binding.{
  CnfClaim, Claims, PresentedProofs, verify_token_binding, verify_certificate_binding,
}
use axiam_rust_sdk.Token.Binding.Bound.{IsBound, certificate_only, verify_token_binding_iff}

abbrev claims_with : Option CnfClaim → Claims
claims_with cnf = record {
  sub = "u1";
  tenant_id = "t1";
  org_id = none;
  iss = "axiam";
  iat = none;
  exp = pos 2000;
  jti = none;
  sid = none;
  aud = none;
  scope = none;
  cnf = cnf;
}

abbrev twice_bound : Claims
twice_bound = claims_with (some (record { x5t_s256 = some "cert"; jkt = some "key" }))

abbrev both : PresentedProofs
both = record { certificate_thumbprint = some "cert"; dpop_thumbprint = some "key" }

accepts_both : verify_token_binding twice_bound both ≡ ok tt
unfolding verify_token_binding
accepts_both = refl

refuses_one :
    verify_token_binding twice_bound (certificate_only (some "cert"))
    ≡ err (new_auth "token is DPoP-bound but no verified DPoP proof was presented")
unfolding verify_token_binding
refuses_one = refl

refuses_other :
    verify_certificate_binding
      (claims_with (some (record { x5t_s256 = some "cert"; jkt = none })))
      (some "xert")
    ≡ err (new_auth "token is bound to a different client certificate than the one presented")
unfolding verify_certificate_binding
refuses_other = refl

verify_token_binding_iff_example :
    (verify_token_binding twice_bound both ≡ ok tt) ↔ IsBound twice_bound.cnf both
verify_token_binding_iff_example = verify_token_binding_iff twice_bound both
