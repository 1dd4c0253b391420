-- ===== src/Token/Binding.antt =====
-- The claims of an access token of src/token/jwks.rs, and its confirmation claim against the proofs that a
-- caller presented.
pub mod Bound
mod Examples
use axiam_rust_sdk.Prelude.{
  ℕ, String, Bool, true, false, not, ◌||◌, Option, none, some, List, [], ◌∷◌, Result, ok, err,
  nat_eq, if◌then◌else◌, length, ◌>>◌,
}
use axiam_rust_sdk.Prelude.Int.{ℤ}
use axiam_rust_sdk.Prelude.Text.{Text, text}
use axiam_rust_sdk.Error.{AxiamError, new_auth}

pub record CnfClaim : Type 0 where
  pub x5t_s256 : Option String
  pub jkt : Option String

pub record Claims : Type 0 where
  pub sub : String
  pub tenant_id : String
  pub org_id : Option String
  pub iss : String
  pub iat : Option ℤ
  pub exp : ℤ
  pub jti : Option String
  pub sid : Option String
  pub aud : Option String
  pub scope : Option String
  pub cnf : Option CnfClaim

pub record PresentedProofs : Type 0 where
  pub certificate_thumbprint : Option String
  pub dpop_thumbprint : Option String

-- Whether a pair differs, over the length of the shorter. The source goes over the bytes, and two texts have the
-- same bytes exactly if they have the same code points.
unfoldable pub any_differs : Text → Text → Bool
any_differs (x ∷ a) (y ∷ b) = let rest = any_differs a b in not (nat_eq x y) || rest
any_differs _ _ = false

unfoldable pub constant_time_eq : String → String → Bool
unfolding any_differs
constant_time_eq a b =
    if nat_eq (length (text a)) (length (text b))
    then not (any_differs (text a) (text b))
    else false

abbrev is_none : Option String → Bool
is_none none = true
is_none (some s) = false

unfoldable pub names_nothing_checkable : CnfClaim → Bool
names_nothing_checkable cnf = if is_none cnf.x5t_s256 then is_none cnf.jkt else false

-- One constraint: the expected thumbprint, if there is one, is the presented one.
unfoldable pub check_thumbprint :
    String → String → Option String → Option String → Result Unit AxiamError
unfolding constant_time_eq
check_thumbprint absent different none presented = ok tt
check_thumbprint absent different (some expected) none = err (new_auth absent)
check_thumbprint absent different (some expected) (some presented) =
    if constant_time_eq expected presented then ok tt else err (new_auth different)

-- `CnfClaim::verify`
unfoldable pub verify_cnf : CnfClaim → PresentedProofs → Result Unit AxiamError
unfolding names_nothing_checkable check_thumbprint
verify_cnf cnf proofs =
    if names_nothing_checkable cnf
    then err (
        new_auth
          "token carries a cnf confirmation naming no method this SDK can verify (CONTRACT.md §10.1 rule 9 — an unverifiable constraint is not an absent one)")
    else check_thumbprint "token is certificate-bound but no client certificate was presented"
        "token is bound to a different client certificate than the one presented" cnf.x5t_s256
        proofs.certificate_thumbprint
      >> check_thumbprint "token is DPoP-bound but no verified DPoP proof was presented"
          "token is bound to a different DPoP key than the one presented" cnf.jkt
          proofs.dpop_thumbprint

unfoldable pub verify_confirmation : Option CnfClaim → PresentedProofs → Result Unit AxiamError
unfolding verify_cnf
verify_confirmation none proofs = ok tt
verify_confirmation (some cnf) proofs = verify_cnf cnf proofs

unfoldable pub verify_token_binding : Claims → PresentedProofs → Result Unit AxiamError
unfolding verify_confirmation
verify_token_binding claims proofs = verify_confirmation claims.cnf proofs

-- From the confirmation on: only a certificate, and no other method.
unfoldable pub verify_certificate_cnf : Option CnfClaim → Option String → Result Unit AxiamError
unfolding check_thumbprint
verify_certificate_cnf none presented = ok tt
verify_certificate_cnf (some cnf) presented =
    if is_none cnf.x5t_s256
    then err (
        new_auth
          "token carries a cnf confirmation naming a method this entry point cannot verify (CONTRACT.md §10.1 rule 9 — an unverifiable constraint is not an absent one; use verify_token_binding for DPoP)")
    else if not (is_none cnf.jkt)
    then err (
        new_auth
          "token names both a certificate and a DPoP key; both must hold (CONTRACT.md §10.1 rule 9) — use verify_token_binding")
    else check_thumbprint "token is certificate-bound but no client certificate was presented"
        "token is bound to a different client certificate than the one presented" cnf.x5t_s256
        presented

unfoldable pub verify_certificate_binding : Claims → Option String → Result Unit AxiamError
unfolding verify_certificate_cnf
verify_certificate_binding claims presented = verify_certificate_cnf claims.cnf presented
