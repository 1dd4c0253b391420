-- ===== src/Token/Verify/EntryPoints.antt =====
-- How the entry points of the verifier of src/token/jwks.rs compare.
use axiam_rust_sdk.Prelude.{
  ℕ, ◌≡◌, ◌↔◌, String, Option, none, Result, ok, iff_trans, iff_and, checked_iff,
}
use axiam_rust_sdk.Prelude.Text.{Text}
use axiam_rust_sdk.Token.Keys.{Jwk}
use axiam_rust_sdk.Token.Binding.{Claims, PresentedProofs}
use axiam_rust_sdk.Token.Binding.Bound.{
  certificate_only, verify_token_binding_iff, verify_certificate_binding_iff,
}
use axiam_rust_sdk.Token.Validation.{Validation, ErrorKind}
use axiam_rust_sdk.Token.Verify.{
  Header, JwksVerifier, Moment, verify_rules_one_to_eight, verify_sender_constrained,
}
use axiam_rust_sdk.Token.Verify.Accepts.{Accepts, verify_rules_one_to_eight_iff, Unbound-Accepts}

abbrev no_proofs : PresentedProofs
no_proofs = record { certificate_thumbprint = none; dpop_thumbprint = none }

module _ {K D : Type 0} (decode_header : String → Result Header String)
    (from_jwk : Jwk K → Option D) (decode : String → D → Validation → Result Claims ErrorKind)
    (parse_str : Text → Option ℕ) (entry_for : String → String) (token : String) (at : Moment K)
    (v : JwksVerifier K) (claims : Claims) where
  -- With a certificate, or none, a token is accepted exactly if every rule holds with that as the only proof.
  pub verify_sender_constrained_iff :
      (presented : Option String)
      → ((verify_sender_constrained decode_header from_jwk decode parse_str entry_for token
            presented at v).0
          ≡ ok claims)
        ↔ Accepts decode_header from_jwk decode parse_str entry_for token
            (certificate_only presented)
            at
            v
            claims
  unfolding verify_sender_constrained
  verify_sender_constrained_iff presented =
      let proofs = certificate_only presented in
      iff_trans
        (checked_iff
          (verify_rules_one_to_eight decode_header from_jwk decode parse_str entry_for token at v).0
          _)
        (iff_trans
          (iff_and
            (verify_rules_one_to_eight_iff decode_header from_jwk decode parse_str entry_for token
              proofs at v claims)
            (iff_trans (verify_certificate_binding_iff claims presented)
              (verify_token_binding_iff claims proofs)))
          (Unbound-Accepts decode_header from_jwk decode parse_str entry_for token proofs at v
            claims))
