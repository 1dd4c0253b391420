-- ===== src/Token/Validation.antt =====
-- What src/token/jwks.rs asks of the check of a token, and the errors that come of it.
use Prim.Native.String.{◌++◌ as concat}
use axiam_rust_sdk.Prelude.{ℕ, String, Bool, true, false, Option, none, some, List, [], ◌∷◌}

-- `CLOCK_SKEW_LEEWAY_SECS`
abbrev pub clock_skew_leeway_secs : ℕ
clock_skew_leeway_secs = 60

-- What the check of a token is asked for.
pub record Validation : Type 0 where
  pub leeway : ℕ
  pub required_spec_claims : List String
  pub validate_exp : Bool
  pub validate_nbf : Bool
  pub validate_aud : Bool
  pub aud : Option (List String)
  pub iss : Option (List String)

pub data ErrorKind : Type 0 where
  invalid_signature expired_signature immature_signature : ErrorKind
  missing_required_claim invalid_claim_format : String → ErrorKind
  invalid_issuer invalid_audience : ErrorKind
  other_kind : String → ErrorKind

abbrev pub message_of : ErrorKind → String
message_of invalid_signature = "token signature invalid"
message_of expired_signature = "token expired"
message_of immature_signature = "token is not valid yet (nbf is in the future)"
message_of (missing_required_claim claim) =
    concat (concat "token is missing the required " claim) " claim"
message_of (invalid_claim_format claim) = concat (concat "token " claim) " claim is not a number"
message_of invalid_issuer = "token issuer does not match the expected issuer"
message_of invalid_audience = "token audience does not match the expected audience"
message_of (other_kind e) = concat "token claim validation failed: " e

-- The required claims after those configured are added, and the lists to compare with.
unfoldable pub claims_validation : Option String → Option String → Validation
claims_validation issuer audience = record {
  leeway = clock_skew_leeway_secs;
  required_spec_claims = with_claim audience "aud" (with_claim issuer "iss" ("exp" ∷ []));
  validate_exp = true;
  validate_nbf = true;
  validate_aud = is_set audience;
  aud = one_of audience;
  iss = one_of issuer;
}
  where
    with_claim : Option String → String → List String → List String
    with_claim none claim claims = claims
    with_claim (some _) claim claims = claim ∷ claims

    is_set : Option String → Bool
    is_set none = false
    is_set (some _) = true

    one_of : Option String → Option (List String)
    one_of none = none
    one_of (some value) = some (value ∷ [])

unfoldable pub signature_validation : Validation → Validation
signature_validation v = record v {
  required_spec_claims = [];
  validate_exp = false;
  validate_nbf = false;
  validate_aud = false;
  leeway = 0;
}
