-- ===== src/Oidc/IdToken/Examples.antt =====
-- Runs of the checks on an ID token of src/oidc/id_token.rs, and of the token set of src/oidc/exchange.rs, on
-- the claims and the time of the tests of the source.
use axiam_rust_sdk.Prelude.{
  ◌≡◌, ◌↔◌, refl, subst, inl, inr, Bool-cases, ok-injective, String, String-Eq, ◌==◌, true, Option,
  none, some, [], ◌∷◌, Result, ok, err, arith, if◌then◌else◌,
}
use axiam_rust_sdk.Prelude.Int.{ℤ, pos, i64_max, add_i64, sub_i64}
use axiam_rust_sdk.Prelude.Maps.{contains}
use axiam_rust_sdk.Error.{token_expired, invalid_audience}
use axiam_rust_sdk.Token.Binding.{constant_time_eq}
use axiam_rust_sdk.Token.Keys.{Jwk, Readings, new_cache}
use axiam_rust_sdk.Token.Verify.{Header}
use axiam_rust_sdk.Token.Validation.{Validation, ErrorKind, expired_signature}
use axiam_rust_sdk.Oidc.IdToken.{
  Audience, one, many, IdTokenClaims, IdTokenExpectations, id_token_invalid, check_id_token_claims,
}
use axiam_rust_sdk.Oidc.IdToken.Valid.{IsValid, InI64, check_id_token_claims_iff}
use axiam_rust_sdk.Oidc.IdToken.TokenSet.{
  TokenResponseWire, token_set, Expected, to_token_set, TrustedClaims, to_token_set-TrustedClaims,
}

abbrev claims_of : Audience → ℤ → IdTokenClaims
claims_of aud exp = record {
  iss = "https://iam.example.com";
  sub = "user-1";
  aud = aud;
  exp = some exp;
  iat = some (pos 1_800_000_000);
  nbf = none;
  nonce = some "nonce-value";
  azp = none;
}

abbrev claims : IdTokenClaims
claims = claims_of (one "axiam-rp") (pos 1_800_003_600)

abbrev expectations : IdTokenExpectations
expectations = record {
  issuer = "https://iam.example.com";
  client_id = "axiam-rp";
  nonce = some "nonce-value";
  clock_skew_sec = 60;
}

accepts_claims : check_id_token_claims claims expectations (pos 1_800_000_000) ≡ ok claims
unfolding check_id_token_claims contains add_i64 sub_i64 constant_time_eq
accepts_claims = refl

refuses_two_audiences :
    check_id_token_claims
      (claims_of (many ("axiam-rp" ∷ "other-rp" ∷ [])) (pos 1_800_003_600))
      expectations
      (pos 1_800_000_000)
    ≡ err (
        id_token_invalid invalid_audience
          "aud holds multiple audiences and azp is absent or does not equal this client_id")
unfolding check_id_token_claims contains
refuses_two_audiences = refl

-- The sum of the expiry and the skew wraps around.
refuses_largest :
    check_id_token_claims
      (claims_of (one "axiam-rp") (pos i64_max))
      expectations
      (pos 1_800_000_000)
    ≡ err (id_token_invalid token_expired "exp is in the past")
unfolding check_id_token_claims contains add_i64
refuses_largest = refl

check_id_token_claims_iff_example :
    (check_id_token_claims claims expectations (pos 1_800_000_000) ≡ ok claims)
    ↔ IsValid claims expectations 1_800_000_000
check_id_token_claims_iff_example =
    check_id_token_claims_iff claims expectations 1_800_000_000 (omega arith) (omega arith) tt

abbrev decode_header : String → Result Header String
decode_header token = ok (record { is_eddsa = true; alg_name = "EdDSA"; kid = some "k1" })

abbrev from_jwk : Jwk String → Option String
from_jwk jwk = some jwk.key

abbrev new_validation : Validation
new_validation = record {
  leeway = 60;
  required_spec_claims = "exp" ∷ [];
  validate_exp = true;
  validate_nbf = true;
  validate_aud = true;
  aud = none;
  iss = none;
}

abbrev decode : String → String → Validation → Result IdTokenClaims ErrorKind
decode token key validation = if token == "signed" then ok claims else err expired_signature

abbrev display : ErrorKind → String
display kind = "refused"

abbrev reading : Readings String
reading = record {
  looked_at = 0;
  checked_at = 0;
  answer = ok (record { key_id = some "k1"; key = "x1" } ∷ []);
  answered_at = 0;
}

abbrev wire : TokenResponseWire
wire = record {
  access_token = "a";
  token_type = "Bearer";
  expires_in = 900;
  scope = none;
  refresh_token = none;
  id_token = some "signed";
}

abbrev expected : Expected
expected = record {
  issuer = "https://iam.example.com";
  client_id = ok "axiam-rp";
  nonce = some "nonce-value";
  clock_skew_sec = 60;
}

gives_set :
    (to_token_set decode_header from_jwk new_validation decode display wire
      (ok tt)
      expected
      (pos 1_800_000_000)
      reading
      reading
      (new_cache true)).0
    ≡ ok (token_set wire (some claims))
unfolding to_token_set new_cache contains add_i64 sub_i64 constant_time_eq
gives_set = refl

-- The decoder gives these claims alone.
reads_i64 :
    (token key : String) (v : Validation) (given : IdTokenClaims)
    → decode token key v ≡ ok given
    → InI64 given.iat × InI64 given.nbf
reads_i64 token key v given h = elim (Bool-cases (token == "signed")) [
  | inl signed ↦
      let same : claims ≡ given = ok-injective (rw signed at h) in
      subst (λ (x : IdTokenClaims). InI64 x.iat × InI64 x.nbf) same (omega arith, tt)
  | inr other ↦ absurd (cc (rw other at h))
]

to_token_set-TrustedClaims_example :
    (token_set wire (some claims) ≡ token_set wire (some claims))
    × TrustedClaims decode_header from_jwk new_validation decode display expected 1_800_000_000
        reading reading
        (new_cache true)
        (omega arith)
        reads_i64
        (some "signed")
        (some claims)
unfolding token_set
to_token_set-TrustedClaims_example =
    to_token_set-TrustedClaims decode_header from_jwk new_validation decode display expected
      1_800_000_000 reading reading (new_cache true) (omega arith) reads_i64 wire (ok tt)
      (token_set wire (some claims)) gives_set
