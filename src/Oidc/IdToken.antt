-- ===== src/Oidc/IdToken.antt =====
-- src/oidc/id_token.rs, the signature half in src/token/jwks.rs, and the token set of src/oidc/exchange.rs
-- that is built from both. Sums of an `i64` wrap around, as they do where overflow is not trapped.
pub mod Valid
pub mod Signed
pub mod TokenSet
mod Examples
use Prim.Native.String.{◌++◌ as concat}
use axiam_rust_sdk.Prelude.{
  ℕ, ◌≤◌, String, String-Eq, ◌==◌, option_eq, Bool, true, false, not, ◌||◌, Option, none, some,
  List, [], ◌∷◌, Result, ok, err, ◌>>=◌, ◌>>◌, ok_or, ensure, leb, min, length, if◌then◌else◌,
}
use axiam_rust_sdk.Prelude.Int.{ℤ, int_le, add_i64, sub_i64}
use axiam_rust_sdk.Prelude.Maps.{contains}
use axiam_rust_sdk.Error.{
  AxiamError, IdTokenFailureReason, invalid_alg, unknown_kid, invalid_signature, invalid_issuer,
  invalid_audience, token_expired, nonce_mismatch, auth,
}
use axiam_rust_sdk.Token.Binding.{constant_time_eq}
use axiam_rust_sdk.Token.Keys.{Jwk, Cache, Readings, key_for}
use axiam_rust_sdk.Token.Verify.{Header}
use axiam_rust_sdk.Token.Validation.{Validation, ErrorKind, signature_validation}
use axiam_rust_sdk.Token.Validation as Validation

abbrev pub max_clock_skew_sec : ℕ
max_clock_skew_sec = 60

unfoldable pub as_str : IdTokenFailureReason → String
as_str invalid_alg = "invalid_alg"
as_str unknown_kid = "unknown_kid"
as_str invalid_signature = "invalid_signature"
as_str invalid_issuer = "invalid_issuer"
as_str invalid_audience = "invalid_audience"
as_str token_expired = "token_expired"
as_str nonce_mismatch = "nonce_mismatch"

-- `AxiamError::id_token_invalid`
unfoldable pub id_token_invalid : IdTokenFailureReason → String → AxiamError
unfolding as_str
id_token_invalid reason detail = auth (record {
  message = concat (concat (concat "id_token validation failed (" (as_str reason)) "): ") detail;
  oauth = none;
  reason = some reason;
  set_reason = none;
  retry_after = none;
})

pub data Audience : Type 0 where
  one : String → Audience
  many : List String → Audience

unfoldable pub as_slice : Audience → List String
as_slice (one s) = s ∷ []
as_slice (many items) = items

-- The claims, less those that are kept unread.
pub record IdTokenClaims : Type 0 where
  pub iss : String
  pub sub : String
  pub aud : Audience
  pub exp : Option ℤ
  pub iat : Option ℤ
  pub nbf : Option ℤ
  pub nonce : Option String
  pub azp : Option String

pub record IdTokenExpectations : Type 0 where
  pub issuer : String
  pub client_id : String
  pub nonce : Option String
  pub clock_skew_sec : ℕ

unfoldable pub resolve_clock_skew_sec : ℕ → ℕ
resolve_clock_skew_sec clock_skew_sec = min clock_skew_sec max_clock_skew_sec

-- The same body as the comparison of thumbprints.
unfoldable pub constant_time_equals : String → String → Bool
constant_time_equals a b = constant_time_eq a b

unfoldable pub check_audience : Audience → Option String → String → Result Unit AxiamError
unfolding as_slice id_token_invalid
check_audience aud azp client_id =
    ensure (contains client_id (as_slice aud))
      (id_token_invalid invalid_audience "aud does not contain this client_id")
    >> ensure (leb (length (as_slice aud)) 1 || option_eq azp (some client_id)) (
        id_token_invalid invalid_audience
          "aud holds multiple audiences and azp is absent or does not equal this client_id")

unfoldable pub check_exp : ℕ → ℤ → Option ℤ → Result Unit AxiamError
unfolding id_token_invalid
check_exp skew now_sec none = err (id_token_invalid token_expired "exp claim is missing")
check_exp skew now_sec (some exp) =
    ensure (not (int_le (add_i64 exp skew) now_sec))
      (id_token_invalid token_expired "exp is in the past")

unfoldable pub check_iat : ℕ → ℤ → Option ℤ → Result Unit AxiamError
unfolding id_token_invalid
check_iat skew now_sec none = err (id_token_invalid token_expired "iat claim is missing")
check_iat skew now_sec (some iat) =
    ensure (int_le (sub_i64 iat skew) now_sec)
      (id_token_invalid token_expired "iat is in the future")

unfoldable pub check_nbf : ℕ → ℤ → Option ℤ → Result Unit AxiamError
unfolding id_token_invalid
check_nbf skew now_sec none = ok tt
check_nbf skew now_sec (some nbf) =
    ensure (int_le (sub_i64 nbf skew) now_sec)
      (id_token_invalid token_expired "nbf is in the future")

-- The nonce that is expected, and the claimed one.
unfoldable pub check_nonce : Option String → Option String → Result Unit AxiamError
unfolding constant_time_equals id_token_invalid
check_nonce none claimed = ok tt
check_nonce (some expected) none =
    err
      (id_token_invalid nonce_mismatch "nonce claim is absent or does not match the request nonce")
check_nonce (some expected) (some actual) =
    ensure (constant_time_equals actual expected)
      (id_token_invalid nonce_mismatch "nonce claim is absent or does not match the request nonce")

unfoldable pub check_id_token_claims :
    IdTokenClaims → IdTokenExpectations → ℤ → Result IdTokenClaims AxiamError
unfolding resolve_clock_skew_sec check_audience check_exp check_iat check_nbf check_nonce
    id_token_invalid
check_id_token_claims claims expectations now_sec =
    let skew = resolve_clock_skew_sec expectations.clock_skew_sec in
    ensure (claims.iss == expectations.issuer)
      (id_token_invalid invalid_issuer "iss does not equal the discovery document issuer")
    >> (check_audience claims.aud claims.azp expectations.client_id
        >> (check_exp skew now_sec claims.exp
            >> (check_iat skew now_sec claims.iat
                >> (check_nbf skew now_sec claims.nbf
                    >> (check_nonce expectations.nonce claims.nonce >> ok claims)))))

module _ {K D T : Type 0} (decode_header : String → Result Header String)
    (from_jwk : Jwk K → Option D) (new_validation : Validation)
    (decode : String → D → Validation → Result T ErrorKind) (display : ErrorKind → String) where
  unfoldable pub decoded_claims : Result T ErrorKind → Result T AxiamError
  unfolding id_token_invalid
  decoded_claims (ok claims) = ok claims
  decoded_claims (err Validation.invalid_signature) =
      err (id_token_invalid invalid_signature "signature invalid")
  decoded_claims (err kind) =
      err (id_token_invalid invalid_signature (concat "claim decode failed: " (display kind)))

  -- From the key on.
  unfoldable pub decoded_with : String → Option (Jwk K) → Result T AxiamError
  unfolding decoded_claims signature_validation id_token_invalid
  decoded_with token found =
      ok_or found (id_token_invalid unknown_kid "unknown kid after JWKS refetch") >>= λ jwk.
      ok_or (from_jwk jwk)
        (id_token_invalid invalid_signature "unable to build decoding key from JWK")
      >>= λ key. decoded_claims (decode token key (signature_validation new_validation))

  -- From the header on.
  unfoldable pub signed_under :
      String → Option String → Readings K → Readings K → Cache K → Result T AxiamError × Cache K
  unfolding key_for decoded_with id_token_invalid
  signed_under token none first second c =
      (err (id_token_invalid unknown_kid "token has no kid header"), c)
  signed_under token (some kid) first second c =
      let (found, c') = key_for (some kid) first second c in (found >>= decoded_with token, c')

  unfoldable pub verify_header :
      String
      → Result Header String
      → Readings K
      → Readings K
      → Cache K
      → Result T AxiamError × Cache K
  unfolding signed_under id_token_invalid
  verify_header token (err e) first second c =
      (err (id_token_invalid invalid_alg (concat "malformed token: " e)), c)
  verify_header token (ok header) first second c =
      if not header.is_eddsa
      then (
        err (id_token_invalid invalid_alg (concat "expected alg \"EdDSA\", got " header.alg_name)),
        c,
      )
      else signed_under token header.kid first second c

  unfoldable pub verify_id_token_signature :
      String → Readings K → Readings K → Cache K → Result T AxiamError × Cache K
  unfolding verify_header
  verify_id_token_signature token first second c =
      verify_header token (decode_header token) first second c
