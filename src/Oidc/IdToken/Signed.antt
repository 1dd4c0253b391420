-- ===== src/Oidc/IdToken/Signed.antt =====
-- What src/token/jwks.rs has checked of an ID token whose claims it gives.
use axiam_rust_sdk.Prelude.{
  ◌≡◌, refl, ap, ◌∙◌, inl, inr, String, true, Option, none, some, [], Result, ok, err, >>=-ok,
  ok_or-ok, ok-injective, false, Bool-cases,
}
use axiam_rust_sdk.Token.Keys.{Jwk, Cache, Readings, key_for}
use axiam_rust_sdk.Token.Verify.{Header}
use axiam_rust_sdk.Token.Validation.{Validation, ErrorKind, signature_validation}
use axiam_rust_sdk.Token.Validation as Validation
use axiam_rust_sdk.Oidc.IdToken.{
  decoded_claims, decoded_with, signed_under, verify_header, verify_id_token_signature,
}

module _ {K D T : Type 0} (decode_header : String → Result Header String)
    (from_jwk : Jwk K → Option D) (new_validation : Validation)
    (decode : String → D → Validation → Result T ErrorKind) (display : ErrorKind → String)
    (first second : Readings K) (c : Cache K) where
  -- The token names EdDSA and a `kid`, for which the cache gives a key, and under that key it decodes to
  -- the claims, by a validation of the signature alone.
  pub record Signed (token : String) (claims : T) : Type 0 where
    pub header : Header
    pub parsed : decode_header token ≡ ok header
    pub eddsa : header.is_eddsa ≡ true
    pub kid : String
    pub named : header.kid ≡ some kid
    pub jwk : Jwk K
    pub found : (key_for (some kid) first second c).0 ≡ ok (some jwk)
    pub key : D
    pub built : from_jwk jwk ≡ some key
    pub decoded :
        decode token key (record new_validation {
          required_spec_claims = [];
          validate_exp = false;
          validate_nbf = false;
          validate_aud = false;
          leeway = 0;
        })
        ≡ ok claims

  decoded_claims-ok :
      (decoded : Result T ErrorKind) (claims : T)
      → decoded_claims decode_header from_jwk new_validation decode display decoded ≡ ok claims
      → decoded ≡ ok claims
  unfolding decoded_claims
  decoded_claims-ok (ok claims') claims h = ap ok (ok-injective h)
  decoded_claims-ok (err Validation.invalid_signature) claims h = cc
  decoded_claims-ok (err Validation.expired_signature) claims h = cc
  decoded_claims-ok (err Validation.immature_signature) claims h = cc
  decoded_claims-ok (err (Validation.missing_required_claim claim)) claims h = cc
  decoded_claims-ok (err (Validation.invalid_claim_format claim)) claims h = cc
  decoded_claims-ok (err Validation.invalid_issuer) claims h = cc
  decoded_claims-ok (err Validation.invalid_audience) claims h = cc
  decoded_claims-ok (err (Validation.other_kind e)) claims h = cc

  decoded_with-ok :
      (token : String) (found : Option (Jwk K)) (claims : T)
      → decoded_with decode_header from_jwk new_validation decode display token found ≡ ok claims
      → (jwk : Jwk K) × (key : D) × (found ≡ some jwk)
        × (from_jwk jwk ≡ some key)
        × (decode token key (signature_validation new_validation) ≡ ok claims)
  unfolding decoded_with
  decoded_with-ok token none claims h = cc
  decoded_with-ok token (some jwk) claims h =
      let (key, made, rest) = >>=-ok _ _ h in
      (jwk, key, refl, ok_or-ok (from_jwk jwk) _ made, decoded_claims-ok _ claims rest)

  signed_under-ok :
      (token : String) (kid : Option String) (claims : T)
      → (signed_under decode_header from_jwk new_validation decode display token kid first second
          c).0
        ≡ ok claims
      → (k : String) × (kid ≡ some k)
        × ((jwk : Jwk K) × (key : D) × ((key_for (some k) first second c).0 ≡ ok (some jwk))
            × (from_jwk jwk ≡ some key)
            × (decode token key (signature_validation new_validation) ≡ ok claims))
  unfolding signed_under
  signed_under-ok token none claims h = cc
  signed_under-ok token (some k) claims h =
      let (found, has, rest) = >>=-ok (key_for (some k) first second c).0 _ h in
      let (jwk, key, same, built, decoded) = decoded_with-ok token found claims rest in
      (k, refl, (jwk, key, has ∙ ap ok same, built, decoded))

  verify_header-Signed :
      (token : String) (parsed : Result Header String) (claims : T)
      → decode_header token ≡ parsed
      → (verify_header decode_header from_jwk new_validation decode display token parsed first
          second c).0
        ≡ ok claims
      → Signed token claims
  unfolding verify_header signature_validation
  verify_header-Signed token (err e) claims p h = cc
  verify_header-Signed token (ok header) claims p h = elim (Bool-cases header.is_eddsa) [
    | inr other ↦ absurd (cc (rw other at h))
    | inl eddsa ↦
        let (kid, named, (jwk, key, found, built, decoded)) =
          signed_under-ok token header.kid claims (rw eddsa at h) in
        record {
          header = header;
          parsed = p;
          eddsa = eddsa;
          kid = kid;
          named = named;
          jwk = jwk;
          found = found;
          key = key;
          built = built;
          decoded = decoded;
        }
  ]

  -- The claims are given only of a token that is signed so.
  pub verify_id_token_signature-Signed :
      (token : String) (claims : T)
      → (verify_id_token_signature decode_header from_jwk new_validation decode display token first
          second c).0
        ≡ ok claims
      → Signed token claims
  unfolding verify_id_token_signature
  verify_id_token_signature-Signed token claims h =
      verify_header-Signed token (decode_header token) claims refl h
