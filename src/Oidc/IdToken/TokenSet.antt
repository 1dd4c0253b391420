-- ===== src/Oidc/IdToken/TokenSet.antt =====
-- The token set of src/oidc/exchange.rs: an answer of the token endpoint with its ID token checked in full.
use axiam_rust_sdk.Prelude.{
  ℕ, ◌+◌, ◌≤◌, ◌≡◌, refl, ap, sym, ◌∙◌, subst, String, Option, none, some, Result, ok, err, ◌>>=◌,
  >>=-ok, ok-injective,
}
use axiam_rust_sdk.Prelude.Int.{ℤ, pos, i64_max}
use axiam_rust_sdk.Error.{AxiamError}
use axiam_rust_sdk.Token.Keys.{Jwk, Cache, Readings}
use axiam_rust_sdk.Token.Verify.{Header}
use axiam_rust_sdk.Token.Validation.{Validation, ErrorKind}
use axiam_rust_sdk.Oidc.IdToken.{
  IdTokenClaims, IdTokenExpectations, check_id_token_claims, verify_id_token_signature,
}
use axiam_rust_sdk.Oidc.IdToken.Signed.{Signed, verify_id_token_signature-Signed}
use axiam_rust_sdk.Oidc.IdToken.Valid.{
  IsValid, InI64, check_id_token_claims_iff, check_id_token_claims-ok,
}

pub record TokenResponseWire : Type 0 where
  pub access_token : String
  pub token_type : String
  pub expires_in : ℕ
  pub scope : Option String
  pub refresh_token : Option String
  pub id_token : Option String

-- The set, with its secrets unwrapped.
pub record OidcTokenSet : Type 0 where
  pub access_token : String
  pub token_type : String
  pub expires_in : ℕ
  pub scope : Option String
  pub refresh_token : Option String
  pub id_token : Option String
  pub id_claims : Option IdTokenClaims

unfoldable pub token_set : TokenResponseWire → Option IdTokenClaims → OidcTokenSet
token_set wire id_claims = record {
  access_token = wire.access_token;
  token_type = wire.token_type;
  expires_in = wire.expires_in;
  scope = wire.scope;
  refresh_token = wire.refresh_token;
  id_token = wire.id_token;
  id_claims = id_claims;
}

-- What a client checks an ID token against; the `client_id` is an error where none is configured.
pub record Expected : Type 0 where
  pub issuer : String
  pub client_id : Result String AxiamError
  pub nonce : Option String
  pub clock_skew_sec : ℕ

unfoldable pub expectations_of : Expected → String → IdTokenExpectations
expectations_of expected client_id = record {
  issuer = expected.issuer;
  client_id = client_id;
  nonce = expected.nonce;
  clock_skew_sec = expected.clock_skew_sec;
}

unfoldable pub check_against : Expected → ℤ → IdTokenClaims → Result IdTokenClaims AxiamError
unfolding expectations_of check_id_token_claims
check_against expected now_sec claims = expected.client_id >>= λ client_id.
    check_id_token_claims claims (expectations_of expected client_id) now_sec

module _ {K D : Type 0} (decode_header : String → Result Header String)
    (from_jwk : Jwk K → Option D) (new_validation : Validation)
    (decode : String → D → Validation → Result IdTokenClaims ErrorKind)
    (display : ErrorKind → String) where
  -- The claims of the ID token, if there is one, with the verifier of the configuration or the error of making it.
  unfoldable pub id_claims_of :
      Option String
      → Result Unit AxiamError
      → Expected
      → ℤ
      → Readings K
      → Readings K
      → Cache K
      → Result (Option IdTokenClaims) AxiamError × Cache K
  unfolding verify_id_token_signature check_against
  id_claims_of none verifier expected now_sec first second c = (ok none, c)
  id_claims_of (some id_token) (err e) expected now_sec first second c = (err e, c)
  id_claims_of (some id_token) (ok _) expected now_sec first second c =
      let (claims, c') =
        verify_id_token_signature decode_header from_jwk new_validation decode display id_token
          first second c in
      (claims >>= λ signed. check_against expected now_sec signed >>= λ valid. ok (some valid), c')

  -- `to_token_set`
  unfoldable pub to_token_set :
      TokenResponseWire
      → Result Unit AxiamError
      → Expected
      → ℤ
      → Readings K
      → Readings K
      → Cache K
      → Result OidcTokenSet AxiamError × Cache K
  unfolding id_claims_of token_set
  to_token_set wire verifier expected now_sec first second c =
      let (id_claims, c') = id_claims_of wire.id_token verifier expected now_sec first second c in
      (id_claims >>= λ claims. ok (token_set wire claims), c')

  module _ (expected : Expected) (now : ℕ) (first second : Readings K) (c : Cache K)
      (early : now + 120 ≤ i64_max)
      (reads_i64 : (token : String) (key : D) (v : Validation) (claims : IdTokenClaims)
        → decode token key v ≡ ok claims
        → InI64 claims.iat × InI64 claims.nbf) where
    -- An ID token that is signed, and its claims, which are valid.
    pub record Trusted (id_token : String) (claims : IdTokenClaims) : Type 0 where
      pub client_id : String
      pub configured : expected.client_id ≡ ok client_id
      pub signed :
          Signed decode_header from_jwk new_validation decode display first second c id_token claims
      pub valid : IsValid claims (expectations_of expected client_id) now

    -- The claims of a set are those of its ID token.
    abbrev pub TrustedClaims : Option String → Option IdTokenClaims → Type 0
    TrustedClaims none none = Unit
    TrustedClaims none (some claims) = ⊥
    TrustedClaims (some id_token) none = ⊥
    TrustedClaims (some id_token) (some claims) = Trusted id_token claims

    check_against-ok :
        (signed claims : IdTokenClaims)
        → InI64 signed.iat × InI64 signed.nbf
        → check_against expected (pos now) signed ≡ ok claims
        → (client_id : String) × (expected.client_id ≡ ok client_id)
          × (signed ≡ claims)
          × IsValid claims (expectations_of expected client_id) now
    unfolding check_against
    check_against-ok signed claims (iat_within, nbf_within) h =
        let (client_id, configured, checked) = >>=-ok expected.client_id _ h in
        let expectations = expectations_of expected client_id in
        let same = check_id_token_claims-ok signed claims expectations (pos now) checked in
        (
          client_id,
          configured,
          same,
          subst (λ (x : IdTokenClaims). IsValid x expectations now) same
              ((check_id_token_claims_iff signed expectations now early iat_within nbf_within).0
                (checked ∙ ap ok (sym same))),
        )

    id_claims_of-ok :
        (id_token : Option String) (verifier : Result Unit AxiamError)
        (id_claims : Option IdTokenClaims)
        → (id_claims_of id_token verifier expected (pos now) first second c).0 ≡ ok id_claims
        → TrustedClaims id_token id_claims
    unfolding id_claims_of
    id_claims_of-ok none verifier none h = tt
    id_claims_of-ok none verifier (some claims) h = cc
    id_claims_of-ok (some id_token) (err e) id_claims h = cc
    id_claims_of-ok (some id_token) (ok _) id_claims h =
        let (signed, verified, rest) =
          >>=-ok
            (verify_id_token_signature decode_header from_jwk new_validation decode display id_token
              first second c).0
            _ h in
        let (valid, checked, same) = >>=-ok (check_against expected (pos now) signed) _ rest in
        let seen =
          verify_id_token_signature-Signed decode_header from_jwk new_validation decode display
            first second c id_token signed verified in
        let (client_id, configured, kept, rules) =
          check_against-ok signed valid (reads_i64 id_token seen.key _ signed seen.decoded)
            checked in
        subst (TrustedClaims (some id_token)) (ok-injective same) (record {
          client_id = client_id;
          configured = configured;
          signed =
              subst
                (Signed decode_header from_jwk new_validation decode display first second c
                  id_token)
                kept seen;
          valid = rules;
        })

    -- A set is given only with every field of the answer, and with claims exactly if the answer has an ID token:
    -- then the `client_id` is configured; the token's header names EdDSA and a `kid`, the cache gives a key for
    -- it, and under that key the token decodes to the claims, by a validation of the signature alone; and the
    -- claims are valid at the time. It is supposed that the decoder reads times that are an `i64`, and that the
    -- time is at least two minutes before the last that is one.
    pub to_token_set-TrustedClaims :
        (wire : TokenResponseWire) (verifier : Result Unit AxiamError) (set : OidcTokenSet)
        → (to_token_set wire verifier expected (pos now) first second c).0 ≡ ok set
        → (set ≡ token_set wire set.id_claims) × TrustedClaims wire.id_token set.id_claims
    unfolding to_token_set token_set
    to_token_set-TrustedClaims wire verifier set h =
        let (claims, has, same) =
          >>=-ok (id_claims_of wire.id_token verifier expected (pos now) first second c).0 _ h in
        subst
          (λ (x : OidcTokenSet).
            (x ≡ token_set wire x.id_claims) × TrustedClaims wire.id_token x.id_claims)
          (ok-injective same) (refl, id_claims_of-ok wire.id_token verifier claims has)
