-- ===== src/Token/Verify.antt =====
-- The verifier of access tokens of src/token/jwks.rs, over the cache of keys, the binding and the feed of
-- revocations. What the libraries do is arguments: the parser of a header, the making of a key, the check of a
-- signature and of the claims at the current time, and the parser of a UUID.
pub mod Rules
pub mod Keyed
pub mod Accepts
pub mod EntryPoints
mod Examples
use Prim.Native.String.{◌++◌ as concat}
use axiam_rust_sdk.Prelude.{
  ℕ, String, Bool, true, false, not, Option, none, some, List, [], ◌∷◌, Result, ok, err, ◌>>=◌,
  ◌>>◌, ok_or, nat_eq, if◌then◌else◌,
}
use axiam_rust_sdk.Prelude.Text.{Text, text, trim}
use axiam_rust_sdk.Error.{AxiamError, new_auth}
use axiam_rust_sdk.Token.Revocation.{RevocationFeed, is_revoked, Readings as FeedReadings}
use axiam_rust_sdk.Token.Keys.{Jwk, Cache, Readings, key_for}
use axiam_rust_sdk.Token.Validation.{
  Validation, ErrorKind, message_of, claims_validation, signature_validation,
}
use axiam_rust_sdk.Token.Binding.{
  Claims, PresentedProofs, verify_token_binding, verify_certificate_binding,
}

-- The header of a token: whether its `alg` is `EdDSA`, the name of that, and its `kid`.
pub record Header : Type 0 where
  pub is_eddsa : Bool
  pub alg_name : String
  pub kid : Option String

-- The state of a verifier, and how it was configured. A UUID is its number.
pub record JwksVerifier (K : Type 0) : Type 0 where
  pub cache : Cache K
  pub expected_tenant_id : Option ℕ
  pub expected_issuer : Option String
  pub expected_audience : Option String
  pub revocation_feed : Option RevocationFeed

-- The readings and answers of one call: of the two calls of the cache, and of the feed.
pub record Moment (K : Type 0) : Type 0 where
  pub first : Readings K
  pub second : Readings K
  pub feed : FeedReadings

unfoldable pub tenant_matches : ℕ → Option ℕ → Result Unit AxiamError
tenant_matches expected none = err (new_auth "token tenant_id claim is absent or not a UUID")
tenant_matches expected (some actual) =
    if not (nat_eq actual expected)
    then err (new_auth "token tenant_id does not match the configured tenant")
    else ok tt

module _ (parse_str : Text → Option ℕ) where
  unfoldable pub assert_tenant : Option ℕ → Claims → Result Unit AxiamError
  unfolding tenant_matches
  assert_tenant expected_tenant_id claims =
      ok_or expected_tenant_id (
        new_auth
          "JWKS verifier has no expected tenant configured; refusing to accept a token (CONTRACT.md §10.1 rule 4 — call JwksVerifier::expect_tenant_id before using it as a route guard)")
      >>= λ expected. tenant_matches expected (parse_str (trim (text claims.tenant_id)))

-- The feed after the look-up, and whether it lists the session. The look-up is made only where there is a feed
-- and the token names a session.
unfoldable pub look_up :
    (String → String)
    → Option RevocationFeed
    → Option String
    → FeedReadings
    → Bool × Option RevocationFeed
unfolding is_revoked
look_up entry_for none sid at = (false, none)
look_up entry_for (some feed) none at = (false, some feed)
look_up entry_for (some feed) (some sid) at =
    let ((listed, _), state') = is_revoked entry_for feed.poll_interval sid at feed.state in
    (listed, some (record feed { state = state' }))

unfoldable pub refuse_revoked : Bool → Result Unit AxiamError
refuse_revoked listed =
    if listed
    then err (new_auth "the session behind this access token has been revoked (CONTRACT.md §10.4)")
    else ok tt

module _ {K : Type 0} (entry_for : String → String) where
  unfoldable pub assert_not_revoked :
      Claims → FeedReadings → JwksVerifier K → Result Unit AxiamError × JwksVerifier K
  unfolding look_up refuse_revoked
  assert_not_revoked claims at v =
      let (listed, feed') = look_up entry_for v.revocation_feed claims.sid at in
      (refuse_revoked listed, record v { revocation_feed = feed' })

module _ {K D : Type 0} (decode_header : String → Result Header String)
    (from_jwk : Jwk K → Option D) where
  -- The key of a set that is made a key to check with.
  unfoldable pub built_key : Option (Jwk K) → Result D AxiamError
  built_key found = ok_or found (new_auth "unknown kid after JWKS refetch") >>= λ jwk.
      ok_or (from_jwk jwk) (new_auth "unable to build decoding key from JWK")

  -- From the header on.
  unfoldable pub key_of_header :
      Result Header String → Moment K → Cache K → Result D AxiamError × Cache K
  unfolding key_for built_key
  key_of_header (err e) at c = (err (new_auth (concat "invalid token header: " e)), c)
  key_of_header (ok header) at c =
      if not header.is_eddsa
      then (err (new_auth "unexpected alg: only EdDSA is accepted"), c)
      else let (found, c') = key_for header.kid at.first at.second c in (found >>= built_key, c')

  unfoldable pub decoding_key_for : String → Moment K → Cache K → Result D AxiamError × Cache K
  unfolding key_of_header
  decoding_key_for token at c = key_of_header (decode_header token) at c

  module _ (decode : String → D → Validation → Result Claims ErrorKind) where
    unfoldable pub decode_claims : Result Claims ErrorKind → Result Claims AxiamError
    decode_claims (ok claims) = ok claims
    decode_claims (err kind) = err (new_auth (message_of kind))

    -- A token under a validation.
    unfoldable pub checked_claims :
        Validation → String → Moment K → JwksVerifier K → Result Claims AxiamError × JwksVerifier K
    unfolding decoding_key_for decode_claims
    checked_claims validation token at v =
        let (decoding_key, cache') = decoding_key_for token at v.cache in
        (
          decoding_key >>= λ key. decode_claims (decode token key validation),
          record v { cache = cache' },
        )

    unfoldable pub verify_claims :
        String → Moment K → JwksVerifier K → Result Claims AxiamError × JwksVerifier K
    unfolding checked_claims claims_validation
    verify_claims token at v =
        checked_claims (claims_validation v.expected_issuer v.expected_audience) token at v

    unfoldable pub verify_signature_only_unchecked :
        Validation → String → Moment K → JwksVerifier K → Result Claims AxiamError × JwksVerifier K
    unfolding checked_claims signature_validation
    verify_signature_only_unchecked new_validation token at v =
        checked_claims (signature_validation new_validation) token at v

    module _ (parse_str : Text → Option ℕ) (entry_for : String → String) where
      -- After the claims: the tenant, and then the feed.
      unfoldable pub rules_after :
          Result Claims AxiamError
          → Moment K
          → JwksVerifier K
          → Result Claims AxiamError × JwksVerifier K
      unfolding assert_tenant assert_not_revoked
      rules_after (err e) at v = (err e, v)
      rules_after (ok claims) at v = elim (assert_tenant parse_str v.expected_tenant_id claims) [
        | err e ↦ (err e, v)
        | ok _ ↦
            let (clear, v') = assert_not_revoked entry_for claims at.feed v in
            (clear >> ok claims, v')
      ]

      unfoldable pub verify_rules_one_to_eight :
          String → Moment K → JwksVerifier K → Result Claims AxiamError × JwksVerifier K
      unfolding verify_claims rules_after
      verify_rules_one_to_eight token at v =
          let (claims, v') = verify_claims token at v in rules_after claims at v'

      unfoldable pub verify_with_proofs :
          String
          → PresentedProofs
          → Moment K
          → JwksVerifier K
          → Result Claims AxiamError × JwksVerifier K
      unfolding verify_rules_one_to_eight verify_token_binding
      verify_with_proofs token proofs at v =
          let (claims, v') = verify_rules_one_to_eight token at v in
          (claims >>= λ c. verify_token_binding c proofs >> ok c, v')

      unfoldable pub verify :
          String → Moment K → JwksVerifier K → Result Claims AxiamError × JwksVerifier K
      unfolding verify_with_proofs
      verify token at v =
          verify_with_proofs token
            (record { certificate_thumbprint = none; dpop_thumbprint = none }) at v

      unfoldable pub verify_sender_constrained :
          String
          → Option String
          → Moment K
          → JwksVerifier K
          → Result Claims AxiamError × JwksVerifier K
      unfolding verify_rules_one_to_eight verify_certificate_binding
      verify_sender_constrained token presented at v =
          let (claims, v') = verify_rules_one_to_eight token at v in
          (claims >>= λ c. verify_certificate_binding c presented >> ok c, v')
