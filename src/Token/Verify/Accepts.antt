-- ===== src/Token/Verify/Accepts.antt =====
-- Which tokens the verifier of src/token/jwks.rs accepts.
use axiam_rust_sdk.Prelude.{
  ℕ, ◌≡◌, refl, ap, subst, ◌↔◌, inl, inr, String, false, Option, some, Result, ok, err, >>=-ok,
  ok-injective, Result-cases, iff_trans, iff_and, checked_iff,
}
use axiam_rust_sdk.Prelude.Text.{Text, text, trim}
use axiam_rust_sdk.Error.{AxiamError}
use axiam_rust_sdk.Token.Keys.{Jwk}
use axiam_rust_sdk.Token.Binding.{Claims, PresentedProofs}
use axiam_rust_sdk.Token.Verify.Rules.{
  refuse_revoked-ok, SameTenant, assert_tenant_iff, demanded, claims_validation-demanded,
}
use axiam_rust_sdk.Token.Verify.Keyed.{KeyOf, key_of_header-ok, keyed-ok}
use axiam_rust_sdk.Token.Binding.Bound.{IsBound, verify_token_binding_iff}
use axiam_rust_sdk.Token.Verify.{
  Header, JwksVerifier, Moment, assert_tenant, look_up, refuse_revoked, assert_not_revoked,
  decoding_key_for, decode_claims, checked_claims, verify_claims, rules_after,
  verify_rules_one_to_eight, verify_with_proofs,
}
use axiam_rust_sdk.Token.Validation.{Validation, ErrorKind}

module _ {K D : Type 0} (decode_header : String → Result Header String)
    (from_jwk : Jwk K → Option D) (decode : String → D → Validation → Result Claims ErrorKind)
    (parse_str : Text → Option ℕ) (entry_for : String → String) where
  -- All the rules that a token is accepted by.
  pub record Accepts (token : String) (proofs : PresentedProofs) (at : Moment K)
      (v : JwksVerifier K) (claims : Claims) : Type 0 where
    pub key : D
    pub keyed : KeyOf decode_header from_jwk token at v.cache key
    pub decoded : decode token key (demanded v.expected_issuer v.expected_audience) ≡ ok claims
    pub tenant : ℕ
    pub configured : v.expected_tenant_id ≡ some tenant
    pub same_tenant : parse_str (trim (text claims.tenant_id)) ≡ some tenant
    pub clear : (look_up entry_for v.revocation_feed claims.sid at.feed).0 ≡ false
    pub bound : IsBound claims.cnf proofs

  decode_claims-ok :
      (r : Result Claims ErrorKind) (claims : Claims)
      → decode_claims decode_header from_jwk decode r ≡ ok claims
      → r ≡ ok claims
  unfolding decode_claims
  decode_claims-ok (ok c) claims h = ap ok (ok-injective h)
  decode_claims-ok (err kind) claims h = cc

  module _ (token : String) (proofs : PresentedProofs) (at : Moment K) (v : JwksVerifier K) where
    -- From the claims on: what the tenant and the feed say.
    abbrev pub Passes : Claims → JwksVerifier K → Type 0
    Passes claims v =
        SameTenant parse_str v.expected_tenant_id claims
        × ((look_up entry_for v.revocation_feed claims.sid at.feed).0 ≡ false)

    rules_after-ok :
        (r : Result Claims AxiamError) (v' : JwksVerifier K) (claims : Claims)
        → (rules_after decode_header from_jwk decode parse_str entry_for r at v').0 ≡ ok claims
        → (r ≡ ok claims) × Passes claims v'
    unfolding rules_after assert_not_revoked
    rules_after-ok (err e) v' claims h = cc
    rules_after-ok (ok c) v' claims h =
        elim (Result-cases (assert_tenant parse_str v'.expected_tenant_id c)) [
          | inr (e, refused) ↦ absurd (cc (rw (refused, rules_after) at h))
          | inl (_, passed) ↦
              let (_, clear, same) =
                >>=-ok (refuse_revoked (look_up entry_for v'.revocation_feed c.sid at.feed).0) _
                  (rw (passed, rules_after) at h) in
              subst
                (λ (x : Claims). (◌≡◌ {A = Result Claims AxiamError} (ok c) (ok x)) × Passes x v')
                (ok-injective same)
                (
                  refl,
                  (
                    (assert_tenant_iff parse_str v'.expected_tenant_id c).0 passed,
                    refuse_revoked-ok _ clear,
                  ),
                )
        ]

    rules_after-Passes :
        (v' : JwksVerifier K) (claims : Claims)
        → Passes claims v'
        → (rules_after decode_header from_jwk decode parse_str entry_for (ok claims) at v').0
          ≡ ok claims
    unfolding rules_after assert_not_revoked refuse_revoked
    rules_after-Passes v' claims (same, clear) =
        rw ((assert_tenant_iff parse_str v'.expected_tenant_id claims).1 same, rules_after)
          (rw (clear, refuse_revoked) refl)

    verify_claims-ok :
        (claims : Claims)
        → (verify_claims decode_header from_jwk decode token at v).0 ≡ ok claims
        → (key : D) × KeyOf decode_header from_jwk token at v.cache key
          × (decode token key (demanded v.expected_issuer v.expected_audience) ≡ ok claims)
    unfolding verify_claims checked_claims decoding_key_for
    verify_claims-ok claims h =
        let (key, keyed, decoded) =
          >>=-ok (decoding_key_for decode_header from_jwk token at v.cache).0 _ h in
        (
          key,
          key_of_header-ok decode_header from_jwk token at (decode_header token) v.cache key refl
              keyed,
          subst (λ (x : Validation). decode token key x ≡ ok claims)
              (claims_validation-demanded v.expected_issuer v.expected_audience)
              (decode_claims-ok _ claims decoded),
        )

    verify_claims-keyed :
        (key : D) (claims : Claims)
        → KeyOf decode_header from_jwk token at v.cache key
        → decode token key (demanded v.expected_issuer v.expected_audience) ≡ ok claims
        → (verify_claims decode_header from_jwk decode token at v).0 ≡ ok claims
    unfolding verify_claims checked_claims decode_claims
    verify_claims-keyed key claims keyed decoded =
        rw
          (
            keyed-ok decode_header from_jwk token at v.cache key keyed,
            claims_validation-demanded v.expected_issuer v.expected_audience,
            decoded,
          )
          refl

    -- All the rules but the binding.
    abbrev pub Unbound : Claims → Type 0
    Unbound claims =
        (key : D) × KeyOf decode_header from_jwk token at v.cache key
        × (decode token key (demanded v.expected_issuer v.expected_audience) ≡ ok claims)
        × Passes claims v

    verify_rules_one_to_eight-ok :
        (claims : Claims)
        → (verify_rules_one_to_eight decode_header from_jwk decode parse_str entry_for token at v).0
          ≡ ok claims
        → Unbound claims
    unfolding verify_rules_one_to_eight verify_claims checked_claims
    verify_rules_one_to_eight-ok claims h =
        let (has, passes) = rules_after-ok _ _ claims h in
        let (key, keyed, decoded) = verify_claims-ok claims has in (key, keyed, decoded, passes)

    rules_after-checked :
        (claims : Claims)
        → Passes claims v
        → (rules_after decode_header from_jwk decode parse_str entry_for
            (ok claims)
            at
            (verify_claims decode_header from_jwk decode token at v).1).0
          ≡ ok claims
    unfolding verify_claims checked_claims
    rules_after-checked claims passes = rules_after-Passes _ claims passes

    verify_rules_one_to_eight-Unbound :
        (claims : Claims)
        → Unbound claims
        → (verify_rules_one_to_eight decode_header from_jwk decode parse_str entry_for token at v).0
          ≡ ok claims
    unfolding verify_rules_one_to_eight
    verify_rules_one_to_eight-Unbound claims (key, keyed, decoded, passes) =
        rw (verify_claims-keyed key claims keyed decoded) (rules_after-checked claims passes)

    pub verify_rules_one_to_eight_iff :
        (claims : Claims)
        → ((verify_rules_one_to_eight decode_header from_jwk decode parse_str entry_for token at
              v).0
            ≡ ok claims)
          ↔ Unbound claims
    verify_rules_one_to_eight_iff claims =
        (verify_rules_one_to_eight-ok claims, verify_rules_one_to_eight-Unbound claims)

    pub Unbound-Accepts :
        (claims : Claims)
        → (Unbound claims × IsBound claims.cnf proofs) ↔ Accepts token proofs at v claims
    Unbound-Accepts claims = (
      λ ((key, keyed, decoded, ((tenant, configured, same), clear)), bound). record {
        key = key;
        keyed = keyed;
        decoded = decoded;
        tenant = tenant;
        configured = configured;
        same_tenant = same;
        clear = clear;
        bound = bound;
      },
      λ a. (
        (a.key, a.keyed, a.decoded, ((a.tenant, a.configured, a.same_tenant), a.clear)),
        a.bound,
      ),
    )

    -- A token is accepted with the claims exactly if every rule holds: its header says EdDSA, the cache gives
    -- a key for its `kid`, the check of its signature and of its claims gives these claims, asked for what the
    -- configured issuer and audience demand, a tenant is configured and the claims name it, the feed after its
    -- look-up does not list the session, and the proofs presented are those that its confirmation names.
    pub verify_with_proofs_iff :
        (claims : Claims)
        → ((verify_with_proofs decode_header from_jwk decode parse_str entry_for token proofs at
              v).0
            ≡ ok claims)
          ↔ Accepts token proofs at v claims
    unfolding verify_with_proofs
    verify_with_proofs_iff claims =
        iff_trans
          (checked_iff
            (verify_rules_one_to_eight decode_header from_jwk decode parse_str entry_for token at
              v).0
            _)
          (iff_trans
            (iff_and (verify_rules_one_to_eight_iff claims)
              (verify_token_binding_iff claims proofs))
            (Unbound-Accepts claims))
