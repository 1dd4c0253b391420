-- ===== src/Token/Verify/Keyed.antt =====
-- The key that the verifier of src/token/jwks.rs checks a token with.
use axiam_rust_sdk.Prelude.{
  ◌≡◌, refl, ap, ◌∙◌, inl, inr, String, true, Option, none, some, Result, ok, err, >>=-ok, ok_or-ok,
  Bool-cases,
}
use axiam_rust_sdk.Token.Keys.{Jwk, Cache, key_for}
use axiam_rust_sdk.Token.Verify.{Header, Moment, built_key, key_of_header, decoding_key_for}

module _ {K D : Type 0} (decode_header : String → Result Header String)
    (from_jwk : Jwk K → Option D) where
  -- The key that a token is checked with: of the EdDSA key that the cache gives for its header's `kid`.
  pub record KeyOf (token : String) (at : Moment K) (c : Cache K) (key : D) : Type 0 where
    pub header : Header
    pub parsed : decode_header token ≡ ok header
    pub eddsa : header.is_eddsa ≡ true
    pub jwk : Jwk K
    pub found : (key_for header.kid at.first at.second c).0 ≡ ok (some jwk)
    pub built : from_jwk jwk ≡ some key

  built_key-ok :
      (found : Option (Jwk K)) (key : D)
      → built_key decode_header from_jwk found ≡ ok key
      → (jwk : Jwk K) × (found ≡ some jwk) × (from_jwk jwk ≡ some key)
  unfolding built_key
  built_key-ok none key h = cc
  built_key-ok (some jwk) key h = (jwk, refl, ok_or-ok (from_jwk jwk) _ h)

  module _ (token : String) (at : Moment K) where
    pub key_of_header-ok :
        (parsed : Result Header String) (c : Cache K) (key : D)
        → decode_header token ≡ parsed
        → (key_of_header decode_header from_jwk parsed at c).0 ≡ ok key
        → KeyOf token at c key
    unfolding key_of_header
    key_of_header-ok (err e) c key p h = cc
    key_of_header-ok (ok header) c key p h = elim (Bool-cases header.is_eddsa) [
      | inr other ↦ absurd (cc (rw other at h))
      | inl eddsa ↦
          let (found, has, makes) =
            >>=-ok (key_for header.kid at.first at.second c).0 (built_key decode_header from_jwk)
              (rw eddsa at h) in
          let (jwk, same, built) = built_key-ok found key makes in
          record {
            header = header;
            parsed = p;
            eddsa = eddsa;
            jwk = jwk;
            found = has ∙ ap ok same;
            built = built;
          }
    ]

    pub keyed-ok :
        (c : Cache K) (key : D)
        → KeyOf token at c key
        → (decoding_key_for decode_header from_jwk token at c).0 ≡ ok key
    unfolding decoding_key_for key_of_header built_key
    keyed-ok c key k = rw (k.parsed, key_of_header) (rw (k.eddsa, k.found) (rw k.built refl))
