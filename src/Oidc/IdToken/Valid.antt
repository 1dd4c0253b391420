-- ===== src/Oidc/IdToken/Valid.antt =====
-- Which claims src/oidc/id_token.rs accepts.
use axiam_rust_sdk.Prelude.{
  ℕ, suc, ◌+◌, ◌≤◌, ◌<◌, ◌≡◌, refl, ap, ◌↔◌, ◌⊎◌, inl, inr, min, String, String-Eq, Option-Eq, ◌==◌,
  ==_iff, option_eq, option_eq_iff, Bool, true, false, not, ◌||◌, Option, none, some, Result, ok,
  ensure, ensure_iff, iff_trans, passes_then, kept_by, ok-injective, leb, length, Bool-cases, arith,
}
use axiam_rust_sdk.Prelude.Int.{ℤ, pos, pos_part, neg_part, i64_max, add_i64_later, sub_i64_past}
use axiam_rust_sdk.Prelude.Maps.{contains}
use axiam_rust_sdk.Error.{AxiamError}
use axiam_rust_sdk.Token.Binding.Bound.{constant_time_eq_iff}
use axiam_rust_sdk.Oidc.IdToken.{
  Audience, as_slice, IdTokenClaims, IdTokenExpectations, resolve_clock_skew_sec,
  constant_time_equals, check_audience, check_exp, check_iat, check_nbf, check_nonce,
  check_id_token_claims,
}

abbrev IsFor : Audience → Option String → String → Type 0
IsFor aud azp client_id =
    (contains client_id (as_slice aud) ≡ true)
    × ((length (as_slice aud) ≤ 1) ⊎ (azp ≡ some client_id))

-- The time of a claim, with a skew: there is one, it is later than now, and its sum with the skew is an `i64`.
abbrev IsLater : ℕ → ℕ → Option ℤ → Type 0
IsLater skew now none = ⊥
IsLater skew now (some exp) =
    (now + neg_part exp < pos_part exp + skew) × (pos_part exp + skew ≤ i64_max)

abbrev IsPast : ℕ → ℕ → ℤ → Type 0
IsPast skew now iat =
    (pos_part iat ≤ now + skew + neg_part iat) × (neg_part iat + skew ≤ suc i64_max)

abbrev HasPast : ℕ → ℕ → Option ℤ → Type 0
HasPast skew now none = ⊥
HasPast skew now (some iat) = IsPast skew now iat

abbrev NoneLater : ℕ → ℕ → Option ℤ → Type 0
NoneLater skew now none = Unit
NoneLater skew now (some nbf) = IsPast skew now nbf

abbrev Echoes : Option String → Option String → Type 0
Echoes none claimed = Unit
Echoes (some expected) claimed = claimed ≡ some expected

-- A claim that is an `i64`.
abbrev pub InI64 : Option ℤ → Type 0
InI64 none = Unit
InI64 (some t) = neg_part t ≤ suc i64_max

-- The skew that is asked for, up to a minute.
abbrev pub bounded_skew : IdTokenExpectations → ℕ
bounded_skew expectations = min expectations.clock_skew_sec 60

-- The rules for the claims, at a time.
abbrev pub IsValid : IdTokenClaims → IdTokenExpectations → ℕ → Type 0
IsValid claims expectations now =
    (claims.iss ≡ expectations.issuer)
    × (IsFor claims.aud claims.azp expectations.client_id
        × (IsLater (bounded_skew expectations) now claims.exp
            × (HasPast (bounded_skew expectations) now claims.iat
                × (NoneLater (bounded_skew expectations) now claims.nbf
                    × (Echoes expectations.nonce claims.nonce × Unit)))))

check_audience_iff :
    (aud : Audience) (azp : Option String) (client_id : String)
    → (check_audience aud azp client_id ≡ ok tt) ↔ IsFor aud azp client_id
unfolding check_audience
check_audience_iff aud azp client_id =
    passes_then (ensure (contains client_id (as_slice aud)) _) _ (ensure_iff _ _)
      (iff_trans (ensure_iff _ _) one_or_named)
  where
    one_or_named :
        ((leb (length (as_slice aud)) 1 || option_eq azp (some client_id)) ≡ true)
        ↔ ((length (as_slice aud) ≤ 1) ⊎ (azp ≡ some client_id))
    one_or_named = elim (Bool-cases (leb (length (as_slice aud)) 1)) [
      | inl few ↦ (λ _. inl (ground (arith, few)), λ _. rw few refl)
      | inr more ↦ (
        λ h. inr ((option_eq_iff azp (some client_id)).0 (rw more at h)),
        λ h. elim h [
          | inl few ↦ absurd (ground (arith, few, more))
          | inr named ↦ rw more ((option_eq_iff azp (some client_id)).1 named)
        ],
      )
    ]

not_iff : (b : Bool) → (not b ≡ true) ↔ (b ≡ false)
not_iff true = (λ h. cc h, λ h. cc h)
not_iff false = (λ _. refl, λ _. refl)

module _ (skew now : ℕ) where
  check_exp_iff :
      (exp : Option ℤ)
      → skew ≤ i64_max
      → (check_exp skew (pos now) exp ≡ ok tt) ↔ IsLater skew now exp
  unfolding check_exp
  check_exp_iff none small = (λ h. cc h, λ h. absurd h)
  check_exp_iff (some exp) small =
      iff_trans (ensure_iff _ _) (iff_trans (not_iff _) (add_i64_later exp now skew small))

  check_iat_iff :
      (iat : Option ℤ)
      → InI64 iat
      → now + skew + skew ≤ i64_max
      → (check_iat skew (pos now) iat ≡ ok tt) ↔ HasPast skew now iat
  unfolding check_iat
  check_iat_iff none within early = (λ h. cc h, λ h. absurd h)
  check_iat_iff (some iat) within early =
      iff_trans (ensure_iff _ _) (sub_i64_past iat now skew within early)

  check_nbf_iff :
      (nbf : Option ℤ)
      → InI64 nbf
      → now + skew + skew ≤ i64_max
      → (check_nbf skew (pos now) nbf ≡ ok tt) ↔ NoneLater skew now nbf
  unfolding check_nbf
  check_nbf_iff none within early = (λ _. tt, λ _. refl)
  check_nbf_iff (some nbf) within early =
      iff_trans (ensure_iff _ _) (sub_i64_past nbf now skew within early)

check_nonce_iff :
    (expected claimed : Option String)
    → (check_nonce expected claimed ≡ ok tt) ↔ Echoes expected claimed
unfolding check_nonce constant_time_equals
check_nonce_iff none claimed = (λ _. tt, λ _. refl)
check_nonce_iff (some expected) none = (λ h. cc h, λ h. cc h)
check_nonce_iff (some expected) (some actual) =
    iff_trans (ensure_iff _ _)
      (iff_trans (constant_time_eq_iff actual expected) (λ h. ap some h, λ h. cc h))

accepts_itself :
    (claims : IdTokenClaims)
    → (◌≡◌ {A = Result IdTokenClaims AxiamError} (ok claims) (ok claims)) ↔ Unit {0}
accepts_itself claims = (λ _. tt, λ _. refl)

-- At a time that is no later than two minutes before the largest `i64`, claims whose times are `i64`s are
-- accepted exactly if the issuer is the expected one, the audience contains the client, and names it as the
-- authorised party where there are several, the expiry is later and the times of issue and of first use are no
-- later than now, each within the skew of at most a minute and without overflow, and an expected nonce is
-- echoed.
pub check_id_token_claims_iff :
    (claims : IdTokenClaims) (expectations : IdTokenExpectations) (now : ℕ)
    → now + 120 ≤ i64_max
    → InI64 claims.iat
    → InI64 claims.nbf
    → (check_id_token_claims claims expectations (pos now) ≡ ok claims)
      ↔ IsValid claims expectations now
unfolding check_id_token_claims resolve_clock_skew_sec
check_id_token_claims_iff claims expectations now early iat_within nbf_within =
    let early' : now + bounded_skew expectations + bounded_skew expectations ≤ i64_max =
      omega (arith, early) in
    passes_then (ensure (claims.iss == expectations.issuer) _) _
      (iff_trans (ensure_iff _ _) (==_iff claims.iss expectations.issuer))
      (passes_then _ _ (check_audience_iff claims.aud claims.azp expectations.client_id) (
        passes_then _ _ (check_exp_iff _ now claims.exp (omega arith)) (
          passes_then _ _ (check_iat_iff _ now claims.iat iat_within early') (
            passes_then _ _ (check_nbf_iff _ now claims.nbf nbf_within early') (
              passes_then _ _ (check_nonce_iff expectations.nonce claims.nonce)
                (accepts_itself claims))))))

-- What passes the check is returned as it is.
pub check_id_token_claims-ok :
    (claims valid : IdTokenClaims) (expectations : IdTokenExpectations) (now_sec : ℤ)
    → check_id_token_claims claims expectations now_sec ≡ ok valid
    → claims ≡ valid
unfolding check_id_token_claims
check_id_token_claims-ok claims valid expectations now_sec =
    let skew = resolve_clock_skew_sec expectations.clock_skew_sec in
    kept_by (ensure (claims.iss == expectations.issuer) _) _ (
      kept_by (check_audience claims.aud claims.azp expectations.client_id) _ (
        kept_by (check_exp skew now_sec claims.exp) _ (
          kept_by (check_iat skew now_sec claims.iat) _ (
            kept_by (check_nbf skew now_sec claims.nbf) _
              (kept_by (check_nonce expectations.nonce claims.nonce) _ ok-injective)))))
