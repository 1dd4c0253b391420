-- ===== src/Middleware/Admits.antt =====
-- Which requests the extractor of src/middleware/actix.rs admits.
use axiam_rust_sdk.Prelude.{
  ℕ, ◌≡◌, refl, sym, ap, subst, ◌↔◌, ◌≢◌, inl, inr, String, String-Eq, ◌==◌, ==_iff, Bool, true,
  false, not, ◌&&◌, Option, none, some, Result, ok, err, >>=-ok, ok-injective, ok_or, ok_or-ok,
  Bool-cases,
}
use axiam_rust_sdk.Prelude.Text.{text}
use axiam_rust_sdk.Prelude.Text as PreludeText
use axiam_rust_sdk.Error.{AxiamError}
use axiam_rust_sdk.Token.Keys.{Jwk}
use axiam_rust_sdk.Token.Binding.{Claims}
use axiam_rust_sdk.Token.Verify.{Header, Moment, verify_with_proofs}
use axiam_rust_sdk.Token.Validation.{Validation, ErrorKind}
use axiam_rust_sdk.Token.Verify.Accepts.{Accepts, verify_with_proofs_iff}
use axiam_rust_sdk.Middleware.{
  HttpRequest, AxiamUser, AxiamExtractorError, CredentialSource, from_cookie, authorization_header,
  AppData, is_state_changing, csrf_matches, csrf_valid, extract_token, no_credential_challenge,
  invalid_token_challenge, roles_of, user_of, admit, certificate_of, is_cookie, verified,
  authenticate, from_request,
}

-- The header repeats the cookie, which is not empty.
abbrev Repeats : Option String → Option String → Type 0
Repeats header cookie =
    (value : String) × (value ≢ "") × (header ≡ some value) × (cookie ≡ some value)

-- A credential that a browser sends by itself changes state only with the check against forgery.
abbrev pub Unforged : CredentialSource → HttpRequest → Type 0
Unforged authorization_header req = Unit
Unforged from_cookie req =
    is_state_changing req.method ≡ true
    → Repeats (req.header "X-CSRF-Token") (req.cookie "axiam_csrf")

module _ (ct_eq : String → String → Bool)
    (lawful : (a b : String) → (ct_eq a b ≡ true) ↔ (a ≡ b)) where
  csrf_matches_iff :
      (header cookie : Option String)
      → (csrf_matches ct_eq header cookie ≡ true) ↔ Repeats header cookie
  unfolding csrf_matches
  csrf_matches_iff none cookie = (λ h. cc h, λ (value, _, h, _). absurd (cc h))
  csrf_matches_iff (some a) none = (λ h. cc h, λ (value, _, _, h). absurd (cc h))
  csrf_matches_iff (some a) (some b) = elim (Bool-cases (a == "")) [
    | inl empty ↦ (
      λ h. absurd (cc (rw empty at h)),
      λ (value, filled, header, cookie). absurd (filled (cc (header, (==_iff a "").0 empty))),
    )
    | inr header ↦ elim (Bool-cases (b == "")) [
      | inl empty ↦ (
        λ h. absurd (cc (rw (header, empty) at h)),
        λ (value, filled, _, cookie). absurd (filled (cc (cookie, (==_iff b "").0 empty))),
      )
      | inr cookie ↦ (
        λ h.
            let same : a ≡ b = (lawful a b).0 (rw (header, cookie) at h) in
            (b, λ empty. cc (cookie, (==_iff b "").1 empty), ap some same, refl),
        λ (value, filled, one, two). rw (header, cookie) ((lawful a b).1 (cc (one, two))),
      )
    ]
  ]

  is_cookie-Unforged :
      (source : CredentialSource) (req : HttpRequest)
      → ((is_cookie source && is_state_changing req.method && not (csrf_valid ct_eq req)) ≡ false)
        ↔ Unforged source req
  unfolding csrf_valid
  is_cookie-Unforged authorization_header req = (λ _. tt, λ _. refl)
  is_cookie-Unforged from_cookie req = elim (Bool-cases (is_state_changing req.method)) [
    | inr safe ↦ (λ _ changes. absurd (cc (safe, changes)), λ _. rw safe refl)
    | inl changes ↦ elim (Bool-cases (csrf_valid ct_eq req)) [
      | inl valid ↦ (
        λ _ _. (csrf_matches_iff (req.header "X-CSRF-Token") (req.cookie "axiam_csrf")).0 valid,
        λ _. rw (changes, valid) refl,
      )
      | inr invalid ↦ (
        λ h. absurd (cc (rw (changes, invalid) at h)),
        λ h. absurd (
            cc (
              invalid,
              (csrf_matches_iff (req.header "X-CSRF-Token") (req.cookie "axiam_csrf")).1
                  (h changes),
            )),
      )
    ]
  ]

module _ (parse_str : PreludeText.Text → Option ℕ) where
  -- The identity that claims give.
  abbrev pub Names : Claims → AxiamUser → Type 0
  Names claims user =
      (parse_str (text claims.sub) ≡ some user.user_id)
      × (parse_str (text claims.tenant_id) ≡ some user.tenant_id)
      × (roles_of claims.scope ≡ user.roles)

  user_of_iff :
      (challenge : Option String) (claims : Claims) (user : AxiamUser)
      → (user_of parse_str challenge claims ≡ ok user) ↔ Names claims user
  unfolding user_of
  user_of_iff challenge claims user = (
    λ h.
        let (user_id, sub, rest) = >>=-ok (ok_or (parse_str (text claims.sub)) _) _ h in
        let (tenant_id, tenant, same) =
          >>=-ok (ok_or (parse_str (text claims.tenant_id)) _) _ rest in
        subst (Names claims) (ok-injective same) (
          ok_or-ok (parse_str (text claims.sub)) _ sub,
          ok_or-ok (parse_str (text claims.tenant_id)) _ tenant,
          refl,
        ),
    λ (sub, tenant, roles). rw (sub, tenant, roles) refl,
  )

module _ {K D : Type 0} (decode_header : String → Result Header String)
    (from_jwk : Jwk K → Option D) (decode : String → D → Validation → Result Claims ErrorKind)
    (parse_str : PreludeText.Text → Option ℕ) (entry_for : String → String)
    (ct_eq : String → String → Bool) (lawful : (a b : String) → (ct_eq a b ≡ true) ↔ (a ≡ b))
    (req : HttpRequest) (at : Moment K) (app : AppData K) where
  -- What a request shows that is admitted as a user.
  pub record Admits (user : AxiamUser) : Type 0 where
    pub token : String
    pub source : CredentialSource
    pub extracted : extract_token req (no_credential_challenge (some app)) ≡ ok (token, source)
    pub unforged : Unforged source req
    pub claims : Claims
    pub accepted :
        Accepts decode_header from_jwk decode parse_str entry_for token
          (certificate_of req)
          at
          app.verifier
          claims
    pub names : Names parse_str claims user

  admit_iff :
      (challenge : Option String) (accepted : Result Claims AxiamError) (user : AxiamUser)
      → (admit parse_str challenge accepted ≡ ok user)
        ↔ ((claims : Claims) × (accepted ≡ ok claims) × Names parse_str claims user)
  unfolding admit
  admit_iff challenge (err e) user = (λ h. cc h, λ (claims, h, _). cc h)
  admit_iff challenge (ok claims) user = (
    λ h. (claims, refl, (user_of_iff parse_str challenge claims user).0 h),
    λ (other, same, names).
        (user_of_iff parse_str challenge claims user).1
          (subst (λ (x : Claims). Names parse_str x user) (sym (ok-injective same)) names),
  )

  -- From the credential on.
  abbrev AdmitsCredential :
      Result (String × CredentialSource) AxiamExtractorError → AxiamUser → Type 0
  AdmitsCredential (err e) user = ⊥
  AdmitsCredential (ok (token, source)) user =
      Unforged source req
      × (verified decode_header from_jwk decode parse_str entry_for ct_eq token req at (some app)).0
        ≡ ok user

  authenticate_iff :
      (credential : Result (String × CredentialSource) AxiamExtractorError) (user : AxiamUser)
      → ((authenticate decode_header from_jwk decode parse_str entry_for ct_eq credential req at
            (some app)).0
          ≡ ok user)
        ↔ AdmitsCredential credential user
  unfolding authenticate
  authenticate_iff (err e) user = (λ h. cc h, λ h. absurd h)
  authenticate_iff (ok (token, source)) user =
      let checked = is_cookie-Unforged ct_eq lawful source req in
      elim (Bool-cases
        (is_cookie source && is_state_changing req.method && not (csrf_valid ct_eq req))) [
          | inl forged ↦ (
            λ h. absurd (cc (rw forged at h)),
            λ (unforged, _). absurd (cc (forged, checked.1 unforged)),
          )
          | inr clear ↦ (λ h. (checked.0 clear, rw clear at h), λ (_, h). rw clear h)
        ]

  verified_iff :
      (token : String) (user : AxiamUser)
      → ((verified decode_header from_jwk decode parse_str entry_for ct_eq token req at
            (some app)).0
          ≡ ok user)
        ↔ ((claims : Claims) × Accepts decode_header from_jwk decode parse_str entry_for token
              (certificate_of req)
              at
              app.verifier
              claims
            × Names parse_str claims user)
  unfolding verified
  verified_iff token user =
      let accepts =
        verify_with_proofs_iff decode_header from_jwk decode parse_str entry_for token
          (certificate_of req) at app.verifier in
      let admits =
        admit_iff (invalid_token_challenge app)
          (verify_with_proofs decode_header from_jwk decode parse_str entry_for token
            (certificate_of req) at app.verifier).0
          user in
      (
        λ h. let (claims, has, names) = admits.0 h in (claims, (accepts claims).0 has, names),
        λ (claims, accepted, names). admits.1 (claims, (accepts claims).1 accepted, names),
      )

  -- With a registered verifier a request is admitted as a user exactly if it carries a credential, which is not
  -- a cookie of a request that changes state unless the header repeats the cookie against forgery, the verifier
  -- accepts the token by every rule with the certificate of the connection as the only proof, and its claims
  -- name the user.
  pub from_request_iff :
      (user : AxiamUser)
      → ((from_request decode_header from_jwk decode parse_str entry_for ct_eq req at (some app)).0
          ≡ ok user)
        ↔ Admits user
  unfolding from_request
  from_request_iff user = (
    λ h.
        admitted (extract_token req (no_credential_challenge (some app))) refl
          ((authenticate_iff (extract_token req (no_credential_challenge (some app))) user).0 h),
    λ a. rw a.extracted (
        (authenticate_iff (ok (a.token, a.source)) user).1
          (a.unforged, (verified_iff a.token user).1 (a.claims, a.accepted, a.names))),
  )
    where
      admitted :
          (credential : Result (String × CredentialSource) AxiamExtractorError)
          → extract_token req (no_credential_challenge (some app)) ≡ credential
          → AdmitsCredential credential user
          → Admits user
      admitted (err e) extracted h = absurd h
      admitted (ok (token, source)) extracted (unforged, h) =
          let (claims, accepted, names) = (verified_iff token user).0 h in
          record {
            token = token;
            source = source;
            extracted = extracted;
            unforged = unforged;
            claims = claims;
            accepted = accepted;
            names = names;
          }
