-- ===== src/Middleware.antt =====
-- src/middleware/actix.rs: the extractor that authenticates a request, over the verifier of tokens. What the web
-- framework reads from a request is a record.
pub mod Text
pub mod Admits
pub mod Access
mod Examples
use Prim.Native.String.{◌++◌ as concat}
use axiam_rust_sdk.Prelude.{
  ℕ, String, String-Eq, ◌==◌, Bool, true, false, not, ◌&&◌, Option, none, some, List, [], ◌∷◌,
  Result, ok, err, ◌>>=◌, ok_or, if◌then◌else◌,
}
use axiam_rust_sdk.Prelude.Text.{text}
use axiam_rust_sdk.Prelude.Text as PreludeText
use axiam_rust_sdk.Error.{AxiamError, new_auth, new_authz_kind, denied, auth, authz, network}
use axiam_rust_sdk.Token.Keys.{Jwk}
use axiam_rust_sdk.Token.Binding.{Claims, PresentedProofs}
use axiam_rust_sdk.Token.Verify.{Header, JwksVerifier, Moment, verify_with_proofs}
use axiam_rust_sdk.Token.Validation.{Validation, ErrorKind}
use axiam_rust_sdk.Middleware.Text.{str_trim, split_scheme, eq_ignore_ascii_case, split_whitespace}

-- The methods that the extractor tells apart.
pub data Method : Type 0 where
  get head options other_method : Method

-- A header is one whose value is text; a cookie is its value.
pub record HttpRequest : Type 0 where
  pub method : Method
  pub cookie : String → Option String
  pub header : String → Option String
  pub peer_thumbprint : Option String

pub record AxiamUser : Type 0 where
  pub user_id : ℕ
  pub tenant_id : ℕ
  pub roles : List String

pub record AxiamExtractorError : Type 0 where
  pub error : AxiamError
  pub challenge : Option String

pub record HttpResponse : Type 0 where
  pub status : ℕ
  pub www_authenticate : Option String
  pub error : String
  pub message : String

pub data CredentialSource : Type 0 where
  from_cookie authorization_header : CredentialSource

pub record McpChallenges : Type 0 where
  pub no_credential : String
  pub invalid_token : String

-- The registered verifier, with its challenges if it has any.
pub record AppData (K : Type 0) : Type 0 where
  pub verifier : JwksVerifier K
  pub mcp : Option McpChallenges

unfoldable pub status_code : AxiamExtractorError → ℕ
status_code e = elim e.error [ auth _ ↦ 401 | authz _ ↦ 403 | network _ ↦ 401 ]

unfoldable pub error_response : AxiamExtractorError → HttpResponse
unfolding status_code
error_response e = elim e.error [
  | auth x ↦ response "authentication_failed" x.message
  | authz x ↦ response "authorization_denied" x.message
  | network x ↦ response "authentication_failed" x.message
]
  where
    response : String → String → HttpResponse
    response code text = record {
      status = status_code e;
      www_authenticate = e.challenge;
      error = code;
      message = text;
    }

-- `AxiamExtractorError::auth`
unfoldable pub refuse : String → Option String → AxiamExtractorError
refuse message challenge = record { error = new_auth message; challenge = challenge }

unfoldable pub csrf_validation_failed : AxiamExtractorError
csrf_validation_failed = record {
  error =
      new_authz_kind denied "CSRF validation failed: missing or mismatched X-CSRF-Token header" none
        none;
  challenge = none;
}

unfoldable pub is_state_changing : Method → Bool
is_state_changing get = false
is_state_changing head = false
is_state_changing options = false
is_state_changing other_method = true

abbrev pub is_cookie : CredentialSource → Bool
is_cookie from_cookie = true
is_cookie authorization_header = false

abbrev csrf_cookie_name : String
csrf_cookie_name = "axiam_csrf"

abbrev csrf_header_name : String
csrf_header_name = "X-CSRF-Token"

module _ (ct_eq : String → String → Bool) where
  unfoldable pub csrf_matches : Option String → Option String → Bool
  csrf_matches none cookie = false
  csrf_matches (some header) none = false
  csrf_matches (some header) (some cookie) =
      if header == "" then false else if cookie == "" then false else ct_eq header cookie

  unfoldable pub csrf_valid : HttpRequest → Bool
  unfolding csrf_matches
  csrf_valid req = csrf_matches (req.header csrf_header_name) (req.cookie csrf_cookie_name)

-- From the header on.
unfoldable pub bearer_of :
    Option String → Option String → Result (String × CredentialSource) AxiamExtractorError
unfolding refuse str_trim split_scheme eq_ignore_ascii_case
bearer_of none challenge = err (refuse "missing authentication credentials" challenge)
bearer_of (some header) challenge =
    let (scheme, rest) = split_scheme (str_trim header) in
    let credentials = str_trim rest in
    if eq_ignore_ascii_case scheme "bearer" && not (credentials == "")
    then ok (credentials, authorization_header)
    else err (refuse "invalid Authorization scheme, expected Bearer" challenge)

-- The cookie, or else the header.
unfoldable pub cookie_or_bearer :
    Option String
    → Option String
    → Option String
    → Result (String × CredentialSource) AxiamExtractorError
unfolding bearer_of
cookie_or_bearer (some cookie) header challenge = ok (cookie, from_cookie)
cookie_or_bearer none header challenge = bearer_of header challenge

unfoldable pub extract_token :
    HttpRequest → Option String → Result (String × CredentialSource) AxiamExtractorError
unfolding cookie_or_bearer
extract_token req challenge =
    cookie_or_bearer (req.cookie "axiam_access") (req.header "Authorization") challenge

module _ {K : Type 0} where
  abbrev pub no_credential_challenge : Option (AppData K) → Option String
  no_credential_challenge none = none
  no_credential_challenge (some app) = elim app.mcp [
    | none ↦ none
    | some mcp ↦ some mcp.no_credential
  ]

  abbrev pub invalid_token_challenge : AppData K → Option String
  invalid_token_challenge app = elim app.mcp [ none ↦ none | some mcp ↦ some mcp.invalid_token ]

abbrev pub roles_of : Option String → List String
roles_of none = []
roles_of (some scope) = split_whitespace scope

module _ (parse_str : PreludeText.Text → Option ℕ) where
  -- The identity that is injected.
  unfoldable pub user_of : Option String → Claims → Result AxiamUser AxiamExtractorError
  unfolding refuse split_whitespace
  user_of challenge claims =
      ok_or (parse_str (text claims.sub)) (refuse "invalid sub claim" challenge) >>= λ user_id.
      ok_or (parse_str (text claims.tenant_id)) (refuse "invalid tenant_id claim" challenge)
      >>= λ tenant_id.
          ok (record { user_id = user_id; tenant_id = tenant_id; roles = roles_of claims.scope })

  unfoldable pub admit :
      Option String → Result Claims AxiamError → Result AxiamUser AxiamExtractorError
  unfolding user_of
  admit challenge (err e) = err (record { error = e; challenge = challenge })
  admit challenge (ok claims) = user_of challenge claims

-- The evidence that the extractor has.
abbrev pub certificate_of : HttpRequest → PresentedProofs
certificate_of req = record { certificate_thumbprint = req.peer_thumbprint; dpop_thumbprint = none }

module _ {K D : Type 0} (decode_header : String → Result Header String)
    (from_jwk : Jwk K → Option D) (decode : String → D → Validation → Result Claims ErrorKind)
    (parse_str : PreludeText.Text → Option ℕ) (entry_for : String → String)
    (ct_eq : String → String → Bool) where
  -- From the check against forgery on.
  unfoldable pub verified :
      String
      → HttpRequest
      → Moment K
      → Option (AppData K)
      → Result AxiamUser AxiamExtractorError × Option (AppData K)
  unfolding verify_with_proofs admit refuse
  verified token req at none =
      (err (refuse "missing JwksVerifier app_data — extractor misconfigured" none), none)
  verified token req at (some app) =
      let (claims, verifier') =
        verify_with_proofs decode_header from_jwk decode parse_str entry_for token
          (certificate_of req) at app.verifier in
      (
        admit parse_str (invalid_token_challenge app) claims,
        some (record app { verifier = verifier' }),
      )

  -- From the credential on.
  unfoldable pub authenticate :
      Result (String × CredentialSource) AxiamExtractorError
      → HttpRequest
      → Moment K
      → Option (AppData K)
      → Result AxiamUser AxiamExtractorError × Option (AppData K)
  unfolding verified csrf_valid is_state_changing csrf_validation_failed
  authenticate (err e) req at app = (err e, app)
  authenticate (ok (token, source)) req at app =
      if is_cookie source && is_state_changing req.method && not (csrf_valid ct_eq req)
      then (err csrf_validation_failed, app)
      else verified token req at app

  unfoldable pub from_request :
      HttpRequest
      → Moment K
      → Option (AppData K)
      → Result AxiamUser AxiamExtractorError × Option (AppData K)
  unfolding authenticate extract_token
  from_request req at app =
      authenticate (extract_token req (no_credential_challenge app)) req at app
