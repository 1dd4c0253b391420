-- ===== src/Middleware/Examples.antt =====
-- Runs of the extractor of src/middleware/actix.rs on a server with one key, for a bearer token and for a cookie
-- of a request that changes state. A UUID is a text of one letter.
use axiam_rust_sdk.Prelude.{
  ℕ, ◌≡◌, ◌↔◌, refl, String, String-Eq, ◌==◌, ==_iff, Bool, true, false, Option, none, some, [],
  ◌∷◌, Result, ok, err, if◌then◌else◌,
}
use axiam_rust_sdk.Prelude.Int.{pos}
use axiam_rust_sdk.Prelude.Text.{text, text_eq, trim, is_whitespace}
use axiam_rust_sdk.Prelude.Text as PreludeText
use axiam_rust_sdk.Token.Keys.{Jwk, Readings, new_cache}
use axiam_rust_sdk.Token.Binding.{Claims}
use axiam_rust_sdk.Token.Verify.{Header, Moment}
use axiam_rust_sdk.Token.Validation.{Validation, ErrorKind}
use axiam_rust_sdk.Middleware.{
  get, other_method, HttpRequest, AxiamUser, AppData, csrf_validation_failed, from_request,
}
use axiam_rust_sdk.Middleware.Text.{str_trim, split_scheme, split_whitespace}
use axiam_rust_sdk.Middleware.Admits.{Admits, from_request_iff}

abbrev decode_header : String → Result Header String
decode_header token = ok (record { is_eddsa = true; alg_name = "EdDSA"; kid = some "k1" })

abbrev from_jwk : Jwk String → Option String
from_jwk jwk = some jwk.key

abbrev decode : String → String → Validation → Result Claims ErrorKind
decode token key validation = ok (record {
  sub = "u";
  tenant_id = "t";
  org_id = none;
  iss = "axiam";
  iat = none;
  exp = pos 2000;
  jti = none;
  sid = none;
  aud = none;
  scope = some "reader  writer";
  cnf = none;
})

abbrev parse_str : PreludeText.Text → Option ℕ
parse_str s = if text_eq s (text "t") then some 1 else if text_eq s (text "u") then some 7 else none

abbrev entry_for : String → String
entry_for sid = sid

abbrev ct_eq : String → String → Bool
ct_eq a b = a == b

abbrev reading : Readings String
reading = record {
  looked_at = 0;
  checked_at = 0;
  answer = ok (record { key_id = some "k1"; key = "x1" } ∷ []);
  answered_at = 0;
}

abbrev at : Moment String
at = record {
  first = reading;
  second = reading;
  feed = record { checked_at = 0; answer = none; attempted_at = 0; succeeded_at = 0 };
}

abbrev app : AppData String
app = record {
  verifier = record {
    cache = new_cache false;
    expected_tenant_id = some 1;
    expected_issuer = none;
    expected_audience = none;
    revocation_feed = none;
  };
  mcp = none;
}

abbrev bearer : HttpRequest
bearer = record {
  method = get;
  cookie = λ name. none;
  header = λ name. if name == "Authorization" then some "bearer  tok " else none;
  peer_thumbprint = none;
}

abbrev posted : Option String → HttpRequest
posted csrf = record {
  method = other_method;
  cookie = λ name.
      if name == "axiam_access"
      then some "tok"
      else if name == "axiam_csrf"
      then some "c"
      else none;
  header = λ name. if name == "X-CSRF-Token" then csrf else none;
  peer_thumbprint = none;
}

abbrev user : AxiamUser
user = record { user_id = 7; tenant_id = 1; roles = "reader" ∷ "writer" ∷ [] }

admits_bearer :
    (from_request decode_header from_jwk decode parse_str entry_for ct_eq bearer at (some app)).0
    ≡ ok user
unfolding from_request new_cache str_trim split_scheme split_whitespace trim is_whitespace
admits_bearer = refl

admits_posted :
    (from_request decode_header from_jwk decode parse_str entry_for ct_eq
      (posted (some "c"))
      at
      (some app)).0
    ≡ ok user
unfolding from_request new_cache split_whitespace trim is_whitespace
admits_posted = refl

refuses_forged :
    from_request decode_header from_jwk decode parse_str entry_for ct_eq (posted none) at (some app)
    ≡ (err csrf_validation_failed, some app)
unfolding from_request
refuses_forged = refl

from_request_iff_example :
    ((from_request decode_header from_jwk decode parse_str entry_for ct_eq
        (posted (some "c"))
        at
        (some app)).0
      ≡ ok user)
    ↔ Admits decode_header from_jwk decode parse_str entry_for ct_eq
        (==_iff {A = String})
        (posted (some "c"))
        at
        app
        user
from_request_iff_example =
    from_request_iff decode_header from_jwk decode parse_str entry_for ct_eq (==_iff {A = String})
      (posted (some "c")) at app user
