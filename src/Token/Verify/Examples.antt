-- ===== src/Token/Verify/Examples.antt =====
-- Runs of the verifier of src/token/jwks.rs on a server with one key. The token of the runs is decoded by a
-- table, and a UUID is a text of digits.
use axiam_rust_sdk.Prelude.{
  ℕ, ◌≡◌, ◌↔◌, refl, String, String-Eq, ◌==◌, true, false, Option, none, some, [], ◌∷◌, Result, ok,
  err, if◌then◌else◌,
}
use axiam_rust_sdk.Prelude.Int.{pos}
use axiam_rust_sdk.Prelude.Text.{Text, text, trim, is_whitespace, text_eq}
use axiam_rust_sdk.Prelude.Maps.{contains}
use axiam_rust_sdk.Error.{new_auth}
use axiam_rust_sdk.Retry.{secs}
use axiam_rust_sdk.Token.Revocation.{new_feed, Readings as FeedReadings}
use axiam_rust_sdk.Token.Keys.{Jwk, Readings, new_cache}
use axiam_rust_sdk.Token.Binding.{Claims, PresentedProofs}
use axiam_rust_sdk.Token.Verify.{
  Header, JwksVerifier, Moment, verify, verify_with_proofs, verify_sender_constrained,
}
use axiam_rust_sdk.Token.Validation.{Validation, ErrorKind, expired_signature}
use axiam_rust_sdk.Token.Verify.EntryPoints.{verify_sender_constrained_iff}
use axiam_rust_sdk.Token.Verify.Accepts.{Accepts, verify_with_proofs_iff}

abbrev decode_header : String → Result Header String
decode_header token =
    if token == "none"
    then ok (record { is_eddsa = false; alg_name = "HS256"; kid = some "k1" })
    else ok (record { is_eddsa = true; alg_name = "EdDSA"; kid = some "k1" })

abbrev from_jwk : Jwk String → Option String
from_jwk jwk = some jwk.key

abbrev held : Claims
held = record {
  sub = "u1";
  tenant_id = " t1 ";
  org_id = none;
  iss = "axiam";
  iat = none;
  exp = pos 2000;
  jti = none;
  sid = some "s1";
  aud = some "axiam:user";
  scope = none;
  cnf = some (record { x5t_s256 = some "cert"; jkt = none });
}

abbrev decode : String → String → Validation → Result Claims ErrorKind
decode token key validation = if token == "old" then err expired_signature else ok held

abbrev parse_str : Text → Option ℕ
parse_str s = if text_eq s (text "t1") then some 1 else none

abbrev entry_for : String → String
entry_for sid = sid

abbrev reading : Readings String
reading = record {
  looked_at = secs 0;
  checked_at = secs 0;
  answer = ok (record { key_id = some "k1"; key = "x1" } ∷ []);
  answered_at = secs 0;
}

abbrev unlisted : FeedReadings
unlisted = record {
  checked_at = secs 0;
  answer = none;
  attempted_at = secs 0;
  succeeded_at = secs 0;
}

abbrev listing : FeedReadings
listing = record {
  checked_at = secs 0;
  answer =
      some (record {
        status = 200;
        document = some (record { alg = "SHA-256"; revoked = "s1" ∷ [] });
      });
  attempted_at = secs 0;
  succeeded_at = secs 0;
}

abbrev moment : FeedReadings → Moment String
moment feed = record { first = reading; second = reading; feed = feed }

abbrev verifier : JwksVerifier String
verifier = record {
  cache = new_cache false;
  expected_tenant_id = some 1;
  expected_issuer = some "axiam";
  expected_audience = none;
  revocation_feed = some new_feed;
}

abbrev presented : PresentedProofs
presented = record { certificate_thumbprint = some "cert"; dpop_thumbprint = none }

accepts_bound :
    (verify_with_proofs decode_header from_jwk decode parse_str entry_for "t" presented
      (moment unlisted)
      verifier).0
    ≡ ok held
unfolding verify_with_proofs new_cache new_feed trim is_whitespace
accepts_bound = refl

refuses_revoked :
    (verify_with_proofs decode_header from_jwk decode parse_str entry_for "t" presented
      (moment listing)
      verifier).0
    ≡ err (new_auth "the session behind this access token has been revoked (CONTRACT.md §10.4)")
unfolding verify_with_proofs new_cache new_feed trim is_whitespace contains
refuses_revoked = refl

refuses_expired :
    (verify_with_proofs decode_header from_jwk decode parse_str entry_for "old" presented
      (moment unlisted)
      verifier).0
    ≡ err (new_auth "token expired")
unfolding verify_with_proofs new_cache new_feed trim is_whitespace
refuses_expired = refl

-- No proof is presented, and the `alg` is read before any key.
refuses_unbound :
    (verify decode_header from_jwk decode parse_str entry_for "t" (moment unlisted) verifier).0
    ≡ err (new_auth "token is certificate-bound but no client certificate was presented")
unfolding verify new_cache new_feed trim is_whitespace
refuses_unbound = refl

refuses_none :
    verify decode_header from_jwk decode parse_str entry_for "none" (moment unlisted) verifier
    ≡ (err (new_auth "unexpected alg: only EdDSA is accepted"), verifier)
unfolding verify new_cache new_feed trim is_whitespace
refuses_none = refl

verify_with_proofs_iff_example :
    ((verify_with_proofs decode_header from_jwk decode parse_str entry_for "t" presented
        (moment unlisted)
        verifier).0
      ≡ ok held)
    ↔ Accepts decode_header from_jwk decode parse_str entry_for "t" presented
        (moment unlisted)
        verifier
        held
verify_with_proofs_iff_example =
    verify_with_proofs_iff decode_header from_jwk decode parse_str entry_for "t" presented
      (moment unlisted) verifier held

verify_sender_constrained_iff_example :
    ((verify_sender_constrained decode_header from_jwk decode parse_str entry_for "t"
        (some "cert")
        (moment unlisted)
        verifier).0
      ≡ ok held)
    ↔ Accepts decode_header from_jwk decode parse_str entry_for "t" presented
        (moment unlisted)
        verifier
        held
verify_sender_constrained_iff_example =
    verify_sender_constrained_iff decode_header from_jwk decode parse_str entry_for "t"
      (moment unlisted) verifier held (some "cert")
