-- ===== src/Oidc/State/Examples.antt =====
-- Runs of the store of src/oidc/state.rs.
use axiam_rust_sdk.Prelude.{ℕ, ◌+◌, ◌<◌, ◌≡◌, refl, min, none, some, List, [], ◌∷◌, String-Eq}
use axiam_rust_sdk.Prelude.Maps.{lookup, insert}
use axiam_rust_sdk.Oidc.State.{
  OidcStateEntry, with_ttl, oidc_state_ttl, save, consume, retain_live, len,
}
use axiam_rust_sdk.Oidc.State.Consume.{
  Call, saved, consumed, measured, after, after_call, pending, consume-pending, consume_once,
}

abbrev login : OidcStateEntry
login = record {
  state = "s1";
  nonce = "n";
  code_verifier = "v";
  redirect_uri = "https://app.example.com/cb";
  return_to = none;
}

-- Saved at 10, with other calls around it; the requested time to live of an hour is cut to ten minutes.
abbrev calls : List Call
calls = consumed "s2" 30 ∷ saved login 10 10 ∷ measured 5 ∷ []

abbrev hour : ℕ
hour = 3_600_000_000_000

answered : (consume "s1" 600_000_000_009 (after hour calls)).0 ≡ some login
unfolding consume after after_call save lookup insert with_ttl retain_live len
answered = refl

too_late : (consume "s1" 600_000_000_010 (after hour calls)).0 ≡ none
unfolding consume after after_call save lookup insert with_ttl retain_live len
too_late = refl

consume-pending_example :
    (at : ℕ) × (pending "s1" calls ≡ some (login, at))
    × (600_000_000_009 < at + min hour oidc_state_ttl)
consume-pending_example = consume-pending hour calls "s1" 600_000_000_009 login answered

consume_once_example : (consume "s1" 21 (consume "s1" 20 (after hour calls)).1).0 ≡ none
consume_once_example = consume_once "s1" 20 21 (after hour calls)
