-- ===== src/Token/Session/Examples.antt =====
-- Runs of src/token/manager.rs and refresh_guard.rs on a server that rotates the refresh token. The world
-- is the number of requests.
use axiam_rust_sdk.Prelude.{
  ==_iff, ℕ, ◌+◌, ◌≡◌, refl, String, String-Eq, none, some, List, [], ◌∷◌, Result, ok, err,
}
use axiam_rust_sdk.Error.{AxiamError, new_auth}
use axiam_rust_sdk.Token.Session.{
  TokenManager, RefreshedTokens, new_manager, cached_access_token, set_tokens, clear,
  refresh_if_needed,
}
use axiam_rust_sdk.Token.Session.Shared.{
  Call, sets, refreshes, call, calls, cached_access_token-calls, burst, times,
  burst-refresh_if_needed,
}

abbrev serve : String → ℕ → Result (RefreshedTokens String) AxiamError × ℕ
serve token w =
    (ok (record { access = "a2"; refresh = some "r2"; exp = none; tenant_id = none }), w + 1)

abbrev session : List (Call serve)
session = sets "a1" (some "r1") none (some "t1") ∷ []

abbrev fresh : TokenManager String × ℕ
fresh = calls serve session (new_manager, 0)

abbrev shared : TokenManager String × ℕ
shared = call serve (refreshes "a1") fresh

refreshes_once : refresh_if_needed serve "a1" fresh.0 fresh.1 ≡ (ok "a2", shared.0, 1)
unfolding refresh_if_needed set_tokens new_manager
refreshes_once = refl

rotates : shared.0.state.refresh ≡ some "r2"
unfolding refresh_if_needed set_tokens new_manager
rotates = refl

signed_out :
    (refresh_if_needed serve "a2" (clear shared.0) 1).0
    ≡ err (new_auth "no refresh token available; re-authentication required")
unfolding refresh_if_needed set_tokens new_manager clear
signed_out = refl

burst-refresh_if_needed_example :
    burst serve 3 "a1" (fresh.0, fresh.1) ≡ (times serve 3 "a2", shared.0, 1)
burst-refresh_if_needed_example =
    burst-refresh_if_needed serve 2 "a1" "a2" fresh.0 shared.0 fresh.1 1 refreshes_once
      (λ h. cc ((==_iff {A = String} "a2" "a1").1 h))

cached_access_token-calls_example :
    let m = (calls serve session (new_manager, 0)).0 in cached_access_token m ≡ m.state.access
cached_access_token-calls_example = cached_access_token-calls serve session 0
