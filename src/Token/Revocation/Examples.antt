-- ===== src/Token/Revocation/Examples.antt =====
-- Runs of src/token/revocation.rs, with a session's id as its own entry.
use axiam_rust_sdk.Prelude.{
  ℕ, ◌≡◌, ◌↔◌, refl, String, String-Eq, true, false, Option, none, some, List, [], ◌∷◌,
}
use axiam_rust_sdk.Prelude.Maps.{contains}
use axiam_rust_sdk.Retry.{secs}
use axiam_rust_sdk.Token.Revocation.{
  default_state, new_feed, with_poll_interval, FeedAnswer, fetch, Readings, refresh_if_stale,
  is_revoked,
}
use axiam_rust_sdk.Token.Revocation.Latest.{
  Believes, Call, asks, refreshes, call, calls, is_revoked_iff,
}

abbrev lists : List String → Option FeedAnswer
lists entries =
    some (record { status = 200; document = some (record { alg = "SHA-256"; revoked = entries }) })

abbrev at : ℕ → Option FeedAnswer → Readings
at t answer = record {
  checked_at = secs t;
  answer = answer;
  attempted_at = secs t;
  succeeded_at = secs t;
}

abbrev same : String → String
same sid = sid

-- A fetch, a failed one, and one whose list is of another digest.
abbrev past : List Call
past =
    refreshes (at 0 (lists ("s1" ∷ [])))
    ∷ asks "s1" (at 40 none)
    ∷ asks "s1" (
        at 80
          (some (record { status = 200; document = some (record { alg = "MD5"; revoked = [] }) })))
    ∷ []

-- Days later the set of the first fetch still revokes.
still_revoked :
    (is_revoked same
      (secs 30)
      "s1"
      (at 500_000 none)
      (calls same (secs 30) past (default_state, [])).0).0
    ≡ (true, true)
unfolding is_revoked refresh_if_stale contains fetch
still_revoked = refl

never_fetched : (is_revoked same (secs 30) "s1" (at 1 none) default_state).0 ≡ (false, true)
unfolding is_revoked refresh_if_stale fetch
never_fetched = refl

clamped : (with_poll_interval false (secs 1) new_feed).poll_interval ≡ secs 15
unfolding with_poll_interval new_feed
clamped = refl

is_revoked_iff_example :
    ((is_revoked same
        (secs 30)
        "s1"
        (at 90 none)
        (calls same (secs 30) past (default_state, [])).0).0.0
      ≡ true)
    ↔ ((set : List String) × Believes
          (call same
            (secs 30)
            (asks "s1" (at 90 none))
            (calls same (secs 30) past (default_state, []))).1
          (some set)
        × (contains "s1" set ≡ true))
is_revoked_iff_example = is_revoked_iff same (secs 30) past "s1" (at 90 none)
