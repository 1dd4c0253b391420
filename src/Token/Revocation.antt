-- ===== src/Token/Revocation.antt =====
-- src/token/revocation.rs: the poller of the revocation feed. A set is a list of its entries; the digest
-- of a session's id, the answers of the server and the readings of the clock are arguments.
pub mod Usable
pub mod Latest
mod Examples
use axiam_rust_sdk.Prelude.{
  ℕ, ◌-◌, max, String, String-Eq, ◌==◌, Bool, true, false, not, ◌&&◌, Option, none, some, List, [],
  ◌∷◌, length, leb, ltb, if◌then◌else◌,
}
use axiam_rust_sdk.Prelude.Maps.{contains}
use axiam_rust_sdk.Retry.{secs}

-- `SUPPORTED_ALG`
abbrev pub supported_alg : String
supported_alg = "SHA-256"

-- `MIN_POLL_INTERVAL`
abbrev pub min_poll_interval : ℕ
min_poll_interval = secs 15

-- `DEFAULT_POLL_INTERVAL`
abbrev pub default_poll_interval : ℕ
default_poll_interval = secs 30

-- `MAX_ENTRIES`
abbrev pub max_entries : ℕ
max_entries = 100_000

pub record FeedDocument : Type 0 where
  pub alg : String
  pub revoked : List String

pub record FeedState : Type 0 where
  pub entries : Option (List String)
  pub last_success : Option ℕ
  pub last_attempt : Option ℕ

-- `FeedState::default`
abbrev pub default_state : FeedState
default_state = record { entries = none; last_success = none; last_attempt = none }

-- `RevocationFeed`, less the client and the URL.
pub record RevocationFeed : Type 0 where
  pub poll_interval : ℕ
  pub state : FeedState

-- `RevocationFeed::new`
unfoldable pub new_feed : RevocationFeed
new_feed = record { poll_interval = default_poll_interval; state = default_state }

-- A feed that is shared already is rebuilt with nothing in it.
unfoldable pub with_poll_interval : Bool → ℕ → RevocationFeed → RevocationFeed
with_poll_interval is_shared interval feed = record {
  poll_interval = max interval min_poll_interval;
  state = if is_shared then default_state else feed.state;
}

-- An answer of the server, with its body where it parses.
pub record FeedAnswer : Type 0 where
  pub status : ℕ
  pub document : Option FeedDocument

unfoldable pub entries_of : Option FeedDocument → Option (List String)
entries_of none = none
entries_of (some document) =
    if not (document.alg == supported_alg)
    then none
    else if ltb max_entries (length document.revoked)
    then none
    else some document.revoked

-- `fetch`, with no answer where the request failed.
unfoldable pub fetch : Option FeedAnswer → Option (List String)
unfolding entries_of
fetch none = none
fetch (some answer) =
    if leb 200 answer.status && ltb answer.status 300 then entries_of answer.document else none

-- What one call meets: the readings of the clock, and the answer if it asks.
pub record Readings : Type 0 where
  pub checked_at : ℕ
  pub answer : Option FeedAnswer
  pub attempted_at : ℕ
  pub succeeded_at : ℕ

-- `refresh`, from the fetched entries on.
unfoldable pub learn : Option (List String) → Readings → FeedState → FeedState
learn none at state = record state { last_attempt = some at.attempted_at }
learn (some entries) at state = record {
  entries = some entries;
  last_success = some at.succeeded_at;
  last_attempt = some at.attempted_at;
}

unfoldable pub refresh : Readings → FeedState → FeedState
unfolding learn fetch
refresh at state = learn (fetch at.answer) at state

-- Whether a refresh is due; `elapsed` does not go below zero.
unfoldable pub is_due : ℕ → ℕ → Option ℕ → Bool
is_due poll_interval now none = true
is_due poll_interval now (some at) = leb poll_interval (now - at)

-- The refreshed state, and whether it was asked for.
unfoldable pub refresh_if_stale : ℕ → Readings → FeedState → Bool × FeedState
unfolding is_due refresh
refresh_if_stale poll_interval at state =
    if is_due poll_interval at.checked_at state.last_attempt
    then (true, refresh at state)
    else (false, state)

-- The look-up in the set.
unfoldable pub is_listed : String → Option (List String) → Bool
is_listed entry none = false
is_listed entry (some set) = contains entry set

module _ (entry_for : String → String) where
  -- The answer, with whether it was asked for, and the state after it.
  unfoldable pub is_revoked : ℕ → String → Readings → FeedState → (Bool × Bool) × FeedState
  unfolding refresh_if_stale is_listed
  is_revoked poll_interval sid at state =
      let (asked, state') = refresh_if_stale poll_interval at state in
      ((is_listed (entry_for sid) state'.entries, asked), state')
