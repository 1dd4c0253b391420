-- ===== src/Token/Keys.antt =====
-- The cache of keys of src/token/jwks.rs. A call that fetches holds the fetch lock from its second look at
-- the cache to its end, so that the calls that fetch are one after the other. The readings of the clock and
-- the answers of the server are arguments.
pub mod Log
pub mod Spaced
pub mod Given
mod Examples
use axiam_rust_sdk.Prelude.{
  ℕ, ◌-◌, String, String-Eq, ◌==◌, Bool, true, false, not, Option, none, some, List, [], ◌∷◌,
  Result, ok, err, ltb, leb, nat_eq, if◌then◌else◌, length,
}
use axiam_rust_sdk.Error.{AxiamError, new_network}
use axiam_rust_sdk.Retry.{secs}

-- `JWKS_CACHE_TTL`
abbrev pub jwks_cache_ttl : ℕ
jwks_cache_ttl = secs 300

-- `FAILED_FETCH_MIN_INTERVAL`
abbrev pub failed_fetch_min_interval : ℕ
failed_fetch_min_interval = secs 60

-- `FORCED_REFETCH_MIN_INTERVAL`
abbrev pub forced_refetch_min_interval : ℕ
forced_refetch_min_interval = secs 60

-- A key of the set, as far as the look-ups read it; `K` is the rest.
pub record Jwk (K : Type 0) : Type 0 where
  pub key_id : Option String
  pub key : K

abbrev has_kid : String → Option String → Bool
has_kid kid none = false
has_kid kid (some k) = k == kid

pub record CachedJwks (K : Type 0) : Type 0 where
  pub jwks : List (Jwk K)
  pub fetched_at : ℕ
  pub last_forced_refetch : Option ℕ

-- The state of a verifier. Its locks are never poisoned: nothing panics while it holds one.
pub record Cache (K : Type 0) : Type 0 where
  pub cached : Option (CachedJwks K)
  pub limit_failed_fetches : Bool
  pub last_failed_fetch : Option ℕ

-- The readings of one call, in order, and what the server answers if it is asked.
pub record Readings (K : Type 0) : Type 0 where
  pub looked_at : ℕ
  pub checked_at : ℕ
  pub answer : Result (List (Jwk K)) AxiamError
  pub answered_at : ℕ

-- The failure while failed fetches are limited.
unfoldable pub cooling : AxiamError
cooling =
    new_network
      "the JWKS fetch failed less than a minute ago; no fetch was made (CONTRACT.md §34.2 P6)"

unfoldable pub is_recent : ℕ → Option ℕ → Bool
is_recent now none = false
is_recent now (some at) = ltb (now - at) failed_fetch_min_interval

unfoldable pub is_allowed : ℕ → Option ℕ → Bool
is_allowed now none = true
is_allowed now (some last) = leb forced_refetch_min_interval (now - last)

-- A result of a fetch, with that it was made.
abbrev pub asked : {A C : Type 0} → A × C → (A × Bool) × C
asked (result, c) = ((result, true), c)

unfoldable pub may_pass : ℕ → Bool → Option ℕ → Bool
unfolding is_recent
may_pass now limit last = if limit then not (is_recent now last) else true

module _ {K : Type 0} where
  unfoldable pub find_jwk_by_kid : List (Jwk K) → String → Option (Jwk K)
  find_jwk_by_kid [] kid = none
  find_jwk_by_kid (jwk ∷ jwks) kid =
      let rest = find_jwk_by_kid jwks kid in if has_kid kid jwk.key_id then some jwk else rest

  -- Without a `kid`, the one key of a set of one.
  unfoldable pub find_jwk : List (Jwk K) → Option String → Option (Jwk K)
  unfolding find_jwk_by_kid
  find_jwk jwks (some kid) = find_jwk_by_kid jwks kid
  find_jwk (jwk ∷ []) none = some jwk
  find_jwk _ none = none

  -- `for_jwks_url`, of a verifier that limits failed fetches or not
  unfoldable pub new_cache : Bool → Cache K
  new_cache limit = record { cached = none; limit_failed_fetches = limit; last_failed_fetch = none }

  -- `failed_fetch_cooldown`: whether it lets a fetch pass
  unfoldable pub may_fetch : ℕ → Cache K → Bool
  unfolding may_pass
  may_fetch now c = may_pass now c.limit_failed_fetches c.last_failed_fetch

  unfoldable pub fresh_entry : ℕ → Option (CachedJwks K) → Option (List (Jwk K))
  fresh_entry now none = none
  fresh_entry now (some entry) =
      if ltb (now - entry.fetched_at) jwks_cache_ttl then some entry.jwks else none

  unfoldable pub cached_if_fresh : ℕ → Cache K → Option (List (Jwk K))
  unfolding fresh_entry
  cached_if_fresh now c = fresh_entry now c.cached

  -- `fetch_and_cache`, from the answer on
  unfoldable pub keep_answer :
      Bool
      → ℕ
      → Result (List (Jwk K)) AxiamError
      → Cache K
      → Result (List (Jwk K)) AxiamError × Cache K
  keep_answer is_forced now (err e) c = (
    err e,
    record c {
      last_failed_fetch = if c.limit_failed_fetches then some now else c.last_failed_fetch;
    },
  )
  keep_answer is_forced now (ok jwks) c = (
    ok jwks,
    record c {
      cached = some (record {
        jwks = jwks;
        fetched_at = now;
        last_forced_refetch = if is_forced then some now else none;
      });
      last_failed_fetch = if c.limit_failed_fetches then none else c.last_failed_fetch;
    },
  )

  unfoldable pub fetch_and_cache :
      Bool → Readings K → Cache K → Result (List (Jwk K)) AxiamError × Cache K
  unfolding keep_answer
  fetch_and_cache is_forced at c = keep_answer is_forced at.answered_at at.answer c

  -- `get_or_fetch`, from its last look at the cache on: with whether it asked.
  unfoldable pub use_or_fetch :
      Option (List (Jwk K))
      → Readings K
      → Cache K
      → (Result (List (Jwk K)) AxiamError × Bool) × Cache K
  unfolding may_fetch fetch_and_cache cooling
  use_or_fetch (some jwks) at c = ((ok jwks, false), c)
  use_or_fetch none at c =
      if may_fetch at.checked_at c
      then asked (fetch_and_cache false at c)
      else ((err cooling, false), c)

  unfoldable pub get_or_fetch :
      Readings K → Cache K → (Result (List (Jwk K)) AxiamError × Bool) × Cache K
  unfolding cached_if_fresh use_or_fetch
  get_or_fetch at c = use_or_fetch (cached_if_fresh at.looked_at c) at c

  -- `force_refetch_if_allowed`, from the cached set on
  unfoldable pub refetch_over :
      Option (CachedJwks K)
      → Readings K
      → Cache K
      → (Result (List (Jwk K)) AxiamError × Bool) × Cache K
  unfolding is_allowed fetch_and_cache
  refetch_over none at c = asked (fetch_and_cache true at c)
  refetch_over (some entry) at c =
      if is_allowed at.checked_at entry.last_forced_refetch
      then asked (fetch_and_cache true at c)
      else ((ok entry.jwks, false), c)

  unfoldable pub force_refetch_if_allowed :
      Readings K → Cache K → (Result (List (Jwk K)) AxiamError × Bool) × Cache K
  unfolding may_fetch refetch_over cooling
  force_refetch_if_allowed at c =
      if may_fetch at.looked_at c then refetch_over c.cached at c else ((err cooling, false), c)

  -- From the first set on: an unknown `kid` forces a refetch.
  unfoldable pub find_or_refetch :
      Option String
      → List (Jwk K)
      → Readings K
      → Cache K
      → Result (Option (Jwk K)) AxiamError × Cache K
  unfolding find_jwk force_refetch_if_allowed
  find_or_refetch kid jwks at c = elim (find_jwk jwks kid) [
    | some jwk ↦ (ok (some jwk), c)
    | none ↦
        let ((result, _), c') = force_refetch_if_allowed at c in
        elim result [ ok refreshed ↦ (ok (find_jwk refreshed kid), c') | err e ↦ (err e, c') ]
  ]

  -- The key for a `kid`, in two calls of the cache with their readings.
  unfoldable pub key_for :
      Option String
      → Readings K
      → Readings K
      → Cache K
      → Result (Option (Jwk K)) AxiamError × Cache K
  unfolding get_or_fetch find_or_refetch
  key_for kid first second c =
      let ((result, _), c') = get_or_fetch first c in
      elim result [ err e ↦ (err e, c') | ok jwks ↦ find_or_refetch kid jwks second c' ]

  unfoldable pub key_for_kid :
      String → Readings K → Readings K → Cache K → Result (Option (Jwk K)) AxiamError × Cache K
  unfolding key_for
  key_for_kid kid first second c = key_for (some kid) first second c
