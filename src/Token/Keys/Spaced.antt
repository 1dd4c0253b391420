-- ===== src/Token/Keys/Spaced.antt =====
-- How far apart the fetches of the cache of keys of src/token/jwks.rs are.
use axiam_rust_sdk.Prelude.{
  ℕ, ◌+◌, ◌-◌, ◌≤◌, ◌≡◌, refl, ap, ◌∙◌, subst, inl, inr, Bool, true, false, Option, none, some,
  List, [], ◌∷◌, Result, ltb, if◌then◌else◌, Bool-cases, Option-cases, arith,
}
use axiam_rust_sdk.Error.{AxiamError}
use axiam_rust_sdk.Retry.{secs}
use axiam_rust_sdk.Token.Keys.{
  Jwk, CachedJwks, Cache, Readings, new_cache, is_recent, may_pass, may_fetch, fresh_entry,
  cached_if_fresh, use_or_fetch, get_or_fetch, is_allowed, refetch_over, force_refetch_if_allowed,
}
use axiam_rust_sdk.Token.Keys.Log.{
  Fetch, Lookup, gets, forces, newest_set, newest_failure, if_limited, Logged, new_cache-Logged,
  fetch_of, lookups, lookup-Logged,
}

may_pass-rests : (now t : ℕ) → may_pass now true (some t) ≡ true → t + secs 60 ≤ now
unfolding may_pass is_recent
may_pass-rests now t h = ground (arith, h)

is_allowed-rests : (now t : ℕ) → is_allowed now (some t) ≡ true → t + secs 60 ≤ now
unfolding is_allowed
is_allowed-rests now t h = ground (arith, h)

module _ {K : Type 0} where
  -- The reading of the clock at which a fetch looks at the last failure.
  abbrev pub cooled_at : Fetch K → ℕ
  cooled_at f = if f.is_forced then f.at.looked_at else f.at.checked_at

  -- What a fetch waits for, after those before it: a minute after a failure, where failures are limited; five
  -- minutes after the newest set, if it is not forced; and a minute after it, if both are forced.
  pub record Rests (limit : Bool) (f : Fetch K) (older : List (Fetch K)) : Type 0 where
    pub after_failure :
        (t : ℕ) → limit ≡ true → newest_failure older ≡ some t → t + secs 60 ≤ cooled_at f
    pub after_set :
        (e : CachedJwks K)
        → f.is_forced ≡ false
        → newest_set older ≡ some e
        → e.fetched_at + secs 300 ≤ f.at.looked_at
    pub after_forced :
        (e : CachedJwks K) (t : ℕ)
        → f.is_forced ≡ true
        → newest_set older ≡ some e
        → e.last_forced_refetch ≡ some t
        → t + secs 60 ≤ f.at.checked_at

  abbrev pub AllRest : Bool → List (Fetch K) → Type 0
  AllRest limit [] = Unit
  AllRest limit (f ∷ older) = Rests limit f older × AllRest limit older

  may_fetch-rests :
      (limit : Bool) (c : Cache K) (log : List (Fetch K)) (now t : ℕ)
      → Logged limit c log
      → may_fetch now c ≡ true
      → limit ≡ true
      → newest_failure log ≡ some t
      → t + secs 60 ≤ now
  unfolding may_fetch
  may_fetch-rests limit c log now t logged may limited failure =
      let e : c.last_failed_fetch ≡ some t =
        logged.failed ∙ ap (λ l. if_limited l (newest_failure log)) limited ∙ failure in
      may_pass-rests now t (
        subst (λ l. may_pass now l (some t) ≡ true) (logged.limits ∙ limited)
          (subst (λ o. may_pass now c.limit_failed_fetches o ≡ true) e may))

  fresh_entry-stale :
      (now : ℕ) (e : CachedJwks K) → fresh_entry now (some e) ≡ none → e.fetched_at + secs 300 ≤ now
  unfolding fresh_entry
  fresh_entry-stale now e h = elim (Bool-cases (ltb (now - e.fetched_at) (secs 300))) [
    | inl young ↦ absurd (cc (rw young at h))
    | inr old ↦ ground (arith, old)
  ]

  -- The log that a call leaves, of rested fetches if the one before was.
  abbrev RestsAfter :
      Bool
      → Lookup K
      → List (Fetch K)
      → (Result (List (Jwk K)) AxiamError × Bool) × Cache K
      → Type 0
  RestsAfter limit l log ((result, asked), c) =
      AllRest limit (if asked then fetch_of l ∷ log else log)

  module _ (limit : Bool) (c : Cache K) (log : List (Fetch K)) (logged : Logged limit c log)
      (rested : AllRest limit log) where
    get_or_fetch-RestsAfter : (at : Readings K) → RestsAfter limit (gets at) log (get_or_fetch at c)
    unfolding get_or_fetch use_or_fetch cached_if_fresh
    get_or_fetch-RestsAfter at = elim (Option-cases (cached_if_fresh at.looked_at c)) [
      | inr (jwks, fresh) ↦ rw (fresh, use_or_fetch) rested
      | inl stale ↦ elim (Bool-cases (may_fetch at.checked_at c)) [
        | inr cool ↦ rw (stale, use_or_fetch) (rw cool rested)
        | inl may ↦
            rw (stale, use_or_fetch)
              (rw may (
                record {
                  after_failure = λ t limited failure.
                      may_fetch-rests limit c log at.checked_at t logged may limited failure;
                  after_set = λ e unforced set.
                      fresh_entry-stale at.looked_at e
                        (subst (λ o. fresh_entry at.looked_at o ≡ none) (logged.holds ∙ set) stale);
                  after_forced = λ e t forced. absurd (cc forced);
                },
                rested,
              ))
      ]
    ]

    forced-Rests :
        (at : Readings K)
        → may_fetch at.looked_at c ≡ true
        → ((e : CachedJwks K)
            → c.cached ≡ some e
            → is_allowed at.checked_at e.last_forced_refetch ≡ true)
        → Rests limit (fetch_of (forces at)) log
    forced-Rests at may allowed = record {
      after_failure = λ t limited failure.
          may_fetch-rests limit c log at.looked_at t logged may limited failure;
      after_set = λ e unforced. absurd (cc unforced);
      after_forced = λ e t forced set last.
          is_allowed-rests at.checked_at t
            (subst (λ o. is_allowed at.checked_at o ≡ true) last (allowed e (logged.holds ∙ set)));
    }

    refetch_over-RestsAfter :
        (cached : Option (CachedJwks K)) (at : Readings K)
        → c.cached ≡ cached
        → may_fetch at.looked_at c ≡ true
        → RestsAfter limit (forces at) log (refetch_over cached at c)
    unfolding refetch_over
    refetch_over-RestsAfter none at has may =
        (forced-Rests at may (λ e other. absurd (cc (has, other))), rested)
    refetch_over-RestsAfter (some entry) at has may =
        elim (Bool-cases (is_allowed at.checked_at entry.last_forced_refetch)) [
          | inr early ↦ rw early rested
          | inl allowed ↦ rw allowed (
            forced-Rests at may (λ e other.
                let same : entry ≡ e = cc (has, other) in
                subst (λ (x : CachedJwks K). is_allowed at.checked_at x.last_forced_refetch ≡ true)
                  same allowed),
            rested,
          )
        ]

    force_refetch-RestsAfter :
        (at : Readings K) → RestsAfter limit (forces at) log (force_refetch_if_allowed at c)
    unfolding force_refetch_if_allowed
    force_refetch-RestsAfter at = elim (Bool-cases (may_fetch at.looked_at c)) [
      | inl may ↦ rw may (refetch_over-RestsAfter c.cached at refl may)
      | inr cool ↦ rw cool rested
    ]

  lookups-AllRest :
      (limit : Bool) (ls : List (Lookup K)) (p : Cache K × List (Fetch K))
      → Logged limit p.0 p.1
      → AllRest limit p.1
      → Logged limit (lookups ls p).0 (lookups ls p).1 × AllRest limit (lookups ls p).1
  lookups-AllRest limit [] p logged rested = (logged, rested)
  lookups-AllRest limit (gets at ∷ rest) (c, log) logged rested =
      lookups-AllRest limit rest _ (lookup-Logged limit (gets at) (c, log) logged)
        (get_or_fetch-RestsAfter limit c log logged rested at)
  lookups-AllRest limit (forces at ∷ rest) (c, log) logged rested =
      lookups-AllRest limit rest _ (lookup-Logged limit (forces at) (c, log) logged)
        (force_refetch-RestsAfter limit c log logged rested at)

  -- However the cache is called, each fetch of the keys waits: a minute after the one before where that
  -- failed and failed fetches are limited; five minutes after the newest set, unless an unknown `kid` forces
  -- it; and a minute after it, if that was forced too.
  pub lookups_rest :
      (limit : Bool) (ls : List (Lookup K)) → AllRest limit (lookups ls (new_cache limit, [])).1
  lookups_rest limit ls =
      (lookups-AllRest limit ls (new_cache limit, []) (new_cache-Logged limit) tt).1
