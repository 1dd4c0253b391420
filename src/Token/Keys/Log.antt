-- ===== src/Token/Keys/Log.antt =====
-- The fetches that the cache of keys of src/token/jwks.rs makes, as a log, and what the log says of the cache.
use axiam_rust_sdk.Prelude.{
  ℕ, ◌≡◌, refl, inl, inr, Bool, true, false, Option, none, some, List, [], ◌∷◌, Result, ok, err,
  if◌then◌else◌, Bool-cases, Option-cases,
}
use axiam_rust_sdk.Error.{AxiamError}
use axiam_rust_sdk.Token.Keys.{
  Jwk, CachedJwks, Cache, Readings, new_cache, may_fetch, cached_if_fresh, keep_answer,
  fetch_and_cache, use_or_fetch, get_or_fetch, is_allowed, refetch_over, force_refetch_if_allowed,
}

-- One fetch.
pub record Fetch (K : Type 0) : Type 0 where
  pub is_forced : Bool
  pub at : Readings K

abbrev pub if_limited : Bool → Option ℕ → Option ℕ
if_limited limit o = if limit then o else none

-- A call of the cache.
pub data Lookup (K : Type 0) : Type 0 where
  gets : Readings K → Lookup K
  forces : Readings K → Lookup K

module _ {K : Type 0} where
  -- The set that one successful fetch gives.
  abbrev pub entry_of : Fetch K → List (Jwk K) → CachedJwks K
  entry_of f jwks = record {
    jwks = jwks;
    fetched_at = f.at.answered_at;
    last_forced_refetch = if f.is_forced then some f.at.answered_at else none;
  }

  -- The newest successful fetch of a log, newest first, as the entry that it gives.
  abbrev pub newest_set : List (Fetch K) → Option (CachedJwks K)
  newest_set [] = none
  newest_set (f ∷ older) =
      let rest = newest_set older in
      elim f.at.answer [ ok jwks ↦ some (entry_of f jwks) | err e ↦ rest ]

  -- When the newest fetch failed, if it did.
  abbrev pub newest_failure : List (Fetch K) → Option ℕ
  newest_failure [] = none
  newest_failure (f ∷ older) = elim f.at.answer [ ok jwks ↦ none | err e ↦ some f.at.answered_at ]

  -- A cache is what its log says.
  pub record Logged (limit : Bool) (c : Cache K) (log : List (Fetch K)) : Type 0 where
    pub limits : c.limit_failed_fetches ≡ limit
    pub holds : c.cached ≡ newest_set log
    pub failed : c.last_failed_fetch ≡ if_limited limit (newest_failure log)

  pub new_cache-Logged : (limit : Bool) → Logged limit (new_cache limit) []
  unfolding new_cache
  new_cache-Logged true = record { limits = refl; holds = refl; failed = refl }
  new_cache-Logged false = record { limits = refl; holds = refl; failed = refl }

  keep_answer-Logged :
      (limit : Bool) (f : Fetch K) (answer : Result (List (Jwk K)) AxiamError) (c : Cache K)
      (log : List (Fetch K))
      → f.at.answer ≡ answer
      → Logged limit c log
      → Logged limit (keep_answer f.is_forced f.at.answered_at answer c).1 (f ∷ log)
  unfolding keep_answer
  keep_answer-Logged true f (ok jwks) c log same l = record {
    limits = l.limits;
    holds = rw same refl;
    failed = rw (same, l.limits) refl;
  }
  keep_answer-Logged false f (ok jwks) c log same l = record {
    limits = l.limits;
    holds = rw same refl;
    failed = rw l.limits l.failed;
  }
  keep_answer-Logged true f (err e) c log same l = record {
    limits = l.limits;
    holds = rw same l.holds;
    failed = rw (same, l.limits) refl;
  }
  keep_answer-Logged false f (err e) c log same l = record {
    limits = l.limits;
    holds = rw same l.holds;
    failed = rw l.limits l.failed;
  }

  abbrev pub outcome_of : Lookup K → Cache K → (Result (List (Jwk K)) AxiamError × Bool) × Cache K
  outcome_of (gets at) c = get_or_fetch at c
  outcome_of (forces at) c = force_refetch_if_allowed at c

  abbrev pub fetch_of : Lookup K → Fetch K
  fetch_of (gets at) = record { is_forced = false; at = at }
  fetch_of (forces at) = record { is_forced = true; at = at }

  abbrev pub lookup : Lookup K → Cache K × List (Fetch K) → Cache K × List (Fetch K)
  lookup l (c, log) =
      let ((result, asked), c') = outcome_of l c in (c', if asked then fetch_of l ∷ log else log)

  abbrev pub lookups : List (Lookup K) → Cache K × List (Fetch K) → Cache K × List (Fetch K)
  lookups [] p = p
  lookups (l ∷ rest) p = lookups rest (lookup l p)

  -- What a call leaves: the cache is what the log says, with this call's fetch where it made one.
  abbrev pub After :
      Bool
      → Lookup K
      → List (Fetch K)
      → (Result (List (Jwk K)) AxiamError × Bool) × Cache K
      → Type 0
  After limit l log ((result, asked), c) = Logged limit c (if asked then fetch_of l ∷ log else log)

  module _ (limit : Bool) (c : Cache K) (log : List (Fetch K)) (logged : Logged limit c log) where
    get_or_fetch-After : (at : Readings K) → After limit (gets at) log (get_or_fetch at c)
    unfolding get_or_fetch use_or_fetch fetch_and_cache
    get_or_fetch-After at = elim (Option-cases (cached_if_fresh at.looked_at c)) [
      | inr (jwks, fresh) ↦ rw (fresh, use_or_fetch) logged
      | inl stale ↦ elim (Bool-cases (may_fetch at.checked_at c)) [
        | inl may ↦
            rw (stale, use_or_fetch)
              (rw may (keep_answer-Logged limit (fetch_of (gets at)) at.answer c log refl logged))
        | inr cool ↦ rw (stale, use_or_fetch) (rw cool logged)
      ]
    ]

    refetch_over-After :
        (cached : Option (CachedJwks K)) (at : Readings K)
        → After limit (forces at) log (refetch_over cached at c)
    unfolding refetch_over fetch_and_cache
    refetch_over-After none at =
        keep_answer-Logged limit (fetch_of (forces at)) at.answer c log refl logged
    refetch_over-After (some entry) at =
        elim (Bool-cases (is_allowed at.checked_at entry.last_forced_refetch)) [
          | inl may ↦
              rw may (keep_answer-Logged limit (fetch_of (forces at)) at.answer c log refl logged)
          | inr early ↦ rw early logged
        ]

    force_refetch-After :
        (at : Readings K) → After limit (forces at) log (force_refetch_if_allowed at c)
    unfolding force_refetch_if_allowed
    force_refetch-After at = elim (Bool-cases (may_fetch at.looked_at c)) [
      | inl may ↦ rw may (refetch_over-After c.cached at)
      | inr cool ↦ rw cool logged
    ]

  pub lookup-Logged :
      (limit : Bool) (l : Lookup K) (p : Cache K × List (Fetch K))
      → Logged limit p.0 p.1
      → Logged limit (lookup l p).0 (lookup l p).1
  lookup-Logged limit (gets at) (c, log) logged = get_or_fetch-After limit c log logged at
  lookup-Logged limit (forces at) (c, log) logged = force_refetch-After limit c log logged at
