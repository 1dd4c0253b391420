-- ===== src/Token/Keys/Given.antt =====
-- How old a set is that the cache of keys of src/token/jwks.rs gives.
use axiam_rust_sdk.Prelude.{
  ℕ, ◌+◌, ◌-◌, ◌<◌, ◌≡◌, refl, sym, ◌∙◌, inl, inr, Bool, true, false, Option, none, some, List, [],
  ◌∷◌, Result, ok, err, ltb, Bool-cases, Option-cases, Result-cases, arith,
}
use axiam_rust_sdk.Error.{AxiamError}
use axiam_rust_sdk.Retry.{secs}
use axiam_rust_sdk.Token.Keys.{
  Jwk, CachedJwks, Cache, Readings, new_cache, may_fetch, fresh_entry, cached_if_fresh, keep_answer,
  fetch_and_cache, asked, use_or_fetch, get_or_fetch,
}
use axiam_rust_sdk.Token.Keys.Log.{
  Fetch, Lookup, newest_set, Logged, new_cache-Logged, lookup, lookups, lookup-Logged,
}

module _ {K : Type 0} where
  fresh_entry-young :
      (now : ℕ) (o : Option (CachedJwks K)) (jwks : List (Jwk K))
      → fresh_entry now o ≡ some jwks
      → (e : CachedJwks K) × (o ≡ some e) × (now < e.fetched_at + secs 300) × (e.jwks ≡ jwks)
  unfolding fresh_entry
  fresh_entry-young now none jwks h = absurd (cc h)
  fresh_entry-young now (some e) jwks h = elim (Bool-cases (ltb (now - e.fetched_at) (secs 300))) [
    | inl young ↦ (e, refl, ground (arith, young), cc (rw young at h))
    | inr old ↦ absurd (cc (rw old at h))
  ]

  -- What a call of `get_or_fetch` gives, with the log before it.
  abbrev pub Given :
      List (Fetch K) → Readings K → (Result (List (Jwk K)) AxiamError × Bool) × Cache K → Type 0
  Given log at ((err e, asked), c) = Unit
  Given log at ((ok jwks, true), c) = at.answer ≡ ok jwks
  Given log at ((ok jwks, false), c) =
      (e : CachedJwks K) × (newest_set log ≡ some e)
      × (at.looked_at < e.fetched_at + secs 300)
      × (e.jwks ≡ jwks)

  fetched-Given :
      (log : List (Fetch K)) (at : Readings K) (c : Cache K)
      → Given log at (asked (fetch_and_cache false at c))
  unfolding fetch_and_cache keep_answer
  fetched-Given log at c = elim (Result-cases at.answer) [
    | inl (jwks, h) ↦ rw (h, keep_answer) refl
    | inr (e, h) ↦ rw (h, keep_answer) tt
  ]

  get_or_fetch-Given :
      (limit : Bool) (c : Cache K) (log : List (Fetch K)) (at : Readings K)
      → Logged limit c log
      → Given log at (get_or_fetch at c)
  unfolding get_or_fetch use_or_fetch cached_if_fresh
  get_or_fetch-Given limit c log at logged = elim (Option-cases (cached_if_fresh at.looked_at c)) [
    | inr (jwks, fresh) ↦
        let (e, has, young, same) = fresh_entry-young at.looked_at c.cached jwks fresh in
        rw (fresh, use_or_fetch) (e, sym logged.holds ∙ has, young, same)
    | inl stale ↦ elim (Bool-cases (may_fetch at.checked_at c)) [
      | inr cool ↦ rw (stale, use_or_fetch) (rw cool tt)
      | inl may ↦ rw (stale, use_or_fetch) (rw may (fetched-Given log at c))
    ]
  ]

  lookups-Logged :
      (limit : Bool) (ls : List (Lookup K)) (p : Cache K × List (Fetch K))
      → Logged limit p.0 p.1
      → Logged limit (lookups ls p).0 (lookups ls p).1
  lookups-Logged limit [] p logged = logged
  lookups-Logged limit (l ∷ rest) p logged =
      lookups-Logged limit rest (lookup l p) (lookup-Logged limit l p logged)

  -- After any calls of the cache a set that `get_or_fetch` gives is what this call fetched, or that of the
  -- newest successful fetch, which was answered less than five minutes ago.
  pub get_or_fetch-lookups :
      (limit : Bool) (ls : List (Lookup K)) (at : Readings K)
      → let (c, log) = lookups ls (new_cache limit, []) in Given log at (get_or_fetch at c)
  get_or_fetch-lookups limit ls at =
      get_or_fetch-Given limit _ _ at
        (lookups-Logged limit ls (new_cache limit, []) (new_cache-Logged limit))
