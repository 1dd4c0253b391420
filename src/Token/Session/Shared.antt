-- ===== src/Token/Session/Shared.antt =====
-- What concurrent callers share of a refresh of src/token/refresh_guard.rs, and that the copy of the access
-- token is the access token.
use axiam_rust_sdk.Prelude.{
  ℕ, zero, suc, ◌≡◌, ◌≢◌, refl, sym, ap, ◌∙◌, subst, inl, inr, String, String-Eq, ◌==◌, ==_ne, Bool,
  true, false, Option, none, some, List, [], ◌∷◌, Result, ok, err, if◌then◌else◌, Option-cases,
}
use axiam_rust_sdk.Prelude.Int.{ℤ}
use axiam_rust_sdk.Error.{AxiamError}
use axiam_rust_sdk.Token.Session.{
  TokenState, TokenManager, RefreshedTokens, new_manager, cached_access_token, cache_access, store,
  set_tokens, clear, replaced, refreshed, refresh_with, join_or_refresh, refresh_if_needed,
}

module _ {Uuid W : Type 0}
    (do_refresh : String → W → Result (RefreshedTokens Uuid) AxiamError × W) where
  -- A call of the manager.
  pub data Call : Type 0 where
    sets : String → Option String → Option ℤ → Option Uuid → Call
    clears : Call
    refreshes : String → Call

  abbrev pub call : Call → TokenManager Uuid × W → TokenManager Uuid × W
  call (sets access refresh exp tenant) (m, w) = (set_tokens access refresh exp tenant m, w)
  call clears (m, w) = (clear m, w)
  call (refreshes observed) (m, w) =
      let (_, m', w') = refresh_if_needed do_refresh observed m w in (m', w')

  abbrev pub calls : List Call → TokenManager Uuid × W → TokenManager Uuid × W
  calls [] p = p
  calls (c ∷ rest) p = calls rest (call c p)

  abbrev InSync : TokenManager Uuid → Type 0
  InSync m = (m.is_cache_poisoned ≡ false) × (m.fast_access_cache ≡ m.state.access)

  cache_access-InSync :
      (access : Option String) (m : TokenManager Uuid)
      → m.is_cache_poisoned ≡ false
      → m.state.access ≡ access
      → InSync (cache_access access m)
  unfolding cache_access
  cache_access-InSync access m sound same = rw sound (refl, sym same)

  refreshed-InSync :
      (answer : Result (RefreshedTokens Uuid) AxiamError × W) (m : TokenManager Uuid)
      → InSync m
      → InSync (refreshed do_refresh answer m).1
  unfolding refreshed store
  refreshed-InSync (err e, w) m sync = sync
  refreshed-InSync (ok tokens, w) m sync = cache_access-InSync (some tokens.access) _ sync.0 refl

  refresh_with-InSync :
      (token : Option String) (m : TokenManager Uuid) (w : W)
      → InSync m
      → InSync (refresh_with do_refresh token m w).1
  unfolding refresh_with
  refresh_with-InSync none m w sync = sync
  refresh_with-InSync (some token) m w sync = refreshed-InSync (do_refresh token w) m sync

  join_or_refresh-InSync :
      (current : Option String) (m : TokenManager Uuid) (w : W)
      → InSync m
      → InSync (join_or_refresh do_refresh current m w).1
  unfolding join_or_refresh
  join_or_refresh-InSync (some current) m w sync = sync
  join_or_refresh-InSync none m w sync = refresh_with-InSync m.state.refresh m w sync

  call-InSync : (c : Call) (p : TokenManager Uuid × W) → InSync p.0 → InSync (call c p).0
  unfolding set_tokens clear refresh_if_needed store
  call-InSync (sets access refresh exp tenant) (m, w) sync =
      cache_access-InSync (some access) _ sync.0 refl
  call-InSync clears (m, w) sync = cache_access-InSync none _ sync.0 refl
  call-InSync (refreshes observed) (m, w) sync = join_or_refresh-InSync _ m w sync

  calls-InSync : (cs : List Call) (p : TokenManager Uuid × W) → InSync p.0 → InSync (calls cs p).0
  calls-InSync [] p sync = sync
  calls-InSync (c ∷ rest) p sync = calls-InSync rest (call c p) (call-InSync c p sync)

  -- After any calls on a new manager the token that is read without the lock of the state is the state's.
  pub cached_access_token-calls :
      (cs : List Call) (w : W)
      → let m = (calls cs (new_manager, w)).0 in cached_access_token m ≡ m.state.access
  unfolding cached_access_token new_manager
  cached_access_token-calls cs w =
      let (sound, same) = calls-InSync cs (new_manager, w) (refl, refl) in rw sound same

  -- What a call that returns a token leaves.
  abbrev Stored : Result String AxiamError × TokenManager Uuid × W → Type 0
  Stored (err e, m, w) = Unit
  Stored (ok t, m, w) = m.state.access ≡ some t

  state-cache_access :
      (access : Option String) (m : TokenManager Uuid) → (cache_access access m).state ≡ m.state
  unfolding cache_access
  state-cache_access access m =
      elim m.is_cache_poisoned
        as (λ p. (if p then m else record m { fast_access_cache = access }).state ≡ m.state) [
          | true ↦ refl
          | false ↦ refl
        ]

  refreshed-Stored :
      (answer : Result (RefreshedTokens Uuid) AxiamError × W) (m : TokenManager Uuid)
      → Stored (refreshed do_refresh answer m)
  unfolding refreshed store
  refreshed-Stored (err e, w) m = tt
  refreshed-Stored (ok tokens, w) m =
      ap (λ (s : TokenState Uuid). s.access) (state-cache_access (some tokens.access) _)

  refresh_with-Stored :
      (token : Option String) (m : TokenManager Uuid) (w : W)
      → Stored (refresh_with do_refresh token m w)
  unfolding refresh_with
  refresh_with-Stored none m w = tt
  refresh_with-Stored (some token) m w = refreshed-Stored (do_refresh token w) m

  replaced-current :
      (access : Option String) (observed current : String)
      → replaced access observed ≡ some current
      → access ≡ some current
  unfolding replaced
  replaced-current none observed current h = h
  replaced-current (some t) observed current h = go (t == observed) h
    where
      go : (same : Bool) → (if same then none else some t) ≡ some current → some t ≡ some current
      go true h = absurd (cc h)
      go false h = h

  replaced-new : (observed t : String) → t ≢ observed → replaced (some t) observed ≡ some t
  unfolding replaced
  replaced-new observed t new = rw (==_ne t observed new) refl

  refresh_if_needed-Stored :
      (observed : String) (m : TokenManager Uuid) (w : W)
      → Stored (refresh_if_needed do_refresh observed m w)
  unfolding refresh_if_needed join_or_refresh
  refresh_if_needed-Stored observed m w = elim (Option-cases (replaced m.state.access observed)) [
    | inl kept ↦ rw (kept, join_or_refresh) (refresh_with-Stored m.state.refresh m w)
    | inr (current, joins) ↦
        rw (joins, join_or_refresh) (replaced-current m.state.access observed current joins)
  ]

  -- Callers one after the other that all saw the same token, with what each returns.
  abbrev pub burst :
      ℕ → String → TokenManager Uuid × W → List (Result String AxiamError) × TokenManager Uuid × W
  burst zero observed (m, w) = ([], m, w)
  burst (suc n) observed (m, w) =
      let (result, m', w') = refresh_if_needed do_refresh observed m w in
      let (results, m'', w'') = burst n observed (m', w') in (result ∷ results, m'', w'')

  abbrev pub times : ℕ → String → List (Result String AxiamError)
  times zero t = []
  times (suc n) t = ok t ∷ times n t

  burst_first :
      (n : ℕ) (observed : String) (r : Result String AxiamError)
      (rs : List (Result String AxiamError)) (m m' : TokenManager Uuid) (w w' : W)
      → refresh_if_needed do_refresh observed m w ≡ (r, m', w')
      → burst n observed (m', w') ≡ (rs, m', w')
      → burst (suc n) observed (m, w) ≡ (r ∷ rs, m', w')
  burst_first n observed r rs m m' w w' first rest =
      ap
        (λ (x : Result String AxiamError × TokenManager Uuid × W). (
          x.0 ∷ (burst n observed (x.1, x.2)).0,
          (burst n observed (x.1, x.2)).1,
          (burst n observed (x.1, x.2)).2,
        ))
        first
      ∙ ap (λ (x : List (Result String AxiamError) × TokenManager Uuid × W). (r ∷ x.0, x.1, x.2))
          rest

  joins :
      (observed t : String) (m : TokenManager Uuid) (w : W)
      → m.state.access ≡ some t
      → t ≢ observed
      → refresh_if_needed do_refresh observed m w ≡ (ok t, m, w)
  unfolding refresh_if_needed join_or_refresh
  joins observed t m w has new =
      let e : replaced m.state.access observed ≡ some t =
        ap (λ a. replaced a observed) has ∙ replaced-new observed t new in
      rw (e, join_or_refresh) refl

  burst_joins :
      (n : ℕ) (observed t : String) (m : TokenManager Uuid) (w : W)
      → m.state.access ≡ some t
      → t ≢ observed
      → burst n observed (m, w) ≡ (times n t, m, w)
  burst_joins zero observed t m w has new = refl
  burst_joins (suc n) observed t m w has new =
      burst_first n observed (ok t) (times n t) m m w w (joins observed t m w has new)
        (burst_joins n observed t m w has new)

  -- Once one caller's refresh has given a token other than the one that it saw, the callers that come right
  -- after it, one after the other, and saw the same one all get that token and make no request: the world
  -- and the manager stay as they are.
  pub burst-refresh_if_needed :
      (n : ℕ) (observed t : String) (m m' : TokenManager Uuid) (w w' : W)
      → refresh_if_needed do_refresh observed m w ≡ (ok t, m', w')
      → t ≢ observed
      → burst (suc n) observed (m, w) ≡ (times (suc n) t, m', w')
  burst-refresh_if_needed n observed t m m' w w' first new =
      burst_first n observed (ok t) (times n t) m m' w w' first (
        burst_joins n observed t m' w' (subst Stored first (refresh_if_needed-Stored observed m w))
          new)
