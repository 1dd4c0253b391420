-- ===== src/Token/Session.antt =====
-- src/token/manager.rs and src/token/refresh_guard.rs: the tokens of a session, and the one refresh that
-- concurrent callers share. A call holds the lock of the state from its start to its end, so that calls
-- are one after the other; the refresh request acts on a world `W`.
pub mod Shared
mod Examples
use axiam_rust_sdk.Prelude.{
  ℕ, String, String-Eq, ◌==◌, Bool, true, false, Option, none, some, List, [], ◌∷◌, Result, ok, err,
  if◌then◌else◌,
}
use axiam_rust_sdk.Prelude.Int.{ℤ}
use axiam_rust_sdk.Error.{AxiamError, new_auth}

pub record TokenState (Uuid : Type 0) : Type 0 where
  pub access : Option String
  pub refresh : Option String
  pub exp : Option ℤ
  pub tenant_id : Option Uuid

-- The state, and the copy of the access token that is read without waiting for its lock.
pub record TokenManager (Uuid : Type 0) : Type 0 where
  pub state : TokenState Uuid
  pub fast_access_cache : Option String
  pub is_cache_poisoned : Bool

pub record RefreshedTokens (Uuid : Type 0) : Type 0 where
  pub access : String
  pub refresh : Option String
  pub exp : Option ℤ
  pub tenant_id : Option Uuid

-- A value is kept where there is no new one.
abbrev pub or_kept : {A : Type 0} → Option A → Option A → Option A
or_kept none kept = kept
or_kept (some new) kept = some new

-- Whether another caller has replaced the token that this one saw.
unfoldable pub replaced : Option String → String → Option String
replaced none observed = none
replaced (some current) observed = if current == observed then none else some current

module _ {Uuid : Type 0} where
  unfoldable pub new_manager : TokenManager Uuid
  new_manager = record {
    state = record { access = none; refresh = none; exp = none; tenant_id = none };
    fast_access_cache = none;
    is_cache_poisoned = false;
  }

  unfoldable pub cached_access_token : TokenManager Uuid → Option String
  cached_access_token m = if m.is_cache_poisoned then none else m.fast_access_cache

  -- A write to the copy, which a poisoned lock skips.
  unfoldable pub cache_access : Option String → TokenManager Uuid → TokenManager Uuid
  cache_access access m = if m.is_cache_poisoned then m else record m { fast_access_cache = access }

  -- What a set of tokens leaves of a state.
  unfoldable pub store : RefreshedTokens Uuid → TokenState Uuid → TokenState Uuid
  store tokens s = record {
    access = some tokens.access;
    refresh = or_kept tokens.refresh s.refresh;
    exp = or_kept tokens.exp s.exp;
    tenant_id = or_kept tokens.tenant_id s.tenant_id;
  }

  unfoldable pub set_tokens :
      String → Option String → Option ℤ → Option Uuid → TokenManager Uuid → TokenManager Uuid
  unfolding cache_access store
  set_tokens access refresh exp tenant_id m =
      let tokens : RefreshedTokens Uuid = record {
        access = access;
        refresh = refresh;
        exp = exp;
        tenant_id = tenant_id;
      } in
      cache_access (some access) (record m { state = store tokens m.state })

  unfoldable pub clear : TokenManager Uuid → TokenManager Uuid
  unfolding cache_access
  clear m = cache_access none (record m {
    state = record { access = none; refresh = none; exp = none; tenant_id = m.state.tenant_id };
  })

  unfoldable pub has_refresh_token : TokenManager Uuid → Bool
  has_refresh_token m = elim m.state.refresh [ none ↦ false | some token ↦ true ]

  module _ {W : Type 0}
      (do_refresh : String → W → Result (RefreshedTokens Uuid) AxiamError × W) where
    -- From the answer of the refresh on.
    unfoldable pub refreshed :
        Result (RefreshedTokens Uuid) AxiamError × W
        → TokenManager Uuid
        → Result String AxiamError × TokenManager Uuid × W
    unfolding cache_access store
    refreshed (err e, w) m = (err e, m, w)
    refreshed (ok tokens, w) m = (
      ok tokens.access,
      cache_access (some tokens.access) (record m { state = store tokens m.state }),
      w,
    )

    -- From the refresh token on.
    unfoldable pub refresh_with :
        Option String → TokenManager Uuid → W → Result String AxiamError × TokenManager Uuid × W
    unfolding refreshed
    refresh_with none m w =
        (err (new_auth "no refresh token available; re-authentication required"), m, w)
    refresh_with (some token) m w = refreshed (do_refresh token w) m

    -- From the token of another caller on.
    unfoldable pub join_or_refresh :
        Option String → TokenManager Uuid → W → Result String AxiamError × TokenManager Uuid × W
    unfolding refresh_with
    join_or_refresh (some current) m w = (ok current, m, w)
    join_or_refresh none m w = refresh_with m.state.refresh m w

    unfoldable pub refresh_if_needed :
        String → TokenManager Uuid → W → Result String AxiamError × TokenManager Uuid × W
    unfolding replaced join_or_refresh
    refresh_if_needed observed m w = join_or_refresh (replaced m.state.access observed) m w
