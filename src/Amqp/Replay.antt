-- ===== src/Amqp/Replay.antt =====
-- `ReplayGuard` of src/amqp/consumer.rs: the nonces that a consumer has seen, and when it forgets
-- them. A poisoned lock is recovered, so it changes nothing. Durations are nanoseconds; a UTC time is
-- counted from the earliest that the type holds, an instant of the monotonic clock from its start.
pub mod Forget
use mathlib.Core.Option.{get_or}
use axiam_rust_sdk.Prelude.{
  ℕ, ◌+◌, ◌-◌, ◌*◌, Bool, true, false, Option, List, [], ◌∷◌, String, String-Eq, leb, if◌then◌else◌,
}
use axiam_rust_sdk.Prelude.Maps.{Map, insert, keys, contains}

-- `DEFAULT_FRESHNESS_SKEW_SECS`, as a duration
abbrev pub default_freshness_skew : ℕ
default_freshness_skew = 300_000_000_000

-- One reading of both clocks.
pub record Clock : Type 0 where
  pub utc : ℕ
  pub instant : ℕ

pub record ReplayGuard : Type 0 where
  pub skew : ℕ
  pub seen : Map String ℕ

-- `ReplayGuard::new`
abbrev pub new_guard : ℕ → ReplayGuard
new_guard skew = record { skew = skew; seen = [] }

-- `ReplayGuard::default`
abbrev pub default_guard : ReplayGuard
default_guard = new_guard default_freshness_skew

-- `DateTime::signed_duration_since` and `abs`
unfoldable pub apart : ℕ → ℕ → ℕ
apart now issued_at = if leb issued_at now then now - issued_at else issued_at - now

-- `is_fresh`, of this file and of reactor/protocol.rs
unfoldable pub is_fresh : ℕ → ℕ → ℕ → Bool
unfolding apart
is_fresh issued_at now skew = leb (apart now issued_at) skew

-- `HashMap::retain`, of what expires after `now`
unfoldable pub retain_unexpired : ℕ → Map String ℕ → Map String ℕ
retain_unexpired now [] = []
retain_unexpired now ((nonce, expiry) ∷ rest) =
    let kept = retain_unexpired now rest in if leb expiry now then kept else (nonce, expiry) ∷ kept

-- `doubled` is `(skew * 2).to_std()` of `chrono`.
module _ (doubled : ℕ → Option ℕ) where
  -- `ReplayGuard::ttl`
  unfoldable pub ttl : ReplayGuard → ℕ
  ttl g = get_or (doubled g.skew) (default_freshness_skew * 2)

  unfoldable pub check_and_record_nonce : String → ℕ → ReplayGuard → Bool × ReplayGuard
  unfolding ttl retain_unexpired
  check_and_record_nonce nonce now g =
      let seen = retain_unexpired now g.seen in
      if contains nonce (keys seen)
      then (false, record g { seen = seen })
      else (true, record g { seen = insert nonce (now + ttl g) seen })
