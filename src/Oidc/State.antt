-- ===== src/Oidc/State.antt =====
-- src/oidc/state.rs: the store in memory of pending authorizations. Durations and instants are
-- nanoseconds; an operation takes the readings of the clock that it makes. A poisoned lock panics.
mod Retain
pub mod Consume
mod Examples
use axiam_rust_sdk.Prelude.{
  ℕ, ◌+◌, min, Bool, not, Option, none, some, List, [], ◌∷◌, length, String, String-Eq, leb, nat_eq,
  if◌then◌else◌,
}
use axiam_rust_sdk.Prelude.Maps.{Map, lookup, insert, remove}

-- `OIDC_STATE_TTL`, ten minutes
abbrev pub oidc_state_ttl : ℕ
oidc_state_ttl = 600_000_000_000

pub record OidcStateEntry : Type 0 where
  pub state : String
  pub nonce : String
  pub code_verifier : String
  pub redirect_uri : String
  pub return_to : Option String

pub record Held : Type 0 where
  pub entry : OidcStateEntry
  pub expires_at : ℕ

pub record MemoryOidcStateStore : Type 0 where
  pub entries : Map String Held
  pub ttl : ℕ

-- `MemoryOidcStateStore::with_ttl`
unfoldable pub with_ttl : ℕ → MemoryOidcStateStore
with_ttl ttl = record { entries = []; ttl = min ttl oidc_state_ttl }

-- `MemoryOidcStateStore::new`
unfoldable pub new : MemoryOidcStateStore
unfolding with_ttl
new = with_ttl oidc_state_ttl

-- `HashMap::retain`, of what expires after `now`
unfoldable pub retain_live : ℕ → Map String Held → Map String Held
retain_live now [] = []
retain_live now ((state, held) ∷ rest) =
    let kept = retain_live now rest in
    if leb held.expires_at now then kept else (state, held) ∷ kept

unfoldable pub sweep : ℕ → MemoryOidcStateStore → MemoryOidcStateStore
unfolding retain_live
sweep now s = record s { entries = retain_live now s.entries }

-- `len` sweeps, so it has a new store beside its answer.
unfoldable pub len : ℕ → MemoryOidcStateStore → ℕ × MemoryOidcStateStore
unfolding sweep
len now s = let swept = sweep now s in (length swept.entries, swept)

unfoldable pub is_empty : ℕ → MemoryOidcStateStore → Bool × MemoryOidcStateStore
unfolding len
is_empty now s = let (n, swept) = len now s in (nat_eq n 0, swept)

-- The clock is read for the sweep, and again for the expiry.
unfoldable pub save : OidcStateEntry → ℕ → ℕ → MemoryOidcStateStore → MemoryOidcStateStore
unfolding sweep
save entry swept_at now s =
    let swept = sweep swept_at s in
    record swept {
      entries =
          insert entry.state (record { entry = entry; expires_at = now + swept.ttl }) swept.entries;
    }

unfoldable pub consume :
    String → ℕ → MemoryOidcStateStore → Option OidcStateEntry × MemoryOidcStateStore
consume state now s = elim (lookup state s.entries) [
  | none ↦ (none, s)
  | some held ↦ (
    if leb held.expires_at now then none else some held.entry,
    record s { entries = remove state s.entries },
  )
]
