-- ===== src/Memo.antt =====
-- src/memo.rs: the opt-in memo of access decisions. Instants and durations are nanoseconds. The map
-- and the queue stand in one record, with a flag for each lock that a panic has poisoned. The proofs
-- hold for every key type with a lawful equality; `MemoKey` is the program's.
pub mod Key
pub mod Invariant
pub mod History
mod Examples
use axiam_rust_sdk.Prelude.{
  ℕ, suc, ◌-◌, min, Bool, true, false, not, ◌||◌, Option, none, some, List, [], ◌∷◌, ◌++◌, String,
  length, Eq, nat_eq, ltb, leb, if◌then◌else◌,
}
use axiam_rust_sdk.Prelude.Maps.{Map, lookup, insert, remove}

-- `MAX_TTL`, five seconds
abbrev pub max_ttl : ℕ
max_ttl = 5_000_000_000

abbrev pub max_entries : ℕ
max_entries = 1024

-- src/rest/authz.rs
pub record AccessDecision : Type 0 where
  pub allowed : Bool
  pub reason : Option String
  pub reason_code : Option String

pub record Entry : Type 0 where
  pub decision : AccessDecision
  pub stored_at : ℕ

pub record DecisionMemo (K : Type 0) : Type 0 where
  pub ttl : ℕ
  pub entries : Map K Entry
  pub order : List K
  pub entries_poisoned : Bool
  pub order_poisoned : Bool

-- `report_clamp` emits its event exactly if this holds.
unfoldable pub reports_clamp : ℕ → ℕ → Bool
reports_clamp requested effective = not (nat_eq requested 0 || nat_eq requested effective)

pub is_some {ℓ} : {A : Type ℓ} → Option A → Bool
is_some none = false
is_some (some a) = true

-- The decision of an entry that has not expired.
unfoldable pub live : ℕ → ℕ → Option Entry → Option AccessDecision
live ttl now none = none
live ttl now (some entry) = if leb ttl (now - entry.stored_at) then none else some entry.decision

module _ {K : Type 0} where
  unfoldable pub new : ℕ → DecisionMemo K
  new ttl = record {
    ttl = min ttl max_ttl;
    entries = [];
    order = [];
    entries_poisoned = false;
    order_poisoned = false;
  }

  unfoldable pub is_enabled : DecisionMemo K → Bool
  is_enabled m = not (nat_eq m.ttl 0)

  -- §17.1 rule 9
  unfoldable pub clear : DecisionMemo K → DecisionMemo K
  clear m = record m {
    entries = if m.entries_poisoned then m.entries else [];
    order = if m.order_poisoned then m.order else [];
  }

module _ {K : Type 0} ⦃e : Eq K⦄ where
  -- `Instant::duration_since` is 0 for a later instant.
  unfoldable pub get_at : DecisionMemo K → K → ℕ → Option AccessDecision
  unfolding is_enabled live
  get_at m key now =
      if not (is_enabled m) || m.entries_poisoned
      then none
      else live m.ttl now (lookup key m.entries)

  -- The `while` loop: it drops the oldest keys until the cap is met.
  unfoldable pub evict : List K → Map K Entry → List K × Map K Entry
  evict [] entries = ([], entries)
  evict (oldest ∷ order) entries =
      let rest = evict order (remove oldest entries) in
      if ltb max_entries (length (oldest ∷ order)) then rest else (oldest ∷ order, entries)

  unfoldable pub put_at : DecisionMemo K → K → AccessDecision → ℕ → DecisionMemo K
  unfolding is_enabled is_some
  put_at m key decision now =
      if not (is_enabled m) || (m.entries_poisoned || m.order_poisoned)
      then m
      else let stored = insert key (record { decision = decision; stored_at = now }) m.entries in
        let order = if is_some (lookup key m.entries) then m.order else m.order ++ key ∷ [] in
        let (order', entries') = evict order stored in
        record m { entries = entries'; order = order' }
