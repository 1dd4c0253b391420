-- ===== src/Oidc/SingleFlight.antt =====
-- src/oidc/single_flight.rs and `oidc_refresh` of src/oidc/exchange.rs: one refresh at a time, whose
-- outcome the callers that come meanwhile share. A publication is named by a number, in place of the
-- identity of its `Arc`; `T` is the type of a token set. A poisoned lock is recovered.
pub mod Steps
mod Slot
pub mod Invariant
pub mod Joined
pub mod Kept
pub mod Safety
pub mod Progress
mod Examples
use axiam_rust_sdk.Prelude.{
  ℕ, suc, Bool, true, false, Option, none, some, Result, ok, err, String, nat_eq, if◌then◌else◌,
}
use axiam_rust_sdk.Error.{AxiamError, new_auth, clone_for_waiter}

-- `f`, but `a` at `i`.
abbrev pub update {ℓ} : {A : Type ℓ} → (ℕ → A) → ℕ → A → ℕ → A
update f i a j = if nat_eq i j then a else f j

pub data OidcRefreshState (T : Type 0) : Type 0 where
  running : OidcRefreshState T
  settled : Result T AxiamError → OidcRefreshState T
  cancelled : OidcRefreshState T

-- The slot, with the state of every publication that there has been, and the number of the next.
pub record OidcRefreshInflight (T : Type 0) : Type 0 where
  pub slot : Option ℕ
  pub states : ℕ → OidcRefreshState T
  pub next : ℕ

pub data OidcRefreshElection : Type 0 where
  leader : ℕ → OidcRefreshElection
  waiter : ℕ → OidcRefreshElection

-- The slot without `mine`.
unfoldable pub retire_slot : ℕ → Option ℕ → Option ℕ
retire_slot mine none = none
retire_slot mine (some current) = if nat_eq current mine then none else some current

module _ {T : Type 0} where
  -- `OidcRefreshInflight::new`
  abbrev pub new_inflight : OidcRefreshInflight T
  new_inflight = record { slot = none; states = λ p. running; next = 0 }

  -- `subscribe_if_joinable` gives a subscription exactly if this holds.
  unfoldable pub is_joinable : OidcRefreshState T → Bool
  is_joinable running = true
  is_joinable (settled outcome) = true
  is_joinable cancelled = false

  -- A new publication in the slot.
  unfoldable pub install : OidcRefreshInflight T → OidcRefreshElection × OidcRefreshInflight T
  install s = (
    leader s.next,
    record { slot = some s.next; states = update s.states s.next running; next = suc s.next },
  )

  unfoldable pub elect_slot :
      OidcRefreshInflight T → Option ℕ → OidcRefreshElection × OidcRefreshInflight T
  unfolding is_joinable install
  elect_slot s none = install s
  elect_slot s (some current) =
      if is_joinable (s.states current) then (waiter current, s) else install s

  -- `OidcRefreshInflight::elect`, under the lock of the slot
  unfoldable pub elect : OidcRefreshInflight T → OidcRefreshElection × OidcRefreshInflight T
  unfolding elect_slot
  elect s = elect_slot s s.slot

  -- `OidcRefreshPublication::publish`
  unfoldable pub publish_state :
      ℕ → OidcRefreshState T → OidcRefreshInflight T → OidcRefreshInflight T
  publish_state mine state s = record s { states = update s.states mine state }

  -- `OidcRefreshInflight::retire`, under the lock of the slot
  unfoldable pub retire : ℕ → OidcRefreshInflight T → OidcRefreshInflight T
  unfolding retire_slot
  retire mine s = record s { slot = retire_slot mine s.slot }

  -- What the waiters share of a result.
  unfoldable pub shared : Result T AxiamError → Result T AxiamError
  shared (ok tokens) = ok tokens
  shared (err e) = err (clone_for_waiter e)

  -- `OidcRefreshWaiter::wait`: no answer yet, the outcome, or the cancellation.
  unfoldable pub wait : ℕ → OidcRefreshInflight T → Option (Result (Result T AxiamError) Unit)
  wait mine s = elim (s.states mine) [
    | running ↦ none
    | settled outcome ↦ some (ok outcome)
    | cancelled ↦ some (err tt)
  ]

  -- What `oidc_refresh` returns of a waiter's answer.
  unfoldable pub waiter_result : Result (Result T AxiamError) Unit → Result T AxiamError
  waiter_result (ok (ok tokens)) = ok tokens
  waiter_result (ok (err e)) = err (clone_for_waiter e)
  waiter_result (err _) = err (
      new_auth
        "the in-flight oidc_refresh was cancelled before completing; retry or re-authenticate (CONTRACT.md §9)")
