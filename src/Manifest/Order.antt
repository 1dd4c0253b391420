-- ===== src/Manifest/Order.antt =====
-- `topological_order` of src/management/manifest/plan.rs. The error is the key that the message names.
pub mod Walk
mod Chain
mod Count
pub mod Sorted
pub mod Total
use axiam_rust_sdk.Prelude.{
  ℕ, zero, suc, ◌+◌, Bool, Option, none, some, List, [], ◌∷◌, ◌++◌, foldl, length, String,
  String-Eq, Result, ok, err, if◌then◌else◌,
}
use axiam_rust_sdk.Prelude.Maps.{Map, lookup, insert, contains}
use axiam_rust_sdk.Manifest.Spec.{ResourceSpec}

abbrev pub Parents : Type 0
Parents = Map String (Option String)

-- Of two resources with one key the later one counts.
unfoldable pub parents_of : List ResourceSpec → Parents
parents_of = foldl (λ m r. insert r.key r.parent m) []

-- `parents.get(key).copied().flatten()`
unfoldable pub parent_of : Parents → String → Option String
parent_of parents key = elim (lookup key parents) [ none ↦ none | some parent ↦ parent ]

-- The `while` loop from one resource up its parents, with fuel; the chain stands nearest the root
-- first, as the code goes through it afterwards.
unfoldable pub walk :
    ℕ
    → Parents
    → List String
    → List String
    → List String
    → Option String
    → Option (Result (List String) String)
walk zero parents placed guard chain cursor = none
walk (suc fuel) parents placed guard chain none = some (ok chain)
walk (suc fuel) parents placed guard chain (some key) =
    let rest = walk fuel parents placed (key ∷ guard) (key ∷ chain) (parent_of parents key) in
    if contains key placed
    then some (ok chain)
    else if contains key guard
    then some (err key)
    else rest

pub record Placing : Type 0 where
  pub order : List String
  pub placed : List String

-- `if placed.insert(key) { order.push(key) }`
unfoldable pub place : Placing → String → Placing
place s key =
    if contains key s.placed
    then s
    else record { order = s.order ++ key ∷ []; placed = key ∷ s.placed }

-- The loop over the resources.
unfoldable pub place_resources :
    ℕ → Parents → List ResourceSpec → Placing → Option (Result (List String) String)
place_resources fuel parents [] s = some (ok s.order)
place_resources fuel parents (r ∷ rs) s = elim (walk fuel parents s.placed [] [] (some r.key)) [
  | none ↦ none
  | some (err key) ↦ some (err key)
  | some (ok chain) ↦ place_resources fuel parents rs (foldl place s chain)
]

-- A walk visits each declared key once, and at most one more.
abbrev pub fuel_for : List ResourceSpec → ℕ
fuel_for resources = suc (suc (length resources))

unfoldable pub topological_order : List ResourceSpec → Option (Result (List String) String)
unfolding parents_of walk place place_resources parent_of
topological_order resources =
    place_resources (fuel_for resources) (parents_of resources) resources
      (record { order = []; placed = [] })
