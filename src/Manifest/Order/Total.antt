-- ===== src/Manifest/Order/Total.antt =====
-- The loop of `topological_order` in src/management/manifest/plan.rs ends: the fuel is enough.
use axiam_rust_sdk.Prelude.{
  ℕ, zero, suc, ◌+◌, ◌≤◌, ◌≡◌, refl, sym, subst, ◌∙◌, ◌⊎◌, inl, inr, true, false, Option, none,
  some, List, [], ◌∷◌, foldl, map, length, String, String-Eq, ◌==◌, All, arith, Result, ok, err,
  Bool-cases, Option-cases,
}
use axiam_rust_sdk.Prelude.Maps.{lookup, insert, lookup-insert, contains, Distinct}
use axiam_rust_sdk.Manifest.Spec.{ResourceSpec}
use axiam_rust_sdk.Manifest.Order.{
  Parents, parents_of, parent_of, walk, Placing, place, place_resources, fuel_for,
  topological_order,
}
use axiam_rust_sdk.Manifest.Order.Walk.{walk-unseen}
use axiam_rust_sdk.Manifest.Order.Sorted.{OrderSound, topological_order-OrderSound}
use axiam_rust_sdk.Manifest.Order.Count.{length-Distinct}

abbrev keys_of : List ResourceSpec → List String
keys_of = map (λ r. r.key)

length-keys_of : (rs : List ResourceSpec) → length (keys_of rs) ≡ length rs
length-keys_of [] = refl
length-keys_of (r ∷ rs) = omega (arith, length-keys_of rs)

parent_of-insert_other :
    (key k : String) (parent : Option String) (m : Parents)
    → (key == k) ≡ false
    → parent_of (insert key parent m) k ≡ parent_of m k
unfolding parent_of
parent_of-insert_other key k parent m other =
    rw (lookup-insert key k parent m, parent_of, other) refl

parent_of-insert :
    (key k : String) (parent : Option String) (m : Parents) (p : String)
    → parent_of (insert key parent m) k ≡ some p
    → ((key == k) ≡ true) ⊎ (parent_of m k ≡ some p)
parent_of-insert key k parent m p h = elim (Bool-cases (key == k)) [
  | inl same ↦ inl same
  | inr other ↦ inr (sym (parent_of-insert_other key k parent m other) ∙ h)
]

-- What has a parent is declared.
folded_declared :
    (rs : List ResourceSpec) (m : Parents) (k p : String)
    → parent_of (foldl (λ m r. insert r.key r.parent m) m rs) k ≡ some p
    → (contains k (keys_of rs) ≡ true) ⊎ (parent_of m k ≡ some p)
unfolding contains
folded_declared [] m k p h = inr h
folded_declared (r ∷ rs) m k p h = elim (folded_declared rs (insert r.key r.parent m) k p h) [
  | inl c ↦ inl (ground (arith, c))
  | inr up ↦ elim (parent_of-insert r.key k r.parent m p up) [
    | inl same ↦ inl (ground (arith, same))
    | inr old ↦ inr old
  ]
]

unparented : (k p : String) → parent_of [] k ≡ some p → ⊥
unfolding parent_of lookup
unparented k p h = cc h

declared :
    (rs : List ResourceSpec) (k p : String)
    → parent_of (parents_of rs) k ≡ some p
    → contains k (keys_of rs) ≡ true
declared rs k p h = elim (folded_declared rs [] k p (unfold parents_of in h)) [
  | inl c ↦ c
  | inr old ↦ absurd (unparented k p old)
]

-- A walk, a round or a loop has fuel enough where it has a result.
abbrev Returns : Option (Result (List String) String) → Type 0
Returns o = (result : Result (List String) String) × (o ≡ some result)

module _ (rs : List ResourceSpec) where
  abbrev parents : Parents
  parents = parents_of rs

  abbrev Declared : List String → Type 0
  Declared = All (λ k. contains k (keys_of rs) ≡ true)

  bounded_guard : (guard : List String) → Distinct guard → Declared guard → length guard ≤ length rs
  bounded_guard guard d known =
      rw (sym (length-keys_of rs)) (length-Distinct guard (keys_of rs) d known)

  walk_turn :
      (fuel : ℕ) (placed guard chain : List String) (key : String)
      → (contains key guard ≡ false
          → Returns (walk fuel parents placed (key ∷ guard) (key ∷ chain) (parent_of parents key)))
      → Returns (walk (suc fuel) parents placed guard chain (some key))
  unfolding walk
  walk_turn fuel placed guard chain key next = elim (Bool-cases (contains key placed)) [
    | inl old ↦ (ok chain, rw (old, walk) refl)
    | inr fresh ↦ elim (Bool-cases (contains key guard)) [
      | inl seen ↦ (err key, rw (fresh, walk) (rw (seen, walk) refl))
      | inr unseen ↦ (
        (next unseen).0,
        walk-unseen parents fuel placed guard chain key fresh unseen ∙ (next unseen).1,
      )
    ]
  ]

  walk_last :
      (fuel : ℕ) (placed guard chain : List String) (cursor : Option String)
      → cursor ≡ none
      → Returns (walk (suc fuel) parents placed guard chain cursor)
  unfolding walk
  walk_last fuel placed guard chain none e = (ok chain, refl)
  walk_last fuel placed guard chain (some key) e = absurd (cc e)

  -- The keys seen are different and declared, so the walk meets an end before the fuel does.
  walk-Returns :
      (fuel : ℕ) (placed guard chain : List String) (key : String)
      → Distinct guard
      → Declared guard
      → length guard + fuel ≡ suc (length rs)
      → Returns (walk (suc fuel) parents placed guard chain (some key))
  walk-Returns zero placed guard chain key d known e =
      absurd (omega (arith, bounded_guard guard d known))
  walk-Returns (suc fuel) placed guard chain key d known e =
      walk_turn (suc fuel) placed guard chain key (λ unseen.
        elim (Option-cases (parent_of parents key)) [
          | inl root ↦ walk_last fuel placed (key ∷ guard) (key ∷ chain) _ root
          | inr (p, up) ↦
              subst
                (λ (c : Option String).
                  Returns (walk (suc fuel) parents placed (key ∷ guard) (key ∷ chain) c))
                (sym up)
                (walk-Returns fuel placed (key ∷ guard) (key ∷ chain) p (unseen, d)
                  (declared rs key p up, known) (omega arith))
        ])

  abbrev fuel : ℕ
  fuel = fuel_for rs

  round-Returns :
      (r : ResourceSpec) (rest : List ResourceSpec) (s : Placing) (o : Result (List String) String)
      → walk fuel parents s.placed [] [] (some r.key) ≡ some o
      → ((next : Placing) → Returns (place_resources fuel parents rest next))
      → Returns (place_resources fuel parents (r ∷ rest) s)
  unfolding place_resources
  round-Returns r rest s (err key) e next = (err key, rw (e, place_resources) refl)
  round-Returns r rest s (ok chain) e next =
      let after = next (foldl place s chain) in (after.0, rw (e, place_resources) after.1)

  place_resources-Returns :
      (rest : List ResourceSpec) (s : Placing) → Returns (place_resources fuel parents rest s)
  place_resources-Returns [] s = (ok s.order, unfold place_resources in refl)
  place_resources-Returns (r ∷ rest) s =
      let up = walk-Returns (suc (length rs)) s.placed [] [] r.key tt tt (omega arith) in
      round-Returns r rest s up.0 up.1 (place_resources-Returns rest)

  pub topological_order-Returns :
      (result : Result (List String) String) × (topological_order rs ≡ some result)
  unfolding topological_order
  topological_order-Returns = place_resources-Returns rs (record { order = []; placed = [] })

-- For every list of resources the sort returns. If it returns an order, no key stands in it twice,
-- each resource's key is in it, and each key of it that has a parent has that parent before it. If it
-- refuses, it names a key that is an ancestor of itself.
pub topological_order-sorts :
    (rs : List ResourceSpec)
    → (result : Result (List String) String) × (topological_order rs ≡ some result)
      × OrderSound rs result
topological_order-sorts rs =
    let r = topological_order-Returns rs in (r.0, r.1, topological_order-OrderSound rs r.0 r.1)
