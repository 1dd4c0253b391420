-- ===== src/Manifest/Order/Chain.antt =====
-- The rounds of the loop of `topological_order` in src/management/manifest/plan.rs, and how each places
-- its chain.
use axiam_rust_sdk.Prelude.{
  ℕ, ◌≡◌, refl, sym, subst, of_some, ◌∙◌, ◌⊎◌, inl, inr, true, ◌||◌, Option, none, some, List, [],
  ◌∷◌, ◌++◌, foldl, String, String-Eq, ◌==◌, ==_iff, arith, Result, ok, err, Bool-cases,
}
use axiam_rust_sdk.Prelude.Maps.{
  contains, contains-append, contains-cons_self, Distinct, Distinct-snoc,
}
use axiam_rust_sdk.Manifest.Spec.{ResourceSpec}
use axiam_rust_sdk.Manifest.Order.{Parents, parent_of, walk, Placing, place, place_resources}
use axiam_rust_sdk.Manifest.Order.Walk.{Linked, Settled}

module _ (fuel : ℕ) (parents : Parents) (r : ResourceSpec) (rs : List ResourceSpec)
    (s : Placing) where
  abbrev climb : Option (Result (List String) String)
  climb = walk fuel parents s.placed [] [] (some r.key)

  -- What a result of the loop shows of its first round.
  abbrev pub FirstRound : Result (List String) String → Type 0
  FirstRound result =
      (chain : List String) × (climb ≡ some (ok chain))
      × (place_resources fuel parents rs (foldl place s chain) ≡ some result)

  round_refused :
      (key : String)
      → climb ≡ some (err key)
      → place_resources fuel parents (r ∷ rs) s ≡ some (err key)
  unfolding place_resources
  round_refused key c = rw (c, place_resources) refl

  round_placed :
      (chain : List String)
      → climb ≡ some (ok chain)
      → place_resources fuel parents (r ∷ rs) s
        ≡ place_resources fuel parents rs (foldl place s chain)
  unfolding place_resources
  round_placed chain c = rw (c, place_resources) refl

  round_starved : climb ≡ none → place_resources fuel parents (r ∷ rs) s ≡ none
  unfolding place_resources
  round_starved c = rw (c, place_resources) refl

  pub first_round :
      (o : Option (Result (List String) String)) (result : Result (List String) String)
      → climb ≡ o
      → place_resources fuel parents (r ∷ rs) s ≡ some result
      → FirstRound result ⊎ ((key : String) × (climb ≡ some (err key)) × (result ≡ err key))
  first_round none result c e = absurd (cc (round_starved c, e))
  first_round (some (err key)) result c e =
      inr (key, c, sym (of_some (sym (round_refused key c) ∙ e)))
  first_round (some (ok chain)) result c e = inl (chain, c, sym (round_placed chain c) ∙ e)

module _ (parents : Parents) where
  -- Each key of the list has its parent, if it has one, among the keys before it.
  abbrev pub ParentsFirst : List String → List String → Type 0
  ParentsFirst before [] = Unit
  ParentsFirst before (k ∷ ks) =
      Settled parents before (parent_of parents k) × ParentsFirst (k ∷ before) ks

  pub record WellPlaced (s : Placing) : Type 0 where
    pub same : (k : String) → contains k s.placed ≡ contains k s.order
    pub distinct : Distinct s.order
    pub sorted : ParentsFirst [] s.order

  Settled-mono :
      (xs ys : List String) (cursor : Option String)
      → ((k : String) → contains k xs ≡ true → contains k ys ≡ true)
      → Settled parents xs cursor
      → Settled parents ys cursor
  Settled-mono xs ys none f h = tt
  Settled-mono xs ys (some p) f h = f p h

  root_or_placed :
      (xs : List String) (cursor : Option String)
      → ((p : String) → cursor ≡ some p → contains p xs ≡ true)
      → Settled parents xs cursor
  root_or_placed xs none f = tt
  root_or_placed xs (some p) f = f p refl

  parent_kept :
      (xs : List String) (cursor : Option String) (p : String)
      → Settled parents xs cursor
      → cursor ≡ some p
      → contains p xs ≡ true
  parent_kept xs none p h e = absurd (cc e)
  parent_kept xs (some q) p h e = subst (λ (k : String). contains k xs ≡ true) (of_some e) h

  contains-snoc :
      (k key : String) (placed order : List String)
      → contains k placed ≡ contains k order
      → contains k (key ∷ placed) ≡ contains k (order ++ key ∷ [])
  unfolding contains
  contains-snoc k key placed order e = rw (contains-append k order (key ∷ [])) (ground (arith, e))

  -- One key at the end.
  ParentsFirst-snoc :
      (before order : List String) (key : String)
      → ParentsFirst before order
      → ((p : String)
          → parent_of parents key ≡ some p
          → (contains p before || contains p order) ≡ true)
      → ParentsFirst before (order ++ key ∷ [])
  unfolding contains
  ParentsFirst-snoc before [] key h settled = (
    root_or_placed before _
        (λ (p : String) (e : parent_of parents key ≡ some p). ground (arith, settled p e)),
    tt,
  )
  ParentsFirst-snoc before (k ∷ order) key (h, hs) settled = (
    h,
    ParentsFirst-snoc (k ∷ before) order key hs
        (λ (p : String) (e : parent_of parents key ≡ some p). ground (arith, settled p e)),
  )

  place-WellPlaced :
      (s : Placing) (key : String)
      → WellPlaced s
      → Settled parents s.placed (parent_of parents key)
      → WellPlaced (place s key)
  unfolding place contains
  place-WellPlaced s key w settled = elim (Bool-cases (contains key s.placed)) [
    | inl old ↦ rw (old, place) w
    | inr fresh ↦
        rw (fresh, place)
          (record {
            same = λ k. contains-snoc k key s.placed s.order (w.same k);
            distinct = Distinct-snoc key s.order (sym (w.same key) ∙ fresh) w.distinct;
            sorted =
                ParentsFirst-snoc [] s.order key w.sorted
                  (λ p e. sym (w.same p) ∙ parent_kept s.placed _ p settled e);
          })
  ]

  place-contains : (s : Placing) (key : String) → contains key (place s key).placed ≡ true
  unfolding place
  place-contains s key = elim (Bool-cases (contains key s.placed)) [
    | inl old ↦ rw (old, place) old
    | inr fresh ↦ rw (fresh, place) (contains-cons_self key s.placed)
  ]

  place-grows :
      (s : Placing) (key k : String)
      → contains k s.placed ≡ true
      → contains k (place s key).placed ≡ true
  unfolding place contains
  place-grows s key k h = ground (arith, h)

  -- A chain from its root end on: each key finds its parent placed.
  pub place_chain-WellPlaced :
      (s : Placing) (cursor : Option String) (chain : List String)
      → WellPlaced s
      → Settled parents s.placed cursor
      → Linked parents cursor chain
      → WellPlaced (foldl place s chain)
  place_chain-WellPlaced s cursor [] w settled l = w
  place_chain-WellPlaced s cursor (k ∷ chain) w settled (e, l) =
      place_chain-WellPlaced (place s k) (some k) chain
        (place-WellPlaced s k w (subst (Settled parents s.placed) (sym e) settled))
        (place-contains s k) l

  pub place_chain-grows :
      (s : Placing) (chain : List String) (k : String)
      → contains k s.placed ≡ true
      → contains k (foldl place s chain).placed ≡ true
  place_chain-grows s [] k h = h
  place_chain-grows s (key ∷ chain) k h =
      place_chain-grows (place s key) chain k (place-grows s key k h)

  pub place_chain-contains :
      (s : Placing) (chain : List String) (k : String)
      → contains k chain ≡ true
      → contains k (foldl place s chain).placed ≡ true
  place_chain-contains s [] k h = absurd (unfold contains in (cc h))
  place_chain-contains s (key ∷ chain) k h = elim (Bool-cases (key == k)) [
    | inl e ↦ place_chain-grows (place s key) chain k (
        subst (λ (j : String). contains j (place s key).placed ≡ true) ((==_iff key k).0 e)
          (place-contains s key))
    | inr e ↦ place_chain-contains (place s key) chain k (unfold contains in ground (arith, e, h))
  ]
