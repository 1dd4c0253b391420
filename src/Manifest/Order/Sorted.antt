-- ===== src/Manifest/Order/Sorted.antt =====
-- What `topological_order` of src/management/manifest/plan.rs returns.
use axiam_rust_sdk.Prelude.{
  ℕ, ◌≡◌, refl, sym, subst, of_some, ◌∙◌, ◌⊎◌, inl, inr, true, some, List, [], ◌∷◌, foldl, String,
  String-Eq, All, Result, ok, err,
}
use axiam_rust_sdk.Prelude.Maps.{contains, Distinct}
use axiam_rust_sdk.Manifest.Spec.{ResourceSpec}
use axiam_rust_sdk.Manifest.Order.{
  Parents, parents_of, walk, Placing, place, place_resources, fuel_for, topological_order,
}
use axiam_rust_sdk.Manifest.Order.Walk.{Above, WalkSound, walk-sound}
use axiam_rust_sdk.Manifest.Order.Chain.{
  ParentsFirst, WellPlaced, first_round, place_chain-WellPlaced, place_chain-grows,
  place_chain-contains,
}

module _ (parents : Parents) where
  abbrev climbed :
      (fuel : ℕ) (s : Placing) (key : String) (result : Result (List String) String)
      → walk fuel parents s.placed [] [] (some key) ≡ some result
      → WalkSound parents s.placed key result
  climbed fuel s key result =
      walk-sound parents fuel s.placed [] [] (some key) key result tt tt (inl refl)

  -- What the finished order, or the refusal, promises of the resources that were still to place.
  pub record Sorted (rs : List ResourceSpec) (kept : List String) (order : List String)
      : Type 0 where
    pub distinct : Distinct order
    pub sorted : ParentsFirst parents [] order
    pub keeps : (k : String) → contains k kept ≡ true → contains k order ≡ true
    pub placed : All (λ r. contains r.key order ≡ true) rs

  abbrev pub Verdict : List ResourceSpec → List String → Result (List String) String → Type 0
  Verdict rs kept (ok order) = Sorted rs kept order
  Verdict rs kept (err key) = Above parents key key

  Verdict-cons :
      (r : ResourceSpec) (rs : List ResourceSpec) (kept more : List String)
      (result : Result (List String) String)
      → ((k : String) → contains k kept ≡ true → contains k more ≡ true)
      → contains r.key more ≡ true
      → Verdict rs more result
      → Verdict (r ∷ rs) kept result
  Verdict-cons r rs kept more (err key) grows own v = v
  Verdict-cons r rs kept more (ok order) grows own v = record {
    distinct = v.distinct;
    sorted = v.sorted;
    keeps = λ k h. v.keeps k (grows k h);
    placed = (v.keeps r.key own, v.placed);
  }

  reached-placed :
      (s : Placing) (chain : List String) (k : String)
      → (contains k s.placed ≡ true) ⊎ (contains k chain ≡ true)
      → contains k (foldl place s chain).placed ≡ true
  reached-placed s chain k (inl h) = place_chain-grows parents s chain k h
  reached-placed s chain k (inr h) = place_chain-contains parents s chain k h

  all_placed :
      (fuel : ℕ) (s : Placing) (result : Result (List String) String)
      → place_resources fuel parents [] s ≡ some result
      → ok s.order ≡ result
  all_placed fuel s result e = of_some (unfold place_resources in e)

  place_resources-Verdict :
      (fuel : ℕ) (rs : List ResourceSpec) (s : Placing) (result : Result (List String) String)
      → WellPlaced parents s
      → place_resources fuel parents rs s ≡ some result
      → Verdict rs s.placed result
  place_resources-Verdict fuel [] s result w e =
      subst (Verdict [] s.placed) (all_placed fuel s result e) (record {
        distinct = w.distinct;
        sorted = w.sorted;
        keeps = λ k h. sym (w.same k) ∙ h;
        placed = tt;
      })
  place_resources-Verdict fuel (r ∷ rs) s result w e =
      elim (first_round fuel parents r rs s _ result refl e) [
        | inl (chain, c, rest) ↦
            let up = climbed fuel s r.key (ok chain) c in
            Verdict-cons r rs s.placed (foldl place s chain).placed result
              (place_chain-grows parents s chain) (reached-placed s chain r.key up.reached)
              (place_resources-Verdict fuel rs (foldl place s chain) result
                (place_chain-WellPlaced parents s up.cursor chain w up.settled up.linked) rest)
        | inr (key, c, refused) ↦
            subst (Verdict (r ∷ rs) s.placed) (sym refused) (climbed fuel s r.key (err key) c)
      ]

-- What the outcome of the sort tells of the resources.
abbrev pub OrderSound : List ResourceSpec → Result (List String) String → Type 0
OrderSound resources (ok order) =
    Distinct order
    × ParentsFirst (parents_of resources) [] order
    × All (λ r. contains r.key order ≡ true) resources
OrderSound resources (err key) = Above (parents_of resources) key key

sound_of :
    (resources : List ResourceSpec) (result : Result (List String) String)
    → Verdict (parents_of resources) resources [] result
    → OrderSound resources result
sound_of resources (ok order) v = (v.distinct, v.sorted, v.placed)
sound_of resources (err key) v = v

pub topological_order-OrderSound :
    (resources : List ResourceSpec) (result : Result (List String) String)
    → topological_order resources ≡ some result
    → OrderSound resources result
topological_order-OrderSound resources result e = sound_of resources result (
    place_resources-Verdict (parents_of resources) (fuel_for resources) resources
      (record { order = []; placed = [] }) result
      (record { same = λ k. refl; distinct = tt; sorted = tt }) (unfold topological_order in e))
