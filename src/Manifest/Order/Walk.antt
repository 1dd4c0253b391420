-- ===== src/Manifest/Order/Walk.antt =====
-- One walk up the parents, in `topological_order` of src/management/manifest/plan.rs.
use axiam_rust_sdk.Prelude.{
  ℕ, zero, suc, of_some, ◌≡◌, refl, sym, subst, ◌∙◌, ◌⊎◌, inl, inr, true, false, Option, none, some,
  List, [], ◌∷◌, String, String-Eq, All, All-mono, arith, Result, ok, err, Bool-cases,
}
use axiam_rust_sdk.Prelude.Maps.{contains, contains-cons_self, All-contains}
use axiam_rust_sdk.Manifest.Order.{Parents, parent_of, walk}

-- `Above k p`: going up from `k`, once or more, meets `p`.
pub data Above (parents : Parents) (k : String) : String → Type 0 where
  parent : {p : String} → parent_of parents k ≡ some p → Above parents k p
  higher : {p q : String} → Above parents k p → parent_of parents p ≡ some q → Above parents k q

module _ (parents : Parents) where
  -- A chain, nearest the root first: each key is the parent of the next, and `cursor` that of the first.
  abbrev pub Linked : Option String → List String → Type 0
  Linked cursor [] = Unit
  Linked cursor (k ∷ chain) = (parent_of parents k ≡ cursor) × Linked (some k) chain

  abbrev pub Settled : List String → Option String → Type 0
  Settled placed none = Unit
  Settled placed (some p) = contains p placed ≡ true

  abbrev HasAbove : Option String → String → Type 0
  HasAbove none k = Unit
  HasAbove (some p) k = Above parents k p

  rise :
      (key k : String) (cursor : Option String)
      → parent_of parents key ≡ cursor
      → Above parents k key
      → HasAbove cursor k
  rise key k none e a = tt
  rise key k (some p) e a = higher a e

  start_rise :
      (key : String) (cursor : Option String) → parent_of parents key ≡ cursor → HasAbove cursor key
  start_rise key none e = tt
  start_rise key (some p) e = parent e

  -- The key that the walk started from is in the chain, or still to be visited.
  abbrev Pending : String → Option String → List String → Type 0
  Pending start cursor chain = (cursor ≡ some start) ⊎ (contains start chain ≡ true)

  pub record Climbed (placed : List String) (start : String) (chain : List String) : Type 0 where
    pub cursor : Option String
    pub linked : Linked cursor chain
    pub settled : Settled placed cursor
    pub reached : (contains start placed ≡ true) ⊎ (contains start chain ≡ true)

  abbrev pub WalkSound : List String → String → Result (List String) String → Type 0
  WalkSound placed start (ok chain) = Climbed placed start chain
  WalkSound placed start (err key) = Above parents key key

  walk-root :
      (fuel : ℕ) (placed guard chain : List String)
      → walk (suc fuel) parents placed guard chain none ≡ some (ok chain)
  unfolding walk
  walk-root fuel placed guard chain = refl

  module _ (fuel : ℕ) (placed guard chain : List String) (key : String) where
    walk-old :
        contains key placed ≡ true
        → walk (suc fuel) parents placed guard chain (some key) ≡ some (ok chain)
    unfolding walk
    walk-old old = rw (old, walk) refl

    walk-seen :
        contains key placed ≡ false
        → contains key guard ≡ true
        → walk (suc fuel) parents placed guard chain (some key) ≡ some (err key)
    unfolding walk
    walk-seen fresh seen = rw (fresh, walk) (rw (seen, walk) refl)

    pub walk-unseen :
        contains key placed ≡ false
        → contains key guard ≡ false
        → walk (suc fuel) parents placed guard chain (some key)
          ≡ walk fuel parents placed (key ∷ guard) (key ∷ chain) (parent_of parents key)
    unfolding walk
    walk-unseen fresh unseen = rw (fresh, walk) (rw (unseen, walk) refl)

  finished :
      (placed : List String) (start : String) {a b : Result (List String) String}
      → some a ≡ some b
      → WalkSound placed start a
      → WalkSound placed start b
  finished placed start e = subst (WalkSound placed start) (of_some e)

  reached_root :
      (placed chain : List String) (start : String)
      → Pending start none chain
      → (contains start placed ≡ true) ⊎ (contains start chain ≡ true)
  reached_root placed chain start (inr h) = inr h
  reached_root placed chain start (inl e) = absurd (cc e)

  reached_last :
      (placed chain : List String) (key start : String)
      → contains key placed ≡ true
      → Pending start (some key) chain
      → (contains start placed ≡ true) ⊎ (contains start chain ≡ true)
  reached_last placed chain key start old (inr h) = inr h
  reached_last placed chain key start old (inl e) =
      inl (subst (λ (k : String). contains k placed ≡ true) (of_some e) old)

  start_kept :
      (chain : List String) (key start : String)
      → Pending start (some key) chain
      → contains start (key ∷ chain) ≡ true
  start_kept chain key start (inl e) =
      subst (λ (k : String). contains k (key ∷ chain) ≡ true) (of_some e)
        (contains-cons_self key chain)
  start_kept chain key start (inr h) = unfold contains in (ground (arith, h))

  -- A finished walk is a chain of parents up to a placed key or a root; a refused one has come back to
  -- the key that it names.
  pub walk-sound :
      (fuel : ℕ) (placed guard chain : List String) (cursor : Option String) (start : String)
      (result : Result (List String) String)
      → Linked cursor chain
      → All (HasAbove cursor) guard
      → Pending start cursor chain
      → walk fuel parents placed guard chain cursor ≡ some result
      → WalkSound placed start result
  walk-sound zero placed guard chain cursor start result l g p e = absurd (unfold walk in (cc e))
  walk-sound (suc fuel) placed guard chain none start result l g p e =
      finished placed start (sym (walk-root fuel placed guard chain) ∙ e) (record {
        cursor = none;
        linked = l;
        settled = tt;
        reached = reached_root placed chain start p;
      })
  walk-sound (suc fuel) placed guard chain (some key) start result l g p e =
      elim (Bool-cases (contains key placed)) [
        | inl old ↦
            finished placed start (sym (walk-old fuel placed guard chain key old) ∙ e) (record {
              cursor = some key;
              linked = l;
              settled = old;
              reached = reached_last placed chain key start old p;
            })
        | inr fresh ↦ elim (Bool-cases (contains key guard)) [
          | inl seen ↦
              finished placed start (sym (walk-seen fuel placed guard chain key fresh seen) ∙ e)
                (All-contains (HasAbove (some key)) key guard g seen)
          | inr unseen ↦
              walk-sound fuel placed (key ∷ guard) (key ∷ chain) (parent_of parents key) start
                result (refl, l)
                (start_rise key _ refl, All-mono _ _ guard (λ k a. rise key k _ refl a) g)
                (inr (start_kept chain key start p))
                (sym (walk-unseen fuel placed guard chain key fresh unseen) ∙ e)
        ]
      ]
