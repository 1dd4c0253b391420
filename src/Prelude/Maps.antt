-- ===== src/Prelude/Maps.antt =====
-- The hash maps and hash sets of the program: association lists and lists, with the keys compared
-- by the key type's equality. Nothing in the program reads them in their own order.
use mathlib.Core.Logic.{◌↔◌, inl, inr}
use mathlib.Core.Path.{◌≡◌, refl, subst}
use mathlib.Core.Bool.{Bool, true, false, ◌||◌}
use mathlib.Core.Option.{Option, none, some}
use mathlib.Core.List.{List, [], ◌∷◌, ◌++◌}
use native.Mathlib.Omega.{arith}
use axiam_rust_sdk.Prelude.Tests.{Eq, ◌==◌, ==_iff, ==_refl, if◌then◌else◌, Bool-cases}
use axiam_rust_sdk.Prelude.Lists.{All}

abbrev pub Map {ℓ} : Type ℓ → Type ℓ → Type ℓ
Map K V = List (K × V)

module _ {ℓ} {K V : Type ℓ} ⦃e : Eq K⦄ where
  -- `HashMap::get`
  unfoldable pub lookup : K → Map K V → Option V
  lookup key [] = none
  lookup key ((other, value) ∷ rest) = if other == key then some value else lookup key rest

  -- `HashMap::insert`, without the old value that it returns
  unfoldable pub insert : K → V → Map K V → Map K V
  insert key value [] = (key, value) ∷ []
  insert key value ((other, old) ∷ rest) =
      if other == key then (other, value) ∷ rest else (other, old) ∷ insert key value rest

  -- `HashMap::remove`, without the value that it returns
  unfoldable pub remove : K → Map K V → Map K V
  remove key [] = []
  remove key ((other, value) ∷ rest) =
      let kept = remove key rest in if other == key then kept else (other, value) ∷ kept

  pub lookup-remove :
      (key probe : K) (m : Map K V)
      → lookup probe (remove key m) ≡ (if key == probe then none else lookup probe m)
  unfolding lookup remove
  lookup-remove key probe [] = ground arith
  lookup-remove key probe ((other, old) ∷ m) =
      ground
        (arith, lookup-remove key probe m, ==_iff key probe, ==_iff other probe, ==_iff other key)

  pub lookup-insert :
      (key probe : K) (value : V) (m : Map K V)
      → lookup probe (insert key value m) ≡ (if key == probe then some value else lookup probe m)
  unfolding lookup insert
  lookup-insert key probe value [] = ground arith
  lookup-insert key probe value ((other, old) ∷ m) = ground (
    arith,
    lookup-insert key probe value m,
    ==_iff key probe,
    ==_iff other probe,
    ==_iff other key,
  )

module _ {ℓ} {K : Type ℓ} ⦃e : Eq K⦄ where
  -- `HashSet::contains`
  unfoldable pub contains : K → List K → Bool
  contains k [] = false
  contains k (j ∷ s) = j == k || contains k s

  pub contains-cons_self : (k : K) (s : List K) → contains k (k ∷ s) ≡ true
  unfolding contains
  contains-cons_self k s = ground (arith, ==_refl k)

  pub contains-append :
      (k : K) (s t : List K) → contains k (s ++ t) ≡ (contains k s || contains k t)
  unfolding contains
  contains-append k [] t = refl
  contains-append k (j ∷ s) t = ground (arith, contains-append k s t)

module _ {ℓ} {K V : Type ℓ} where
  abbrev pub keys : Map K V → List K
  keys [] = []
  keys ((key, value) ∷ m) = key ∷ keys m

module _ {ℓ} {K : Type ℓ} ⦃e : Eq K⦄ where
  abbrev pub Distinct : List K → Type ℓ
  Distinct [] = Unit
  Distinct (k ∷ ks) = (contains k ks ≡ false) × Distinct ks

  pub Distinct-snoc :
      (k : K) (ks : List K) → contains k ks ≡ false → Distinct ks → Distinct (ks ++ k ∷ [])
  unfolding contains
  Distinct-snoc k [] h _ = (refl, tt)
  Distinct-snoc k (j ∷ ks) h (new, rest) = (
    rw (contains-append j ks (k ∷ [])) (ground (arith, ==_iff j k, ==_iff k j)),
    Distinct-snoc k ks (ground arith) rest,
  )

module _ {ℓ} {K V : Type ℓ} ⦃e : Eq K⦄ where
  pub keys-insert :
      (key : K) (value : V) (m : Map K V)
      → keys (insert key value m) ≡ (if contains key (keys m) then keys m else keys m ++ key ∷ [])
  unfolding insert contains
  keys-insert key value [] = refl
  keys-insert key value ((other, old) ∷ m) = ground (arith, keys-insert key value m)

  pub lookup-none_iff :
      (key : K) (m : Map K V) → (lookup key m ≡ none) ↔ (contains key (keys m) ≡ false)
  unfolding lookup contains
  lookup-none_iff key [] = (λ _. refl, λ _. refl)
  lookup-none_iff key ((other, old) ∷ m) =
      let ih = lookup-none_iff key m in (λ h. ground (arith, ih.0), λ h. ground (arith, ih.1))

  pub remove-absent : (key : K) (m : Map K V) → contains key (keys m) ≡ false → remove key m ≡ m
  unfolding remove contains
  remove-absent key [] h = refl
  remove-absent key ((other, old) ∷ m) h = ground (arith, remove-absent key m)

module _ {ℓ} {K : Type ℓ} ⦃e : Eq K⦄ where
  -- What holds of every element holds of one that the set contains.
  pub All-contains {κ} : (P : K → Type κ) (k : K) (s : List K) → All P s → contains k s ≡ true → P k
  unfolding contains
  All-contains P k [] h c = absurd (cc c)
  All-contains P k (j ∷ s) (h, hs) c = elim (Bool-cases (j == k)) [
    | inl same ↦ subst P ((==_iff j k).0 same) h
    | inr other ↦ All-contains P k s hs (rw other at c)
  ]
