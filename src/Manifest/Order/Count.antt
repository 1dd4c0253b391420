-- ===== src/Manifest/Order/Count.antt =====
-- Lists without repetition are no longer than the lists that hold their elements: the bound on a climb in
-- src/management/manifest/plan.rs.
use axiam_rust_sdk.Prelude.{
  suc, ◌≤◌, ◌≡◌, true, false, List, [], ◌∷◌, length, String-Eq, Eq, ◌==◌, ==_iff, All, arith,
  if◌then◌else◌,
}
use axiam_rust_sdk.Prelude.Maps.{contains, Distinct}

module _ {ℓ} {K : Type ℓ} ⦃e : Eq K⦄ where
  unfoldable erase : K → List K → List K
  erase k [] = []
  erase k (j ∷ s) = let rest = erase k s in if j == k then s else j ∷ rest

  length-erase : (k : K) (s : List K) → contains k s ≡ true → suc (length (erase k s)) ≡ length s
  unfolding erase contains
  length-erase k [] h = absurd (cc h)
  length-erase k (j ∷ s) h = ground (arith, length-erase k s, h)

  contains-erase :
      (k j : K) (s : List K)
      → (j == k) ≡ false
      → contains k s ≡ true
      → contains k (erase j s) ≡ true
  unfolding erase contains
  contains-erase k j [] d h = absurd (cc h)
  contains-erase k j (i ∷ s) d h =
      ground (arith, contains-erase k j s, h, ==_iff i j, ==_iff i k, ==_iff j k, d)

  All-erase :
      (k : K) (ks s : List K)
      → contains k ks ≡ false
      → All (λ j. contains j s ≡ true) ks
      → All (λ j. contains j (erase k s) ≡ true) ks
  unfolding contains
  All-erase k [] s h _ = tt
  All-erase k (j ∷ ks) s h (c, cs) = (
    contains-erase j k s (ground (arith, h, ==_iff j k, ==_iff k j)) c,
    All-erase k ks s (ground (arith, h)) cs,
  )

  -- As many different keys as a list holds, at most.
  pub length-Distinct :
      (ks s : List K) → Distinct ks → All (λ j. contains j s ≡ true) ks → length ks ≤ length s
  length-Distinct [] s _ _ = omega arith
  length-Distinct (k ∷ ks) s (new, d) (c, cs) =
      omega (arith, length-erase k s c, length-Distinct ks (erase k s) d (All-erase k ks s new cs))
