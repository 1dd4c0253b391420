-- ===== src/Manifest/Examples.antt =====
-- Runs of `topological_order` on small manifests.
use axiam_rust_sdk.Prelude.{
  ◌≡◌, refl, Option, none, some, List, [], ◌∷◌, String, String-Eq, Result, ok, err,
}
use axiam_rust_sdk.Prelude.Maps.{lookup, insert, contains}
use axiam_rust_sdk.Manifest.Spec.{ResourceSpec}
use axiam_rust_sdk.Manifest.Order.{topological_order}
use axiam_rust_sdk.Manifest.Order.Sorted.{OrderSound}
use axiam_rust_sdk.Manifest.Order.Total.{topological_order-sorts}

abbrev node : String → Option String → ResourceSpec
node key above = record {
  key = key;
  name = key;
  resource_type = "site";
  parent = above;
  scopes = [];
}

-- The child stands first, and one parent is not in the manifest.
abbrev sites : List ResourceSpec
sites = node "room" (some "floor") ∷ node "floor" (some "house") ∷ node "shed" none ∷ []

sites_order : topological_order sites ≡ some (ok ("house" ∷ "floor" ∷ "room" ∷ "shed" ∷ []))
unfolding topological_order contains lookup insert
sites_order = refl

abbrev circle : List ResourceSpec
circle = node "a" (some "b") ∷ node "b" (some "c") ∷ node "c" (some "b") ∷ []

circle_refused : topological_order circle ≡ some (err "b")
unfolding topological_order contains lookup insert
circle_refused = refl

topological_order-sorts_example :
    (result : Result (List String) String) × (topological_order sites ≡ some result)
    × OrderSound sites result
topological_order-sorts_example = topological_order-sorts sites
