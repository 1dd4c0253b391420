-- ===== src/Manifest/Validate/Examples.antt =====
-- Runs of `check_bindings` and `duplicates`.
use axiam_rust_sdk.Prelude.{◌≡◌, refl, ◌↔◌, false, List, [], ◌∷◌, map, String-Eq, All}
use axiam_rust_sdk.Prelude.Maps.{contains, Distinct}
use axiam_rust_sdk.Manifest.Spec.{RoleBinding, plain, scoped, role}
use axiam_rust_sdk.Manifest.Validate.{Problem, bound_twice, global_not_inherited, check_bindings}
use axiam_rust_sdk.Manifest.Validate.Bindings.{Sound, check_bindings_iff}

abbrev twice : List RoleBinding
twice = plain "reader" ∷ scoped "reader" "site" false ∷ []

twice_reported :
    check_bindings "user" "ada" ("reader" ∷ []) ("site" ∷ []) ("reader" ∷ []) twice []
    ≡ bound_twice "user" "ada" "reader" ∷ global_not_inherited "user" "ada" "reader" ∷ []
unfolding check_bindings contains
twice_reported = refl

check_bindings_iff_example :
    (check_bindings "user" "ada" ("reader" ∷ []) ("site" ∷ []) [] twice [] ≡ []) ↔ (
      All (Sound "user" "ada" ("reader" ∷ []) ("site" ∷ []) []) twice
      × Distinct (map role twice)
      × (◌≡◌ {A = List Problem} [] []))
check_bindings_iff_example =
    check_bindings_iff "user" "ada" ("reader" ∷ []) ("site" ∷ []) [] twice []
