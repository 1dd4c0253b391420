-- ===== src/Manifest/Validate.antt =====
-- Two checks that `validate` of src/management/manifest/plan.rs is made of: `duplicates` and
-- `check_bindings`. A problem is the values that its message shows.
pub mod Bindings
mod Examples
use axiam_rust_sdk.Prelude.{
  Bool, true, false, not, ◌&&◌, Option, none, some, List, [], ◌∷◌, ◌++◌, String, String-Eq,
  if◌then◌else◌,
}
use axiam_rust_sdk.Prelude.Maps.{contains}
use axiam_rust_sdk.Manifest.Spec.{RoleBinding, role, resource, inherit}

pub data Problem : Type 0 where
  declared_twice : String → String → Problem
  undeclared_role : String → String → String → Problem
  undeclared_resource : String → String → String → Option String → Problem
  bound_twice : String → String → String → Problem
  global_not_inherited : String → String → String → Problem

-- `if !passed { problems.push(..) }`
unfoldable pub push_unless : Bool → Problem → List Problem → List Problem
push_unless passed problem problems = if passed then problems else problems ++ problem ∷ []

-- The loop of `duplicates`.
unfoldable pub duplicates_loop : String → List String → List String → List Problem → List Problem
unfolding push_unless
duplicates_loop kind seen [] problems = problems
duplicates_loop kind seen (key ∷ keys) problems =
    duplicates_loop kind (key ∷ seen) keys
      (push_unless (not (contains key seen)) (declared_twice kind key) problems)

unfoldable pub duplicates : String → List String → List Problem → List Problem
unfolding duplicates_loop
duplicates kind keys problems = duplicates_loop kind [] keys problems

-- Whether the resource of a binding, if it has one, is declared.
unfoldable pub resource_declared : List String → RoleBinding → Bool
resource_declared resource_keys binding = elim (resource binding) [
  | none ↦ true
  | some key ↦ contains key resource_keys
]

module _ (kind subject : String) (role_keys resource_keys global_roles : List String) where
  -- The body of the loop of `check_bindings`: its four tests, in order.
  unfoldable pub check_binding : List String → RoleBinding → List Problem → List Problem
  unfolding push_unless resource_declared
  check_binding seen binding problems =
      let declared =
        push_unless (contains (role binding) role_keys)
          (undeclared_role kind subject (role binding)) problems in
      let located =
        push_unless (resource_declared resource_keys binding)
          (undeclared_resource kind subject (role binding) (resource binding)) declared in
      let once =
        push_unless (not (contains (role binding) seen)) (bound_twice kind subject (role binding))
          located in
      push_unless (not (not (inherit binding) && contains (role binding) global_roles))
        (global_not_inherited kind subject (role binding)) once

  unfoldable pub check_loop : List String → List RoleBinding → List Problem → List Problem
  unfolding check_binding
  check_loop seen [] problems = problems
  check_loop seen (binding ∷ bindings) problems =
      check_loop (role binding ∷ seen) bindings (check_binding seen binding problems)

  unfoldable pub check_bindings : List RoleBinding → List Problem → List Problem
  unfolding check_loop
  check_bindings bindings problems = check_loop [] bindings problems
