-- ===== src/Manifest/Plan.antt =====
-- The plan types of src/management/manifest/plan.rs.
use axiam_rust_sdk.Prelude.{ℕ, String, Bool, true, false, List, [], ◌∷◌, length, if◌then◌else◌}

pub data Change : Type 0 where
  create update no_change : Change

pub data Target : Type 0 where
  resource scope permission role role_grant group group_role user user_role : Target
  group_member service_account service_account_role : Target
  network_policy network_segment network_profile : Target

-- `Target::is_network`
unfoldable pub is_network : Target → Bool
is_network network_policy = true
is_network network_segment = true
is_network network_profile = true
is_network _ = false

pub record PlannedAction : Type 0 where
  pub change : Change
  pub target : Target
  pub key : String
  pub summary : String

pub record ManagementPlan : Type 0 where
  pub actions : List PlannedAction

-- `a.change != Change::NoChange`
unfoldable pub is_change : PlannedAction → Bool
is_change a = elim a.change [ no_change ↦ false | _ ↦ true ]

unfoldable keep_changes : List PlannedAction → List PlannedAction
keep_changes [] = []
keep_changes (a ∷ rest) = let kept = keep_changes rest in if is_change a then a ∷ kept else kept

-- `ManagementPlan::changes`
unfoldable pub changes : ManagementPlan → List PlannedAction
unfolding keep_changes
changes plan = keep_changes plan.actions

-- `ManagementPlan::is_converged`
unfoldable pub is_converged : ManagementPlan → Bool
is_converged plan = elim (changes plan) [ [] ↦ true | _ ∷ _ ↦ false ]

-- `ManagementPlan::change_count`
unfoldable pub change_count : ManagementPlan → ℕ
change_count plan = length (changes plan)
