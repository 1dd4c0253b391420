-- ===== src/Manifest/Report.antt =====
-- The report types of src/management/manifest/plan.rs. `R` is the generated model of a created
-- service account.
use axiam_rust_sdk.Prelude.{
  ℕ, suc, String, Bool, true, false, Option, none, some, List, [], ◌∷◌, Result, if◌then◌else◌,
}
use axiam_rust_sdk.Manifest.Plan.{PlannedAction}

pub data Outcome (R : Type 0) : Type 0 where
  created : Outcome R
  created_service_account : R → Outcome R
  updated : Outcome R
  unchanged : Outcome R
  failed : String → Outcome R
  conflict : String → Option String → Outcome R
  binding_update_failed : String → Result Unit String → Outcome R
  not_attempted : Outcome R

module _ {R : Type 0} where
  -- `Outcome::reason_code`
  unfoldable pub outcome_reason_code : Outcome R → Option String
  outcome_reason_code (conflict message code) = code
  outcome_reason_code _ = none

  -- The message of a failure, in the match of `ApplyReport::failure`.
  unfoldable pub failure_message : Outcome R → Option String
  failure_message (failed message) = some message
  failure_message (conflict message code) = some message
  failure_message (binding_update_failed error restore) = some error
  failure_message _ = none

  -- The match of `ApplyReport::changed`.
  unfoldable pub counts_as_changed : Outcome R → Bool
  counts_as_changed created = true
  counts_as_changed (created_service_account account) = true
  counts_as_changed updated = true
  counts_as_changed _ = false

-- The steps of an `ApplyReport`.
abbrev pub ApplyReport : Type 0 → Type 0
ApplyReport R = List (PlannedAction × Outcome R)

module _ {R : Type 0} where
  unfoldable pub failure : ApplyReport R → Option (PlannedAction × String)
  failure [] = none
  failure ((action, outcome) ∷ steps) = elim (failure_message outcome) [
    | some message ↦ some (action, message)
    | none ↦ failure steps
  ]

  unfoldable pub reason_code : ApplyReport R → Option String
  reason_code [] = none
  reason_code ((action, outcome) ∷ steps) = elim (outcome_reason_code outcome) [
    | some code ↦ some code
    | none ↦ reason_code steps
  ]

  unfoldable pub created_service_accounts : ApplyReport R → List (PlannedAction × R)
  created_service_accounts [] = []
  created_service_accounts ((action, outcome) ∷ steps) =
      let rest = created_service_accounts steps in
      elim outcome [ created_service_account account ↦ (action, account) ∷ rest | _ ↦ rest ]

  unfoldable pub is_complete : ApplyReport R → Bool
  is_complete report = elim (failure report) [ none ↦ true | some _ ↦ false ]

  unfoldable pub changed : ApplyReport R → ℕ
  changed [] = 0
  changed ((action, outcome) ∷ steps) =
      let rest = changed steps in if counts_as_changed outcome then suc rest else rest
