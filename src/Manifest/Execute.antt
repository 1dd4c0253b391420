-- ===== src/Manifest/Execute.antt =====
-- `execute` of src/management/manifest/mod.rs, and the accessors of src/management/error.rs that it
-- reads. `W` is everything that a request acts on: the server and the resolved ids.
pub mod Stops
pub mod Counts
mod Examples
use mathlib.Core.List.{zip}
use axiam_rust_sdk.Prelude.{
  String, Bool, true, false, ◌&&◌, Option, none, List, [], ◌∷◌, Result, ok, err, if◌then◌else◌,
}
use axiam_rust_sdk.Error.{
  AxiamError, auth, authz, network, AuthzKind, denied, not_found, conflict as authz_conflict,
  to_string,
}
use axiam_rust_sdk.Manifest.Plan.{
  Change, create, update, no_change, PlannedAction, ManagementPlan, is_network,
}
use axiam_rust_sdk.Manifest.Report.{
  Outcome, created, created_service_account, updated, unchanged, failed, conflict,
  binding_update_failed, not_attempted, ApplyReport,
}

-- `AxiamError::is_not_found`
unfoldable pub is_not_found : AxiamError → Bool
is_not_found (auth e) = false
is_not_found (authz e) = elim e.kind [ not_found ↦ true | _ ↦ false ]
is_not_found (network e) = false

-- `AxiamError::is_conflict`
unfoldable pub is_conflict : AxiamError → Bool
is_conflict (auth e) = false
is_conflict (authz e) = elim e.kind [ authz_conflict ↦ true | _ ↦ false ]
is_conflict (network e) = false

-- `AxiamError::reason_code`
unfoldable pub error_reason_code : AxiamError → Option String
error_reason_code (auth e) = none
error_reason_code (authz e) = elim e.kind [ authz_conflict ↦ e.reason_code | _ ↦ none ]
error_reason_code (network e) = none

-- `Step::Noop`, or one of the variants that `run` sends requests for.
pub data Step (Q : Type 0) : Type 0 where
  noop : Step Q
  request : Q → Step Q

pub data Done (R : Type 0) : Type 0 where
  plain : Done R
  service_account : R → Done R

pub record RebindFailure : Type 0 where
  pub error : AxiamError
  pub restore : Result Unit AxiamError

pub data StepError : Type 0 where
  plain_error : AxiamError → StepError
  rebind : RebindFailure → StepError

-- `matches!(action.change, Change::Create)`
unfoldable pub is_create : Change → Bool
is_create create = true
is_create update = false
is_create no_change = false

-- `restore.map_err(|e| e.to_string())`
unfoldable pub restore_text : Result Unit AxiamError → Result Unit String
restore_text (ok _) = ok tt
restore_text (err e) = err (to_string e)

module _ {R : Type 0} where
  -- The match on what `run` answers: the outcome, and whether the loop has stopped.
  unfoldable pub outcome_of : PlannedAction → Result (Done R) StepError → Outcome R × Bool
  outcome_of action (ok plain) = (if is_create action.change then created else updated, false)
  outcome_of action (ok (service_account response)) = (created_service_account response, false)
  outcome_of action (err (plain_error e)) =
      if is_network action.target && is_conflict e
      then (conflict (to_string e) (error_reason_code e), true)
      else (failed (to_string e), true)
  outcome_of action (err (rebind f)) =
      (binding_update_failed (to_string f.error) (restore_text f.restore), true)

-- `run` sends the requests of one step.
module _ {Q R W : Type 0} (run : Q → W → Result (Done R) StepError × W) where
  -- The body of the loop.
  unfoldable pub run_one : PlannedAction → Step Q → Bool → W → Outcome R × Bool × W
  run_one action step true w = (not_attempted, true, w)
  run_one action noop false w = (unchanged, false, w)
  run_one action (request q) false w =
      let (answer, w') = run q w in
      let (outcome, stopped) = outcome_of action answer in (outcome, stopped, w')

  unfoldable pub run_all : List (PlannedAction × Step Q) → Bool → W → ApplyReport R × W
  run_all [] stopped w = ([], w)
  run_all ((action, step) ∷ rest) stopped w =
      let (outcome, stopped', w') = run_one action step stopped w in
      let (steps, w'') = run_all rest stopped' w' in ((action, outcome) ∷ steps, w'')

  unfoldable pub execute : ManagementPlan → List (Step Q) → W → ApplyReport R × W
  unfolding run_all
  execute plan steps w = run_all (zip plan.actions steps) false w
