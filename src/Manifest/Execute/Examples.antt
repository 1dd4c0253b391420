-- ===== src/Manifest/Execute/Examples.antt =====
-- Runs of `execute` against a server that writes down what it was asked, and refuses request 0.
use mathlib.Core.List.{zip}
use axiam_rust_sdk.Prelude.{◌≡◌, refl, String, List, [], ◌∷◌, map, Result, ok, err, ℕ, zero, suc}
use axiam_rust_sdk.Error.{new_network, to_string}
use axiam_rust_sdk.Manifest.Plan.{
  Change, create, update, role, PlannedAction, ManagementPlan, is_network,
}
use axiam_rust_sdk.Manifest.Report.{created, failed, not_attempted}
use axiam_rust_sdk.Manifest.Execute.{
  Step, request, Done, plain, StepError, plain_error, is_create, outcome_of, run_one, execute,
}
use axiam_rust_sdk.Manifest.Execute.Stops.{Stops, execute-Stops}

abbrev serve_request : ℕ → List ℕ → Result (Done String) StepError × List ℕ
serve_request zero seen = (err (plain_error (new_network "down")), 0 ∷ seen)
serve_request (suc q) seen = (ok plain, suc q ∷ seen)

abbrev planned : Change → String → PlannedAction
planned change key = record { change = change; target = role; key = key; summary = key }

abbrev three_actions : List PlannedAction
three_actions = planned create "a" ∷ planned update "b" ∷ planned create "c" ∷ []

abbrev three_roles : ManagementPlan
three_roles = record { actions = three_actions }

abbrev fails_second : List (Step ℕ)
fails_second = request 7 ∷ request 0 ∷ request 9 ∷ []

stops_second : execute serve_request three_roles fails_second [] ≡ (
  (planned create "a", created)
      ∷ (planned update "b", failed "network error: down")
      ∷ (planned create "c", not_attempted)
      ∷ [],
  0 ∷ 7 ∷ [],
)
unfolding execute outcome_of new_network to_string run_one is_create is_network zip
stops_second = refl

execute-Stops_example :
    Stops (execute serve_request three_roles fails_second []).0
    × (map (λ s. s.0) (execute serve_request three_roles fails_second []).0 ≡ three_actions)
execute-Stops_example = execute-Stops serve_request three_roles fails_second [] refl

abbrev second_part : List (PlannedAction × Step ℕ)
second_part = (planned create "c", request 0) ∷ (planned create "d", request 9) ∷ []
