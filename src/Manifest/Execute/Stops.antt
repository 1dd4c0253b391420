-- ===== src/Manifest/Execute/Stops.antt =====
-- When the loop of `execute` in src/management/manifest/mod.rs stops.
use mathlib.Core.List.{zip}
use axiam_rust_sdk.Prelude.{
  ◌≡◌, refl, ap, ◌∙◌, ◌⊎◌, inl, inr, Bool, true, false, List, [], ◌∷◌, map, All, arith, Result, ok,
  err, Bool-cases, ◌&&◌, length,
}
use axiam_rust_sdk.Manifest.Plan.{PlannedAction, ManagementPlan, is_network}
use axiam_rust_sdk.Manifest.Report.{
  Outcome, created, created_service_account, updated, unchanged, failed, conflict,
  binding_update_failed, not_attempted, ApplyReport, is_complete, failure, failure_message,
}
use axiam_rust_sdk.Manifest.Execute.{
  Step, noop, request, Done, plain, service_account, StepError, plain_error, rebind, is_conflict,
  is_create, outcome_of, run_one, run_all, execute,
}

module _ {R : Type 0} where
  abbrev pub IsDone : Outcome R → Type 0
  IsDone created = Unit
  IsDone (created_service_account account) = Unit
  IsDone updated = Unit
  IsDone unchanged = Unit
  IsDone _ = ⊥

  abbrev pub IsFailure : Outcome R → Type 0
  IsFailure (failed message) = Unit
  IsFailure (conflict message code) = Unit
  IsFailure (binding_update_failed error restore) = Unit
  IsFailure _ = ⊥

  -- Done up to the first failure, and not attempted after it.
  abbrev pub Stops : ApplyReport R → Type 0
  Stops [] = Unit
  Stops ((action, outcome) ∷ steps) =
      (IsDone outcome × Stops steps)
      ⊎ (IsFailure outcome × All (λ step. step.1 ≡ not_attempted) steps)

  abbrev pub Halts : Outcome R → Bool → Type 0
  Halts outcome true = IsFailure outcome
  Halts outcome false = IsDone outcome

  abbrev pub HaltsPair : Outcome R × Bool → Type 0
  HaltsPair r = Halts r.0 r.1

  outcome_of-Halts :
      (action : PlannedAction) (answer : Result (Done R) StepError)
      → HaltsPair (outcome_of action answer)
  unfolding outcome_of
  outcome_of-Halts action (ok plain) = elim (Bool-cases (is_create action.change)) [
    | inl e ↦ rw e tt
    | inr e ↦ rw e tt
  ]
  outcome_of-Halts action (ok (service_account response)) = tt
  outcome_of-Halts action (err (plain_error e)) =
      elim (Bool-cases (is_network action.target && is_conflict e)) [
        | inl c ↦ rw c tt
        | inr c ↦ rw c tt
      ]
  outcome_of-Halts action (err (rebind f)) = tt

  pub complete_done :
      (action : PlannedAction) (outcome : Outcome R) (steps : ApplyReport R)
      → IsDone outcome
      → is_complete ((action, outcome) ∷ steps) ≡ is_complete steps
  unfolding is_complete failure failure_message
  complete_done action created steps d = refl
  complete_done action (created_service_account account) steps d = refl
  complete_done action updated steps d = refl
  complete_done action unchanged steps d = refl
  complete_done action (failed message) steps d = absurd d
  complete_done action (conflict message code) steps d = absurd d
  complete_done action (binding_update_failed error restore) steps d = absurd d
  complete_done action not_attempted steps d = absurd d

  pub incomplete_failure :
      (action : PlannedAction) (outcome : Outcome R) (steps : ApplyReport R)
      → IsFailure outcome
      → is_complete ((action, outcome) ∷ steps) ≡ false
  unfolding is_complete failure failure_message
  incomplete_failure action (failed message) steps d = refl
  incomplete_failure action (conflict message code) steps d = refl
  incomplete_failure action (binding_update_failed error restore) steps d = refl
  incomplete_failure action created steps d = absurd d
  incomplete_failure action (created_service_account account) steps d = absurd d
  incomplete_failure action updated steps d = absurd d
  incomplete_failure action unchanged steps d = absurd d
  incomplete_failure action not_attempted steps d = absurd d

module _ {Q R W : Type 0} (run : Q → W → Result (Done R) StepError × W) where
  abbrev Steps : Type 0
  Steps = List (PlannedAction × Step Q)

  abbrev skipped : Steps → ApplyReport R
  skipped = map (λ s. (s.0, not_attempted))

  pub run_all-stopped : (steps : Steps) (w : W) → run_all run steps true w ≡ (skipped steps, w)
  unfolding run_all run_one
  run_all-stopped [] w = refl
  run_all-stopped ((action, step) ∷ rest) w =
      ap (λ (r : ApplyReport R × W). ((action, not_attempted) ∷ r.0, r.1)) (run_all-stopped rest w)

  pub run_one-Halts :
      (action : PlannedAction) (step : Step Q) (w : W)
      → Halts (run_one run action step false w).0 (run_one run action step false w).1
  unfolding run_one
  run_one-Halts action noop w = tt
  run_one-Halts action (request q) w = outcome_of-Halts action (run q w).0

  skipped_unattempted : (steps : Steps) → All (λ step. step.1 ≡ not_attempted) (skipped steps)
  skipped_unattempted [] = tt
  skipped_unattempted (s ∷ steps) = (refl, skipped_unattempted steps)

  -- One turn, whatever it answered, and the turns after it.
  turn_cons :
      (action : PlannedAction) (rest : Steps) (outcome : Outcome R) (stopped : Bool) (w : W)
      → Halts outcome stopped
      → ((w' : W) → Stops (run_all run rest false w').0)
      → Stops ((action, outcome) ∷ (run_all run rest stopped w).0)
  turn_cons action rest outcome true w h later =
      inr (h, rw (run_all-stopped rest w) (skipped_unattempted rest))
  turn_cons action rest outcome false w h later = inl (h, later w)

  run_all-Stops : (steps : Steps) (w : W) → Stops (run_all run steps false w).0
  unfolding run_all
  run_all-Stops [] w = tt
  run_all-Stops ((action, step) ∷ rest) w =
      let one = run_one run action step false w in
      turn_cons action rest one.0 one.1 one.2 (run_one-Halts action step w) (run_all-Stops rest)

  run_all-actions :
      (steps : Steps) (stopped : Bool) (w : W)
      → map (λ s. s.0) (run_all run steps stopped w).0 ≡ map (λ s. s.0) steps
  unfolding run_all
  run_all-actions [] stopped w = refl
  run_all-actions ((action, step) ∷ rest) stopped w =
      let one = run_one run action step stopped w in
      ap (λ (more : List PlannedAction). action ∷ more) (run_all-actions rest one.1 one.2)

  zip_actions :
      (actions : List PlannedAction) (steps : List (Step Q))
      → length actions ≡ length steps
      → map (λ s. s.0) (zip actions steps) ≡ actions
  unfolding zip
  zip_actions [] steps e = refl
  zip_actions (a ∷ actions) [] e = absurd (omega (arith, e))
  zip_actions (a ∷ actions) (s ∷ steps) e =
      ap (λ (r : List PlannedAction). a ∷ r) (zip_actions actions steps (omega (arith, e)))

  -- The report of a plan with as many steps as actions has the plan's actions in their order. The
  -- outcomes up to the first failure are those of steps that were done, and no step after it was attempted.
  pub execute-Stops :
      (plan : ManagementPlan) (steps : List (Step Q)) (w : W)
      → length plan.actions ≡ length steps
      → Stops (execute run plan steps w).0
        × (map (λ s. s.0) (execute run plan steps w).0 ≡ plan.actions)
  unfolding execute
  execute-Stops plan steps w e = (
    run_all-Stops (zip plan.actions steps) w,
    run_all-actions (zip plan.actions steps) false w ∙ zip_actions plan.actions steps e,
  )
