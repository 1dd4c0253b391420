-- ===== src/Manifest/Execute/Counts.antt =====
-- What a run of `execute` in src/management/manifest/mod.rs amounts to: its parts, and its count of changes.
use mathlib.Core.List.{map-append}
use axiam_rust_sdk.Prelude.{
  ◌≡◌, refl, sym, ap, ◌∙◌, inl, inr, Bool, true, false, List, [], ◌∷◌, ◌++◌, map, Result, ok, err,
  if◌then◌else◌, Bool-cases, ◌&&◌, ℕ, suc,
}
use axiam_rust_sdk.Manifest.Plan.{PlannedAction, is_network}
use axiam_rust_sdk.Manifest.Report.{
  Outcome, not_attempted, ApplyReport, is_complete, failure, changed, counts_as_changed,
}
use axiam_rust_sdk.Manifest.Execute.{
  Step, noop, request, Done, plain, service_account, StepError, plain_error, rebind, is_conflict,
  is_create, outcome_of, run_one, run_all,
}
use axiam_rust_sdk.Manifest.Execute.Stops.{
  IsDone, Halts, complete_done, incomplete_failure, run_all-stopped, run_one-Halts,
}

module _ {Q R W : Type 0} (run : Q → W → Result (Done R) StepError × W) where
  abbrev Steps : Type 0
  Steps = List (PlannedAction × Step Q)

  abbrev skip : PlannedAction × Step Q → PlannedAction × Outcome R
  skip s = (s.0, not_attempted)

  abbrev skipped : Steps → ApplyReport R
  skipped = map skip

  -- A report and its world, gone on with: only after a complete report does anything more run.
  unfoldable pub resume : ApplyReport R × W → Steps → ApplyReport R × W
  resume (report, w) ys =
      let more = run_all run ys false w in
      if is_complete report then (report ++ more.0, more.1) else (report ++ skipped ys, w)

  abbrev push : PlannedAction × Outcome R → ApplyReport R × W → ApplyReport R × W
  push s r = (s ∷ r.0, r.1)

  push-resume :
      (action : PlannedAction) (outcome : Outcome R) (report : ApplyReport R) (w : W) (ys : Steps)
      → IsDone outcome
      → push (action, outcome) (resume (report, w) ys)
        ≡ resume (push (action, outcome) (report, w)) ys
  unfolding resume
  push-resume action outcome report w ys d = elim (Bool-cases (is_complete report)) [
    | inl c ↦ rw (complete_done action outcome report d, c) refl
    | inr c ↦ rw (complete_done action outcome report d, c) refl
  ]

  resume_failed :
      (action : PlannedAction) (outcome : Outcome R) (rest ys : Steps) (w : W)
      → is_complete ((action, outcome) ∷ skipped rest) ≡ false
      → push (action, outcome) (skipped (rest ++ ys), w)
        ≡ resume (push (action, outcome) (skipped rest, w)) ys
  unfolding resume
  resume_failed action outcome rest ys w e = rw e (rw (map-append skip rest ys) refl)

  resume_cons :
      (action : PlannedAction) (rest ys : Steps) (outcome : Outcome R) (stopped : Bool) (w : W)
      → Halts outcome stopped
      → ((w' : W) → run_all run (rest ++ ys) false w' ≡ resume (run_all run rest false w') ys)
      → push (action, outcome) (run_all run (rest ++ ys) stopped w)
        ≡ resume (push (action, outcome) (run_all run rest stopped w)) ys
  resume_cons action rest ys outcome true w h later =
      rw (run_all-stopped run (rest ++ ys) w, run_all-stopped run rest w)
        (resume_failed action outcome rest ys w
          (incomplete_failure action outcome (skipped rest) h))
  resume_cons action rest ys outcome false w h later =
      ap (push (action, outcome)) (later w)
      ∙ push-resume action outcome (run_all run rest false w).0 (run_all run rest false w).1 ys h

  resume_empty : (ys : Steps) (w : W) → run_all run ys false w ≡ resume ([], w) ys
  unfolding resume is_complete failure
  resume_empty ys w = refl

  -- Of two parts in a row the second runs, from the world that the first left, exactly if the first
  -- is complete; otherwise nothing of it is attempted and the world stays.
  run_all-append :
      (xs ys : Steps) (w : W) → run_all run (xs ++ ys) false w ≡ resume (run_all run xs false w) ys
  unfolding run_all
  run_all-append [] ys w = resume_empty ys w
  run_all-append ((action, step) ∷ rest) ys w =
      let one = run_one run action step false w in
      resume_cons action rest ys one.0 one.1 one.2 (run_one-Halts run action step w)
        (run_all-append rest ys)

  unfoldable pub requests : Steps → ℕ
  requests [] = 0
  requests ((action, noop) ∷ rest) = requests rest
  requests ((action, request q) ∷ rest) = suc (requests rest)

  -- What a turn adds to the count, where it does not stop.
  abbrev Counts : Bool → Outcome R → Bool → Type 0
  Counts asked outcome true = Unit
  Counts asked outcome false = counts_as_changed outcome ≡ asked

  abbrev is_request : Step Q → Bool
  is_request noop = false
  is_request (request q) = true

  outcome_of-Counts :
      (action : PlannedAction) (answer : Result (Done R) StepError)
      → Counts true (outcome_of action answer).0 (outcome_of action answer).1
  unfolding outcome_of counts_as_changed
  outcome_of-Counts action (ok plain) = elim (Bool-cases (is_create action.change)) [
    | inl e ↦ rw e refl
    | inr e ↦ rw e refl
  ]
  outcome_of-Counts action (ok (service_account response)) = refl
  outcome_of-Counts action (err (plain_error e)) =
      elim (Bool-cases (is_network action.target && is_conflict e)) [
        | inl c ↦ rw c tt
        | inr c ↦ rw c tt
      ]
  outcome_of-Counts action (err (rebind f)) = tt

  run_one-Counts :
      (action : PlannedAction) (step : Step Q) (w : W)
      → Counts
          (is_request step)
          (run_one run action step false w).0
          (run_one run action step false w).1
  unfolding run_one counts_as_changed
  run_one-Counts action noop w = refl
  run_one-Counts action (request q) w = outcome_of-Counts action (run q w).0

  requests-cons :
      (action : PlannedAction) (step : Step Q) (rest : Steps)
      → requests ((action, step) ∷ rest)
        ≡ (if is_request step then suc (requests rest) else requests rest)
  unfolding requests
  requests-cons action noop rest = refl
  requests-cons action (request q) rest = refl

  changed_cons :
      (action : PlannedAction) (step : Step Q) (rest : Steps) (outcome : Outcome R) (stopped : Bool)
      (w : W)
      → Halts outcome stopped
      → Counts (is_request step) outcome stopped
      → ((w' : W)
          → is_complete (run_all run rest false w').0 ≡ true
          → changed (run_all run rest false w').0 ≡ requests rest)
      → is_complete ((action, outcome) ∷ (run_all run rest stopped w).0) ≡ true
      → changed ((action, outcome) ∷ (run_all run rest stopped w).0)
        ≡ requests ((action, step) ∷ rest)
  unfolding changed
  changed_cons action step rest outcome true w h c later e =
      absurd (cc (e, incomplete_failure action outcome (run_all run rest true w).0 h))
  changed_cons action step rest outcome false w h c later e =
      rw
        (
          requests-cons action step rest,
          c,
          later w (sym (complete_done action outcome (run_all run rest false w).0 h) ∙ e),
        )
        refl

  -- A complete report counts as changed exactly the steps that were not noops.
  pub run_all-changed :
      (steps : Steps) (w : W)
      → is_complete (run_all run steps false w).0 ≡ true
      → changed (run_all run steps false w).0 ≡ requests steps
  unfolding run_all
  run_all-changed [] w e = unfold changed requests in refl
  run_all-changed ((action, step) ∷ rest) w e =
      let one = run_one run action step false w in
      changed_cons action step rest one.0 one.1 one.2 (run_one-Halts run action step w)
        (run_one-Counts action step w) (run_all-changed rest) e
