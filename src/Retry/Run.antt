-- ===== src/Retry/Run.antt =====
-- `RetryRunner::run_until` of src/retry.rs. The closure `op`, the jitter, the clock and the sleepers
-- act on a world `W`; beside it the model keeps what the loop did, newest first.
use axiam_rust_sdk.Prelude.{
  ℕ, zero, suc, ◌+◌, Result, ok, err, ◌-◌, String, Bool, true, false, not, ◌||◌, Option, none, some,
  List, [], ◌∷◌, nat_eq, leb, if◌then◌else◌,
}
use axiam_rust_sdk.Error.{AxiamError, to_string}
use axiam_rust_sdk.Retry.{Fraction, Attempt, max_attempts, delay_for, is_retryable}

-- What the loop does to the outside, with the values that it passes.
pub data Event : Type 0 where
  called : ℕ → Event
  emitted : ℕ → ℕ → String → Event
  slept : ℕ → Event

pub record World (W : Type 0) : Type 0 where
  pub outside : W
  pub trace : List Event

-- `RetryBound`
pub record RetryBound (W : Type 0) : Type 0 where
  pub deadline : ℕ
  pub now : W → ℕ × W
  pub sleep : ℕ → W → W

-- `RetryRunner`, with the closure `op`. The operation's name is in every event, and left out.
pub record RetryRunner (fr : Fraction) (W T : Type 0) : Type 0 where
  pub enabled : Bool
  pub op : ℕ → W → Result T Attempt × W
  pub fraction : W → fr.F64 × W
  pub sleep : ℕ → W → W
  pub emit : ℕ → ℕ → String → W → W

pub record Ended : Type 0 where
  pub err : AxiamError
  pub at_deadline : Bool
  pub retry_after : Option ℕ

module _ {W : Type 0} where
  -- The wait, capped at the time left, and whether it was.
  unfoldable pub cap_at : Option (RetryBound W) → ℕ → W → (ℕ × Bool) × W
  cap_at none delay w = ((delay, false), w)
  cap_at (some bound) delay w =
      let (now, w') = bound.now w in
      let left = bound.deadline - now in
      (if leb left delay then (left, true) else (delay, false), w')

  -- The wait itself: with a bound a wait of zero is not served.
  unfoldable pub serve : Option (RetryBound W) → (ℕ → W → W) → ℕ → World W → World W
  serve none sleep delay w = record {
    outside = sleep delay w.outside;
    trace = slept delay ∷ w.trace;
  }
  serve (some bound) sleep delay w =
      if nat_eq delay 0
      then w
      else record { outside = bound.sleep delay w.outside; trace = slept delay ∷ w.trace }

-- One turn of the loop: it returns, or goes on to the next attempt.
pub data Turn (W T : Type 0) : Type 0 where
  returns : Result T Ended → World W → Turn W T
  again : World W → Turn W T

module _ {fr : Fraction} {W T : Type 0} (r : RetryRunner fr W T) where
  unfoldable pub cap : ℕ
  cap = if r.enabled then max_attempts else 1

  -- From the delay that the policy computed: the event, the wait, and the test for the deadline.
  unfoldable pub wait_out : Option (RetryBound W) → ℕ → Attempt → ℕ → World W → Turn W T
  wait_out bound attempt failed delay w =
      let ((capped, at_deadline), w') = cap_at bound delay w.outside in
      let reason = to_string failed.err in
      let told : World W = record {
        outside = r.emit attempt capped reason w';
        trace = emitted attempt capped reason ∷ w.trace;
      } in
      let served = serve bound r.sleep capped told in
      if at_deadline
      then returns
          (err (record { err = failed.err; at_deadline = true; retry_after = failed.retry_after }))
          served
      else again served

  unfoldable pub after_failure : Option (RetryBound W) → ℕ → Attempt → World W → Turn W T
  after_failure bound attempt failed w =
      if leb cap attempt || not (is_retryable failed.err)
      then returns
          (err (record { err = failed.err; at_deadline = false; retry_after = failed.retry_after }))
          w
      else let (fraction, w') = r.fraction w.outside in
        wait_out bound attempt failed (delay_for fr attempt failed.retry_after fraction)
          (record w { outside = w' })

  unfoldable pub turn : Option (RetryBound W) → ℕ → World W → Turn W T
  turn bound attempt w =
      let (answer, w') = r.op attempt w.outside in
      let then_on : World W = record { outside = w'; trace = called attempt ∷ w.trace } in
      elim answer [
        | ok v ↦ returns (ok v) then_on
        | err failed ↦ after_failure bound attempt failed then_on
      ]

  -- The loop, with fuel.
  unfoldable pub attempts :
      ℕ → Option (RetryBound W) → ℕ → World W → Option (Result T Ended × World W)
  attempts zero bound attempt w = none
  attempts (suc fuel) bound attempt w = elim (turn bound attempt w) [
    | returns result w' ↦ some (result, w')
    | again w' ↦ attempts fuel bound (attempt + 1) w'
  ]

  -- `cap` turns are enough.
  unfoldable pub run_until : Option (RetryBound W) → W → Option (Result T Ended × World W)
  run_until bound w = attempts cap bound 1 (record { outside = w; trace = [] })

  -- `RetryRunner::run`
  unfoldable pub run : W → Option (Result T AxiamError × World W)
  run w = elim (run_until none w) [
    | none ↦ none
    | some (ok v, w') ↦ some (ok v, w')
    | some (err ended, w') ↦ some (err ended.err, w')
  ]
