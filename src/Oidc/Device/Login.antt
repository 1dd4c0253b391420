-- ===== src/Oidc/Device/Login.antt =====
-- `device_login_with` of src/oidc/device.rs: the loop of the polls. The clock, the sleeper, the two
-- requests before the loop and the poll are the record `DeviceClient`, on a world `W`; beside the world
-- the model keeps the polls that the loop made, newest first.
use axiam_rust_sdk.Prelude.{
  ℕ, zero, suc, ◌/◌, max, Result, ok, err, Bool, true, false, ◌&&◌, Option, none, some, List, [],
  ◌∷◌, leb, if◌then◌else◌,
}
use axiam_rust_sdk.Error.{AxiamError, oauth_error_code, is_retryable_transport}
use axiam_rust_sdk.Retry.{secs}
use axiam_rust_sdk.Retry.Run.{RetryBound}
use axiam_rust_sdk.Oidc.Device.{
  DeviceAuthorization, PollSchedule, new_schedule, slow_down, PollOutcome, pending, slowed,
  rate_limited, transient, terminal, PollFailure, classify_failure, device_expired,
}

-- `Instant + Duration` panics where the sum has no instant: `checked_add` is nothing there.
pub record DeviceClient (W T : Type 0) : Type 0 where
  pub now : W → ℕ × W
  pub sleep : ℕ → W → W
  pub checked_add : ℕ → ℕ → Option ℕ
  pub discover : W → Result Unit AxiamError × W
  pub authorize : W → Result DeviceAuthorization AxiamError × W
  pub on_user_code : DeviceAuthorization → W → W
  pub poll : RetryBound W → W → Option (Result T PollFailure × W)

pub data Outcome (T : Type 0) : Type 0 where
  returned : Result T AxiamError → Outcome T
  panicked : Outcome T

-- One poll: the seconds waited before it, the reading of the clock that allowed it, and its failure.
pub record Round : Type 0 where
  pub waited : ℕ
  pub polled_at : ℕ
  pub failure : Option PollFailure

-- What a failed poll leads to: the next interval with its floor, or the end.
pub data Verdict : Type 0 where
  keep_on : PollSchedule → ℕ → Verdict
  give_up : AxiamError → Verdict

-- `map_or(0, |d| d.as_secs())`
unfoldable pub floor_secs : PollFailure → ℕ
floor_secs failure = elim failure.retry_after [ none ↦ 0 | some d ↦ d / 1_000_000_000 ]

abbrev pub is_none : {A : Type 0} → Option A → Bool
is_none none = true
is_none (some a) = false

unfoldable pub verdict_of : PollOutcome → PollSchedule → PollFailure → Verdict
unfolding floor_secs
verdict_of pending schedule failure = keep_on schedule 0
verdict_of transient schedule failure = keep_on schedule 0
verdict_of slowed schedule failure = keep_on (slow_down schedule) 0
verdict_of rate_limited schedule failure = keep_on schedule (floor_secs failure)
verdict_of terminal schedule failure =
    if is_none (oauth_error_code failure.err) && is_retryable_transport failure.err
    then keep_on schedule (floor_secs failure)
    else give_up failure.err

unfoldable pub verdict : PollSchedule → PollFailure → Verdict
unfolding verdict_of
verdict schedule failure = verdict_of (classify_failure failure) schedule failure

pub record LoopState (W : Type 0) : Type 0 where
  pub schedule : PollSchedule
  pub retry_after_secs : ℕ
  pub rounds : List Round
  pub world : W

-- One turn of the loop: it ends, goes on, or waits for ever in the poll.
pub data Turn (W T : Type 0) : Type 0 where
  ends : Outcome T → List Round → W → Turn W T
  goes_on : LoopState W → Turn W T
  stuck : Turn W T

module _ {W T : Type 0} (c : DeviceClient W T) (deadline : ℕ) where
  unfoldable pub retry_bound : RetryBound W
  retry_bound = record { deadline = deadline; now = c.now; sleep = c.sleep }

  unfoldable pub expired : List Round → W → Turn W T
  expired rounds w = ends (returned (err device_expired)) rounds w

  unfoldable pub after_verdict : Verdict → List Round → W → Turn W T
  after_verdict (keep_on schedule floor) rounds w =
      goes_on (record { schedule = schedule; retry_after_secs = floor; rounds = rounds; world = w })
  after_verdict (give_up e) rounds w = ends (returned (err e)) rounds w

  -- From the answer of the poll on.
  unfoldable pub after_poll : LoopState W → ℕ → ℕ → Option (Result T PollFailure × W) → Turn W T
  unfolding verdict after_verdict
  after_poll s wait_secs t none = stuck
  after_poll s wait_secs t (some (ok tokens, w)) =
      ends (returned (ok tokens))
        (record { waited = wait_secs; polled_at = t; failure = none } ∷ s.rounds) w
  after_poll s wait_secs t (some (err failure, w)) =
      after_verdict (verdict s.schedule failure)
        (record { waited = wait_secs; polled_at = t; failure = some failure } ∷ s.rounds) w

  -- From the sleep on: the deadline is looked at again before the poll.
  unfoldable pub after_sleep : LoopState W → ℕ → W → Turn W T
  unfolding retry_bound expired after_poll
  after_sleep s wait_secs w =
      let (t, w') = c.now w in
      if leb deadline t
      then expired s.rounds w'
      else after_poll s wait_secs t (c.poll retry_bound w')

  -- From the end of the wait, as the clock has it, on.
  unfoldable pub before_sleep : LoopState W → ℕ → Option ℕ → W → Turn W T
  unfolding expired after_sleep
  before_sleep s wait_secs none w = ends panicked s.rounds w
  before_sleep s wait_secs (some until) w =
      if leb deadline until
      then expired s.rounds w
      else after_sleep s wait_secs (c.sleep (secs wait_secs) w)

  unfoldable pub loop_turn : LoopState W → Turn W T
  unfolding before_sleep
  loop_turn s =
      let wait_secs = max s.schedule.interval_secs s.retry_after_secs in
      let (t, w) = c.now s.world in before_sleep s wait_secs (c.checked_add t (secs wait_secs)) w

  -- The loop, with fuel.
  unfoldable pub poll_loop : ℕ → LoopState W → Option (Outcome T × List Round × W)
  unfolding loop_turn
  poll_loop zero s = none
  poll_loop (suc fuel) s = elim (loop_turn s) [
    | ends outcome rounds w ↦ some (outcome, rounds, w)
    | goes_on s' ↦ poll_loop fuel s'
    | stuck ↦ none
  ]

module _ {W T : Type 0} (c : DeviceClient W T) where
  -- The state that the loop starts in.
  unfoldable pub start : DeviceAuthorization → W → LoopState W
  start authorization w = record {
    schedule = new_schedule authorization.interval authorization.expires_in;
    retry_after_secs = 0;
    rounds = [];
    world = w;
  }

  -- From the grant on.
  unfoldable pub login_with : ℕ → DeviceAuthorization → W → Option (Outcome T × List Round × W)
  unfolding start poll_loop
  login_with fuel authorization w =
      let (t, w') = c.now (c.on_user_code authorization w) in
      elim (c.checked_add t (secs authorization.expires_in)) [
        | none ↦ some (panicked, [], w')
        | some deadline ↦ poll_loop c deadline fuel (start authorization w')
      ]

  -- `device_login_with`, with fuel for its loop.
  unfoldable pub device_login_with : ℕ → W → Option (Outcome T × List Round × W)
  unfolding login_with
  device_login_with fuel w =
      let (discovered, w') = c.discover w in
      elim discovered [
        | err e ↦ some (returned (err e), [], w')
        | ok _ ↦
            let (authorized, w'') = c.authorize w' in
            elim authorized [
              | err e ↦ some (returned (err e), [], w'')
              | ok authorization ↦ login_with fuel authorization w''
            ]
      ]
