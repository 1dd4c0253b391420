-- ===== src/Oidc/Ciba.antt =====
-- src/oidc/ciba.rs: one poll of a backchannel request, and `ciba_await`, the loop of the polls. The
-- surroundings of a poll are those of src/oidc/device.rs; a count of seconds is a `u64`, which a release
-- build wraps around.
pub mod Spacing
pub mod Paced
pub mod Ends
pub mod Concludes
mod Examples
use Prim.Native.String.{◌++◌ as concat}
use mathlib.Core.Option.{get_or}
use axiam_rust_sdk.Prelude.{
  ℕ, zero, suc, ◌+◌, ◌%◌, ◌^◌, Result, ok, err, String, String-Eq, ◌==◌, Bool, true, false, not,
  ◌&&◌, ◌||◌, Option, none, some, List, [], ◌∷◌, nat_eq, leb, ltb, if◌then◌else◌,
}
use axiam_rust_sdk.Error.{
  AxiamError, oauth_protocol_error, oauth_error_code, from_http_status, new_network,
}
use axiam_rust_sdk.Retry.{Fraction, Attempt, bare, secs, status_is_retryable}
use axiam_rust_sdk.Retry.Run.{RetryBound, RetryRunner, Ended, run_until}
use axiam_rust_sdk.Oidc.Device.Poll.{Response, Backend, retry_after_of, oauth2_error_or_fallback}

-- `DEFAULT_CIBA_INTERVAL_SECS`
abbrev pub default_ciba_interval_secs : ℕ
default_ciba_interval_secs = 5

-- `CIBA_SLOW_DOWN_INCREMENT_SECS`
abbrev pub ciba_slow_down_increment_secs : ℕ
ciba_slow_down_increment_secs = 5

-- `Step`
pub data CibaStep : Type 0 where
  pending slowed transient terminal : CibaStep

-- `PollFailure`
pub record CibaFailure : Type 0 where
  pub err : AxiamError
  pub step : CibaStep

-- `PollFailure::terminal`
unfoldable pub terminal_failure : AxiamError → CibaFailure
terminal_failure e = record { err = e; step = terminal }

unfoldable pub decisive_code : Option String → ℕ → CibaStep
decisive_code none status = if nat_eq status 408 || nat_eq status 429 then transient else terminal
decisive_code (some code) status =
    if code == "authorization_pending"
    then pending
    else if code == "slow_down"
    then slowed
    else if code == "rate_limit_exceeded" || (nat_eq status 408 || nat_eq status 429)
    then transient
    else terminal

unfoldable pub decisive_step : AxiamError → ℕ → CibaStep
unfolding decisive_code
decisive_step e status = decisive_code (oauth_error_code e) status

unfoldable pub expired_token : AxiamError
expired_token =
    oauth_protocol_error "expired_token"
      "the CIBA request expired before it was decided (client-side deadline from expires_in; CONTRACT.md §33.7 rule 4)"

abbrev has_code : Option String → Bool
has_code none = false
has_code (some code) = true

module _ {W Wire TokenSet : Type 0} (b : Backend W Wire TokenSet) where
  -- What the closure makes of a `4xx`, and of a `1xx` or `3xx`.
  unfoldable pub refused_answer : Response → AxiamError → Result (Result Wire CibaFailure) Attempt
  unfolding decisive_step
  refused_answer response e =
      if has_code (oauth_error_code e) || not (status_is_retryable response.status)
      then ok (err (record { err = e; step = decisive_step e response.status }))
      else err (record { err = e; retry_after = retry_after_of response })

  unfoldable pub ciba_answer : Response → Result (Result Wire CibaFailure) Attempt
  unfolding refused_answer terminal_failure
  ciba_answer response =
      if leb 200 response.status && ltb response.status 300
      then ok
          (elim (b.parse_tokens response) [ ok wire ↦ ok wire | err e ↦ err (terminal_failure e) ])
      else if leb 500 response.status
      then err (record {
        err = from_http_status b.parse_authz response.status (get_or response.text "");
        retry_after = retry_after_of response;
      })
      else refused_answer response (oauth2_error_or_fallback b response)

  -- The closure.
  unfoldable pub send_ciba_poll : ℕ → W → Result (Result Wire CibaFailure) Attempt × W
  unfolding ciba_answer
  send_ciba_poll attempt w =
      let (sent, w') = b.send w in
      elim sent [
        | err e ↦ (err (bare (new_network (concat "ciba_poll request failed: " e))), w')
        | ok response ↦ (ciba_answer response, w')
      ]

  -- What is left of a run that did not get a decisive answer.
  unfoldable pub ciba_ended : Ended → CibaFailure
  unfolding terminal_failure expired_token
  ciba_ended ended =
      if ended.at_deadline
      then terminal_failure expired_token
      else record { err = ended.err; step = transient }

  -- From the end of the run on.
  unfoldable pub ciba_finish :
      Result (Result Wire CibaFailure) Ended → W → Result TokenSet CibaFailure × W
  unfolding ciba_ended terminal_failure
  ciba_finish (err ended) w = (err (ciba_ended ended), w)
  ciba_finish (ok (err failure)) w = (err failure, w)
  ciba_finish (ok (ok wire)) w =
      let (made, w') = b.to_token_set wire w in
      elim made [ ok tokens ↦ (ok tokens, w') | err e ↦ (err (terminal_failure e), w') ]

  module _ {fr : Fraction} (r : RetryRunner fr W (Result Wire CibaFailure)) where
    unfoldable pub ciba_poll_step :
        Option (RetryBound W) → W → Option (Result TokenSet CibaFailure × W)
    unfolding send_ciba_poll ciba_finish terminal_failure
    ciba_poll_step bound w =
        let (prepared, w') = b.prepare w in
        elim prepared [
          | err e ↦ some (err (terminal_failure e), w')
          | ok _ ↦ elim (run_until (record r { op = send_ciba_poll }) bound w') [
            | none ↦ none
            | some (result, w'') ↦ some (ciba_finish result w''.outside)
          ]
        ]

-- The clock of the loop, and its polls. `Instant + Duration` panics where the sum has no instant.
pub record CibaClient (W T : Type 0) : Type 0 where
  pub now : W → ℕ × W
  pub sleep : ℕ → W → W
  pub checked_add : ℕ → ℕ → Option ℕ
  pub poll : RetryBound W → W → Option (Result T CibaFailure × W)

pub record CibaInitiateResponse : Type 0 where
  pub auth_req_id : String
  pub expires_in : ℕ
  pub interval : ℕ
  pub received_at : ℕ

pub data Awaited (T : Type 0) : Type 0 where
  returned : Result T AxiamError → Awaited T
  panicked : Awaited T

-- One poll: the interval waited before it, where the wait was to end, and its failure.
pub record CibaRound : Type 0 where
  pub waited : ℕ
  pub until : ℕ
  pub failure : Option CibaFailure

-- One turn of the loop: it ends, goes on with an interval, or waits for ever in the poll.
pub data CibaTurn (W T : Type 0) : Type 0 where
  ends : Awaited T → List CibaRound → W → CibaTurn W T
  goes_on : ℕ → List CibaRound → W → CibaTurn W T
  stuck : CibaTurn W T

module _ {W T : Type 0} (c : CibaClient W T) (deadline : ℕ) where
  -- What a failed poll leads to.
  unfoldable pub after_step : CibaStep → AxiamError → ℕ → List CibaRound → W → CibaTurn W T
  after_step pending e interval rounds w = goes_on interval rounds w
  after_step transient e interval rounds w = goes_on interval rounds w
  after_step slowed e interval rounds w =
      goes_on ((interval + ciba_slow_down_increment_secs) % 2 ^ 64) rounds w
  after_step terminal e interval rounds w = ends (returned (err e)) rounds w

  -- From the answer of the poll on.
  unfoldable pub after_ciba_poll :
      ℕ → ℕ → List CibaRound → Option (Result T CibaFailure × W) → CibaTurn W T
  unfolding after_step
  after_ciba_poll interval until rounds none = stuck
  after_ciba_poll interval until rounds (some (ok tokens, w)) =
      ends (returned (ok tokens))
        (record { waited = interval; until = until; failure = none } ∷ rounds) w
  after_ciba_poll interval until rounds (some (err failure, w)) =
      after_step failure.step failure.err interval
        (record { waited = interval; until = until; failure = some failure } ∷ rounds) w

  -- From the end of the wait, as the clock has it, on.
  unfoldable pub before_wait : ℕ → List CibaRound → Option ℕ → W → CibaTurn W T
  unfolding after_ciba_poll expired_token
  before_wait interval rounds none w = ends panicked rounds w
  before_wait interval rounds (some until) w =
      if leb deadline until
      then ends (returned (err expired_token)) rounds w
      else after_ciba_poll interval until rounds (
          c.poll (record { deadline = deadline; now = c.now; sleep = c.sleep })
            (c.sleep (secs interval) w))

  unfoldable pub await_turn : ℕ → List CibaRound → W → CibaTurn W T
  unfolding before_wait
  await_turn interval rounds w =
      let (t, w') = c.now w in before_wait interval rounds (c.checked_add t (secs interval)) w'

  -- The loop, with fuel.
  unfoldable pub await_loop : ℕ → ℕ → List CibaRound → W → Option (Awaited T × List CibaRound × W)
  unfolding await_turn
  await_loop zero interval rounds w = none
  await_loop (suc fuel) interval rounds w = elim (await_turn interval rounds w) [
    | ends outcome rounds' w' ↦ some (outcome, rounds', w')
    | goes_on interval' rounds' w' ↦ await_loop fuel interval' rounds' w'
    | stuck ↦ none
  ]

-- The interval that the loop starts with.
unfoldable pub first_interval : ℕ → ℕ
first_interval interval = if nat_eq interval 0 then default_ciba_interval_secs else interval

-- `ciba_await`, after the discovery, with fuel for its loop.
unfoldable pub ciba_await :
    {W T : Type 0}
    → CibaClient W T
    → ℕ
    → CibaInitiateResponse
    → W
    → Option (Awaited T × List CibaRound × W)
unfolding await_loop first_interval
ciba_await c fuel initiated w =
    elim (c.checked_add initiated.received_at (secs initiated.expires_in)) [
      | none ↦ some (panicked, [], w)
      | some deadline ↦ await_loop c deadline fuel (first_interval initiated.interval) [] w
    ]
