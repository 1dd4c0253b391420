-- ===== src/Oidc/Device/Pacing.antt =====
-- What a loop of polls in src/oidc/device.rs may do, written down without the loop: which waits come
-- before which polls, and how it may end.
use axiam_rust_sdk.Prelude.{
  ℕ, ◌+◌, ◌*◌, ◌%◌, ◌^◌, ◌<◌, ◌≤◌, ◌≡◌, ◌⊎◌, max, Result, ok, err, Bool, true, false, not, ◌&&◌,
  Option, none, some, List, [], ◌∷◌,
}
use axiam_rust_sdk.Error.{oauth_error_code, is_retryable_transport}
use axiam_rust_sdk.Retry.{secs}
use axiam_rust_sdk.Oidc.Device.{
  PollOutcome, slowed, rate_limited, terminal, PollFailure, classify_failure, device_expired,
}
use axiam_rust_sdk.Oidc.Device.Login.{
  DeviceClient, Outcome, returned, panicked, Round, floor_secs, is_none,
}

-- A failure with no verdict of the server: of the transport, or of its like.
abbrev pub no_answer : PollFailure → Bool
no_answer f = is_none (oauth_error_code f.err) && is_retryable_transport f.err

abbrev pub slows : PollOutcome → ℕ
slows slowed = 1
slows _ = 0

abbrev pub floors : PollOutcome → PollFailure → ℕ
floors rate_limited f = floor_secs f
floors terminal f = floor_secs f
floors _ f = 0

abbrev pub is_last : PollOutcome → PollFailure → Bool
is_last terminal f = not (no_answer f)
is_last _ f = false

-- How many polls were answered `slow_down`.
abbrev pub slow_downs : List Round → ℕ
slow_downs [] = 0
slow_downs (round ∷ older) =
    elim round.failure [ none ↦ 0 | some f ↦ slows (classify_failure f) ] + slow_downs older

-- The seconds that the newest poll asks to wait at least.
abbrev pub floor_of : List Round → ℕ
floor_of [] = 0
floor_of (round ∷ older) = elim round.failure [ none ↦ 0 | some f ↦ floors (classify_failure f) f ]

-- A failure that does not end the grant.
abbrev pub Open : Round → Type 0
Open round = (f : PollFailure) × (round.failure ≡ some f) × (is_last (classify_failure f) f ≡ false)

abbrev pub AllOpen : List Round → Type 0
AllOpen [] = Unit
AllOpen (round ∷ older) = Open round × AllOpen older

-- The failure of a poll that was answered so.
abbrev pub failure_of : {T : Type 0} → Result T PollFailure → Option PollFailure
failure_of (ok tokens) = none
failure_of (err failure) = some failure

-- From `before` the loop got to `after` by one poll: the clock is read, and has the end of the wait
-- before the deadline; it is slept for the whole wait; the clock is read again, still before the
-- deadline; and the poll is made.
pub record Polled {W T : Type 0} (c : DeviceClient W T) (deadline : ℕ) (round : Round)
    (answer : Result T PollFailure) (before after : W) : Type 0 where
  pub until : ℕ
  pub wait_ends : c.checked_add (c.now before).0 (secs round.waited) ≡ some until
  pub planned : until < deadline
  pub reading : round.polled_at ≡ (c.now (c.sleep (secs round.waited) (c.now before).1)).0
  pub early : round.polled_at < deadline
  pub polled :
      c.poll
        (record { deadline = deadline; now = c.now; sleep = c.sleep })
        (c.now (c.sleep (secs round.waited) (c.now before).1)).1
      ≡ some (answer, after)
  pub fails : round.failure ≡ failure_of answer

-- The seconds to wait after these polls: the first interval, with five more for each `slow_down`, or what
-- the newest of them asks for where that is longer.
abbrev pub wait_after : ℕ → List Round → ℕ
wait_after interval rounds = max ((interval + 5 * slow_downs rounds) % 2 ^ 64) (floor_of rounds)

-- From `start` the loop got to a world by these polls, each of them after the wait that the polls before
-- it lead to.
abbrev pub WellPaced : {W T : Type 0} → DeviceClient W T → ℕ → ℕ → W → List Round → W → Type 0
WellPaced c deadline interval start [] w = w ≡ start
WellPaced {W} {T} c deadline interval start (round ∷ older) w =
    (before : W) × WellPaced c deadline interval start older before
    × (round.waited ≡ wait_after interval older)
    × ((answer : Result T PollFailure) × Polled c deadline round answer before w)

-- The next wait would not end before the deadline, by the reading before it or by the one after it.
pub record Expires {W T : Type 0} (c : DeviceClient W T) (deadline wait : ℕ) (last : W)
    : Type 0 where
  pub until : ℕ
  pub wait_ends : c.checked_add (c.now last).0 (secs wait) ≡ some until
  pub late : (deadline ≤ until) ⊎ (deadline ≤ (c.now (c.sleep (secs wait) (c.now last).1)).0)

-- What the end of the loop says of its polls, and of the world that they led to.
abbrev pub Settled : {W T : Type 0} → DeviceClient W T → ℕ → ℕ → Outcome T → List Round → W → Type 0
Settled {W} c deadline interval (returned (ok tokens)) rounds last =
    (round : Round) × (older : List Round) × (before : W) × (rounds ≡ round ∷ older)
    × Polled c deadline round (ok tokens) before last
    × AllOpen older
Settled c deadline interval (returned (err e)) rounds last =
    ((e ≡ device_expired) × Expires c deadline (wait_after interval rounds) last × AllOpen rounds)
    ⊎ ((round : Round) × (older : List Round) × (f : PollFailure) × (rounds ≡ round ∷ older)
        × (round.failure ≡ some f)
        × (e ≡ f.err)
        × (is_last (classify_failure f) f ≡ true)
        × AllOpen older)
Settled c deadline interval panicked rounds last =
    (c.checked_add (c.now last).0 (secs (wait_after interval rounds)) ≡ none) × AllOpen rounds

-- An end after polls that are well paced.
pub record PacedEnding {W T : Type 0} (c : DeviceClient W T) (deadline interval : ℕ) (start : W)
    (outcome : Outcome T) (rounds : List Round) : Type 0 where
  pub last : W
  pub paced : WellPaced c deadline interval start rounds last
  pub settled : Settled c deadline interval outcome rounds last
