-- ===== src/Oidc/Device.antt =====
-- src/oidc/device.rs: the schedule of the polls of a device grant, and what the answers of the server
-- mean to it. A count of seconds is a `u64`, which a release build wraps around.
pub mod Poll
pub mod Login
pub mod Pacing
pub mod Paced
pub mod Granted
pub mod Ends
pub mod Composed
mod Examples
use axiam_rust_sdk.Prelude.{
  ℕ, ◌+◌, ◌-◌, ◌%◌, ◌^◌, String, String-Eq, ◌==◌, Bool, true, false, Option, none, some, nat_eq,
  ltb, leb, if◌then◌else◌,
}
use axiam_rust_sdk.Error.{AxiamError, oauth_protocol_error, oauth_error_code}

-- `DEFAULT_POLL_INTERVAL_SECS`
abbrev pub default_poll_interval_secs : ℕ
default_poll_interval_secs = 5

-- `SLOW_DOWN_INCREMENT_SECS`
abbrev pub slow_down_increment_secs : ℕ
slow_down_increment_secs = 5

pub record DeviceAuthorization : Type 0 where
  pub device_code : String
  pub user_code : String
  pub verification_uri : String
  pub verification_uri_complete : Option String
  pub expires_in : ℕ
  pub interval : ℕ

-- The interval of an answer: one of zero is as if it were absent.
unfoldable pub interval_or_default : Option ℕ → ℕ
interval_or_default none = default_poll_interval_secs
interval_or_default (some i) = if ltb 0 i then i else default_poll_interval_secs

pub record PollSchedule : Type 0 where
  pub interval_secs : ℕ
  pub remaining_secs : ℕ

-- `PollSchedule::new`
unfoldable pub new_schedule : ℕ → ℕ → PollSchedule
new_schedule interval_secs expires_in_secs = record {
  interval_secs = if nat_eq interval_secs 0 then default_poll_interval_secs else interval_secs;
  remaining_secs = expires_in_secs;
}

unfoldable pub slow_down : PollSchedule → PollSchedule
slow_down s = record s { interval_secs = (s.interval_secs + slow_down_increment_secs) % 2 ^ 64 }

unfoldable pub tick_for : ℕ → PollSchedule → Bool × PollSchedule
tick_for wait_secs s =
    if leb s.remaining_secs wait_secs
    then (false, record s { remaining_secs = 0 })
    else (true, record s { remaining_secs = s.remaining_secs - wait_secs })

unfoldable pub tick : PollSchedule → Bool × PollSchedule
unfolding tick_for
tick s = tick_for s.interval_secs s

pub data PollOutcome : Type 0 where
  pending rate_limited transient terminal : PollOutcome
  slowed : PollOutcome

pub record PollFailure : Type 0 where
  pub err : AxiamError
  pub retry_after : Option ℕ
  pub status : Option ℕ

-- `impl From<AxiamError> for PollFailure`
unfoldable pub from_error : AxiamError → PollFailure
from_error err = record { err = err; retry_after = none; status = none }

unfoldable pub device_expired : AxiamError
unfolding oauth_protocol_error
device_expired =
    oauth_protocol_error "expired_token"
      "the device authorization expired before the user completed it (client-side deadline from expires_in; CONTRACT.md §14.2 rule 4)"

unfoldable pub classify_code : Option String → PollOutcome
classify_code none = terminal
classify_code (some code) =
    if code == "authorization_pending"
    then pending
    else if code == "slow_down"
    then slowed
    else if code == "rate_limit_exceeded"
    then rate_limited
    else terminal

unfoldable pub classify : AxiamError → PollOutcome
unfolding classify_code
classify err = classify_code (oauth_error_code err)

unfoldable pub classify_failure : PollFailure → PollOutcome
unfolding classify
classify_failure failure = elim failure.status [
  | none ↦ classify failure.err
  | some s ↦
      if leb 500 s
      then transient
      else if nat_eq s 429
      then rate_limited
      else if nat_eq s 400
      then classify failure.err
      else terminal
]
