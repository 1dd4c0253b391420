-- ===== src/Retry.antt =====
-- src/retry.rs: the bounded retry policy. Durations and instants are nanoseconds. A fraction is an
-- `f64`, which the model takes as a parameter with what the code asks of it.
pub mod Run
pub mod Bounds
pub mod Attempts
pub mod Exhausted
pub mod Deadline
pub mod Later
mod Examples
use axiam_rust_sdk.Prelude.{
  ℕ, ◌+◌, ◌-◌, ◌*◌, ◌^◌, ◌≤◌, min, max, String, ◌≡◌, Bool, true, false, ◌||◌, Option, none, some,
  List, [], ◌∷◌, nat_eq, leb, if◌then◌else◌,
}
use axiam_rust_sdk.Prelude.Text.{Text, trim, parse_u64}
use axiam_rust_sdk.Error.{AxiamError, network, is_retryable_transport}

abbrev pub max_attempts : ℕ
max_attempts = 3

abbrev pub millis : ℕ → ℕ
millis n = n * 1_000_000

abbrev pub secs : ℕ → ℕ
secs n = n * 1_000_000_000

abbrev pub base_delay : ℕ
base_delay = millis 200

abbrev pub max_delay : ℕ
max_delay = secs 5

-- `Duration::MAX`: `u64::MAX` seconds and 999,999,999 nanoseconds.
abbrev pub duration_max : ℕ
duration_max = 2 ^ 64 * 1_000_000_000 - 1

abbrev pub u32_max : ℕ
u32_max = 2 ^ 32 - 1

-- `Duration::saturating_mul`
abbrev pub saturating_mul : ℕ → ℕ → ℕ
saturating_mul d n = min (d * n) duration_max

-- `1u32.checked_shl(shift).unwrap_or(u32::MAX)`
abbrev pub one_shl : ℕ → ℕ
one_shl shift = if leb 32 shift then u32_max else 2 ^ shift

unfoldable pub backoff_for : ℕ → ℕ
backoff_for attempt =
    let shift = min (attempt - 1) 32 in min (saturating_mul base_delay (one_shl shift)) max_delay

-- `f64` as far as a fraction uses it: `clamp(0.0, 1.0)` and `Duration::mul_f64`. A factor in [0, 1]
-- does not lengthen a duration of at most five seconds.
pub record Fraction : Type 1 where
  pub F64 : Type 0
  pub clamp : F64 → F64
  pub mul_f64 : ℕ → F64 → ℕ
  pub mul_f64-clamp-le : (d : ℕ) (f : F64) → d ≤ max_delay → mul_f64 d (clamp f) ≤ d

-- `jitter.fraction()` is the last argument.
unfoldable pub delay_for : (fr : Fraction) → ℕ → Option ℕ → fr.F64 → ℕ
delay_for fr attempt retry_after fraction =
    let jittered = fr.mul_f64 (backoff_for attempt) (fr.clamp fraction) in
    elim retry_after [ some hint ↦ max jittered hint | none ↦ jittered ]

unfoldable pub status_is_retryable : ℕ → Bool
status_is_retryable status = leb 500 status || (nat_eq status 408 || nat_eq status 429)

unfoldable pub is_retryable : AxiamError → Bool
is_retryable (network _) = true
is_retryable _ = false

pub record Attempt : Type 0 where
  pub err : AxiamError
  pub retry_after : Option ℕ

-- `Attempt::bare`
unfoldable pub bare : AxiamError → Attempt
bare err = record { err = err; retry_after = none }

-- Only delta-seconds: any other value is as if it were absent.
unfoldable pub parse_retry_after : Text → Option ℕ
parse_retry_after value = elim (parse_u64 (trim value)) [ none ↦ none | some n ↦ some (secs n) ]
