-- ===== src/Retry/Examples.antt =====
-- Tests of src/retry.rs, and the theorems at concrete inputs. A fraction is a percentage here; the
-- world is a clock.
use native.Mathlib.Nat.{mul-le-mul_left}
use axiam_rust_sdk.Prelude.{
  Result, err, ℕ, ◌+◌, ◌*◌, ◌/◌, ◌≤◌, min, String, ◌≡◌, refl, true, false, none, some, [], ◌∷◌,
  arith,
}
use axiam_rust_sdk.Error.{new_network}
use axiam_rust_sdk.Prelude.Text.{text, trim, parse_u64, is_whitespace}
use axiam_rust_sdk.Retry.{
  parse_retry_after, Fraction, Attempt, millis, secs, max_delay, backoff_for, delay_for,
  is_retryable,
}
use axiam_rust_sdk.Retry.Run.{World, RetryBound, RetryRunner, Ended, turn, run_until}
use axiam_rust_sdk.Retry.Attempts.{numbers, down_from, run_until_attempts}
use axiam_rust_sdk.Retry.Exhausted.{run_until_exhausts}
use axiam_rust_sdk.Retry.Deadline.{OnClock, OnTime, turn-OnTime}

percent-le : (d f : ℕ) → d ≤ max_delay → d * min f 100 / 100 ≤ d
percent-le d f h =
    let product : d * min f 100 ≤ d * 100 = mul-le-mul_left d (omega arith) in omega arith

abbrev percent : Fraction
percent = record {
  F64 = ℕ;
  clamp = λ f. min f 100;
  mul_f64 = λ d f. d * f / 100;
  mul_f64-clamp-le = percent-le;
}

abbrev unavailable : Attempt
unavailable = record { err = new_network "503"; retry_after = some (secs 2) }

-- A permanently unavailable server, a call of which takes one second.
abbrev runner : RetryRunner percent ℕ String
runner = record {
  enabled = true;
  op = λ n w. (err unavailable, w + secs 1);
  fraction = λ w. (100, w);
  sleep = λ d w. w + d;
  emit = λ n d s w. w;
}

abbrev bound : RetryBound ℕ
bound = record { deadline = secs 10; now = λ w. (w, w); sleep = λ d w. w + d }

backoff_steps :
    (backoff_for 1 ≡ millis 200) × (backoff_for 2 ≡ millis 400) × (backoff_for 20 ≡ max_delay)
unfolding backoff_for
backoff_steps = (refl, refl, refl)

delay_for_hint : delay_for percent 1 (some (secs 2)) 50 ≡ secs 2
unfolding delay_for backoff_for
delay_for_hint = refl

run_until_attempts_example :
    (result : Result String Ended) × (w' : World ℕ) × (n : ℕ) × (run_until runner none 0
      ≡ some (result, w'))
    × (numbers w'.trace ≡ down_from n)
    × (1 ≤ n)
    × (n ≤ 3)
run_until_attempts_example = run_until_attempts runner none 0

run_until_exhausts_example :
    (last : ℕ) × (w' : World ℕ) × (run_until runner none 0
      ≡ some (
        err (record { err = unavailable.err; at_deadline = false; retry_after = some (secs 2) }),
        w',
      ))
    × (numbers w'.trace ≡ 3 ∷ 2 ∷ 1 ∷ [])
unfolding is_retryable new_network
run_until_exhausts_example =
    run_until_exhausts runner 0 (λ n w. unavailable) (λ n w. refl) (λ n w. refl) refl

bound_clock : OnClock runner bound (λ w. w)
bound_clock = record {
  now_reads = λ w. refl;
  sleep_lasts = λ d w. omega arith;
  emit_later = λ n d s w. omega arith;
}

turn-OnTime_example :
    OnTime runner bound
      (λ w. w)
      bound_clock
      1
      (turn runner (some bound) 1 (record { outside = 0; trace = [] }))
turn-OnTime_example =
    turn-OnTime runner bound (λ w. w) bound_clock 1 (record { outside = 0; trace = [] })

parse_retry_after_forms :
    (parse_retry_after (text "  7 ") ≡ some (secs 7))
    × (parse_retry_after (text "Wed, 21 Oct 2026 07:28:00 GMT") ≡ none)
    × (parse_retry_after (text "-5") ≡ none)
    × (parse_retry_after (text "86400") ≡ some (secs 86400))
unfolding parse_retry_after trim parse_u64 is_whitespace
parse_retry_after_forms = (refl, refl, refl, refl)
