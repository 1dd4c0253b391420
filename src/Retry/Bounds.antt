-- ===== src/Retry/Bounds.antt =====
-- The delays of src/retry.rs, and the agreement of its two tests for a retryable failure.
use native.Mathlib.Nat.{pow-succ'}
use axiam_rust_sdk.Prelude.{
  ℕ, zero, suc, ◌-◌, ◌*◌, ◌^◌, ◌≤◌, min, max, String, ◌≡◌, true, none, some, arith, refl,
}
use axiam_rust_sdk.Error.{AuthzBodyParser, from_http_status}
use axiam_rust_sdk.Retry.{
  Fraction, base_delay, max_delay, one_shl, backoff_for, delay_for, status_is_retryable,
  is_retryable,
}

thirty_two-le-pow : (k : ℕ) → 32 ≤ 2 ^ (suc (suc (suc (suc (suc k)))))
thirty_two-le-pow zero = omega arith
thirty_two-le-pow (suc k) =
    omega (arith, thirty_two-le-pow k, pow-succ' 2 (suc (suc (suc (suc (suc k))))))

pow_large : (n : ℕ) → 5 ≤ n → 32 ≤ 2 ^ n
pow_large (suc (suc (suc (suc (suc k))))) h = thirty_two-le-pow k
pow_large zero h = absurd (omega arith)
pow_large (suc zero) h = absurd (omega arith)
pow_large (suc (suc zero)) h = absurd (omega arith)
pow_large (suc (suc (suc zero))) h = absurd (omega arith)
pow_large (suc (suc (suc (suc zero)))) h = absurd (omega arith)

one_shl-large : (n : ℕ) → 5 ≤ n → 32 ≤ one_shl n
one_shl-large n h = ground (arith, pow_large n h)

-- Before the cap the delay doubles with each attempt, and no attempt number overflows it: the
-- clamped shift and the saturating product give the plain minimum of `base * 2 ^ (n - 1)` and the cap.
backoff_for-doubles : (k : ℕ) → backoff_for (suc k) ≡ min (base_delay * 2 ^ k) max_delay
unfolding backoff_for
backoff_for-doubles zero = refl
backoff_for-doubles (suc zero) = refl
backoff_for-doubles (suc (suc zero)) = refl
backoff_for-doubles (suc (suc (suc zero))) = refl
backoff_for-doubles (suc (suc (suc (suc zero)))) = refl
backoff_for-doubles (suc (suc (suc (suc (suc k))))) = omega (
  arith,
  one_shl-large (min (suc (suc (suc (suc (suc (suc k))))) - 1) 32) (omega arith),
  thirty_two-le-pow k,
)

pub backoff_for-le : (attempt : ℕ) → backoff_for attempt ≤ max_delay
unfolding backoff_for
backoff_for-le attempt = omega arith

-- The wait is never below the server's hint, and never above the larger of the hint and the
-- attempt's full backoff.
delay_for_bounds :
    (fr : Fraction) (attempt hint : ℕ) (fraction : fr.F64)
    → (hint ≤ delay_for fr attempt (some hint) fraction)
      × (delay_for fr attempt (some hint) fraction ≤ max (backoff_for attempt) hint)
      × (delay_for fr attempt none fraction ≤ backoff_for attempt)
      × (delay_for fr attempt none fraction ≤ delay_for fr attempt (some hint) fraction)
unfolding delay_for
delay_for_bounds fr attempt hint fraction =
    omega (arith, fr.mul_f64-clamp-le (backoff_for attempt) fraction (backoff_for-le attempt))

-- A status that the policy retries becomes an error that the policy retries.
status_is_retryable-is_retryable :
    (from_str : AuthzBodyParser) (status : ℕ) (message : String)
    → status_is_retryable status ≡ true
    → is_retryable (from_http_status from_str status message) ≡ true
unfolding status_is_retryable from_http_status is_retryable
status_is_retryable-is_retryable from_str status message h = ground arith
