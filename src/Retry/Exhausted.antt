-- ===== src/Retry/Exhausted.antt =====
-- A run of src/retry.rs whose operation keeps failing.
use axiam_rust_sdk.Prelude.{
  Result, err, ℕ, ◌≤◌, ◌<◌, ◌≡◌, refl, ap, ◌∙◌, subst, true, false, none, some, [], ◌∷◌, arith, leb,
}
use axiam_rust_sdk.Retry.{Fraction, Attempt, is_retryable}
use axiam_rust_sdk.Retry.Run.{
  called, World, RetryRunner, Ended, cap_at, returns, again, cap, wait_out, after_failure, turn,
  attempts, run_until,
}
use axiam_rust_sdk.Retry.Attempts.{numbers, Numbers, turn-Numbers}

module _ {fr : Fraction} {W T : Type 0} (r : RetryRunner fr W T) where
  turn_again :
      (n : ℕ) (w : World W) (failed : Attempt)
      → (r.op n w.outside).0 ≡ err failed
      → is_retryable failed.err ≡ true
      → n < cap r
      → (w' : World W) × (turn r none n w ≡ again w')
  unfolding turn after_failure wait_out cap_at
  turn_again n w failed e retryable h =
      let below : leb (cap r) n ≡ false = ground arith in
      rw (e, turn) (rw (below, after_failure) (rw (retryable, after_failure) (_, refl)))

  turn_last :
      (n : ℕ) (w : World W) (failed : Attempt)
      → (r.op n w.outside).0 ≡ err failed
      → cap r ≤ n
      → turn r none n w
        ≡ returns
            (err
              (record { err = failed.err; at_deadline = false; retry_after = failed.retry_after }))
            (record { outside = (r.op n w.outside).1; trace = called n ∷ w.trace })
  unfolding turn after_failure
  turn_last n w failed e h =
      let above : leb (cap r) n ≡ true = ground arith in
      rw (e, turn) (rw (above, after_failure) refl)

  again_numbers :
      (n : ℕ) (w w' : World W) → turn r none n w ≡ again w' → numbers w'.trace ≡ n ∷ numbers w.trace
  again_numbers n w w' e = (subst (Numbers r n (n ∷ numbers w.trace)) e (turn-Numbers r none n w)).0

  three_turns :
      (w₀ w₁ w₂ w₃ : World W) (result : Result T Ended)
      → turn r none 1 w₀ ≡ again w₁
      → turn r none 2 w₁ ≡ again w₂
      → turn r none 3 w₂ ≡ returns result w₃
      → attempts r 3 none 1 w₀ ≡ some (result, w₃)
  unfolding attempts
  three_turns w₀ w₁ w₂ w₃ result e₁ e₂ e₃ =
      rw (e₁, attempts) (rw (e₂, attempts) (rw (e₃, attempts) refl))

  cap_enabled : r.enabled ≡ true → cap r ≡ 3
  unfolding cap
  cap_enabled on = ground arith

  -- In a run without a bound, where retries are enabled and every call fails in transport, the operation
  -- is called exactly three times, and the third failure is returned, with its hint and no deadline.
  pub run_until_exhausts :
      (w : W) (fails : ℕ → W → Attempt)
      → ((n : ℕ) (v : W) → (r.op n v).0 ≡ err (fails n v))
      → ((n : ℕ) (v : W) → is_retryable (fails n v).err ≡ true)
      → r.enabled ≡ true
      → (last : W) × (w' : World W) × (run_until r none w
          ≡ some (
            err (record {
              err = (fails 3 last).err;
              at_deadline = false;
              retry_after = (fails 3 last).retry_after;
            }),
            w',
          ))
        × (numbers w'.trace ≡ 3 ∷ 2 ∷ 1 ∷ [])
  unfolding run_until
  run_until_exhausts w fails failing retryable on =
      let w₀ : World W = record { outside = w; trace = [] } in
      let first =
        turn_again 1 w₀ (fails 1 w) (failing 1 w) (retryable 1 w) (omega (arith, capped)) in
      let second =
        turn_again 2 first.0 (fails 2 first.0.outside) (failing 2 first.0.outside)
          (retryable 2 first.0.outside) (omega (arith, capped)) in
      let third =
        turn_last 3 second.0 (fails 3 second.0.outside) (failing 3 second.0.outside)
          (omega (arith, capped)) in
      (
        second.0.outside,
        record { outside = (r.op 3 second.0.outside).1; trace = called 3 ∷ second.0.trace },
        ap (λ (fuel : ℕ). attempts r fuel none 1 w₀) capped
            ∙ three_turns w₀ first.0 second.0 _ _ first.1 second.1 third,
        rw (again_numbers 2 first.0 second.0 second.1, again_numbers 1 w₀ first.0 first.1) refl,
      )
    where
      capped : cap r ≡ 3
      capped = cap_enabled on
