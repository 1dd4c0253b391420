-- ===== src/Retry/Attempts.antt =====
-- How often the loop of src/retry.rs calls its operation, and that it ends.
use native.Mathlib.Numerals.{add-one}
use axiam_rust_sdk.Prelude.{
  Result, Result-cases, err, ℕ, zero, suc, ◌+◌, ◌≤◌, ◌<◌, ◌≡◌, refl, false, not, ◌||◌, Option, none,
  some, List, [], ◌∷◌, arith, leb, if◌then◌else◌, Bool-cases, inl, inr,
}
use axiam_rust_sdk.Retry.{Fraction, Attempt, max_attempts, is_retryable}
use axiam_rust_sdk.Retry.Run.{
  Event, called, emitted, slept, World, RetryBound, RetryRunner, Ended, cap_at, serve, Turn,
  returns, again, cap, wait_out, after_failure, turn, attempts, run_until,
}

-- The numbers that `op` was called with, newest first.
abbrev pub numbers : List Event → List ℕ
numbers [] = []
numbers (called n ∷ es) = n ∷ numbers es
numbers (emitted n d s ∷ es) = numbers es
numbers (slept d ∷ es) = numbers es

-- n, n - 1, …, 1
abbrev pub down_from : ℕ → List ℕ
down_from zero = []
down_from (suc n) = suc n ∷ down_from n

module _ {W : Type 0} where
  numbers-serve :
      (bound : Option (RetryBound W)) (sleep : ℕ → W → W) (d : ℕ) (w : World W)
      → numbers (serve bound sleep d w).trace ≡ numbers w.trace
  unfolding serve
  numbers-serve none sleep d w = refl
  numbers-serve (some b) sleep d w = ground arith

module _ {fr : Fraction} {W T : Type 0} (r : RetryRunner fr W T) where
  -- What a turn has left in the trace; it goes on only below the cap.
  abbrev pub Numbers : ℕ → List ℕ → Turn W T → Type 0
  Numbers attempt ns (returns result w') = numbers w'.trace ≡ ns
  Numbers attempt ns (again w') = (numbers w'.trace ≡ ns) × (attempt < cap r)

  wait_out-Numbers :
      (bound : Option (RetryBound W)) (attempt : ℕ) (failed : Attempt) (delay : ℕ) (w : World W)
      → attempt < cap r
      → Numbers attempt (numbers w.trace) (wait_out r bound attempt failed delay w)
  unfolding wait_out
  wait_out-Numbers bound attempt failed delay w h =
      elim (Bool-cases (cap_at bound delay w.outside).0.1) [
        | inl e ↦ rw (e, wait_out) (numbers-serve bound r.sleep _ _)
        | inr e ↦ rw (e, wait_out) (numbers-serve bound r.sleep _ _, h)
      ]

  after_failure-Numbers :
      (bound : Option (RetryBound W)) (attempt : ℕ) (failed : Attempt) (w : World W)
      → Numbers attempt (numbers w.trace) (after_failure r bound attempt failed w)
  unfolding after_failure
  after_failure-Numbers bound attempt failed w =
      elim (Bool-cases (leb (cap r) attempt || not (is_retryable failed.err))) [
        | inl e ↦ rw (e, after_failure) refl
        | inr e ↦ rw (e, after_failure) (wait_out-Numbers bound attempt failed _ _ (ground arith))
      ]

  pub turn-Numbers :
      (bound : Option (RetryBound W)) (attempt : ℕ) (w : World W)
      → Numbers attempt (attempt ∷ numbers w.trace) (turn r bound attempt w)
  unfolding turn
  turn-Numbers bound attempt w = elim (Result-cases (r.op attempt w.outside).0) [
    | inl (v, e) ↦ rw (e, turn) refl
    | inr (failed, e) ↦ rw (e, turn) (after_failure-Numbers bound attempt failed _)
  ]

  -- What the loop returns: `n` calls, numbered from 1, and no more than the cap.
  abbrev Returns : ℕ → Option (Result T Ended × World W) → Type 0
  Returns attempt x =
      (result : Result T Ended) × (w' : World W) × (n : ℕ) × (x ≡ some (result, w'))
      × (numbers w'.trace ≡ down_from n)
      × (attempt ≤ n)
      × (n ≤ cap r)

  attempts-Returns :
      (fuel : ℕ) (bound : Option (RetryBound W)) (k : ℕ) (w : World W)
      → k + fuel ≡ cap r
      → 0 < fuel
      → numbers w.trace ≡ down_from k
      → Returns (k + 1) (attempts r fuel bound (k + 1) w)
  unfolding attempts
  attempts-Returns zero bound k w total pos e = absurd (omega arith)
  attempts-Returns (suc fuel) bound k w total pos e =
      from_turn (turn r bound (k + 1) w) refl (turn-Numbers bound (k + 1) w)
        (λ w'. attempts-Returns fuel bound (k + 1) w')
    where
      counted :
          (w' : World W)
          → numbers w'.trace ≡ (k + 1) ∷ numbers w.trace
          → numbers w'.trace ≡ down_from (k + 1)
      counted w' ns = rw (ns, e, add-one) refl

      from_turn :
          (t : Turn W T)
          → turn r bound (k + 1) w ≡ t
          → Numbers (k + 1) ((k + 1) ∷ numbers w.trace) t
          → ((w' : World W)
              → k + 1 + fuel ≡ cap r
              → 0 < fuel
              → numbers w'.trace ≡ down_from (k + 1)
              → Returns (k + 1 + 1) (attempts r fuel bound (k + 1 + 1) w'))
          → Returns (k + 1) (attempts r (suc fuel) bound (k + 1) w)
      from_turn (returns result w') t ns ih =
          (result, w', k + 1, rw (t, attempts), counted w' ns, omega arith, omega arith)
      from_turn (again w') t (ns, below) ih =
          let rest = ih w' (omega arith) (omega arith) (counted w' ns) in
          (rest.0, rest.1, rest.2, rw (t, attempts) rest.3, rest.4, omega arith, rest.6)

  cap_pos : (0 < cap r) × (cap r ≤ max_attempts)
  unfolding cap
  cap_pos = ground arith

  -- The loop always returns, after calls of the operation numbered 1 to `n` in this order, where `n`
  -- is at least 1, at most 3, and 1 where retries are disabled.
  pub run_until_attempts :
      (bound : Option (RetryBound W)) (w : W)
      → (result : Result T Ended) × (w' : World W) × (n : ℕ) × (run_until r bound w
          ≡ some (result, w'))
        × (numbers w'.trace ≡ down_from n)
        × (1 ≤ n)
        × (n ≤ (if r.enabled then max_attempts else 1))
  unfolding run_until cap
  run_until_attempts bound w =
      attempts-Returns (cap r) bound 0 (record { outside = w; trace = [] }) (omega arith) cap_pos.0
        refl

  -- A first failure that is not a transport failure ends the run at once: one call, no wait, no
  -- event, and the failure is returned as it is.
  run_until_decisive :
      (bound : Option (RetryBound W)) (w : W) (failed : Attempt)
      → (r.op 1 w).0 ≡ err failed
      → is_retryable failed.err ≡ false
      → run_until r bound w
        ≡ some (
          err (record { err = failed.err; at_deadline = false; retry_after = failed.retry_after }),
          record { outside = (r.op 1 w).1; trace = called 1 ∷ [] },
        )
  unfolding run_until cap attempts turn after_failure
  run_until_decisive bound w failed e decisive = elim (Bool-cases r.enabled) [
    | inl on ↦ rw (on, run_until, cap) (ground (arith, e, decisive))
    | inr off ↦ rw (off, run_until, cap) (ground (arith, e, decisive))
  ]
