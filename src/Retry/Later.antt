-- ===== src/Retry/Later.antt =====
-- That a run of src/retry.rs does not end before it began.
use axiam_rust_sdk.Prelude.{
  ℕ, zero, suc, subst, [], ◌+◌, ◌≤◌, ◌≡◌, refl, Result, Result-cases, not, ◌||◌, String, Bool-cases,
  Option, none, some, ◌∷◌, leb, nat_eq, arith, inl, inr,
}
use axiam_rust_sdk.Error.{to_string}
use axiam_rust_sdk.Retry.{Fraction, Attempt, is_retryable}
use axiam_rust_sdk.Retry.Run.{
  emitted, World, RetryBound, RetryRunner, Ended, cap_at, serve, Turn, returns, again, cap,
  wait_out, after_failure, turn, attempts, run_until,
}

module _ {fr : Fraction} {W T : Type 0} (r : RetryRunner fr W T) (b : RetryBound W) where
  -- No part of the run turns the clock back.
  pub record Onward (time : W → ℕ) : Type 0 where
    pub reading : (w : W) → time w ≤ time (b.now w).1
    pub waiting : (d : ℕ) (w : W) → time w ≤ time (b.sleep d w)
    pub telling : (n d : ℕ) (s : String) (w : W) → time w ≤ time (r.emit n d s w)
    pub drawing : (w : W) → time w ≤ time (r.fraction w).1
    pub calling : (n : ℕ) (w : W) → time w ≤ time (r.op n w).1

  module _ (time : W → ℕ) (onward : Onward time) (t : ℕ) where
    abbrev Later : Turn W T → Type 0
    Later (returns result w) = t ≤ time w.outside
    Later (again w) = t ≤ time w.outside

    serve_later :
        (d : ℕ) (w : World W) → t ≤ time w.outside → t ≤ time (serve (some b) r.sleep d w).outside
    unfolding serve
    serve_later d w h = elim (Bool-cases (nat_eq d 0)) [
      | inl e ↦ rw (e, serve) h
      | inr e ↦ rw (e, serve) (omega (arith, onward.waiting d w.outside))
    ]

    cap_at_later : (d : ℕ) (w : W) → t ≤ time w → t ≤ time (cap_at (some b) d w).1
    unfolding cap_at
    cap_at_later d w h = omega (arith, onward.reading w)

    wait_out-Later :
        (n : ℕ) (failed : Attempt) (d : ℕ) (w : World W)
        → t ≤ time w.outside
        → Later (wait_out r (some b) n failed d w)
    unfolding wait_out
    wait_out-Later n failed d w h = elim (Bool-cases (cap_at (some b) d w.outside).0.1) [
      | inl e ↦ rw (e, wait_out) (served)
      | inr e ↦ rw (e, wait_out) (served)
    ]
      where
        capped : ℕ
        capped = (cap_at (some b) d w.outside).0.0

        told : World W
        told = record {
          outside = r.emit n capped (to_string failed.err) (cap_at (some b) d w.outside).1;
          trace = emitted n capped (to_string failed.err) ∷ w.trace;
        }

        served : t ≤ time (serve (some b) r.sleep capped told).outside
        served = serve_later capped told (
            omega (
              arith,
              cap_at_later d w.outside h,
              onward.telling n capped (to_string failed.err) (cap_at (some b) d w.outside).1,
            ))

    after_failure-Later :
        (n : ℕ) (failed : Attempt) (w : World W)
        → t ≤ time w.outside
        → Later (after_failure r (some b) n failed w)
    unfolding after_failure
    after_failure-Later n failed w h =
        elim (Bool-cases (leb (cap r) n || not (is_retryable failed.err))) [
          | inl e ↦ rw (e, after_failure) h
          | inr e ↦
              rw (e, after_failure)
                (wait_out-Later n failed _ _ (omega (arith, onward.drawing w.outside)))
        ]

    turn-Later : (n : ℕ) (w : World W) → t ≤ time w.outside → Later (turn r (some b) n w)
    unfolding turn
    turn-Later n w h = elim (Result-cases (r.op n w.outside).0) [
      | inl (v, e) ↦ rw (e, turn) (omega (arith, onward.calling n w.outside))
      | inr (failed, e) ↦
          rw (e, turn) (after_failure-Later n failed _ (omega (arith, onward.calling n w.outside)))
    ]

    abbrev LaterEnd : Option (Result T Ended × World W) → Type 0
    LaterEnd none = Unit
    LaterEnd (some (result, w)) = t ≤ time w.outside

    attempts-LaterEnd :
        (fuel n : ℕ) (w : World W) → t ≤ time w.outside → LaterEnd (attempts r fuel (some b) n w)
    unfolding attempts
    attempts-LaterEnd zero n w h = tt
    attempts-LaterEnd (suc fuel) n w h =
        go (turn r (some b) n w) refl (turn-Later n w h) (attempts-LaterEnd fuel (n + 1))
      where
        go :
            (x : Turn W T)
            → turn r (some b) n w ≡ x
            → Later x
            → ((w' : World W)
                → t ≤ time w'.outside
                → LaterEnd (attempts r fuel (some b) (n + 1) w'))
            → LaterEnd (attempts r (suc fuel) (some b) n w)
        go (returns result w') e later rest = rw (e, attempts) later
        go (again w') e later rest = rw (e, attempts) (rest w' later)

  pub run_until_later :
      (time : W → ℕ) (w : W) (result : Result T Ended) (w' : World W)
      → Onward time
      → run_until r (some b) w ≡ some (result, w')
      → time w ≤ time w'.outside
  unfolding run_until
  run_until_later time w result w' onward h = subst (LaterEnd time onward (time w)) h (
      attempts-LaterEnd time onward (time w) (cap r) 1 (record { outside = w; trace = [] })
        (omega arith))
