-- ===== src/Retry/Deadline.antt =====
-- A bounded run of src/retry.rs on a clock that its own sleeper moves as far as it says, or farther.
use axiam_rust_sdk.Prelude.{
  Result-cases, ok, err, ℕ, ◌+◌, ◌-◌, ◌≤◌, ◌<◌, ◌∷◌, ◌⊎◌, String, ◌≡◌, refl, true, false, not, ◌||◌,
  some, arith, leb, nat_eq, Bool-cases, inl, inr,
}
use axiam_rust_sdk.Error.{to_string}
use axiam_rust_sdk.Retry.{Fraction, Attempt, is_retryable}
use axiam_rust_sdk.Retry.Run.{
  emitted, World, RetryBound, RetryRunner, cap_at, serve, Turn, returns, again, cap, wait_out,
  after_failure, turn,
}

module _ {fr : Fraction} {W T : Type 0} (r : RetryRunner fr W T) (b : RetryBound W) where
  -- The caller's clock: a reading changes nothing, a wait lasts at least as long as it says, and an
  -- event does not turn it back.
  pub record OnClock (time : W → ℕ) : Type 0 where
    pub now_reads : (w : W) → b.now w ≡ (time w, w)
    pub sleep_lasts : (d : ℕ) (w : W) → time w + d ≤ time (b.sleep d w)
    pub emit_later : (n d : ℕ) (s : String) (w : W) → time w ≤ time (r.emit n d s w)

  module _ (time : W → ℕ) (clock : OnClock time) where
    -- The wait before the next request: it was to end before the deadline, by the reading of the clock
    -- that it was planned with, and after the event that tells of it the caller's sleeper served it.
    pub record Waited (n : ℕ) (after : W) : Type 0 where
      pub planned_at : W
      pub delay : ℕ
      pub reason : String
      pub in_time : time planned_at + delay < b.deadline
      pub served :
          ((delay ≡ 0) × (after ≡ r.emit n delay reason planned_at))
          ⊎ (after ≡ b.sleep delay (r.emit n delay reason planned_at))

    abbrev pub OnTime : ℕ → Turn W T → Type 0
    OnTime n (again w') = Waited n w'.outside
    OnTime n (returns (ok v) w') = Unit
    OnTime n (returns (err ended) w') = (ended.at_deadline ≡ false) ⊎ (b.deadline ≤ time w'.outside)

    time-serve :
        (sleep : ℕ → W → W) (d : ℕ) (w : World W)
        → time w.outside + d ≤ time (serve (some b) sleep d w).outside
    unfolding serve
    time-serve sleep d w = elim (Bool-cases (nat_eq d 0)) [
      | inl e ↦ rw (e, serve) (ground arith)
      | inr e ↦ rw (e, serve) (clock.sleep_lasts d w.outside)
    ]

    served-outside :
        (sleep : ℕ → W → W) (d : ℕ) (w : World W)
        → ((d ≡ 0) × ((serve (some b) sleep d w).outside ≡ w.outside))
          ⊎ ((serve (some b) sleep d w).outside ≡ b.sleep d w.outside)
    unfolding serve
    served-outside sleep d w = elim (Bool-cases (nat_eq d 0)) [
      | inl e ↦ rw (e, serve) (inl (ground (arith, e), refl))
      | inr e ↦ rw (e, serve) (inr refl)
    ]

    cap_at-cases :
        (delay : ℕ) (w : W)
        → ((cap_at (some b) delay w ≡ ((b.deadline - time w, true), w))
            × (b.deadline - time w ≤ delay))
          ⊎ ((cap_at (some b) delay w ≡ ((delay, false), w)) × (delay < b.deadline - time w))
    unfolding cap_at
    cap_at-cases delay w = elim (Bool-cases (leb (b.deadline - time w) delay)) [
      | inl e ↦ inl (rw (clock.now_reads w) (rw e refl), ground arith)
      | inr e ↦ inr (rw (clock.now_reads w) (rw e refl), ground arith)
    ]

    wait_out-OnTime :
        (n : ℕ) (failed : Attempt) (delay : ℕ) (w : World W)
        → OnTime n (wait_out r (some b) n failed delay w)
    unfolding wait_out
    wait_out-OnTime n failed delay w = elim (cap_at-cases delay w.outside) [
      | inl (e, h) ↦
          rw (e, wait_out)
            (inr (
              omega (
                arith,
                time-serve r.sleep (b.deadline - time w.outside)
                    (told (b.deadline - time w.outside)),
                clock.emit_later n (b.deadline - time w.outside) (to_string failed.err) w.outside,
              )))
      | inr (e, h) ↦
          rw (e, wait_out)
            (record {
              planned_at = w.outside;
              delay = delay;
              reason = to_string failed.err;
              in_time = omega (arith, h);
              served = served-outside r.sleep delay (told delay);
            })
    ]
      where
        told : ℕ → World W
        told d = record {
          outside = r.emit n d (to_string failed.err) w.outside;
          trace = emitted n d (to_string failed.err) ∷ w.trace;
        }

    after_failure-OnTime :
        (n : ℕ) (failed : Attempt) (w : World W) → OnTime n (after_failure r (some b) n failed w)
    unfolding after_failure
    after_failure-OnTime n failed w =
        elim (Bool-cases (leb (cap r) n || not (is_retryable failed.err))) [
          | inl e ↦ rw (e, after_failure) (inl refl)
          | inr e ↦ rw (e, after_failure) (wait_out-OnTime n failed _ _)
        ]

    -- On a clock that a reading does not move, that a wait of the caller's sleeper moves at least as far as
    -- it says, and that an event does not turn back: after a turn that another request follows, the wait
    -- before that request, if there was one, was the caller's sleeper's, and was to end strictly before
    -- the deadline by the reading of the clock that it was planned with; and a turn that reports the
    -- deadline ends no sooner than at the deadline.
    pub turn-OnTime : (n : ℕ) (w : World W) → OnTime n (turn r (some b) n w)
    unfolding turn
    turn-OnTime n w = elim (Result-cases (r.op n w.outside).0) [
      | inl (v, e) ↦ rw (e, turn) tt
      | inr (failed, e) ↦ rw (e, turn) (after_failure-OnTime n failed _)
    ]
