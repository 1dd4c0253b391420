-- ===== src/Oidc/Device/Paced.antt =====
-- How src/oidc/device.rs paces the polls of a grant.
use axiam_rust_sdk.Prelude.{
  ℕ, zero, suc, ◌+◌, ◌*◌, ◌%◌, ◌^◌, ◌<◌, ◌≤◌, ◌≡◌, refl, ap, subst, ◌⊎◌, inl, inr, max, Result, ok,
  err, true, false, not, Option, none, some, List, ◌∷◌, leb, arith, Bool-cases,
}
use axiam_rust_sdk.Retry.{secs}
use axiam_rust_sdk.Oidc.Device.{
  PollSchedule, slow_down, PollOutcome, pending, slowed, rate_limited, transient, terminal,
  PollFailure, classify_failure,
}
use axiam_rust_sdk.Oidc.Device.Login.{
  DeviceClient, Outcome, Round, Verdict, keep_on, give_up, verdict_of, verdict, retry_bound,
  LoopState, Turn, ends, goes_on, stuck, expired, after_verdict, after_poll, after_sleep,
  before_sleep, loop_turn, poll_loop,
}
use axiam_rust_sdk.Oidc.Device.Pacing.{
  no_answer, slows, floors, is_last, slow_downs, floor_of, AllOpen, failure_of, Polled, wait_after,
  WellPaced, Expires, PacedEnding,
}

-- What a verdict keeps of the schedule.
abbrev Judged : PollOutcome → PollSchedule → PollFailure → Verdict → Type 0
Judged o s f (keep_on s' floor) =
    (s'.interval_secs ≡ (s.interval_secs + 5 * slows o) % 2 ^ 64)
    × (floor ≡ floors o f)
    × (is_last o f ≡ false)
Judged o s f (give_up e) = (e ≡ f.err) × (is_last o f ≡ true)

verdict_of-Judged :
    (o : PollOutcome) (s : PollSchedule) (f : PollFailure)
    → s.interval_secs < 2 ^ 64
    → Judged o s f (verdict_of o s f)
unfolding verdict_of slow_down
verdict_of-Judged pending s f small = (omega arith, refl, refl)
verdict_of-Judged transient s f small = (omega arith, refl, refl)
verdict_of-Judged slowed s f small = (omega arith, refl, refl)
verdict_of-Judged rate_limited s f small = (omega arith, refl, refl)
verdict_of-Judged terminal s f small = elim (Bool-cases (no_answer f)) [
  | inl silent ↦ rw silent (omega arith, refl, ap not silent)
  | inr answered ↦ rw answered (refl, ap not answered)
]

module _ {W T : Type 0} (c : DeviceClient W T) (deadline interval : ℕ) (start : W) where
  pub record Pace (s : LoopState W) : Type 0 where
    pub paced : WellPaced c deadline interval start s.rounds s.world
    pub open_rounds : AllOpen s.rounds
    pub raised : s.schedule.interval_secs ≡ (interval + 5 * slow_downs s.rounds) % 2 ^ 64
    pub floored : s.retry_after_secs ≡ floor_of s.rounds

  abbrev PacedTurn : Turn W T → Type 0
  PacedTurn (ends outcome rounds w) = PacedEnding c deadline interval start outcome rounds
  PacedTurn (goes_on s) = Pace s
  PacedTurn stuck = Unit

  module _ (s : LoopState W) (pace : Pace s) where
    abbrev wait : ℕ
    wait = max s.schedule.interval_secs s.retry_after_secs

    waits : wait ≡ wait_after interval s.rounds
    waits = cc (pace.raised, pace.floored)

    abbrev slept : W
    slept = c.sleep (secs wait) (c.now s.world).1

    abbrev answer_at : Option (Result T PollFailure × W)
    answer_at =
        c.poll (record { deadline = deadline; now = c.now; sleep = c.sleep }) (c.now slept).1

    expired-PacedTurn :
        (until : ℕ) (w : W)
        → c.checked_add (c.now s.world).0 (secs wait) ≡ some until
        → (deadline ≤ until) ⊎ (deadline ≤ (c.now slept).0)
        → PacedTurn (expired c deadline s.rounds w)
    unfolding expired
    expired-PacedTurn until w wait_ends late = record {
      last = s.world;
      paced = pace.paced;
      settled = inl (
        refl,
        subst (λ (i : ℕ). Expires c deadline i s.world) waits
            (record { until = until; wait_ends = wait_ends; late = late }),
        pace.open_rounds,
      );
    }

    module _ (until : ℕ) (wait_ends : c.checked_add (c.now s.world).0 (secs wait) ≡ some until)
        (planned : until < deadline) (early : (c.now slept).0 < deadline) where
      abbrev round_of : Option PollFailure → Round
      round_of failure = record { waited = wait; polled_at = (c.now slept).0; failure = failure }

      round_made :
          (answer : Result T PollFailure) (w : W)
          → answer_at ≡ some (answer, w)
          → Polled c deadline (round_of (failure_of answer)) answer s.world w
      round_made answer w polled = record {
        until = until;
        wait_ends = wait_ends;
        planned = planned;
        reading = refl;
        early = early;
        polled = polled;
        fails = refl;
      }

      paced_round :
          (answer : Result T PollFailure) (w : W)
          → answer_at ≡ some (answer, w)
          → WellPaced c deadline interval start (round_of (failure_of answer) ∷ s.rounds) w
      paced_round answer w polled =
          (s.world, pace.paced, waits, (answer, round_made answer w polled))

      small : s.schedule.interval_secs < 2 ^ 64
      small = omega (arith, pace.raised)

      after_verdict-PacedTurn :
          (f : PollFailure) (w : W) (v : Verdict)
          → answer_at ≡ some (err f, w)
          → Judged (classify_failure f) s.schedule f v
          → PacedTurn (after_verdict c deadline v (round_of (some f) ∷ s.rounds) w)
      unfolding after_verdict
      after_verdict-PacedTurn f w (keep_on s' floor) polled (raised, floored, goes) = record {
        paced = paced_round (err f) w polled;
        open_rounds = ((f, refl, goes), pace.open_rounds);
        raised = omega (arith, raised, pace.raised);
        floored = floored;
      }
      after_verdict-PacedTurn f w (give_up e) polled (same, last) = record {
        last = w;
        paced = paced_round (err f) w polled;
        settled = inr (_, _, f, refl, refl, same, last, pace.open_rounds);
      }

      after_poll-PacedTurn :
          (answer : Option (Result T PollFailure × W))
          → answer_at ≡ answer
          → PacedTurn (after_poll c deadline s wait (c.now slept).0 answer)
      unfolding after_poll verdict
      after_poll-PacedTurn none polled = tt
      after_poll-PacedTurn (some (ok tokens, w)) polled = record {
        last = w;
        paced = paced_round (ok tokens) w polled;
        settled = (_, _, s.world, refl, round_made (ok tokens) w polled, pace.open_rounds);
      }
      after_poll-PacedTurn (some (err failure, w)) polled =
          after_verdict-PacedTurn failure w _ polled
            (verdict_of-Judged (classify_failure failure) s.schedule failure small)

    after_sleep-PacedTurn :
        (until : ℕ)
        → c.checked_add (c.now s.world).0 (secs wait) ≡ some until
        → until < deadline
        → PacedTurn (after_sleep c deadline s wait slept)
    unfolding after_sleep retry_bound
    after_sleep-PacedTurn until wait_ends planned =
        elim (Bool-cases (leb deadline (c.now slept).0)) [
          | inl late ↦
              rw late
                (expired-PacedTurn until (c.now slept).1 wait_ends (inr (ground (arith, late))))
          | inr early ↦
              rw early (after_poll-PacedTurn until wait_ends planned (ground (arith, early)) _ refl)
        ]

    before_sleep-PacedTurn :
        (until : Option ℕ)
        → c.checked_add (c.now s.world).0 (secs wait) ≡ until
        → PacedTurn (before_sleep c deadline s wait until (c.now s.world).1)
    unfolding before_sleep
    before_sleep-PacedTurn none wait_ends = record {
      last = s.world;
      paced = pace.paced;
      settled = (
        subst (λ (i : ℕ). c.checked_add (c.now s.world).0 (secs i) ≡ none) waits wait_ends,
        pace.open_rounds,
      );
    }
    before_sleep-PacedTurn (some until) wait_ends = elim (Bool-cases (leb deadline until)) [
      | inl late ↦
          rw late (expired-PacedTurn until (c.now s.world).1 wait_ends (inl (ground (arith, late))))
      | inr early ↦ rw early (after_sleep-PacedTurn until wait_ends (ground (arith, early)))
    ]

    loop_turn-PacedTurn : PacedTurn (loop_turn c deadline s)
    unfolding loop_turn
    loop_turn-PacedTurn = before_sleep-PacedTurn _ refl

  abbrev pub PacedEnd : Option (Outcome T × List Round × W) → Type 0
  PacedEnd none = Unit
  PacedEnd (some (outcome, rounds, w)) = PacedEnding c deadline interval start outcome rounds

  pub poll_loop-PacedEnd :
      (fuel : ℕ) (s : LoopState W) → Pace s → PacedEnd (poll_loop c deadline fuel s)
  unfolding poll_loop
  poll_loop-PacedEnd zero s pace = tt
  poll_loop-PacedEnd (suc fuel) s pace =
      go (loop_turn c deadline s) refl (loop_turn-PacedTurn s pace) (poll_loop-PacedEnd fuel)
    where
      go :
          (turn : Turn W T)
          → loop_turn c deadline s ≡ turn
          → PacedTurn turn
          → ((s' : LoopState W) → Pace s' → PacedEnd (poll_loop c deadline fuel s'))
          → PacedEnd (poll_loop c deadline (suc fuel) s)
      go (ends outcome rounds w) e p rest = rw (e, poll_loop) p
      go (goes_on s') e p rest = rw (e, poll_loop) (rest s' p)
      go stuck e p rest = rw (e, poll_loop) tt
