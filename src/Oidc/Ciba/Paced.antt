-- ===== src/Oidc/Ciba/Paced.antt =====
-- How `ciba_await` of src/oidc/ciba.rs paces its polls, and how it ends.
use axiam_rust_sdk.Prelude.{
  ℕ, zero, suc, ◌^◌, ◌<◌, ◌≡◌, refl, sym, ap, ◌∙◌, ◌⊎◌, inl, inr, subst, Result, ok, err, Option,
  none, some, List, [], ◌∷◌, leb, arith, Bool-cases, Option-cases,
}
use axiam_rust_sdk.Error.{AxiamError}
use axiam_rust_sdk.Retry.{secs}
use axiam_rust_sdk.Oidc.Ciba.{
  CibaStep, pending, slowed, transient, terminal, CibaFailure, CibaClient, CibaInitiateResponse,
  Awaited, panicked, CibaRound, CibaTurn, ends, goes_on, stuck, after_step, after_ciba_poll,
  before_wait, await_turn, await_loop, first_interval, ciba_await,
}
use axiam_rust_sdk.Oidc.Ciba.Spacing.{
  AllGo, failure_of, Polled, WellSpaced, wait_after, SpacedEnding,
}

module _ {W T : Type 0} (c : CibaClient W T) (deadline first : ℕ) (start : W) where
  abbrev Spaced : ℕ → List CibaRound → W → Type 0
  Spaced interval rounds w =
      WellSpaced c deadline first start rounds w
      × AllGo rounds
      × (interval ≡ wait_after first rounds)

  abbrev SpacedTurn : CibaTurn W T → Type 0
  SpacedTurn (ends outcome rounds w) = SpacedEnding c deadline first start outcome rounds
  SpacedTurn (goes_on interval rounds w) = Spaced interval rounds w
  SpacedTurn stuck = Unit

  module _ (interval until : ℕ) (rounds : List CibaRound) (before : W)
      (spaced : Spaced interval rounds before)
      (wait_ends : c.checked_add (c.now before).0 (secs interval) ≡ some until)
      (early : until < deadline) where
    abbrev answer_at : Option (Result T CibaFailure × W)
    answer_at =
        c.poll (record { deadline = deadline; now = c.now; sleep = c.sleep })
          (c.sleep (secs interval) (c.now before).1)

    abbrev round_of : Option CibaFailure → CibaRound
    round_of failure = record { waited = interval; until = until; failure = failure }

    round_made :
        (answer : Result T CibaFailure) (w : W)
        → answer_at ≡ some (answer, w)
        → Polled c deadline (round_of (failure_of answer)) answer before w
    round_made answer w polled = record {
      wait_ends = wait_ends;
      early = early;
      polled = polled;
      fails = refl;
    }

    spaced_round :
        (answer : Result T CibaFailure) (w : W)
        → answer_at ≡ some (answer, w)
        → WellSpaced c deadline first start (round_of (failure_of answer) ∷ rounds) w
    spaced_round answer w polled =
        (before, spaced.0, spaced.2, (answer, round_made answer w polled))

    after_step-SpacedTurn :
        (step : CibaStep) (e : AxiamError) (w : W)
        → answer_at ≡ some (err (record { err = e; step = step }), w)
        → SpacedTurn (
            after_step c deadline step e interval
              (round_of (some (record { err = e; step = step })) ∷ rounds)
              w)
    unfolding after_step
    after_step-SpacedTurn pending e w polled =
        (spaced_round _ w polled, ((_, refl, tt), spaced.1), omega (arith, spaced.2))
    after_step-SpacedTurn transient e w polled =
        (spaced_round _ w polled, ((_, refl, tt), spaced.1), omega (arith, spaced.2))
    after_step-SpacedTurn slowed e w polled =
        (spaced_round _ w polled, ((_, refl, tt), spaced.1), omega (arith, spaced.2))
    after_step-SpacedTurn terminal e w polled = record {
      last = w;
      spaced = spaced_round _ w polled;
      settled = inr (_, _, _, refl, refl, refl, refl, spaced.1);
    }

    after_ciba_poll-SpacedTurn :
        (answer : Option (Result T CibaFailure × W))
        → answer_at ≡ answer
        → SpacedTurn (after_ciba_poll c deadline interval until rounds answer)
    unfolding after_ciba_poll
    after_ciba_poll-SpacedTurn none polled = tt
    after_ciba_poll-SpacedTurn (some (ok tokens, w)) polled = record {
      last = w;
      spaced = spaced_round _ w polled;
      settled = (_, _, before, refl, round_made (ok tokens) w polled, spaced.1);
    }
    after_ciba_poll-SpacedTurn (some (err failure, w)) polled =
        after_step-SpacedTurn failure.step failure.err w polled

  wait_of :
      (interval : ℕ) (rounds : List CibaRound) (w : W)
      → Spaced interval rounds w
      → c.checked_add (c.now w).0 (secs (wait_after first rounds))
        ≡ c.checked_add (c.now w).0 (secs interval)
  wait_of interval rounds w spaced =
      ap (λ (i : ℕ). c.checked_add (c.now w).0 (secs i)) (sym spaced.2)

  before_wait-SpacedTurn :
      (interval : ℕ) (rounds : List CibaRound) (until : Option ℕ) (before : W)
      → Spaced interval rounds before
      → c.checked_add (c.now before).0 (secs interval) ≡ until
      → SpacedTurn (before_wait c deadline interval rounds until (c.now before).1)
  unfolding before_wait
  before_wait-SpacedTurn interval rounds none before spaced ends_at = record {
    last = before;
    spaced = spaced.0;
    settled = (wait_of interval rounds before spaced ∙ ends_at, spaced.1);
  }
  before_wait-SpacedTurn interval rounds (some until) before spaced ends_at =
      elim (Bool-cases (leb deadline until)) [
        | inl late ↦ rw late (record {
          last = before;
          spaced = spaced.0;
          settled = inl (
            refl,
            (until, wait_of interval rounds before spaced ∙ ends_at, ground (arith, late)),
            spaced.1,
          );
        })
        | inr early ↦ rw early (
            after_ciba_poll-SpacedTurn interval until rounds before spaced ends_at
              (ground (arith, early)) _ refl)
      ]

  await_turn-SpacedTurn :
      (interval : ℕ) (rounds : List CibaRound) (w : W)
      → Spaced interval rounds w
      → SpacedTurn (await_turn c deadline interval rounds w)
  unfolding await_turn
  await_turn-SpacedTurn interval rounds w spaced =
      before_wait-SpacedTurn interval rounds (c.checked_add (c.now w).0 (secs interval)) w spaced
        refl

  abbrev SpacedEnd : Option (Awaited T × List CibaRound × W) → Type 0
  SpacedEnd none = Unit
  SpacedEnd (some (outcome, rounds, w)) = SpacedEnding c deadline first start outcome rounds

  await_loop-SpacedEnd :
      (fuel interval : ℕ) (rounds : List CibaRound) (w : W)
      → Spaced interval rounds w
      → SpacedEnd (await_loop c deadline fuel interval rounds w)
  unfolding await_loop
  await_loop-SpacedEnd zero interval rounds w spaced = tt
  await_loop-SpacedEnd (suc fuel) interval rounds w spaced =
      go (await_turn c deadline interval rounds w) refl
        (await_turn-SpacedTurn interval rounds w spaced) (await_loop-SpacedEnd fuel)
    where
      go :
          (turn : CibaTurn W T)
          → await_turn c deadline interval rounds w ≡ turn
          → SpacedTurn turn
          → ((i : ℕ) (rs : List CibaRound) (w' : W)
              → Spaced i rs w'
              → SpacedEnd (await_loop c deadline fuel i rs w'))
          → SpacedEnd (await_loop c deadline (suc fuel) interval rounds w)
      go (ends outcome rs w') e p rest = rw (e, await_loop) p
      go (goes_on i rs w') e p rest = rw (e, await_loop) (rest i rs w' p)
      go stuck e p rest = rw (e, await_loop) tt

first_interval-small : (i : ℕ) → i < 2 ^ 64 → first_interval i < 2 ^ 64
unfolding first_interval
first_interval-small i h = ground (arith, h)

module _ {W T : Type 0} (c : CibaClient W T) (initiated : CibaInitiateResponse) (start : W) where
  -- What the end of `ciba_await` says of its polls: without a deadline it panics before the first.
  abbrev pub AwaitEnd : Option (Awaited T × List CibaRound × W) → Type 0
  AwaitEnd none = Unit
  AwaitEnd (some (outcome, rounds, w)) =
      ((outcome ≡ panicked)
        × (rounds ≡ [])
        × (c.checked_add initiated.received_at (secs initiated.expires_in) ≡ none))
      ⊎ ((deadline : ℕ) × (c.checked_add initiated.received_at (secs initiated.expires_in)
            ≡ some deadline)
          × SpacedEnding c deadline (first_interval initiated.interval) start outcome rounds)

  ciba_await-AwaitEnd :
      (fuel : ℕ) → initiated.interval < 2 ^ 64 → AwaitEnd (ciba_await c fuel initiated start)
  unfolding ciba_await
  ciba_await-AwaitEnd fuel small =
      elim (Option-cases (c.checked_add initiated.received_at (secs initiated.expires_in))) [
        | inl over ↦ rw (over, ciba_await) (inl (refl, refl, over))
        | inr (deadline, anchored) ↦
            rw (anchored, ciba_await)
              (anchored_end deadline anchored
                (await_loop c deadline fuel (first_interval initiated.interval) [] start)
                (await_loop-SpacedEnd c deadline (first_interval initiated.interval) start fuel _ []
                  start (refl, tt, omega (arith, first_interval-small initiated.interval small))))
      ]
    where
      anchored_end :
          (deadline : ℕ)
          → c.checked_add initiated.received_at (secs initiated.expires_in) ≡ some deadline
          → (x : Option (Awaited T × List CibaRound × W))
          → SpacedEnd c deadline (first_interval initiated.interval) start x
          → AwaitEnd x
      anchored_end deadline anchored none p = tt
      anchored_end deadline anchored (some (outcome, rounds, w)) ending =
          inr (deadline, anchored, ending)

  -- A wait for a request that comes to an end has a deadline and polls that are well spaced, or panics
  -- where the deadline has no instant. It is supposed that an interval is a `u64`.
  pub ciba_await_paces :
      (fuel : ℕ) (w' : W) (outcome : Awaited T) (rounds : List CibaRound)
      → initiated.interval < 2 ^ 64
      → ciba_await c fuel initiated start ≡ some (outcome, rounds, w')
      → AwaitEnd (some (outcome, rounds, w'))
  ciba_await_paces fuel w' outcome rounds small h =
      subst AwaitEnd h (ciba_await-AwaitEnd fuel small)
