-- ===== src/Oidc/Ciba/Ends.antt =====
-- That each turn of `ciba_await` of src/oidc/ciba.rs comes to an end, and nearer to the deadline.
use axiam_rust_sdk.Prelude.{
  ℕ, ◌+◌, ◌^◌, ◌<◌, ◌≤◌, ◌≡◌, refl, inl, inr, Result, Result-cases, String, ok, err, Option, none,
  some, List, leb, arith, Bool-cases,
}
use axiam_rust_sdk.Error.{AxiamError}
use axiam_rust_sdk.Retry.{Fraction, secs}
use axiam_rust_sdk.Retry.Run.{RetryBound, RetryRunner, Ended}
use axiam_rust_sdk.Retry.Attempts.{run_until_attempts}
use axiam_rust_sdk.Retry.Later.{Onward, run_until_later}
use axiam_rust_sdk.Oidc.Device.Poll.{Backend}
use axiam_rust_sdk.Oidc.Ciba.{
  CibaStep, pending, slowed, transient, terminal, CibaFailure, CibaClient, CibaRound, CibaTurn,
  ends, goes_on, stuck, send_ciba_poll, ciba_finish, ciba_poll_step, after_step, after_ciba_poll,
  before_wait, await_turn,
}

module _ {fr : Fraction} {W Wire T : Type 0} (c : CibaClient W T) (b : Backend W Wire T)
    (r : RetryRunner fr W (Result Wire CibaFailure)) where
  -- The client whose polls are those of the source: bounded by the deadline of the loop.
  unfoldable pub ciba_client : CibaClient W T
  ciba_client = record c { poll = λ bound w. ciba_poll_step b r (some bound) w }

  -- A clock that a reading does not move, on which a wait lasts as long as it says at least, and which
  -- nothing turns back. A sum of an instant and a duration is the sum, where there is one.
  pub record CibaTime (time : W → ℕ) : Type 0 where
    pub now_reads : (w : W) → c.now w ≡ (time w, w)
    pub sleep_lasts : (d : ℕ) (w : W) → time w + d ≤ time (c.sleep d w)
    pub adds : (t d until : ℕ) → c.checked_add t d ≡ some until → until ≡ t + d
    pub preparing : (w : W) → time w ≤ time (b.prepare w).1
    pub sending : (w : W) → time w ≤ time (b.send w).1
    pub making : (wire : Wire) (w : W) → time w ≤ time (b.to_token_set wire w).1
    pub telling : (n d : ℕ) (s : String) (w : W) → time w ≤ time (r.emit n d s w)
    pub drawing : (w : W) → time w ≤ time (r.fraction w).1

  module _ (time : W → ℕ) (clock : CibaTime time) where
    send_later : (n : ℕ) (w : W) → time w ≤ time (send_ciba_poll b n w).1
    unfolding send_ciba_poll
    send_later n w = elim (Result-cases (b.send w).0) [
      | inl (response, e) ↦ rw (e, send_ciba_poll) (clock.sending w)
      | inr (kind, e) ↦ rw (e, send_ciba_poll) (clock.sending w)
    ]

    finish_later :
        (t : ℕ) (result : Result (Result Wire CibaFailure) Ended) (w : W)
        → t ≤ time w
        → t ≤ time (ciba_finish b result w).1
    unfolding ciba_finish
    finish_later t (err ended) w h = h
    finish_later t (ok (err failure)) w h = h
    finish_later t (ok (ok wire)) w h = elim (Result-cases (b.to_token_set wire w).0) [
      | inl (tokens, e) ↦ rw (e, ciba_finish) (omega (arith, clock.making wire w))
      | inr (failed, e) ↦ rw (e, ciba_finish) (omega (arith, clock.making wire w))
    ]

    module _ (deadline : ℕ) where
      abbrev bound : RetryBound W
      bound = record { deadline = deadline; now = c.now; sleep = c.sleep }

      onward : Onward (record r { op = send_ciba_poll b }) bound time
      onward = record {
        reading = λ w. rw (clock.now_reads w) (omega arith);
        waiting = λ d w. omega (arith, clock.sleep_lasts d w);
        telling = clock.telling;
        drawing = clock.drawing;
        calling = send_later;
      }

      poll_answers :
          (w : W)
          → (answer : Result T CibaFailure) × (w' : W) × (ciba_poll_step b r (some bound) w
              ≡ some (answer, w'))
            × (time w ≤ time w')
      unfolding ciba_poll_step
      poll_answers w = elim (Result-cases (b.prepare w).0) [
        | inr (e, h) ↦ rw (h, ciba_poll_step) (_, _, refl, clock.preparing w)
        | inl (_, h) ↦
            let w' = (b.prepare w).1 in
            let (result, w'', _, ran, _, _, _) =
              run_until_attempts (record r { op = send_ciba_poll b }) (some bound) w' in
            let later =
              run_until_later (record r { op = send_ciba_poll b }) bound time w' result w'' onward
                ran in
            rw (h, ciba_poll_step)
              (rw (ran, ciba_poll_step)
                (
                  _,
                  _,
                  refl,
                  finish_later (time w) result w''.outside
                      (omega (arith, later, clock.preparing w)),
                ))
      ]

      -- With `k` seconds left at most, a turn ends the loop, or leaves a second less.
      abbrev pub Shrinks : ℕ → CibaTurn W T → Type 0
      Shrinks k (ends outcome rounds w) = Unit
      Shrinks k (goes_on interval rounds w) =
          (0 < interval) × (0 < k) × (deadline + secs 1 ≤ time w + secs k)
      Shrinks k stuck = ⊥

      module _ (k : ℕ) (few : k + 5 ≤ 2 ^ 64) (interval : ℕ) (positive : 0 < interval) where
        after_step-Shrinks :
            (step : CibaStep) (e : AxiamError) (rounds : List CibaRound) (w : W)
            → interval < k
            → deadline + secs 1 ≤ time w + secs k
            → Shrinks k (after_step ciba_client deadline step e interval rounds w)
        unfolding after_step
        after_step-Shrinks pending e rounds w short left = (positive, omega arith, left)
        after_step-Shrinks transient e rounds w short left = (positive, omega arith, left)
        after_step-Shrinks slowed e rounds w short left = (omega arith, omega arith, left)
        after_step-Shrinks terminal e rounds w short left = tt

        after_poll-Shrinks :
            (until : ℕ) (rounds : List CibaRound) (answer : Result T CibaFailure) (w : W)
            → interval < k
            → deadline + secs 1 ≤ time w + secs k
            → Shrinks k
                (after_ciba_poll ciba_client deadline interval until rounds (some (answer, w)))
        unfolding after_ciba_poll
        after_poll-Shrinks until rounds (ok tokens) w short left = tt
        after_poll-Shrinks until rounds (err failure) w short left =
            after_step-Shrinks failure.step failure.err _ w short left

        before_wait-Shrinks :
            (rounds : List CibaRound) (until : Option ℕ) (w : W)
            → deadline ≤ time w + secs k
            → ((u : ℕ) → until ≡ some u → u ≡ time w + secs interval)
            → Shrinks k (before_wait ciba_client deadline interval rounds until w)
        unfolding before_wait ciba_client
        before_wait-Shrinks rounds none w left sum = tt
        before_wait-Shrinks rounds (some u) w left sum = elim (Bool-cases (leb deadline u)) [
          | inl late ↦ rw late tt
          | inr early ↦
              let at : u ≡ time w + secs interval = sum u refl in
              let before : u < deadline = ground (arith, early) in
              let (answer, w', comes, later) = poll_answers (c.sleep (secs interval) w) in
              rw early (
                rw (comes) (
                  after_poll-Shrinks u rounds answer w' (omega arith)
                    (omega (arith, later, clock.sleep_lasts (secs interval) w))))
        ]

        pub await_turn-Shrinks :
            (rounds : List CibaRound) (w : W)
            → deadline ≤ time w + secs k
            → Shrinks k (await_turn ciba_client deadline interval rounds w)
        unfolding await_turn ciba_client
        await_turn-Shrinks rounds w left = rw (clock.now_reads w) (
            before_wait-Shrinks rounds (c.checked_add (time w) (secs interval)) w left
              (λ u. clock.adds (time w) (secs interval) u))
