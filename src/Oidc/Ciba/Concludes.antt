-- ===== src/Oidc/Ciba/Concludes.antt =====
-- That `ciba_await` of src/oidc/ciba.rs comes to an end, and what it has done then.
use axiam_rust_sdk.Prelude.{
  ℕ, zero, suc, ◌+◌, ◌^◌, ◌<◌, ◌≤◌, ◌≡◌, refl, inl, inr, Result, Option, some, List, [], arith,
  Option-cases,
}
use axiam_rust_sdk.Retry.{Fraction, secs}
use axiam_rust_sdk.Retry.Run.{RetryRunner}
use axiam_rust_sdk.Oidc.Device.Poll.{Backend}
use axiam_rust_sdk.Oidc.Ciba.{
  CibaFailure, CibaClient, CibaInitiateResponse, Awaited, CibaRound, CibaTurn, ends, goes_on, stuck,
  await_turn, await_loop, first_interval, ciba_await,
}
use axiam_rust_sdk.Oidc.Ciba.Ends.{ciba_client, CibaTime, Shrinks, await_turn-Shrinks}
use axiam_rust_sdk.Oidc.Ciba.Paced.{AwaitEnd, ciba_await_paces}

-- The code comes back.
abbrev Concludes : {W T : Type 0} → Option (Awaited T × List CibaRound × W) → Type 0
Concludes {W} {T} x =
    (outcome : Awaited T) × (rounds : List CibaRound) × (w : W) × (x ≡ some (outcome, rounds, w))

module _ {fr : Fraction} {W Wire T : Type 0} (c : CibaClient W T) (b : Backend W Wire T)
    (r : RetryRunner fr W (Result Wire CibaFailure)) (time : W → ℕ)
    (clock : CibaTime c b r time) where
  abbrev loop : ℕ → ℕ → ℕ → List CibaRound → W → Option (Awaited T × List CibaRound × W)
  loop deadline fuel interval rounds w =
      await_loop (ciba_client c b r) deadline fuel interval rounds w

  await_loop-Concludes :
      (deadline k interval : ℕ) (rounds : List CibaRound) (w : W)
      → k + 5 ≤ 2 ^ 64
      → 0 < interval
      → deadline ≤ time w + secs k
      → Concludes (loop deadline (suc k) interval rounds w)
  unfolding await_loop
  await_loop-Concludes deadline zero interval rounds w few positive left =
      go (await_turn (ciba_client c b r) deadline interval rounds w) refl
        (await_turn-Shrinks c b r time clock deadline zero few interval positive rounds w left)
    where
      go :
          (turn : CibaTurn W T)
          → await_turn (ciba_client c b r) deadline interval rounds w ≡ turn
          → Shrinks c b r time clock deadline zero turn
          → Concludes (loop deadline (suc zero) interval rounds w)
      go (ends outcome rs w') e p = rw (e, await_loop) (outcome, rs, w', refl)
      go (goes_on i rs w') e (_, some_left, _) = absurd (omega (arith, some_left))
      go stuck e p = elim p [ ]
  await_loop-Concludes deadline (suc k) interval rounds w few positive left =
      go (await_turn (ciba_client c b r) deadline interval rounds w) refl
        (await_turn-Shrinks c b r time clock deadline (suc k) few interval positive rounds w left)
        (await_loop-Concludes deadline k)
    where
      go :
          (turn : CibaTurn W T)
          → await_turn (ciba_client c b r) deadline interval rounds w ≡ turn
          → Shrinks c b r time clock deadline (suc k) turn
          → ((i : ℕ) (rs : List CibaRound) (w' : W)
              → k + 5 ≤ 2 ^ 64
              → 0 < i
              → deadline ≤ time w' + secs k
              → Concludes (loop deadline (suc k) i rs w'))
          → Concludes (loop deadline (suc (suc k)) interval rounds w)
      go (ends outcome rs w') e p rest = rw (e, await_loop) (outcome, rs, w', refl)
      go (goes_on i rs w') e (positive', _, left') rest =
          rw (e, await_loop) (rest i rs w' (omega arith) positive' (omega arith))
      go stuck e p rest = elim p [ ]

  first_interval-positive : (i : ℕ) → 0 < first_interval i
  unfolding first_interval
  first_interval-positive i = ground arith

  adds : (t d until : ℕ) → (ciba_client c b r).checked_add t d ≡ some until → until ≡ t + d
  unfolding ciba_client
  adds = clock.adds

  module _ (initiated : CibaInitiateResponse) (n : ℕ) (w : W) (few : n + 5 ≤ 2 ^ 64)
      (valid : initiated.expires_in ≤ n) (received : initiated.received_at ≤ time w)
      (small : initiated.interval < 2 ^ 64) where
    ciba_await-Concludes : Concludes (ciba_await (ciba_client c b r) (suc n) initiated w)
    unfolding ciba_await
    ciba_await-Concludes =
        elim (Option-cases
          ((ciba_client c b r).checked_add initiated.received_at (secs initiated.expires_in))) [
            | inl over ↦ rw (over, ciba_await) (_, _, _, refl)
            | inr (deadline, anchored) ↦
                let at : deadline ≡ initiated.received_at + secs initiated.expires_in =
                  adds initiated.received_at (secs initiated.expires_in) deadline anchored in
                rw (anchored, ciba_await)
                  (await_loop-Concludes deadline n (first_interval initiated.interval) [] w few
                    (first_interval-positive initiated.interval) (omega arith))
          ]

    -- On a clock that a reading does not move, that a wait moves at least as far as it says, and that
    -- nothing turns back, a wait for a request comes to an end, its polls with their retries included,
    -- within one turn of its loop for each second that the request is valid for, and one more: where the
    -- request was received in the past and is valid for less than 2 ^ 64 - 4 seconds, and its interval
    -- is a `u64`. Where the deadline has no instant it panics before the first poll. Otherwise each poll
    -- was made after a reading of the clock by which the wait was to end before the deadline, and a sleep of
    -- the whole wait: the first interval with five seconds more for each `slow_down` before, in 64 bits.
    -- Tokens are what the last poll got; an error is that the next wait was not to end before the deadline,
    -- or the last poll's own, which is terminal; a panic, that the end of the next wait has no instant; no
    -- failure before was terminal.
    pub ciba_await_concludes :
        (outcome : Awaited T) × (rounds : List CibaRound) × (w' : W) × (ciba_await
            (ciba_client c b r)
            (suc n)
            initiated
            w
          ≡ some (outcome, rounds, w'))
        × AwaitEnd (ciba_client c b r) initiated w (some (outcome, rounds, w'))
    ciba_await_concludes =
        let (outcome, rounds, w', ends_so) = ciba_await-Concludes in
        (
          outcome,
          rounds,
          w',
          ends_so,
          ciba_await_paces (ciba_client c b r) initiated w (suc n) w' outcome rounds small ends_so,
        )
