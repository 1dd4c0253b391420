-- ===== src/Oidc/Device/Composed.antt =====
-- The login of src/oidc/device.rs over its polls, and they over the runner of src/retry.rs.
use axiam_rust_sdk.Prelude.{
  ℕ, ◌+◌, ◌^◌, ◌≤◌, ◌≡◌, refl, Result, Result-cases, ok, err, String, Option, some, suc, arith, inl,
  inr,
}
use axiam_rust_sdk.Retry.{Fraction}
use axiam_rust_sdk.Retry.Run.{RetryRunner, Ended}
use axiam_rust_sdk.Retry.Attempts.{run_until_attempts}
use axiam_rust_sdk.Retry.Later.{Onward, run_until_later}
use axiam_rust_sdk.Oidc.Device.{DeviceAuthorization, PollFailure}
use axiam_rust_sdk.Oidc.Device.Poll.{Backend, send_poll, finish, runner_of, device_poll_step}
use axiam_rust_sdk.Oidc.Device.Login.{DeviceClient, retry_bound, device_login_with}
use axiam_rust_sdk.Oidc.Device.Ends.{HonestClock, Concludes, device_login_with-Concludes}

module _ {fr : Fraction} {W Wire T : Type 0} (c : DeviceClient W T) (b : Backend W Wire T)
    (r : RetryRunner fr W (Result Wire PollFailure)) where
  -- The client whose polls are those of the source: bounded by the deadline of the loop.
  unfoldable pub login_client : DeviceClient W T
  login_client = record c { poll = λ bound w. device_poll_step b r (some bound) w }

  -- A clock that a reading does not move, on which a wait lasts as long as it says at least, and which
  -- nothing turns back. A sum of an instant and a duration is the sum, where there is one.
  pub record SteadyClock (time : W → ℕ) : Type 0 where
    pub now_reads : (w : W) → c.now w ≡ (time w, w)
    pub sleep_lasts : (d : ℕ) (w : W) → time w + d ≤ time (c.sleep d w)
    pub adds : (t d until : ℕ) → c.checked_add t d ≡ some until → until ≡ t + d
    pub preparing : (w : W) → time w ≤ time (b.prepare w).1
    pub sending : (w : W) → time w ≤ time (b.send w).1
    pub making : (wire : Wire) (w : W) → time w ≤ time (b.to_token_set wire w).1
    pub telling : (n d : ℕ) (s : String) (w : W) → time w ≤ time (r.emit n d s w)
    pub drawing : (w : W) → time w ≤ time (r.fraction w).1

  module _ (time : W → ℕ) (clock : SteadyClock time) where
    send_poll_later : (n : ℕ) (w : W) → time w ≤ time (send_poll b n w).1
    unfolding send_poll
    send_poll_later n w = elim (Result-cases (b.send w).0) [
      | inl (response, e) ↦ rw (e, send_poll) (clock.sending w)
      | inr (kind, e) ↦ rw (e, send_poll) (clock.sending w)
    ]

    finish_later :
        (t : ℕ) (result : Result (Result Wire PollFailure) Ended) (w : W)
        → t ≤ time w
        → t ≤ time (finish b result w).1
    unfolding finish
    finish_later t (err ended) w h = h
    finish_later t (ok (err failure)) w h = h
    finish_later t (ok (ok wire)) w h = elim (Result-cases (b.to_token_set wire w).0) [
      | inl (tokens, e) ↦ rw (e, finish) (omega (arith, clock.making wire w))
      | inr (failed, e) ↦ rw (e, finish) (omega (arith, clock.making wire w))
    ]

    runner-Onward : (deadline : ℕ) → Onward (runner_of b r) (retry_bound c deadline) time
    unfolding runner_of retry_bound
    runner-Onward deadline = record {
      reading = λ w. rw (clock.now_reads w) (omega arith);
      waiting = λ d w. omega (arith, clock.sleep_lasts d w);
      telling = clock.telling;
      drawing = clock.drawing;
      calling = send_poll_later;
    }

    abbrev Answers : W → Option (Result T PollFailure × W) → Type 0
    Answers w x =
        (answer : Result T PollFailure) × (w' : W) × (x ≡ some (answer, w')) × (time w ≤ time w')

    device_poll_step-Answers :
        (deadline : ℕ) (w : W) → Answers w (device_poll_step b r (some (retry_bound c deadline)) w)
    unfolding device_poll_step
    device_poll_step-Answers deadline w = elim (Result-cases (b.prepare w).0) [
      | inr (e, h) ↦ rw (h, device_poll_step) (_, _, refl, clock.preparing w)
      | inl (_, h) ↦
          let w' = (b.prepare w).1 in
          let (result, w'', _, ran, _, _, _) =
            run_until_attempts (runner_of b r) (some (retry_bound c deadline)) w' in
          let later =
            run_until_later (runner_of b r) (retry_bound c deadline) time w' result w''
              (runner-Onward deadline) ran in
          rw (h, device_poll_step)
            (rw (ran, device_poll_step)
              (
                _,
                _,
                refl,
                finish_later (time w) result w''.outside (omega (arith, later, clock.preparing w)),
              ))
    ]

    login_client-HonestClock : HonestClock login_client time
    unfolding login_client retry_bound
    login_client-HonestClock = record {
      now_reads = clock.now_reads;
      sleep_lasts = clock.sleep_lasts;
      adds = clock.adds;
      polls = device_poll_step-Answers;
    }

    -- On such a clock a login comes to an end, its polls with their retries included, within one turn
    -- of its loop for each second that the grant is valid for, and one more: where the grant is valid
    -- for less than 2 ^ 64 - 4 seconds.
    pub login_client-Concludes :
        (n : ℕ) (w : W)
        → n + 5 ≤ 2 ^ 64
        → ((given : W) (a : DeviceAuthorization) → (c.authorize given).0 ≡ ok a → a.expires_in ≤ n)
        → Concludes (device_login_with login_client (suc n) w)
    unfolding login_client
    login_client-Concludes n w few short =
        device_login_with-Concludes login_client time login_client-HonestClock n w few short
