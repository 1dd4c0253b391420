-- ===== src/Oidc/Device/Ends.antt =====
-- That the login of src/oidc/device.rs comes to an end.
use axiam_rust_sdk.Prelude.{
  ℕ, zero, suc, ◌+◌, ◌^◌, ◌<◌, ◌≤◌, ◌≡◌, refl, ap, inl, inr, Result, ok, err, ◌&&◌, Option, none,
  some, List, leb, arith, Bool-cases, Option-cases, Result-cases,
}
use axiam_rust_sdk.Retry.{secs}
use axiam_rust_sdk.Oidc.Device.{
  DeviceAuthorization, PollSchedule, new_schedule, slow_down, PollOutcome, pending, slowed,
  rate_limited, transient, terminal, PollFailure, classify_failure,
}
use axiam_rust_sdk.Oidc.Device.Login.{
  DeviceClient, Outcome, Round, Verdict, keep_on, give_up, is_none, verdict_of, verdict, LoopState,
  Turn, ends, goes_on, stuck, retry_bound, expired, after_verdict, after_poll, after_sleep,
  before_sleep, loop_turn, poll_loop, start, login_with, device_login_with,
}
use axiam_rust_sdk.Error.{oauth_error_code, is_retryable_transport}

-- A clock that a reading does not move, on which a wait lasts as long as it says at least, and a poll
-- comes back, not before it began. A sum of an instant and a duration is the sum, where there is one.
pub record HonestClock {W T : Type 0} (c : DeviceClient W T) (time : W → ℕ) : Type 0 where
  pub now_reads : (w : W) → c.now w ≡ (time w, w)
  pub sleep_lasts : (d : ℕ) (w : W) → time w + d ≤ time (c.sleep d w)
  pub adds : (t d until : ℕ) → c.checked_add t d ≡ some until → until ≡ t + d
  pub polls :
      (deadline : ℕ) (w : W)
      → (answer : Result T PollFailure) × (w' : W) × (c.poll (retry_bound c deadline) w
          ≡ some (answer, w'))
        × (time w ≤ time w')

-- The code comes back.
abbrev pub Concludes : {W T : Type 0} → Option (Outcome T × List Round × W) → Type 0
Concludes {W} {T} x =
    (outcome : Outcome T) × (rounds : List Round) × (w : W) × (x ≡ some (outcome, rounds, w))

-- What a verdict keeps of an interval: it is no shorter.
abbrev NoShorter : PollSchedule → Verdict → Type 0
NoShorter s (keep_on s' floor) = s.interval_secs ≤ s'.interval_secs
NoShorter s (give_up e) = Unit

verdict_of-NoShorter :
    (o : PollOutcome) (s : PollSchedule) (f : PollFailure)
    → s.interval_secs + 5 < 2 ^ 64
    → NoShorter s (verdict_of o s f)
unfolding verdict_of slow_down
verdict_of-NoShorter pending s f small = omega arith
verdict_of-NoShorter transient s f small = omega arith
verdict_of-NoShorter slowed s f small = omega arith
verdict_of-NoShorter rate_limited s f small = omega arith
verdict_of-NoShorter terminal s f small =
    elim (Bool-cases (is_none (oauth_error_code f.err) && is_retryable_transport f.err)) [
      | inl silent ↦ rw silent (omega arith)
      | inr answered ↦ rw answered tt
    ]

module _ {W T : Type 0} (c : DeviceClient W T) (time : W → ℕ) (clock : HonestClock c time)
    (deadline : ℕ) where
  -- With `k` seconds left at most, a turn ends the loop, or leaves a second less.
  abbrev Shrinks : ℕ → Turn W T → Type 0
  Shrinks k (ends outcome rounds w) = Unit
  Shrinks k (goes_on s) =
      (0 < s.schedule.interval_secs) × (0 < k) × (deadline + secs 1 ≤ time s.world + secs k)
  Shrinks k stuck = ⊥

  module _ (k : ℕ) (few : k + 5 ≤ 2 ^ 64) (s : LoopState W)
      (positive : 0 < s.schedule.interval_secs) (wait_secs : ℕ)
      (long : s.schedule.interval_secs ≤ wait_secs) (short : wait_secs < k) where
    after_verdict-Shrinks :
        (v : Verdict) (rounds : List Round) (w : W)
        → NoShorter s.schedule v
        → deadline + secs 1 ≤ time w + secs k
        → Shrinks k (after_verdict c deadline v rounds w)
    unfolding after_verdict
    after_verdict-Shrinks (keep_on s' floor) rounds w longer left = (omega arith, omega arith, left)
    after_verdict-Shrinks (give_up e) rounds w longer left = tt

    after_poll-Shrinks :
        (t : ℕ) (answer : Result T PollFailure) (w : W)
        → deadline + secs 1 ≤ time w + secs k
        → Shrinks k (after_poll c deadline s wait_secs t (some (answer, w)))
    unfolding after_poll verdict
    after_poll-Shrinks t (ok tokens) w left = tt
    after_poll-Shrinks t (err failure) w left =
        after_verdict-Shrinks _ _ w
          (verdict_of-NoShorter (classify_failure failure) s.schedule failure (omega arith)) left

    after_sleep-Shrinks :
        (w : W)
        → deadline + secs 1 ≤ time w + secs k
        → Shrinks k (after_sleep c deadline s wait_secs w)
    unfolding after_sleep expired
    after_sleep-Shrinks w left = elim (Bool-cases (leb deadline (time w))) [
      | inl late ↦ rw (clock.now_reads w) (rw late tt)
      | inr early ↦
          let (answer, w', comes, later) = clock.polls deadline w in
          rw (clock.now_reads w) (
            rw early
              (rw (comes) (after_poll-Shrinks (time w) answer w' (omega (arith, later, left)))))
    ]

  module _ (k : ℕ) (few : k + 5 ≤ 2 ^ 64) (s : LoopState W)
      (positive : 0 < s.schedule.interval_secs) where
    before_sleep-Shrinks :
        (wait_secs : ℕ) (until : Option ℕ) (w : W)
        → s.schedule.interval_secs ≤ wait_secs
        → deadline ≤ time w + secs k
        → ((u : ℕ) → until ≡ some u → u ≡ time w + secs wait_secs)
        → Shrinks k (before_sleep c deadline s wait_secs until w)
    unfolding before_sleep expired
    before_sleep-Shrinks wait_secs none w long left sum = tt
    before_sleep-Shrinks wait_secs (some u) w long left sum = elim (Bool-cases (leb deadline u)) [
      | inl late ↦ rw late tt
      | inr early ↦
          let at : u ≡ time w + secs wait_secs = sum u refl in
          let before : u < deadline = ground (arith, early) in
          rw early (
            after_sleep-Shrinks k few s positive wait_secs long (omega arith)
              (c.sleep (secs wait_secs) w) (omega (arith, clock.sleep_lasts (secs wait_secs) w)))
    ]

    loop_turn-Shrinks : deadline ≤ time s.world + secs k → Shrinks k (loop_turn c deadline s)
    unfolding loop_turn
    loop_turn-Shrinks left =
        rw (clock.now_reads s.world)
          (before_sleep-Shrinks _ _ s.world (omega arith) left (λ u. clock.adds _ _ u))

  poll_loop-Concludes :
      (k : ℕ) (s : LoopState W)
      → k + 5 ≤ 2 ^ 64
      → 0 < s.schedule.interval_secs
      → deadline ≤ time s.world + secs k
      → Concludes (poll_loop c deadline (suc k) s)
  unfolding poll_loop
  poll_loop-Concludes zero s few positive left =
      go (loop_turn c deadline s) refl (loop_turn-Shrinks zero few s positive left)
    where
      go :
          (turn : Turn W T)
          → loop_turn c deadline s ≡ turn
          → Shrinks zero turn
          → Concludes (poll_loop c deadline (suc zero) s)
      go (ends outcome rounds w) e p = rw (e, poll_loop) (outcome, rounds, w, refl)
      go (goes_on s') e (_, some_left, _) = absurd (omega (arith, some_left))
      go stuck e p = elim p [ ]
  poll_loop-Concludes (suc k) s few positive left =
      go (loop_turn c deadline s) refl (loop_turn-Shrinks (suc k) few s positive left)
        (poll_loop-Concludes k)
    where
      go :
          (turn : Turn W T)
          → loop_turn c deadline s ≡ turn
          → Shrinks (suc k) turn
          → ((s' : LoopState W)
              → k + 5 ≤ 2 ^ 64
              → 0 < s'.schedule.interval_secs
              → deadline ≤ time s'.world + secs k
              → Concludes (poll_loop c deadline (suc k) s'))
          → Concludes (poll_loop c deadline (suc (suc k)) s)
      go (ends outcome rounds w) e p rest = rw (e, poll_loop) (outcome, rounds, w, refl)
      go (goes_on s') e (positive', _, left') rest =
          rw (e, poll_loop) (rest s' (omega arith) positive' (omega arith))
      go stuck e p rest = elim p [ ]

positive-new_schedule :
    (interval expires_in : ℕ) → 0 < (new_schedule interval expires_in).interval_secs
unfolding new_schedule
positive-new_schedule interval expires_in = ground arith

module _ {W T : Type 0} (c : DeviceClient W T) (time : W → ℕ) (clock : HonestClock c time) where
  positive-start : (a : DeviceAuthorization) (w : W) → 0 < (start c a w).schedule.interval_secs
  unfolding start
  positive-start a w = positive-new_schedule a.interval a.expires_in

  in_time :
      {n : ℕ} (a : DeviceAuthorization) (w : W) (deadline : ℕ)
      → c.checked_add (c.now w).0 (secs a.expires_in) ≡ some deadline
      → a.expires_in ≤ n
      → deadline ≤ time (start c a (c.now w).1).world + secs n
  unfolding start
  in_time a w deadline anchored short =
      let reads : (c.now w).0 ≡ time w = ap (λ r. r.0) (clock.now_reads w) in
      let keeps : time (c.now w).1 ≡ time w = ap (λ r. time r.1) (clock.now_reads w) in
      omega (arith, clock.adds (c.now w).0 (secs a.expires_in) deadline anchored)

  login_with-Concludes :
      (n : ℕ) (a : DeviceAuthorization) (w : W)
      → n + 5 ≤ 2 ^ 64
      → a.expires_in ≤ n
      → Concludes (login_with c (suc n) a w)
  unfolding login_with
  login_with-Concludes n a w few short =
      let w' = c.on_user_code a w in
      elim (Option-cases (c.checked_add (c.now w').0 (secs a.expires_in))) [
        | inl over ↦ rw (over, login_with) (_, _, _, refl)
        | inr (deadline, anchored) ↦
            rw (anchored, login_with)
              (poll_loop-Concludes c time clock deadline n (start c a (c.now w').1) few
                (positive-start a (c.now w').1) (in_time a w' deadline anchored short))
      ]

  -- A login comes to an end within one turn of its loop for each second that the grant is valid for,
  -- and one more: on a clock that is honest, where the grant is valid for less than 2 ^ 64 - 4 seconds.
  pub device_login_with-Concludes :
      (n : ℕ) (w : W)
      → n + 5 ≤ 2 ^ 64
      → ((given : W) (a : DeviceAuthorization) → (c.authorize given).0 ≡ ok a → a.expires_in ≤ n)
      → Concludes (device_login_with c (suc n) w)
  unfolding device_login_with
  device_login_with-Concludes n w few short = elim (Result-cases (c.discover w).0) [
    | inr (e, h) ↦ rw (h, device_login_with) (_, _, _, refl)
    | inl (_, h) ↦ elim (Result-cases (c.authorize (c.discover w).1).0) [
      | inr (e, h') ↦ rw (h, device_login_with) (rw (h', device_login_with) (_, _, _, refl))
      | inl (a, h') ↦
          rw (h, device_login_with)
            (rw (h', device_login_with)
              (login_with-Concludes n a _ few (short (c.discover w).1 a h')))
    ]
  ]
