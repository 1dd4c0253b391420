-- ===== src/Oidc/Ciba/Spacing.antt =====
-- What a loop of polls in src/oidc/ciba.rs may do, written down without the loop: which waits come before
-- which polls, and how it may end.
use axiam_rust_sdk.Prelude.{
  ℕ, ◌+◌, ◌*◌, ◌%◌, ◌^◌, ◌<◌, ◌≤◌, ◌≡◌, ◌⊎◌, Result, ok, err, Option, none, some, List, [], ◌∷◌,
}
use axiam_rust_sdk.Retry.{secs}
use axiam_rust_sdk.Oidc.Ciba.{
  CibaStep, slowed, terminal, CibaFailure, expired_token, CibaClient, Awaited, returned, panicked,
  CibaRound,
}

abbrev pub slows : CibaStep → ℕ
slows slowed = 1
slows _ = 0

abbrev pub Goes : CibaStep → Type 0
Goes terminal = ⊥
Goes _ = Unit

-- How many polls were answered `slow_down`.
abbrev pub slow_downs : List CibaRound → ℕ
slow_downs [] = 0
slow_downs (round ∷ older) =
    elim round.failure [ none ↦ 0 | some f ↦ slows f.step ] + slow_downs older

-- Polls whose failures do not end the request.
abbrev pub AllGo : List CibaRound → Type 0
AllGo [] = Unit
AllGo (round ∷ older) = ((f : CibaFailure) × (round.failure ≡ some f) × Goes f.step) × AllGo older

-- The failure of a poll that was answered so.
abbrev pub failure_of : {T : Type 0} → Result T CibaFailure → Option CibaFailure
failure_of (ok tokens) = none
failure_of (err failure) = some failure

-- From `before` the loop got to `after` by one poll: the clock is read, and has the end of the wait
-- before the deadline; then it is slept for the whole wait, and the poll is made.
pub record Polled {W T : Type 0} (c : CibaClient W T) (deadline : ℕ) (round : CibaRound)
    (answer : Result T CibaFailure) (before after : W) : Type 0 where
  pub wait_ends : c.checked_add (c.now before).0 (secs round.waited) ≡ some round.until
  pub early : round.until < deadline
  pub polled :
      c.poll
        (record { deadline = deadline; now = c.now; sleep = c.sleep })
        (c.sleep (secs round.waited) (c.now before).1)
      ≡ some (answer, after)
  pub fails : round.failure ≡ failure_of answer

-- The seconds to wait after these polls: the first interval, with five more for each `slow_down`.
abbrev pub wait_after : ℕ → List CibaRound → ℕ
wait_after interval rounds = (interval + 5 * slow_downs rounds) % 2 ^ 64

-- From `start` the loop got to a world by these polls, each of them after the wait that
-- the polls before it lead to.
abbrev pub WellSpaced : {W T : Type 0} → CibaClient W T → ℕ → ℕ → W → List CibaRound → W → Type 0
WellSpaced c deadline interval start [] w = w ≡ start
WellSpaced {W} {T} c deadline interval start (round ∷ older) w =
    (before : W) × WellSpaced c deadline interval start older before
    × (round.waited ≡ wait_after interval older)
    × ((answer : Result T CibaFailure) × Polled c deadline round answer before w)

-- What the end of the loop says of its polls, and of the world that they led to.
abbrev pub Settled :
    {W T : Type 0} → CibaClient W T → ℕ → ℕ → Awaited T → List CibaRound → W → Type 0
Settled {W} c deadline interval (returned (ok tokens)) rounds last =
    (round : CibaRound) × (older : List CibaRound) × (before : W) × (rounds ≡ round ∷ older)
    × Polled c deadline round (ok tokens) before last
    × AllGo older
Settled c deadline interval (returned (err e)) rounds last =
    ((e ≡ expired_token)
      × ((until : ℕ) × (c.checked_add (c.now last).0 (secs (wait_after interval rounds))
            ≡ some until)
          × (deadline ≤ until))
      × AllGo rounds)
    ⊎ ((round : CibaRound) × (older : List CibaRound) × (f : CibaFailure) × (rounds ≡ round ∷ older)
        × (round.failure ≡ some f)
        × (f.step ≡ terminal)
        × (e ≡ f.err)
        × AllGo older)
Settled c deadline interval panicked rounds last =
    (c.checked_add (c.now last).0 (secs (wait_after interval rounds)) ≡ none) × AllGo rounds

-- An end after polls that are well spaced.
pub record SpacedEnding {W T : Type 0} (c : CibaClient W T) (deadline interval : ℕ) (start : W)
    (outcome : Awaited T) (rounds : List CibaRound) : Type 0 where
  pub last : W
  pub spaced : WellSpaced c deadline interval start rounds last
  pub settled : Settled c deadline interval outcome rounds last
