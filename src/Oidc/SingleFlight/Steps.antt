-- ===== src/Oidc/SingleFlight/Steps.antt =====
-- Any number of concurrent calls of `oidc_refresh` in src/oidc/exchange.rs, over one slot of
-- src/oidc/single_flight.rs, interleaved in any order. An election, a publication, a retirement and a
-- wake-up are single steps; a publication and the retirement after it are two.
use axiam_rust_sdk.Prelude.{ℕ, ◌≡◌, Option, none, some, Result}
use axiam_rust_sdk.Error.{AxiamError}
use axiam_rust_sdk.Oidc.SingleFlight.{
  update, settled, cancelled, OidcRefreshInflight, new_inflight, OidcRefreshElection, leader,
  waiter, elect, publish_state, retire, shared, wait, waiter_result,
}

-- Where a caller stands.
pub data Caller (T : Type 0) : Type 0 where
  idle : Caller T
  leading : ℕ → Caller T  -- its request is under way
  retiring : ℕ → Option (Result T AxiamError) → Caller T  -- it has published, or cancelled
  waiting : ℕ → Caller T
  returned : Result T AxiamError → Caller T
  dropped : Caller T

-- Beside the slot and the callers, who was elected for a publication, and what its request answered.
pub record System (T : Type 0) : Type 0 where
  pub inflight : OidcRefreshInflight T
  pub callers : ℕ → Caller T
  pub owner : ℕ → ℕ
  pub answers : ℕ → Option (Result T AxiamError)

module _ {T : Type 0} where
  abbrev pub start : System T
  start = record {
    inflight = new_inflight;
    callers = λ i. idle;
    owner = λ p. 0;
    answers = λ p. none;
  }

  -- The caller `i` goes on by its election.
  unfoldable pub join : ℕ → OidcRefreshElection × OidcRefreshInflight T → System T → System T
  join i (leader p, inflight) s = record {
    inflight = inflight;
    callers = update s.callers i (leading p);
    owner = update s.owner p i;
    answers = update s.answers p none;
  }
  join i (waiter p, inflight) s = record s { callers = update s.callers i (waiting p) }

  unfoldable pub finished : Option (Result T AxiamError) → Caller T
  finished none = dropped
  finished (some result) = returned result

  pub data Step (s : System T) : System T → Type 0 where
    elected : (i : ℕ) → s.callers i ≡ idle → Step s (join i (elect s.inflight) s)
    answered :
        (i p : ℕ) (result : Result T AxiamError)
        → s.callers i ≡ leading p
        → Step s (record s {
          inflight = publish_state p (settled (shared result)) s.inflight;
          callers = update s.callers i (retiring p (some result));
          answers = update s.answers p (some result);
        })
    abandoned :
        (i p : ℕ)
        → s.callers i ≡ leading p
        → Step s (record s {
          inflight = publish_state p cancelled s.inflight;
          callers = update s.callers i (retiring p none);
        })
    retired :
        (i p : ℕ) (result : Option (Result T AxiamError))
        → s.callers i ≡ retiring p result
        → Step s (record s {
          inflight = retire p s.inflight;
          callers = update s.callers i (finished result);
        })
    woken :
        (i p : ℕ) (answer : Result (Result T AxiamError) Unit)
        → s.callers i ≡ waiting p
        → wait p s.inflight ≡ some answer
        → Step s (record s { callers = update s.callers i (returned (waiter_result answer)) })
    left :
        (i p : ℕ)
        → s.callers i ≡ waiting p
        → Step s (record s { callers = update s.callers i dropped })

  pub data Reach : System T → Type 0 where
    at_start : Reach start
    later : {s t : System T} → Reach s → Step s t → Reach t
