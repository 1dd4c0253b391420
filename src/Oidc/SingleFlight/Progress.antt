-- ===== src/Oidc/SingleFlight/Progress.antt =====
-- That the callers of `oidc_refresh` are never stuck: whatever the request of a leader answers, its
-- waiters can return and its slot can be emptied.
use axiam_rust_sdk.Prelude.{
  ℕ, ◌≡◌, ◌≢◌, refl, inl, inr, Option, none, some, Result, ok, err, nat_eq_iff,
}
use axiam_rust_sdk.Error.{AxiamError}
use axiam_rust_sdk.Oidc.SingleFlight.{
  update, OidcRefreshState, running, settled, cancelled, publish_state, retire, retire_slot, shared,
  waiter_result,
}
use axiam_rust_sdk.Oidc.SingleFlight.Steps.{
  retiring, returned, System, finished, Step, answered, retired, Reach,
}
use axiam_rust_sdk.Oidc.SingleFlight.Invariant.{Works, update-same}
use axiam_rust_sdk.Oidc.SingleFlight.Kept.{Reach-Inv}

-- Some steps in a row.
pub data Goes {T : Type 0} (s : System T) : System T → Type 0 where
  here : Goes s s
  next : {t u : System T} → Goes s t → Step t u → Goes s u

retire_own : (p : ℕ) (o : Option ℕ) → o ≡ some p → retire_slot p o ≡ none
unfolding retire_slot
retire_own p none h = refl
retire_own p (some c) h = rw ((nat_eq_iff c p).1 (cc h)) refl

module _ {T : Type 0} where
  -- What a caller is given that waits for a refresh in this state, if a request under way answers so.
  abbrev pub given : OidcRefreshState T → Result T AxiamError → Result T AxiamError
  given running answer = waiter_result (ok (shared answer))
  given (settled outcome) answer = waiter_result (ok outcome)
  given cancelled answer = waiter_result (err tt)

  -- A request under way has answered so.
  abbrev pub Answers : OidcRefreshState T → ℕ → Result T AxiamError → System T → Type 0
  Answers running p answer t = t.answers p ≡ some answer
  Answers (settled outcome) p answer t = Unit
  Answers cancelled p answer t = Unit

  -- Callers other than these two are as they were.
  abbrev pub Others : System T → System T → ℕ → ℕ → Type 0
  Others s t i leader = (j : ℕ) → j ≢ i → j ≢ leader → t.callers j ≡ s.callers j

  -- The system can go on to one in which the caller has returned with what it is given, and no caller but
  -- it and its leader has changed.
  abbrev pub CanReturn : System T → ℕ → ℕ → Result T AxiamError → OidcRefreshState T → Type 0
  CanReturn s i p result state =
      (t : System T) × Goes s t
      × Answers state p result t
      × Others s t i (s.owner p)
      × (t.callers i ≡ returned (given state result))

  abbrev after_answer : System T → ℕ → Result T AxiamError → System T
  after_answer s p result = record s {
    inflight = publish_state p (settled (shared result)) s.inflight;
    callers = update s.callers (s.owner p) (retiring p (some result));
    answers = update s.answers p (some result);
  }

  abbrev pub CanEmpty : System T → Type 0
  CanEmpty s = (t : System T) × Goes s t × (t.inflight.slot ≡ none)

  retires :
      (s t : System T) (i p : ℕ) (r : Option (Result T AxiamError))
      → Goes s t
      → t.callers i ≡ retiring p r
      → t.inflight.slot ≡ some p
      → CanEmpty s
  unfolding retire
  retires s t i p r goes at held = (
    record t { inflight = retire p t.inflight; callers = update t.callers i (finished r) },
    next goes (retired i p r at),
    retire_own p t.inflight.slot held,
  )

  empties_of :
      (s : System T) (p : ℕ) (result : Result T AxiamError)
      → s.inflight.slot ≡ some p
      → Works (s.callers (s.owner p)) p
      → CanEmpty s
  unfolding publish_state
  empties_of s p result held (inr (r, at)) = retires s s (s.owner p) p r here at held
  empties_of s p result held (inl lead) =
      retires s (after_answer s p result) (s.owner p) p (some result)
        (next here (answered (s.owner p) p result lead))
        (update-same s.callers (s.owner p) (retiring p (some result))) held

  -- From every reachable state, whatever a request that is still under way will answer, the slot can be
  -- emptied, so that the next caller starts a fresh refresh.
  slot_empties :
      {s : System T}
      → Reach s
      → (p : ℕ) (result : Result T AxiamError) → s.inflight.slot ≡ some p
      → CanEmpty s
  slot_empties {s} r p result held = empties_of s p result held ((Reach-Inv r).slotted p held).1
