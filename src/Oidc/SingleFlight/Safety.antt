-- ===== src/Oidc/SingleFlight/Safety.antt =====
-- What the callers of `oidc_refresh` can rely on, in every interleaving.
use axiam_rust_sdk.Prelude.{ℕ, ◌≡◌, refl, sym, ap, ◌∙◌, some, Result, ok, of_some}
use axiam_rust_sdk.Error.{AxiamError}
use axiam_rust_sdk.Oidc.SingleFlight.{
  OidcRefreshState, running, settled, cancelled, OidcRefreshInflight, shared, wait,
}
use axiam_rust_sdk.Oidc.SingleFlight.Steps.{leading, waiting, System, Reach}
use axiam_rust_sdk.Oidc.SingleFlight.Kept.{Reach-Inv}

module _ {T : Type 0} where
  -- In every reachable state at most one caller has a request under way.
  pub one_leader :
      {s : System T}
      → Reach s
      → (i j p q : ℕ) → s.callers i ≡ leading p
      → s.callers j ≡ leading q
      → i ≡ j
  one_leader {s} r i j p q lead lead' =
      let inv = Reach-Inv r in
      let mine = inv.led i p lead in
      let theirs = inv.led j q lead' in
      sym mine.2 ∙ ap s.owner (of_some (sym mine.0 ∙ theirs.0)) ∙ theirs.2

  settled_of :
      (p : ℕ) (s : OidcRefreshInflight T) (state : OidcRefreshState T)
      (outcome : Result T AxiamError)
      → s.states p ≡ state
      → wait p s ≡ some (ok outcome)
      → s.states p ≡ settled outcome
  unfolding wait
  settled_of p s running outcome e h = absurd (cc (rw (e, wait) at h))
  settled_of p s (settled other) outcome e h = cc (e, rw (e, wait) at h)
  settled_of p s cancelled outcome e h = absurd (cc (rw (e, wait) at h))

  -- In every reachable state the outcome that a waiter is woken with is what the one request of its
  -- publication answered, copied for waiters.
  pub waiter_shares :
      {s : System T}
      → Reach s
      → (i p : ℕ) (outcome : Result T AxiamError) → s.callers i ≡ waiting p
      → wait p s.inflight ≡ some (ok outcome)
      → (result : Result T AxiamError) × (s.answers p ≡ some result) × (outcome ≡ shared result)
  waiter_shares {s} r i p outcome at given =
      let inv = Reach-Inv r in
      inv.shares p outcome (inv.waits i p at)
        (settled_of p s.inflight (s.inflight.states p) outcome refl given)
