-- ===== src/Oidc/SingleFlight/Examples.antt =====
-- Two callers of `oidc_refresh`: the first leads, the second waits for it.
use axiam_rust_sdk.Prelude.{ℕ, ◌≡◌, refl, String, some, Result, ok}
use axiam_rust_sdk.Error.{AxiamError}
use axiam_rust_sdk.Oidc.SingleFlight.{update, settled, elect, publish_state, shared, wait}
use axiam_rust_sdk.Oidc.SingleFlight.Steps.{
  Caller, leading, waiting, retiring, System, start, join, elected, answered, Reach, at_start,
  later,
}
use axiam_rust_sdk.Oidc.SingleFlight.Safety.{one_leader, waiter_shares}

abbrev first : System String
first = join 0 (elect start.inflight) start

abbrev both : System String
both = join 1 (elect first.inflight) first

first-leads : first.callers 0 ≡ leading 0
unfolding join elect
first-leads = refl

both-leads : both.callers 0 ≡ leading 0
unfolding join elect
both-leads = refl

both-held : both.inflight.slot ≡ some 0
unfolding join elect
both-held = refl

second-idle : first.callers 1 ≡ Caller.idle
unfolding join elect
second-idle = refl

reach_both : Reach both
reach_both = later (later at_start (elected 0 refl)) (elected 1 second-idle)

abbrev done : System String
done = record both {
  inflight = publish_state 0 (settled (shared (ok "token"))) both.inflight;
  callers = update both.callers 0 (retiring 0 (some (ok "token")));
  answers = update both.answers 0 (some (ok "token"));
}

reach_done : Reach done
reach_done = later reach_both (answered 0 0 (ok "token") both-leads)

done-waits : done.callers 1 ≡ waiting 0
unfolding join elect
done-waits = refl

done-given : wait 0 done.inflight ≡ some (ok (ok "token"))
unfolding wait publish_state shared
done-given = refl

one_leader_example : ◌≡◌ {A = ℕ} 0 0
one_leader_example = one_leader reach_both 0 0 0 0 both-leads both-leads

waiter_shares_example :
    (result : Result String AxiamError) × (done.answers 0 ≡ some result)
    × (◌≡◌ {A = Result String AxiamError} (ok "token") (shared result))
waiter_shares_example = waiter_shares reach_done 1 0 (ok "token") done-waits done-given
