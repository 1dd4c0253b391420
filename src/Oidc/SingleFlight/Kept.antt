-- ===== src/Oidc/SingleFlight/Kept.antt =====
-- Every step of the callers of src/oidc/single_flight.rs keeps the invariant.
use axiam_rust_sdk.Prelude.{
  ℕ, ◌<◌, ◌≡◌, refl, sym, ap, subst, ◌∙◌, inl, inr, false, Option, none, some, Result, nat_eq,
  of_some,
}
use axiam_rust_sdk.Error.{AxiamError}
use axiam_rust_sdk.Oidc.SingleFlight.{
  update, OidcRefreshState, running, settled, cancelled, elect, publish_state, retire, shared,
  waiter_result,
}
use axiam_rust_sdk.Oidc.SingleFlight.Steps.{
  idle, leading, retiring, returned, dropped, System, join, finished, Step, elected, answered,
  abandoned, retired, woken, left, Reach, at_start, later,
}
use axiam_rust_sdk.Oidc.SingleFlight.Slot.{distinct_owner, unequal, retire_other, retire_kept}
use axiam_rust_sdk.Oidc.SingleFlight.Invariant.{
  update-cases, update-same, update-other, Works, Inv, Inv-Aside,
}
use axiam_rust_sdk.Oidc.SingleFlight.Joined.{
  elect_cases, waiting-Aside, finished-Aside, returned-Aside, dropped-Aside, Inv-start, Inv-install,
  retires_one, still-Works, Inv-waiter,
}

module _ {T : Type 0} where
  -- A leader that publishes the last state of its publication.
  Inv-publish :
      (s : System T) (i p : ℕ) (state : OidcRefreshState T) (r : Option (Result T AxiamError))
      (answers : ℕ → Option (Result T AxiamError))
      → Inv s
      → s.callers i ≡ leading p
      → (state ≡ running → ⊥)
      → ((q : ℕ) → nat_eq p q ≡ false → answers q ≡ s.answers q)
      → ((o : Result T AxiamError)
          → state ≡ settled o
          → (x : Result T AxiamError) × (answers p ≡ some x) × (o ≡ shared x))
      → Inv (record s {
        inflight = publish_state p state s.inflight;
        callers = update s.callers i (retiring p r);
        answers = answers;
      })
  unfolding publish_state
  Inv-publish s i p state r answers inv at over others given =
      let mine = inv.led i p at in
      record {
        led = λ j q h. elim (update-cases s.callers i j (retiring p r)) [
          | inl (_, e) ↦ absurd (cc (e, h))
          | inr (apart, e) ↦
              let theirs = inv.led j q (sym e ∙ h) in
              absurd (
                distinct_owner s.owner i j p q apart mine.2 theirs.2
                  (of_some (sym mine.0 ∙ theirs.0)))
        ];
        retires = λ j q x h. elim (update-cases s.callers i j (retiring p r)) [
          | inl (same, e) ↦
              let pq = retires_one (sym e ∙ h) in
              (
                subst (λ (n : ℕ). n < s.inflight.next) pq (inv.slotted p mine.0).0,
                subst (λ (n : ℕ). s.owner n ≡ j) pq (mine.2 ∙ same),
              )
          | inr (_, e) ↦ inv.retires j q x (sym e ∙ h)
        ];
        runs = λ q b h. elim (update-cases s.inflight.states p q state) [
          | inl (_, e) ↦ absurd (over (sym e ∙ h))
          | inr (apart, e) ↦
              let lead = inv.runs q b (sym e ∙ h) in
              let held = (inv.led (s.owner q) q lead).0 in
              absurd (unequal p q apart (of_some (sym mine.0 ∙ held)))
        ];
        slotted = λ q h.
            let pq = of_some (sym mine.0 ∙ h) in
            (
              (inv.slotted q h).0,
              subst (λ (n : ℕ). Works (update s.callers i (retiring p r) (s.owner n)) n) pq
                  (rw mine.2 (inr (r, update-same s.callers i (retiring p r)))),
            );
        waits = λ j q h. elim (update-cases s.callers i j (retiring p r)) [
          | inl (_, e) ↦ absurd (cc (e, h))
          | inr (_, e) ↦ inv.waits j q (sym e ∙ h)
        ];
        shares = λ q o b h. elim (update-cases s.inflight.states p q state) [
          | inl (same, e) ↦
              let (x, got, share) = given o (sym e ∙ h) in
              (x, subst (λ (n : ℕ). answers n ≡ some x) same got, share)
          | inr (apart, e) ↦
              let (x, got, share) = inv.shares q o b (sym e ∙ h) in (x, others q apart ∙ got, share)
        ];
      }

  -- A caller that retires its publication.
  Inv-retire :
      (s : System T) (i p : ℕ) (r : Option (Result T AxiamError))
      → Inv s
      → s.callers i ≡ retiring p r
      → Inv (record s { inflight = retire p s.inflight; callers = update s.callers i (finished r) })
  unfolding retire
  Inv-retire s i p r inv at =
      let mine = inv.retires i p r at in
      let after = finished-Aside r s.inflight.next in
      record {
        led = λ j q h. elim (update-cases s.callers i j (finished r)) [
          | inl (_, e) ↦ absurd (after.leads q (sym e ∙ h))
          | inr (apart, e) ↦
              let theirs = inv.led j q (sym e ∙ h) in
              (
                retire_other p q s.inflight.slot
                    (λ same. distinct_owner s.owner i j p q apart mine.1 theirs.2 same) theirs.0,
                theirs.1,
                theirs.2,
              )
        ];
        retires = λ j q x h. elim (update-cases s.callers i j (finished r)) [
          | inl (_, e) ↦ absurd (after.retires q x (sym e ∙ h))
          | inr (_, e) ↦ inv.retires j q x (sym e ∙ h)
        ];
        runs = λ q b h. elim (update-cases s.callers i (s.owner q) (finished r)) [
          | inl (same, _) ↦ absurd (cc (sym at ∙ ap s.callers same ∙ inv.runs q b h))
          | inr (_, e) ↦ e ∙ inv.runs q b h
        ];
        slotted = λ q h.
            let (held, apart) = retire_kept p q s.inflight.slot h in
            let (b, works) = inv.slotted q held in
            (b, still-Works s.callers i (s.owner q) p q r at apart works);
        waits = λ j q h. elim (update-cases s.callers i j (finished r)) [
          | inl (_, e) ↦ after.joined q (sym e ∙ h)
          | inr (_, e) ↦ inv.waits j q (sym e ∙ h)
        ];
        shares = inv.shares;
      }

  Inv-join : (s : System T) (i : ℕ) → Inv s → s.callers i ≡ idle → Inv (join i (elect s.inflight) s)
  Inv-join s i inv at = elim (elect_cases s.inflight) [
    | inr (vacant, e) ↦ rw e (Inv-install s i inv vacant at)
    | inl (p, held, e) ↦ rw e (Inv-waiter s i p inv at (inv.slotted p held).0)
  ]

  pub Step-Inv : {s t : System T} → Step s t → Inv s → Inv t
  Step-Inv {s} (elected i at) inv = Inv-join s i inv at
  Step-Inv {s} (answered i p result at) inv =
      Inv-publish s i p (settled (shared result)) (some result) (update s.answers p (some result))
        inv at (λ h. cc h) (λ q apart. update-other s.answers p q (some result) apart)
        (λ o h. (result, update-same s.answers p (some result), cc h))
  Step-Inv {s} (abandoned i p at) inv =
      Inv-publish s i p cancelled none s.answers inv at (λ h. cc h) (λ q apart. refl)
        (λ o h. absurd (cc h))
  Step-Inv {s} (retired i p r at) inv = Inv-retire s i p r inv at
  Step-Inv {s} (woken i p answer at given) inv =
      Inv-Aside s i (returned (waiter_result answer)) inv
        (rw at (waiting-Aside p s.inflight.next (inv.waits i p at)))
        (returned-Aside (waiter_result answer) s.inflight.next)
  Step-Inv {s} (left i p at) inv =
      Inv-Aside s i dropped inv (rw at (waiting-Aside p s.inflight.next (inv.waits i p at)))
        (dropped-Aside s.inflight.next)

  pub Reach-Inv : {s : System T} → Reach s → Inv s
  Reach-Inv at_start = Inv-start
  Reach-Inv (later r step) = Step-Inv step (Reach-Inv r)
