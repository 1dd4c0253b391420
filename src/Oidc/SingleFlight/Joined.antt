-- ===== src/Oidc/SingleFlight/Joined.antt =====
-- An election of src/oidc/single_flight.rs keeps the invariant: a new leader, and a waiter.
use axiam_rust_sdk.Prelude.{
  ℕ, ◌<◌, ◌≡◌, refl, sym, ap, subst, ◌∙◌, ◌⊎◌, inl, inr, false, Option, none, some, Result, nat_eq,
  Bool-cases, arith, of_some,
}
use axiam_rust_sdk.Error.{AxiamError}
use axiam_rust_sdk.Oidc.SingleFlight.{
  update, OidcRefreshState, running, settled, cancelled, OidcRefreshInflight, waiter, is_joinable,
  install, elect_slot, elect,
}
use axiam_rust_sdk.Oidc.SingleFlight.Steps.{
  Caller, idle, leading, retiring, waiting, returned, dropped, System, start, join, finished,
}
use axiam_rust_sdk.Oidc.SingleFlight.Slot.{unequal}
use axiam_rust_sdk.Oidc.SingleFlight.Invariant.{
  update-cases, update-same, update-other, Works, Inv, Aside, Inv-Aside,
}

module _ {T : Type 0} where
  -- Nothing in the slot runs.
  abbrev Vacant : OidcRefreshInflight T → Type 0
  Vacant s = (p : ℕ) → s.slot ≡ some p → s.states p ≡ running → ⊥

  spent : (state : OidcRefreshState T) → is_joinable state ≡ false → state ≡ running → ⊥
  unfolding is_joinable
  spent running over h = cc over
  spent (settled outcome) over h = cc h
  spent cancelled over h = cc h

  elect_slot_cases :
      (s : OidcRefreshInflight T) (o : Option ℕ)
      → s.slot ≡ o
      → ((p : ℕ) × (s.slot ≡ some p) × (elect_slot s o ≡ (waiter p, s)))
        ⊎ (Vacant s × (elect_slot s o ≡ install s))
  unfolding elect_slot
  elect_slot_cases s none empty = inr (λ p h _. cc (empty, h), refl)
  elect_slot_cases s (some p) held = elim (Bool-cases (is_joinable (s.states p))) [
    | inl joinable ↦ inl (p, held, rw joinable refl)
    | inr over ↦ inr (
      λ q h runs. spent (s.states p) over (ap s.states (of_some (sym held ∙ h)) ∙ runs),
      rw over refl,
    )
  ]

  pub elect_cases :
      (s : OidcRefreshInflight T)
      → ((p : ℕ) × (s.slot ≡ some p) × (elect s ≡ (waiter p, s)))
        ⊎ (Vacant s × (elect s ≡ install s))
  unfolding elect
  elect_cases s = elect_slot_cases s s.slot refl

  leads_one : {p q : ℕ} → ◌≡◌ {A = Caller T} (leading p) (leading q) → p ≡ q
  leads_one e = cc e

  idle-Aside : (next : ℕ) → Aside {T = T} idle next
  idle-Aside next = record {
    leads = λ p h. cc h;
    retires = λ p r h. cc h;
    joined = λ p h. absurd (cc h);
  }

  pub waiting-Aside : (p next : ℕ) → p < next → Aside {T = T} (waiting p) next
  waiting-Aside p next b = record {
    leads = λ q h. cc h;
    retires = λ q r h. cc h;
    joined = λ q h. ground (arith, b, h);
  }

  pub finished-Aside : (r : Option (Result T AxiamError)) (next : ℕ) → Aside (finished r) next
  unfolding finished
  finished-Aside none next = record {
    leads = λ p h. cc h;
    retires = λ p r h. cc h;
    joined = λ p h. absurd (cc h);
  }
  finished-Aside (some x) next = record {
    leads = λ p h. cc h;
    retires = λ p r h. cc h;
    joined = λ p h. absurd (cc h);
  }

  pub returned-Aside : (x : Result T AxiamError) (next : ℕ) → Aside (returned x) next
  returned-Aside x next = record {
    leads = λ p h. cc h;
    retires = λ p r h. cc h;
    joined = λ p h. absurd (cc h);
  }

  pub dropped-Aside : (next : ℕ) → Aside {T = T} dropped next
  dropped-Aside next = record {
    leads = λ p h. cc h;
    retires = λ p r h. cc h;
    joined = λ p h. absurd (cc h);
  }

  pub Inv-start : Inv {T = T} start
  Inv-start = record {
    led = λ i p h. absurd (cc h);
    retires = λ i p r h. absurd (cc h);
    runs = λ p b h. absurd (omega (arith, b));
    slotted = λ p h. absurd (cc h);
    waits = λ i p h. absurd (cc h);
    shares = λ p o b h. absurd (cc h);
  }

  -- A new leader, where nothing in the slot runs.
  pub Inv-install :
      (s : System T) (i : ℕ)
      → Inv s
      → Vacant s.inflight
      → s.callers i ≡ idle
      → Inv (join i (install s.inflight) s)
  unfolding join install
  Inv-install s i inv vacant at = record {
    led = λ j p h. elim (update-cases s.callers i j (leading s.inflight.next)) [
      | inl (same, e) ↦
          let new = leads_one (sym e ∙ h) in
          (
            ap some new,
            subst (λ (q : ℕ). update s.inflight.states s.inflight.next running q ≡ running) new
                (update-same s.inflight.states s.inflight.next running),
            subst (λ (q : ℕ). update s.owner s.inflight.next i q ≡ i) new
                  (update-same s.owner s.inflight.next i)
                ∙ same,
          )
      | inr (_, e) ↦ absurd (vacant p (inv.led j p (sym e ∙ h)).0 (inv.led j p (sym e ∙ h)).1)
    ];
    retires = λ j p r h. elim (update-cases s.callers i j (leading s.inflight.next)) [
      | inl (_, e) ↦ absurd (cc (e, h))
      | inr (_, e) ↦
          let (b, own) = inv.retires j p r (sym e ∙ h) in (omega (arith, b), ground (arith, b, own))
    ];
    runs = λ p b h. elim (update-cases s.inflight.states s.inflight.next p running) [
      | inl (same, _) ↦
          subst
            (λ (q : ℕ).
              update s.callers i (leading s.inflight.next) (update s.owner s.inflight.next i q)
              ≡ leading q)
            same
            (rw (update-same s.owner s.inflight.next i)
              (update-same s.callers i (leading s.inflight.next)))
      | inr (apart, e) ↦
          let lead = inv.runs p (ground (arith, b, apart)) (sym e ∙ h) in
          absurd (vacant p (inv.led (s.owner p) p lead).0 (inv.led (s.owner p) p lead).1)
    ];
    slotted = λ p h. (
      ground (arith, h),
      subst
          (λ (q : ℕ).
            Works
              (update s.callers i (leading s.inflight.next) (update s.owner s.inflight.next i q)) q)
          (of_some h)
          (rw (update-same s.owner s.inflight.next i)
            (inl (update-same s.callers i (leading s.inflight.next)))),
    );
    waits = λ j p h. elim (update-cases s.callers i j (leading s.inflight.next)) [
      | inl (_, e) ↦ absurd (cc (e, h))
      | inr (_, e) ↦ omega (arith, inv.waits j p (sym e ∙ h))
    ];
    shares = λ p o b h. elim (update-cases s.inflight.states s.inflight.next p running) [
      | inl (_, e) ↦ absurd (cc (e, h))
      | inr (apart, e) ↦
          let (r, given, same) = inv.shares p o (ground (arith, b, apart)) (sym e ∙ h) in
          (r, update-other s.answers s.inflight.next p none apart ∙ given, same)
    ];
  }

  pub retires_one :
      {p q : ℕ} {a b : Option (Result T AxiamError)}
      → ◌≡◌ {A = Caller T} (retiring p a) (retiring q b)
      → p ≡ q
  retires_one e = cc e

  no_longer :
      (callers : ℕ → Caller T) (i j p q : ℕ) (r : Option (Result T AxiamError))
      → callers i ≡ retiring p r
      → nat_eq q p ≡ false
      → i ≡ j
      → Works (callers j) q
      → ⊥
  no_longer callers i j p q r at apart same (inl lead) =
      absurd (cc (sym at ∙ ap callers same ∙ lead))
  no_longer callers i j p q r at apart same (inr (x, ret)) =
      unequal q p apart (sym (retires_one (sym at ∙ ap callers same ∙ ret)))

  pub still-Works :
      (callers : ℕ → Caller T) (i j p q : ℕ) (r : Option (Result T AxiamError))
      → callers i ≡ retiring p r
      → nat_eq q p ≡ false
      → Works (callers j) q
      → Works (update callers i (finished r) j) q
  still-Works callers i j p q r at apart works = elim (update-cases callers i j (finished r)) [
    | inr (_, e) ↦ rw e works
    | inl (same, _) ↦ absurd (no_longer callers i j p q r at apart same works)
  ]

  pub Inv-waiter :
      (s : System T) (i p : ℕ)
      → Inv s
      → s.callers i ≡ idle
      → p < s.inflight.next
      → Inv (join i (waiter p, s.inflight) s)
  unfolding join
  Inv-waiter s i p inv at b =
      Inv-Aside s i (waiting p) inv (rw at (idle-Aside s.inflight.next))
        (waiting-Aside p s.inflight.next b)
