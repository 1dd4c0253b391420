-- ===== src/Oidc/SingleFlight/Invariant.antt =====
-- What holds of the slot of src/oidc/single_flight.rs and its callers in every reachable state.
use axiam_rust_sdk.Prelude.{
  ℕ, ◌<◌, ◌≡◌, refl, sym, ◌∙◌, ◌⊎◌, inl, inr, false, Option, some, Result, nat_eq, nat_eq_iff,
  Bool-cases,
}
use axiam_rust_sdk.Error.{AxiamError}
use axiam_rust_sdk.Oidc.SingleFlight.{update, running, settled, shared}
use axiam_rust_sdk.Oidc.SingleFlight.Steps.{Caller, leading, retiring, waiting, System}

-- An updated family at an index: the new value there, and the old one elsewhere.
pub update-cases {ℓ} :
    {A : Type ℓ} (f : ℕ → A) (i j : ℕ) (a : A)
    → ((i ≡ j) × (update f i a j ≡ a)) ⊎ ((nat_eq i j ≡ false) × (update f i a j ≡ f j))
update-cases f i j a = elim (Bool-cases (nat_eq i j)) [
  | inl same ↦ inl ((nat_eq_iff i j).0 same, rw same refl)
  | inr other ↦ inr (other, rw other refl)
]

pub update-same {ℓ} : {A : Type ℓ} (f : ℕ → A) (i : ℕ) (a : A) → update f i a i ≡ a
update-same f i a = rw ((nat_eq_iff i i).1 refl) refl

pub update-other {ℓ} :
    {A : Type ℓ} (f : ℕ → A) (i j : ℕ) (a : A) → nat_eq i j ≡ false → update f i a j ≡ f j
update-other f i j a other = rw other refl

module _ {T : Type 0} where
  -- A caller that works for a publication.
  abbrev pub Works : Caller T → ℕ → Type 0
  Works c p = (c ≡ leading p) ⊎ ((r : Option (Result T AxiamError)) × (c ≡ retiring p r))

  pub record Inv (s : System T) : Type 0 where
    -- A leader's publication is in the slot, it runs, and it is the leader's own.
    pub led :
        (i p : ℕ)
        → s.callers i ≡ leading p
        → (s.inflight.slot ≡ some p) × (s.inflight.states p ≡ running) × (s.owner p ≡ i)
    -- Who retires a publication was elected for it.
    pub retires :
        (i p : ℕ) (r : Option (Result T AxiamError))
        → s.callers i ≡ retiring p r
        → (p < s.inflight.next) × (s.owner p ≡ i)
    -- A publication that runs has its leader.
    pub runs :
        (p : ℕ)
        → p < s.inflight.next
        → s.inflight.states p ≡ running
        → s.callers (s.owner p) ≡ leading p
    -- What is in the slot has somebody to take it out.
    pub slotted :
        (p : ℕ) → s.inflight.slot ≡ some p → (p < s.inflight.next) × Works (s.callers (s.owner p)) p
    pub waits : (i p : ℕ) → s.callers i ≡ waiting p → p < s.inflight.next
    -- What is published is what the request answered.
    pub shares :
        (p : ℕ) (outcome : Result T AxiamError)
        → p < s.inflight.next
        → s.inflight.states p ≡ settled outcome
        → (r : Result T AxiamError) × (s.answers p ≡ some r) × (outcome ≡ shared r)

  -- A caller that moves from a place where it neither leads nor retires, to another such place.
  pub record Aside (c : Caller T) (next : ℕ) : Type 0 where
    pub leads : (p : ℕ) → c ≡ leading p → ⊥
    pub retires : (p : ℕ) (r : Option (Result T AxiamError)) → c ≡ retiring p r → ⊥
    pub joined : (p : ℕ) → c ≡ waiting p → p < next

  no_work : (f : ℕ → Caller T) (i j p : ℕ) {next : ℕ} → Aside (f i) next → i ≡ j → Works (f j) p → ⊥
  no_work f i j p old at (inl e) = old.leads p (rw at e)
  no_work f i j p old at (inr (r, e)) = old.retires p r (rw at e)

  Works-update :
      (f : ℕ → Caller T) (i j p : ℕ) {next : ℕ} (c : Caller T)
      → Aside (f i) next
      → Works (f j) p
      → Works (update f i c j) p
  Works-update f i j p c old w = elim (update-cases f i j c) [
    | inl (at, _) ↦ absurd (no_work f i j p old at w)
    | inr (_, e) ↦ rw e w
  ]

  pub Inv-Aside :
      (s : System T) (i : ℕ) (c : Caller T)
      → Inv s
      → Aside (s.callers i) s.inflight.next
      → Aside c s.inflight.next
      → Inv (record s { callers = update s.callers i c })
  Inv-Aside s i c inv old new = record {
    led = λ j p h. elim (update-cases s.callers i j c) [
      | inl (_, e) ↦ absurd (new.leads p (sym e ∙ h))
      | inr (_, e) ↦ inv.led j p (sym e ∙ h)
    ];
    retires = λ j p r h. elim (update-cases s.callers i j c) [
      | inl (_, e) ↦ absurd (new.retires p r (sym e ∙ h))
      | inr (_, e) ↦ inv.retires j p r (sym e ∙ h)
    ];
    runs = λ p b h. elim (update-cases s.callers i (s.owner p) c) [
      | inl (at, e) ↦ absurd (old.leads p (rw at (inv.runs p b h)))
      | inr (_, e) ↦ e ∙ inv.runs p b h
    ];
    slotted = λ p h.
        ((inv.slotted p h).0, Works-update s.callers i (s.owner p) p c old (inv.slotted p h).1);
    waits = λ j p h. elim (update-cases s.callers i j c) [
      | inl (_, e) ↦ new.joined p (sym e ∙ h)
      | inr (_, e) ↦ inv.waits j p (sym e ∙ h)
    ];
    shares = inv.shares;
  }
