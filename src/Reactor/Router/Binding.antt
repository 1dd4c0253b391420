-- ===== src/Reactor/Router/Binding.antt =====
-- What a router of src/amqp/reactor/router.rs answers, from the bindings that it was given.
use mathlib.Core.List.{append-nil, append_assoc}
use axiam_rust_sdk.Prelude.{
  ◌≡◌, ◌≢◌, refl, sym, ap, subst, ◌∙◌, inl, inr, ◌⊎◌, ◌==◌, ==_iff, true, false, List, [], ◌∷◌,
  ◌++◌, foldl, String, String-Eq, All, ok, arith, Bool-cases, Eq, ok-injective,
}
use axiam_rust_sdk.Prelude.Maps.{Map, lookup, insert, keys, contains, Distinct, Distinct-snoc}
use axiam_rust_sdk.Reactor.Router.{
  ReactorEvent, ReactorDecision, abstain, ReactorRouter, empty_router, is_hookable, not_hookable,
  already_bound, bind, on, dispatch, build,
}

snoc_nonempty : (xs : List String) (x : String) → xs ++ x ∷ [] ≡ [] → ⊥
snoc_nonempty [] x e = cc e
snoc_nonempty (y ∷ xs) x e = cc e

pub insert-fresh {ℓ} :
    {K V : Type ℓ} ⦃e : Eq K⦄ (key : K) (value : V) (m : Map K V)
    → contains key (keys m) ≡ false
    → insert key value m ≡ m ++ (key, value) ∷ []
unfolding insert contains
insert-fresh key value [] h = refl
insert-fresh key value ((other, old) ∷ m) h = ground (arith, insert-fresh key value m, h)

keys-snoc {ℓ} :
    {K V : Type ℓ} (key : K) (value : V) (m : Map K V)
    → keys (m ++ (key, value) ∷ []) ≡ keys m ++ key ∷ []
keys-snoc key value [] = refl
keys-snoc key value ((other, old) ∷ m) = ap (λ (ks : List _). other ∷ ks) (keys-snoc key value m)

abbrev pub Bindings : Type 0 → Type 0 → Type 0
Bindings J A = List (String × (ReactorEvent J → A))

module _ {J A : Type 0} where
  -- The router that these bindings give, one after the other.
  abbrev pub bind_all : ReactorRouter J A → Bindings J A → ReactorRouter J A
  bind_all = foldl on

  abbrev pub Hookable : Bindings J A → Type 0
  Hookable = All (λ b. is_hookable b.0 ≡ true)

  record Bound (r : ReactorRouter J A) (event : String) (handler : ReactorEvent J → A)
      : Type 0 where
    hookable : is_hookable event ≡ true
    fresh : contains event (keys r.handlers) ≡ false
    clean : r.errors ≡ []
    kept : (bind r event handler).handlers ≡ r.handlers ++ (event, handler) ∷ []

  bind-Bound :
      (r : ReactorRouter J A) (event : String) (handler : ReactorEvent J → A)
      → (bind r event handler).errors ≡ []
      → Bound r event handler
  unfolding bind
  bind-Bound r event handler e = elim (Bool-cases (is_hookable event)) [
    | inr not_one ↦ absurd (snoc_nonempty r.errors (not_hookable event) (rw (not_one, bind) at e))
    | inl one ↦ elim (Bool-cases (contains event (keys r.handlers))) [
      | inl old ↦ absurd (snoc_nonempty r.errors (already_bound event) (rw (one, old, bind) at e))
      | inr fresh ↦ record {
        hookable = one;
        fresh = fresh;
        clean = rw (one, fresh, bind) at e;
        kept = rw (one, fresh, bind) (insert-fresh event handler r.handlers fresh);
      }
    ]
  ]

  bind_all-clean :
      (r : ReactorRouter J A) (bs : Bindings J A) → (bind_all r bs).errors ≡ [] → r.errors ≡ []
  unfolding on
  bind_all-clean r [] e = e
  bind_all-clean r ((event, handler) ∷ bs) e =
      (bind-Bound r event handler (bind_all-clean (bind r event handler) bs e)).clean

  -- What a router without errors shows of the bindings that were made on top of `r`.
  pub record AllBound (r : ReactorRouter J A) (bs : Bindings J A) : Type 0 where
    pub hookable : Hookable bs
    pub distinct : Distinct (keys (bind_all r bs).handlers)
    pub kept : (bind_all r bs).handlers ≡ r.handlers ++ bs

  Bound-Distinct :
      (r : ReactorRouter J A) (event : String) (handler : ReactorEvent J → A)
      → Bound r event handler
      → Distinct (keys r.handlers)
      → Distinct (keys (bind r event handler).handlers)
  Bound-Distinct r event handler b d =
      rw (b.kept, keys-snoc event handler r.handlers)
        (Distinct-snoc event (keys r.handlers) b.fresh d)

  bind_all-AllBound :
      (r : ReactorRouter J A) (bs : Bindings J A)
      → Distinct (keys r.handlers)
      → (bind_all r bs).errors ≡ []
      → AllBound r bs
  unfolding on
  bind_all-AllBound r [] d e = record {
    hookable = tt;
    distinct = d;
    kept = sym (append-nil r.handlers);
  }
  bind_all-AllBound r ((event, handler) ∷ bs) d e =
      let b = bind-Bound r event handler (bind_all-clean (bind r event handler) bs e) in
      let rest =
        bind_all-AllBound (bind r event handler) bs (Bound-Distinct r event handler b d) e in
      record {
        hookable = (b.hookable, rest.hookable);
        distinct = rest.distinct;
        kept =
            rest.kept
            ∙ ap (λ (m : Bindings J A). m ++ bs) b.kept
            ∙ append_assoc r.handlers ((event, handler) ∷ []) bs;
      }

module _ {J A : Type 0} (ready : ReactorDecision → A) where
  record Built (r : ReactorRouter J A) (answer : ReactorEvent J → A) : Type 0 where
    clean : r.errors ≡ []
    bound : r.handlers ≢ []
    answers : answer ≡ dispatch ready r.handlers

  answer_of :
      (handlers : Bindings J A) (order errors : List String) (answer : ReactorEvent J → A)
      → build ready (record { handlers = handlers; order = order; errors = errors }) ≡ ok answer
      → Built (record { handlers = handlers; order = order; errors = errors }) answer
  unfolding build
  answer_of handlers order (message ∷ errors) answer e = absurd (cc e)
  answer_of [] order [] answer e = absurd (cc e)
  answer_of (b ∷ bs) order [] answer e = record {
    clean = refl;
    bound = λ h. cc h;
    answers = sym (ok-injective e);
  }

  -- What a composed handler answers to an event: of the first binding of its name, or that it abstains.
  abbrev pub Selects : Bindings J A → ReactorEvent J → A → Type 0
  Selects [] event x = x ≡ ready abstain
  Selects ((name, handler) ∷ bs) event x =
      ((name ≡ event.event) × (x ≡ handler event)) ⊎ ((name ≢ event.event) × Selects bs event x)

  pub dispatch-Selects :
      (bs : Bindings J A) (event : ReactorEvent J) → Selects bs event (dispatch ready bs event)
  unfolding dispatch lookup
  dispatch-Selects [] event = refl
  dispatch-Selects ((name, handler) ∷ bs) event = elim (Bool-cases (name == event.event)) [
    | inl same ↦ rw (same, dispatch, lookup) (inl ((==_iff name event.event).0 same, refl))
    | inr other ↦
        rw (other, dispatch, lookup)
          (inr ((λ e. cc ((==_iff name event.event).1 e, other)), dispatch-Selects bs event))
  ]

  build-Built :
      (r : ReactorRouter J A) (answer : ReactorEvent J → A)
      → build ready r ≡ ok answer
      → Built r answer
  unfolding build
  build-Built r answer e = answer_of r.handlers r.order r.errors answer e

  -- If the router that some bindings gave one after the other builds, there is a binding, every bound
  -- event is in the registry, no event is bound twice, and the composed handler answers every event by
  -- the handler of the first binding of its name, or, where no binding has its name, abstains.
  pub build-bind_all :
      (bs : Bindings J A) (answer : ReactorEvent J → A)
      → build ready (bind_all empty_router bs) ≡ ok answer
      → (bs ≢ [])
        × Hookable bs
        × Distinct (keys bs)
        × ((event : ReactorEvent J) → Selects bs event (answer event))
  build-bind_all bs answer e =
      let built = build-Built (bind_all empty_router bs) answer e in
      let all = bind_all-AllBound empty_router bs tt built.clean in
      (
        subst (λ (m : Bindings J A). m ≢ []) all.kept built.bound,
        all.hookable,
        subst (λ (m : Bindings J A). Distinct (keys m)) all.kept all.distinct,
        λ event.
            subst (λ (handler : ReactorEvent J → A). Selects bs event (handler event))
              (sym (built.answers ∙ ap (dispatch ready) all.kept)) (dispatch-Selects bs event),
      )
