-- ===== src/Reactor/Router/Complete.antt =====
-- That src/amqp/reactor/router.rs builds from every good list of bindings.
use mathlib.Core.List.{append-nil, append_assoc}
use axiam_rust_sdk.Prelude.{
  ◌≡◌, ◌≢◌, refl, sym, ap, subst, ◌∙◌, true, false, List, [], ◌∷◌, ◌++◌, String, String-Eq, ==_iff,
  ok, arith, Eq,
}
use axiam_rust_sdk.Prelude.Maps.{Map, keys, contains, contains-append, Distinct}
use axiam_rust_sdk.Reactor.Router.{
  ReactorEvent, ReactorDecision, ReactorRouter, empty_router, is_hookable, bind, on, dispatch,
  build,
}
use axiam_rust_sdk.Reactor.Router.Binding.{
  Bindings, bind_all, Hookable, Selects, dispatch-Selects, insert-fresh,
}

keys-append {ℓ} : {K V : Type ℓ} (m n : Map K V) → keys (m ++ n) ≡ keys m ++ keys n
keys-append [] n = refl
keys-append ((key, value) ∷ m) n = ap (λ (ks : List _). key ∷ ks) (keys-append m n)

-- A key in the middle of a list without repetition is not in front of itself.
Distinct-middle {ℓ} :
    {K : Type ℓ} ⦃e : Eq K⦄ (ks : List K) (k : K) (rest : List K)
    → Distinct (ks ++ k ∷ rest)
    → contains k ks ≡ false
unfolding contains
Distinct-middle [] k rest d = refl
Distinct-middle (j ∷ ks) k rest (new, d) =
    let apart = rw (contains-append j ks (k ∷ rest)) at new in
    ground (arith, Distinct-middle ks k rest d, apart, ==_iff j k, ==_iff k j)

module _ {J A : Type 0} where
  fresh_in :
      (r : ReactorRouter J A) (event : String) (handler : ReactorEvent J → A) (bs : Bindings J A)
      → Distinct (keys (r.handlers ++ (event, handler) ∷ bs))
      → contains event (keys r.handlers) ≡ false
  fresh_in r event handler bs d =
      Distinct-middle (keys r.handlers) event (keys bs) (
        subst (λ (ks : List String). Distinct ks) (keys-append r.handlers ((event, handler) ∷ bs))
          d)

  module _ (r : ReactorRouter J A) (event : String) (handler : ReactorEvent J → A) where
    bind-errors :
        is_hookable event ≡ true
        → contains event (keys r.handlers) ≡ false
        → (bind r event handler).errors ≡ r.errors
    unfolding bind
    bind-errors hookable fresh = rw (hookable, fresh, bind) refl

    bind-handlers :
        is_hookable event ≡ true
        → contains event (keys r.handlers) ≡ false
        → (bind r event handler).handlers ≡ r.handlers ++ (event, handler) ∷ []
    unfolding bind
    bind-handlers hookable fresh =
        rw (hookable, fresh, bind) (insert-fresh event handler r.handlers fresh)

  bind_all-good :
      (r : ReactorRouter J A) (bs : Bindings J A)
      → Hookable bs
      → Distinct (keys (r.handlers ++ bs))
      → ((bind_all r bs).errors ≡ r.errors) × ((bind_all r bs).handlers ≡ r.handlers ++ bs)
  unfolding on
  bind_all-good r [] _ d = (refl, sym (append-nil r.handlers))
  bind_all-good r ((event, handler) ∷ bs) (hookable, rest) d =
      let fresh = fresh_in r event handler bs d in
      let kept = bind-handlers r event handler hookable fresh in
      let moved =
        ap (λ (m : Bindings J A). m ++ bs) kept
        ∙ append_assoc r.handlers ((event, handler) ∷ []) bs in
      let (errors, handlers) =
        bind_all-good (bind r event handler) bs rest
          (subst (λ (m : Bindings J A). Distinct (keys m)) (sym moved) d) in
      (errors ∙ bind-errors r event handler hookable fresh, handlers ∙ moved)

module _ {J A : Type 0} (ready : ReactorDecision → A) where
  build_from :
      (handlers : Bindings J A) (order errors : List String)
      → errors ≡ []
      → handlers ≢ []
      → build ready (record { handlers = handlers; order = order; errors = errors })
        ≡ ok (dispatch ready handlers)
  unfolding build
  build_from handlers order (message ∷ errors) clean some_bound = absurd (cc clean)
  build_from [] order [] clean some_bound = absurd (some_bound refl)
  build_from (b ∷ bs) order [] clean some_bound = refl

  -- Bindings of events of the registry, at least one and none of them twice, build a handler that answers
  -- every event by the handler of the first binding of its name, or, where no binding has its name,
  -- abstains.
  pub bind_all-build :
      (bs : Bindings J A)
      → bs ≢ []
      → Hookable bs
      → Distinct (keys bs)
      → (answer : ReactorEvent J → A) × (build ready (bind_all empty_router bs) ≡ ok answer)
        × ((event : ReactorEvent J) → Selects ready bs event (answer event))
  bind_all-build bs some_bound hookable d =
      let (errors, handlers) = bind_all-good empty_router bs hookable d in
      let r = bind_all empty_router bs in
      (
        dispatch ready bs,
        build_from r.handlers r.order r.errors errors
              (subst (λ (m : Bindings J A). m ≢ []) (sym handlers) some_bound)
            ∙ ap (λ (m : Bindings J A). ok (dispatch ready m)) handlers,
        dispatch-Selects ready bs,
      )
