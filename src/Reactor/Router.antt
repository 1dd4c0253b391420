-- ===== src/Reactor/Router.antt =====
-- src/amqp/reactor/router.rs: one handler per event, composed into the handler of the reactor; with
-- the event of protocol.rs and the decision of runtime.rs. `J` is the type of a JSON value, `A` that
-- of a boxed future of a decision, and `ready` is `std::future::ready`, boxed. Ids are their text.
pub mod Binding
pub mod Complete
use Prim.Native.String.{◌++◌ as concat}
use axiam_rust_sdk.Prelude.{
  ℕ, Bool, true, false, Option, none, some, List, [], ◌∷◌, ◌++◌, map, foldl, String, String-Eq,
  Result, ok, err, if◌then◌else◌,
}
use axiam_rust_sdk.Prelude.Maps.{Map, lookup, insert, keys, contains}
use axiam_rust_sdk.Error.{AxiamError, new_network}
use axiam_rust_sdk.Reactor.Registry.{ReactorEventSpec, event_registry, event_spec}

pub record ReactorEvent (J : Type 0) : Type 0 where
  pub tenant_id : String
  pub event : String
  pub correlation_id : String
  pub payload : J
  pub timeout_ms : ℕ
  pub key_version : ℕ
  pub nonce : String
  pub issued_at : ℕ
  pub hmac_signature : Option String

pub data ReactorDecision : Type 0 where
  allow : Bool → ReactorDecision
  deny : Option String → ReactorDecision
  mutate : Map String String → ReactorDecision
  abstain : ReactorDecision

pub record ReactorRouter (J A : Type 0) : Type 0 where
  pub handlers : Map String (ReactorEvent J → A)
  pub order : List String
  pub errors : List String

-- `slice::join`
unfoldable pub join : String → List String → String
join sep [] = ""
join sep (s ∷ []) = s
join sep (s ∷ t ∷ rest) = concat s (concat sep (join sep (t ∷ rest)))

-- `event_spec(event).is_some()`
unfoldable pub is_hookable : String → Bool
is_hookable event = elim (event_spec event) [ none ↦ false | some _ ↦ true ]

unfoldable pub not_hookable : String → String
not_hookable event = concat event (
    concat " is not a hookable reactor event; the registry is ["
      (concat (join ", " (map (λ spec. spec.name) event_registry)) "]"))

unfoldable pub already_bound : String → String
already_bound event = concat "reactor event " (concat event " is already bound")

module _ {J A : Type 0} where
  abbrev pub empty_router : ReactorRouter J A
  empty_router = record { handlers = []; order = []; errors = [] }

  -- `ReactorRouter::bind`
  unfoldable pub bind : ReactorRouter J A → String → (ReactorEvent J → A) → ReactorRouter J A
  unfolding is_hookable not_hookable already_bound
  bind r event handler =
      if is_hookable event
      then (if contains event (keys r.handlers)
          then record r { errors = r.errors ++ already_bound event ∷ [] }
          else record r {
            handlers = insert event handler r.handlers;
            order = r.order ++ event ∷ [];
          })
      else record r { errors = r.errors ++ not_hookable event ∷ [] }

  -- `ReactorRouter::on`, for a handler type that carries its event
  unfoldable pub on : ReactorRouter J A → String × (ReactorEvent J → A) → ReactorRouter J A
  unfolding bind
  on r (event, handler) = bind r event handler

module _ {J A : Type 0} (ready : ReactorDecision → A) where
  -- The closure that `build` returns.
  unfoldable pub dispatch : Map String (ReactorEvent J → A) → ReactorEvent J → A
  dispatch handlers event = elim (lookup event.event handlers) [
    | some handler ↦ handler event
    | none ↦ ready abstain
  ]

  -- `ReactorRouter::build`
  unfoldable pub build : ReactorRouter J A → Result (ReactorEvent J → A) AxiamError
  unfolding dispatch join
  build r = elim r.errors [
    | _ ∷ _ ↦ err (new_network (join "; " r.errors))
    | [] ↦ elim r.handlers [
      | [] ↦ err (new_network "ReactorRouter has no bindings; bind at least one event")
      | _ ∷ _ ↦ ok (dispatch r.handlers)
    ]
  ]
