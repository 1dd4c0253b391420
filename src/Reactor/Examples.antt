-- ===== src/Reactor/Examples.antt =====
-- Runs of the registry and the router of src/amqp/reactor.
use axiam_rust_sdk.Prelude.{
  ◌≡◌, ◌≢◌, refl, ◌↔◌, ℕ, true, false, none, List, [], ◌∷◌, String, String-Eq, ok,
}
use axiam_rust_sdk.Prelude.Maps.{insert, keys, contains, Distinct}
use axiam_rust_sdk.Prelude.Text.{text}
use axiam_rust_sdk.Reactor.Registry.{
  ReactorEventSpec, fail_open, patch_field_allowed, ends_with_dot, starts_with, event_spec,
  default_failure_policy_for, find_spec,
}
use axiam_rust_sdk.Reactor.Registry.Policy.{AllOpen, default_failure_policy_for_iff}
use axiam_rust_sdk.Reactor.Router.{
  ReactorEvent, ReactorDecision, allow, deny, empty_router, bind, on, is_hookable, dispatch, build,
}
use axiam_rust_sdk.Reactor.Router.Binding.{Bindings, bind_all, Hookable, Selects, build-bind_all}
use axiam_rust_sdk.Reactor.Router.Complete.{bind_all-build}

abbrev token_event : ReactorEventSpec
token_event = record {
  name = "token.pre_issue";
  interceptable = true;
  mutable = true;
  mutable_fields = text "ext." ∷ [];
  default_failure_policy = fail_open;
  description = "";
}

namespace_only : patch_field_allowed token_event (text "ext.") ≡ false
unfolding patch_field_allowed starts_with ends_with_dot
namespace_only = refl

unhookable : event_spec "authz.check" ≡ none
unfolding event_spec find_spec
unhookable = refl

abbrev two_events : List String
two_events = "token.pre_issue" ∷ "login.post_auth" ∷ []

default_failure_policy_for_iff_example :
    (default_failure_policy_for two_events ≡ fail_open) ↔ ((two_events ≢ []) × AllOpen two_events)
default_failure_policy_for_iff_example = default_failure_policy_for_iff two_events

abbrev answer_at_once : ReactorDecision → ReactorDecision
answer_at_once d = d

abbrev two_bindings : Bindings ℕ ReactorDecision
two_bindings =
    ("login.post_auth", λ event. deny none) ∷ ("token.pre_issue", λ event. allow false) ∷ []

abbrev two_handlers : ReactorEvent ℕ → ReactorDecision
two_handlers = dispatch answer_at_once two_bindings

two_built : build answer_at_once (bind_all empty_router two_bindings) ≡ ok two_handlers
unfolding build on bind is_hookable event_spec find_spec insert contains
two_built = refl

build-bind_all_example :
    (two_bindings ≢ [])
    × Hookable two_bindings
    × Distinct (keys two_bindings)
    × ((event : ReactorEvent ℕ) → Selects answer_at_once two_bindings event (two_handlers event))
build-bind_all_example = build-bind_all answer_at_once two_bindings two_handlers two_built

two_bindings-Hookable : Hookable two_bindings
unfolding is_hookable event_spec find_spec
two_bindings-Hookable = (refl, (refl, tt))

two_bindings-Distinct : Distinct (keys two_bindings)
unfolding contains
two_bindings-Distinct = (refl, (refl, tt))

bind_all-build_example :
    (answer : ReactorEvent ℕ → ReactorDecision) × (build answer_at_once
        (bind_all empty_router two_bindings)
      ≡ ok answer)
    × ((event : ReactorEvent ℕ) → Selects answer_at_once two_bindings event (answer event))
bind_all-build_example =
    bind_all-build answer_at_once two_bindings (λ e. cc e) two_bindings-Hookable
      two_bindings-Distinct
