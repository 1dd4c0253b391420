-- ===== src/Reactor/Registry/Policy.antt =====
-- What `default_failure_policy_for` of src/amqp/reactor/registry.rs answers.
use axiam_rust_sdk.Prelude.{
  ◌≡◌, ◌≢◌, refl, ◌↔◌, inl, inr, Bool, true, false, List, [], ◌∷◌, String, String-Eq, ==_iff, All,
  arith, Bool-cases,
}
use axiam_rust_sdk.Reactor.Registry.{
  fail_open, fail_closed, find_spec, event_spec, is_open, policy_loop, default_failure_policy_for,
}

is_open_iff : (name : String) → (is_open name ≡ true) ↔ ("token.pre_issue" ≡ name)
unfolding is_open event_spec find_spec
is_open_iff name = ground (arith, ==_iff "token.pre_issue" name)

abbrev pub AllOpen : List String → Type 0
AllOpen = All (λ name. "token.pre_issue" ≡ name)

closed_ne_open : fail_closed ≡ fail_open → ⊥
closed_ne_open e = cc e

policy_turn :
    (any : Bool) (name : String) (rest : List String)
    → (policy_loop any (name ∷ rest) ≡ fail_open)
      ↔ (("token.pre_issue" ≡ name) × (policy_loop true rest ≡ fail_open))
unfolding policy_loop
policy_turn any name rest = elim (Bool-cases (is_open name)) [
  | inl permits ↦ rw permits (λ h. ((is_open_iff name).0 permits, h), λ h. h.1)
  | inr closed ↦
      rw closed
        (λ h. absurd (closed_ne_open h), λ h. absurd (cc (closed, (is_open_iff name).1 h.0)))
]

policy_loop_iff : (names : List String) → (policy_loop true names ≡ fail_open) ↔ AllOpen names
unfolding policy_loop
policy_loop_iff [] = (λ h. tt, λ h. refl)
policy_loop_iff (name ∷ rest) =
    let turn = policy_turn true name rest in
    let later = policy_loop_iff rest in
    (λ h. ((turn.0 h).0, later.0 (turn.0 h).1), λ h. turn.1 (h.0, later.1 h.1))

-- The policy that a registration gets is the permissive one exactly if it names an event at all, and
-- every event that it names is `token.pre_issue`: in whatever order, unknown names included.
pub default_failure_policy_for_iff :
    (names : List String)
    → (default_failure_policy_for names ≡ fail_open) ↔ ((names ≢ []) × AllOpen names)
unfolding default_failure_policy_for
default_failure_policy_for_iff [] = (λ h. absurd (closed_ne_open h), λ h. absurd (h.0 refl))
default_failure_policy_for_iff (name ∷ rest) =
    let turn = policy_turn false name rest in
    let later = policy_loop_iff rest in
    (λ h. (λ e. cc e, ((turn.0 h).0, later.0 (turn.0 h).1)), λ h. turn.1 (h.1.0, later.1 h.1.1))
