-- ===== src/Reactor/Registry.antt =====
-- src/amqp/reactor/registry.rs: the hookable events, what a reply may change, and the policy of a
-- registration that names none. A text is a list of code points where the code looks into it.
pub mod Fields
pub mod Policy
use axiam_rust_sdk.Prelude.{
  ℕ, ◌+◌, Bool, true, false, ◌&&◌, ◌||◌, Option, none, some, List, [], ◌∷◌, map, length, String,
  String-Eq, ◌==◌, if◌then◌else◌, leb, ltb, nat_eq,
}
use axiam_rust_sdk.Prelude.Text.{Text, text, text_eq, trim}

pub data FailurePolicy : Type 0 where
  fail_closed fail_open : FailurePolicy

pub data ReactorMode : Type 0 where
  intercept listen : ReactorMode

-- `FailurePolicy::as_str`
unfoldable pub policy_as_str : FailurePolicy → Text
policy_as_str fail_closed = text "fail_closed"
policy_as_str fail_open = text "fail_open"

-- `ReactorMode::as_str`
unfoldable pub mode_as_str : ReactorMode → Text
mode_as_str intercept = text "intercept"
mode_as_str listen = text "listen"

-- `str::to_ascii_lowercase`
unfoldable pub lower : ℕ → ℕ
lower c = if leb b'A' c && leb c b'Z' then c + 32 else c

-- `FailurePolicy::from_wire`
unfoldable pub policy_from_wire : Text → Option FailurePolicy
unfolding lower
policy_from_wire raw =
    let wire = map lower (trim raw) in
    if text_eq wire (text "fail_closed")
    then some fail_closed
    else if text_eq wire (text "fail_open")
    then some fail_open
    else none

-- `ReactorMode::from_wire`
unfoldable pub mode_from_wire : Text → Option ReactorMode
unfolding lower
mode_from_wire raw =
    let wire = map lower (trim raw) in
    if text_eq wire (text "intercept")
    then some intercept
    else if text_eq wire (text "listen")
    then some listen
    else none

pub record ReactorEventSpec : Type 0 where
  pub name : String
  pub interceptable : Bool
  pub mutable : Bool
  pub mutable_fields : List Text
  pub default_failure_policy : FailurePolicy
  pub description : String

-- `str::ends_with('.')`
unfoldable pub ends_with_dot : Text → Bool
ends_with_dot [] = false
ends_with_dot (c ∷ []) = nat_eq c b'.'
ends_with_dot (c ∷ d ∷ s) = ends_with_dot (d ∷ s)

-- `str::starts_with`
unfoldable pub starts_with : Text → Text → Bool
starts_with s [] = true
starts_with [] (c ∷ prefix) = false
starts_with (d ∷ s) (c ∷ prefix) = nat_eq d c && starts_with s prefix

-- One entry of an allow-list. For a field that starts with the entry, to be longer is the same in
-- bytes and in code points.
unfoldable pub entry_allows : Text → Text → Bool
entry_allows field allowed =
    if ends_with_dot allowed
    then ltb (length allowed) (length field) && starts_with field allowed
    else text_eq field allowed

-- `mutable_fields.iter().any(..)`
unfoldable pub any_allows : Text → List Text → Bool
any_allows field [] = false
any_allows field (allowed ∷ rest) = entry_allows field allowed || any_allows field rest

-- `ReactorEventSpec::patch_field_allowed`
unfoldable pub patch_field_allowed : ReactorEventSpec → Text → Bool
unfolding any_allows entry_allows
patch_field_allowed spec field =
    if spec.mutable then any_allows field spec.mutable_fields else false

abbrev pub event_registry : List ReactorEventSpec
event_registry =
    record {
      name = "token.pre_issue";
      interceptable = true;
      mutable = true;
      mutable_fields = text "ext." ∷ [];
      default_failure_policy = fail_open;
      description = "Enrich or veto token issuance. May add claims under `ext.` only.";
    }
    ∷ record {
      name = "login.post_auth";
      interceptable = true;
      mutable = false;
      mutable_fields = [];
      default_failure_policy = fail_closed;
      description =
          "After credentials verify, before session issuance: veto or require step-up MFA.";
    }
    ∷ record {
      name = "user.pre_create";
      interceptable = true;
      mutable = true;
      mutable_fields = text "username" ∷ text "email" ∷ text "metadata." ∷ [];
      default_failure_policy = fail_closed;
      description = "Validate or normalize a new user's profile fields.";
    }
    ∷ record {
      name = "user.pre_update";
      interceptable = true;
      mutable = true;
      mutable_fields = text "username" ∷ text "email" ∷ text "metadata." ∷ [];
      default_failure_policy = fail_closed;
      description = "Validate or normalize a profile update.";
    }
    ∷ record {
      name = "grant.pre_assign";
      interceptable = true;
      mutable = false;
      mutable_fields = [];
      default_failure_policy = fail_closed;
      description = "Veto a role or permission assignment (four-eyes workflows). Veto-only.";
    }
    ∷ []

unfoldable pub find_spec : String → List ReactorEventSpec → Option ReactorEventSpec
find_spec name [] = none
find_spec name (spec ∷ rest) = if spec.name == name then some spec else find_spec name rest

unfoldable pub event_spec : String → Option ReactorEventSpec
unfolding find_spec
event_spec name = find_spec name event_registry

-- The test of the `match` in `default_failure_policy_for`.
unfoldable pub is_open : String → Bool
is_open name = elim (event_spec name) [
  | none ↦ false
  | some spec ↦ elim spec.default_failure_policy [ fail_open ↦ true | fail_closed ↦ false ]
]

-- The loop over the names, with its flag.
unfoldable pub policy_loop : Bool → List String → FailurePolicy
policy_loop any [] = if any then fail_open else fail_closed
policy_loop any (name ∷ rest) =
    let later = policy_loop true rest in if is_open name then later else fail_closed

unfoldable pub default_failure_policy_for : List String → FailurePolicy
unfolding policy_loop is_open event_spec
default_failure_policy_for event_names = policy_loop false event_names
