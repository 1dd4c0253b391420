-- ===== src/Middleware/Access.antt =====
-- src/middleware/authz.rs: the guards after the extractor. The calls of the client are any functions on a
-- world, and a hint of the MCP helpers is any function of a scope.
pub mod Guarded
mod Examples
use Prim.Native.String.{◌++◌ as concat}
use axiam_rust_sdk.Prelude.{
  ℕ, String, String-Eq, ◌==◌, Bool, true, false, ◌||◌, Option, none, some, List, [], ◌∷◌, Result,
  ok, err, ◌>>=◌, ok_or, option_eq, if◌then◌else◌,
}
use axiam_rust_sdk.Prelude.Maps.{contains}
use axiam_rust_sdk.Prelude.Text.{Text, text}
use axiam_rust_sdk.Error.{AxiamError, auth, authz, network}
use axiam_rust_sdk.Middleware.{AxiamUser, HttpResponse}

pub data AuthzGuardError : Type 0 where
  unauthenticated denied_guard : String → AuthzGuardError
  denied_with_challenge : String → String → AuthzGuardError
  invalid_resource unavailable misconfigured : String → AuthzGuardError

unfoldable pub guard_code : AuthzGuardError → String
guard_code (unauthenticated _) = "authentication_failed"
guard_code (denied_guard _) = "authorization_denied"
guard_code (denied_with_challenge _ _) = "authorization_denied"
guard_code (invalid_resource _) = "invalid_request"
guard_code (unavailable _) = "authz_unavailable"
guard_code (misconfigured _) = "internal_error"

unfoldable pub guard_message : AuthzGuardError → String
guard_message (unauthenticated m) = m
guard_message (denied_guard m) = m
guard_message (denied_with_challenge m _) = m
guard_message (invalid_resource m) = m
guard_message (unavailable m) = m
guard_message (misconfigured m) = m

unfoldable pub guard_status : AuthzGuardError → ℕ
guard_status (unauthenticated _) = 401
guard_status (denied_guard _) = 403
guard_status (denied_with_challenge _ _) = 403
guard_status (invalid_resource _) = 400
guard_status (unavailable _) = 503
guard_status (misconfigured _) = 500

unfoldable pub challenge_of : AuthzGuardError → Option String
challenge_of (denied_with_challenge _ header) = some header
challenge_of _ = none

unfoldable pub guard_response : AuthzGuardError → HttpResponse
unfolding guard_status challenge_of guard_code guard_message
guard_response e = record {
  status = guard_status e;
  www_authenticate = challenge_of e;
  error = guard_code e;
  message = guard_message e;
}

-- The path parameters of a request, by name.
unfoldable pub resource_from_path :
    (Text → Option ℕ) → (String → Option String) → String → Result ℕ AuthzGuardError
resource_from_path parse_str match_info param = elim (match_info param) [
  | none ↦ err (invalid_resource (concat (concat "missing path parameter '" param) "'"))
  | some raw ↦
      ok_or (parse_str (text raw)) (
        invalid_resource
          (concat (concat "path parameter '" param) "' is not a valid resource UUID"))
]

unfoldable pub resource_from_static : (Text → Option ℕ) → String → Result ℕ AuthzGuardError
resource_from_static parse_str literal =
    ok_or (parse_str (text literal))
      (invalid_resource (concat (concat "static resource_id '" literal) "' is not a valid UUID"))

-- Whether one of the held roles is required.
unfoldable pub holds_any : List String → List String → Bool
holds_any [] required = false
holds_any (held ∷ roles) required = contains held required || holds_any roles required

unfoldable pub require_role_check : AxiamUser → List String → Result Unit AuthzGuardError
unfolding holds_any
require_role_check user required =
    if holds_any user.roles required
    then ok tt
    else err (denied_guard "caller does not hold any of the required roles")

pub record AccessDecision : Type 0 where
  pub allowed : Bool
  pub reason_code : Option String

pub record UmaChallenger : Type 0 where
  pub realm : String
  pub as_uri : String
  pub pat : String

pub record RequireAccess : Type 0 where
  pub action : String
  pub scope : Option String
  pub challenger : Option UmaChallenger
  pub mcp : Option (String → Result String AxiamError)

-- `RequireAccess::new`
unfoldable pub new_access : String → RequireAccess
new_access action = record { action = action; scope = none; challenger = none; mcp = none }

unfoldable pub uma_challenge_header : String → String → String → String
uma_challenge_header realm as_uri ticket =
    concat
      (concat
        (concat (concat (concat (concat "UMA realm=\"" realm) "\", as_uri=\"") as_uri)
          "\", ticket=\"")
        ticket)
      "\""

-- The calls of the client that a guard makes: a check for a user, an action, a resource and a scope, and a
-- ticket, with a token of the Protection API, for a resource and the scopes asked for.
pub record Client (W : Type 0) : Type 0 where
  pub check_access_as : ℕ → String → ℕ → Option String → W → Result AccessDecision AxiamError × W
  pub uma_request_ticket : String → ℕ → List String → W → Result String AxiamError × W

unfoldable pub hint_for :
    Option (String → Result String AxiamError) → Option String → Option String → Option String
hint_for none scope reason_code = none
hint_for (some mcp) none reason_code = none
hint_for (some mcp) (some scope) reason_code =
    if option_eq reason_code (some "no_grant")
    then elim (mcp scope) [ ok header ↦ some header | err e ↦ none ]
    else none

unfoldable pub mcp_challenge : RequireAccess → Option String → Option String
unfolding hint_for
mcp_challenge guard reason_code = hint_for guard.mcp guard.scope reason_code

-- A refusal, with a header if there is one.
unfoldable pub denied_with : String → Option String → AuthzGuardError
denied_with message none = denied_guard message
denied_with message (some header) = denied_with_challenge message header

unfoldable pub first_of : Option String → Option String → Option String
first_of (some header) other = some header
first_of none other = other

-- A failure to mint a ticket is no challenge.
unfoldable pub ticket_header : UmaChallenger → Result String AxiamError → Option String
unfolding uma_challenge_header
ticket_header challenger (ok ticket) =
    some (uma_challenge_header challenger.realm challenger.as_uri ticket)
ticket_header challenger (err e) = none

module _ {W : Type 0} (client : Client W) where
  -- The header with a new ticket, where a challenger is configured and the ticket is minted.
  unfoldable pub minted : Option UmaChallenger → String → ℕ → W → Option String × W
  unfolding ticket_header
  minted none action resource_id w = (none, w)
  minted (some challenger) action resource_id w =
      let (ticket, w') = client.uma_request_ticket challenger.pat resource_id (action ∷ []) w in
      (ticket_header challenger ticket, w')

  unfoldable pub deny : RequireAccess → ℕ → Option String → W → AuthzGuardError × W
  unfolding minted mcp_challenge denied_with first_of
  deny guard resource_id reason_code w =
      let message = concat (concat "access denied for action '" guard.action) "'" in
      let (header, w') = minted guard.challenger guard.action resource_id w in
      (denied_with message (first_of header (mcp_challenge guard reason_code)), w')

  -- A refusal as the result of a check.
  unfoldable pub refused : AuthzGuardError × W → Result Unit AuthzGuardError × W
  refused (e, w) = (err e, w)

  -- `check`, from the answer on
  unfoldable pub settle :
      RequireAccess → ℕ → Result AccessDecision AxiamError → W → Result Unit AuthzGuardError × W
  unfolding deny refused
  settle guard resource_id (ok decision) w =
      if decision.allowed
      then (ok tt, w)
      else refused (deny guard resource_id decision.reason_code w)
  settle guard resource_id (err (authz _)) w = refused (deny guard resource_id none w)
  settle guard resource_id (err (auth _)) w =
      (err (unauthenticated "authentication rejected by the authorization service"), w)
  settle guard resource_id (err (network _)) w =
      (err (unavailable "authorization service unavailable"), w)

  unfoldable pub check : RequireAccess → AxiamUser → ℕ → W → Result Unit AuthzGuardError × W
  unfolding settle
  check guard user resource_id w =
      let (outcome, w') =
        client.check_access_as user.user_id guard.action resource_id guard.scope w in
      settle guard resource_id outcome w'
