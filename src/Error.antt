-- ===== src/Error.antt =====
-- src/error.rs: the error type of every fallible operation, and how HTTP and gRPC statuses map to it.
-- A `dyn StdError` source is kept as the text that it displays. Durations are nanoseconds.
-- `serde_json` is the parameter `AuthzBodyParser`.
pub mod Laws
mod Examples
use Prim.Native.String.{◌++◌ as concat}
use axiam_rust_sdk.Prelude.{ℕ, String, Bool, true, false, Option, none, some, if◌then◌else◌, nat_eq}
use axiam_rust_sdk.Prelude.Int.{ℤ, pos, int_eq}

pub data AuthzKind : Type 0 where
  denied not_found conflict : AuthzKind

pub record OauthProtocolError : Type 0 where
  pub error : String
  pub error_description : String

pub data IdTokenFailureReason : Type 0 where
  invalid_alg unknown_kid invalid_signature invalid_issuer invalid_audience : IdTokenFailureReason
  token_expired nonce_mismatch : IdTokenFailureReason

pub data SetFailureReason : Type 0 where
  malformed invalid_type invalid_key invalid_issuer invalid_audience : SetFailureReason
  invalid_request replayed : SetFailureReason

pub record AuthError : Type 0 where
  pub message : String
  pub oauth : Option OauthProtocolError
  pub reason : Option IdTokenFailureReason
  pub set_reason : Option SetFailureReason
  pub retry_after : Option ℕ

pub record AuthzError : Type 0 where
  pub kind : AuthzKind
  pub message : String
  pub action : Option String
  pub resource_id : Option String
  pub reason_code : Option String

pub record NetworkError : Type 0 where
  pub message : String
  pub source : Option String

pub data AxiamError : Type 0 where
  auth : AuthError → AxiamError
  authz : AuthzError → AxiamError
  network : NetworkError → AxiamError

-- `impl Display for AxiamError`, by `thiserror`
unfoldable pub to_string : AxiamError → String
to_string (auth e) = concat "authentication failed: " e.message
to_string (authz e) = concat "authorization denied: " e.message
to_string (network e) = concat "network error: " e.message

-- `AxiamError::auth`
unfoldable pub new_auth : String → AxiamError
new_auth message = auth (record {
  message = message;
  oauth = none;
  reason = none;
  set_reason = none;
  retry_after = none;
})

-- `AxiamError::authz_kind`
unfoldable pub new_authz_kind : AuthzKind → String → Option String → Option String → AxiamError
new_authz_kind kind message action resource_id = authz (record {
  kind = kind;
  message = message;
  action = action;
  resource_id = resource_id;
  reason_code = none;
})

-- `AxiamError::network`
unfoldable pub new_network : String → AxiamError
new_network message = network (record { message = message; source = none })

-- `AxiamError::oauth_protocol_error`
unfoldable pub oauth_protocol_error : String → String → AxiamError
oauth_protocol_error error error_description = auth (record {
  message = concat error (concat ": " error_description);
  oauth = some (record { error = error; error_description = error_description });
  reason = none;
  set_reason = none;
  retry_after = none;
})

-- `AuthzErrorBody`, with `reason_code` read by `as_str`
pub record AuthzErrorBody : Type 0 where
  pub action : Option String
  pub resource_id : Option String
  pub reason_code : Option String

-- `serde_json::from_str` at `AuthzErrorBody`
abbrev pub AuthzBodyParser : Type 0
AuthzBodyParser = String → Option AuthzErrorBody

unfoldable pub parse_authz_body_fields : AuthzBodyParser → String → AuthzErrorBody
parse_authz_body_fields from_str body = elim (from_str body) [
  | some parsed ↦ parsed
  | none ↦ record { action = none; resource_id = none; reason_code = none }
]

unfoldable pub from_http_status : AuthzBodyParser → ℕ → String → AxiamError
unfolding new_auth new_network
from_http_status from_str status message =
    if nat_eq status 401
    then new_auth message
    else if nat_eq status 403
    then refused denied (λ _. none)
    else if nat_eq status 409
    then refused conflict (λ code. code)
    else new_network message
  where
    fields : AuthzErrorBody
    fields = parse_authz_body_fields from_str message

    refused : AuthzKind → (Option String → Option String) → AxiamError
    refused kind sub_code = authz (record {
      kind = kind;
      message = message;
      action = fields.action;
      resource_id = fields.resource_id;
      reason_code = sub_code fields.reason_code;
    })

-- The code is an `i32`.
unfoldable pub from_grpc_code : ℤ → String → AxiamError
unfolding new_auth new_authz_kind new_network
from_grpc_code code message =
    if int_eq code (pos 16)
    then new_auth message
    else if int_eq code (pos 7)
    then new_authz_kind denied message none none
    else new_network message

unfoldable pub is_retryable_transport : AxiamError → Bool
is_retryable_transport (network _) = true
is_retryable_transport _ = false

unfoldable pub oauth_error_code : AxiamError → Option String
oauth_error_code (auth e) = elim e.oauth [ none ↦ none | some o ↦ some o.error ]
oauth_error_code _ = none

unfoldable pub retry_after : AxiamError → Option ℕ
retry_after (auth e) = e.retry_after
retry_after _ = none

unfoldable pub id_token_failure_reason : AxiamError → Option IdTokenFailureReason
id_token_failure_reason (auth e) = e.reason
id_token_failure_reason _ = none

unfoldable pub set_failure_reason : AxiamError → Option SetFailureReason
set_failure_reason (auth e) = e.set_reason
set_failure_reason _ = none

-- The copy of the shared outcome that each waiter of one burst receives.
unfoldable pub clone_for_waiter : AxiamError → AxiamError
clone_for_waiter (auth e) = auth e
clone_for_waiter (authz e) = authz e
clone_for_waiter (network e) = network (record e { source = none })
