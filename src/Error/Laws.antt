-- ===== src/Error/Laws.antt =====
-- What the mapping of src/error.rs keeps apart, and what a copy for a waiter keeps.
use axiam_rust_sdk.Prelude.{ℕ, String, ◌≡◌, ◌||◌, not, Option, none, arith, nat_eq, if◌then◌else◌}
use axiam_rust_sdk.Error.{
  AxiamError, auth, authz, network, AuthzBodyParser, parse_authz_body_fields, from_http_status,
  to_string, is_retryable_transport, oauth_error_code, retry_after, id_token_failure_reason,
  set_failure_reason, clone_for_waiter,
}

-- The sub-code of a refusal, which only a conflict carries.
abbrev pub reason_code : AxiamError → Option String
reason_code (authz e) = e.reason_code
reason_code _ = none

abbrev pub source : AxiamError → Option String
source (network e) = e.source
source _ = none

-- A status becomes a transport failure exactly if it is none of 401, 403 and 409; and only a 409
-- carries the sub-code of its body.
pub from_http_status_kinds :
    (from_str : AuthzBodyParser) (status : ℕ) (message : String)
    → (is_retryable_transport (from_http_status from_str status message)
        ≡ not (nat_eq status 401 || (nat_eq status 403 || nat_eq status 409)))
      × (reason_code (from_http_status from_str status message) ≡ (
          if nat_eq status 409
          then (parse_authz_body_fields from_str message).reason_code
          else none))
unfolding from_http_status is_retryable_transport
from_http_status_kinds from_str status message = ground arith

-- The copy that a waiter receives displays as the original does, has every accessor's value, and
-- has lost its source; a copy of the copy is the copy.
clone_for_waiter_keeps :
    (e : AxiamError)
    → (to_string (clone_for_waiter e) ≡ to_string e)
      × (is_retryable_transport (clone_for_waiter e) ≡ is_retryable_transport e)
      × (oauth_error_code (clone_for_waiter e) ≡ oauth_error_code e)
      × (retry_after (clone_for_waiter e) ≡ retry_after e)
      × (id_token_failure_reason (clone_for_waiter e) ≡ id_token_failure_reason e)
      × (set_failure_reason (clone_for_waiter e) ≡ set_failure_reason e)
      × (reason_code (clone_for_waiter e) ≡ reason_code e)
      × (source (clone_for_waiter e) ≡ none)
      × (clone_for_waiter (clone_for_waiter e) ≡ clone_for_waiter e)
unfolding clone_for_waiter to_string is_retryable_transport oauth_error_code retry_after
    id_token_failure_reason set_failure_reason
clone_for_waiter_keeps (auth e) = ground arith
clone_for_waiter_keeps (authz e) = ground arith
clone_for_waiter_keeps (network e) = ground arith
