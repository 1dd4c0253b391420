-- ===== src/Error/Examples.antt =====
-- Tests of src/error.rs, and the theorems at concrete inputs.
use axiam_rust_sdk.Prelude.{◌≡◌, refl, none, some}
use axiam_rust_sdk.Prelude.Int.{pos}
use axiam_rust_sdk.Error.{
  AxiamError, authz, network, AuthzBodyParser, conflict, from_http_status, from_grpc_code,
  parse_authz_body_fields, new_auth,
}

abbrev stale_body : AuthzBodyParser
stale_body s =
    some (record { action = none; resource_id = some "r-1"; reason_code = some "stale_version" })

conflict_keeps_sub_code :
    from_http_status stale_body 409 "{}"
    ≡ authz (record {
      kind = conflict;
      message = "{}";
      action = none;
      resource_id = some "r-1";
      reason_code = some "stale_version";
    })
unfolding from_http_status parse_authz_body_fields
conflict_keeps_sub_code = refl

grpc_unauthenticated : from_grpc_code (pos 16) "no" ≡ new_auth "no"
unfolding from_grpc_code
grpc_unauthenticated = refl

abbrev reset : AxiamError
reset = network (record { message = "reset"; source = some "broken pipe" })
