-- ===== src/Middleware/Access/Examples.antt =====
-- Runs of the guard of src/middleware/authz.rs: the world is whether the service is up.
use axiam_rust_sdk.Prelude.{
  ◌≡◌, ◌↔◌, ◌⊎◌, refl, Bool, true, false, some, [], ◌∷◌, ok, err, if◌then◌else◌,
}
use axiam_rust_sdk.Prelude.Maps.{contains}
use axiam_rust_sdk.Error.{new_auth, new_network}
use axiam_rust_sdk.Middleware.{AxiamUser}
use axiam_rust_sdk.Middleware.Access.{
  unavailable, denied_guard, denied_with_challenge, require_role_check, RequireAccess, Client,
  challenge_of, check,
}
use axiam_rust_sdk.Middleware.Access.Guarded.{
  Allowed, IsTicket, Hints, check_iff, check-challenge_of,
}

abbrev user : AxiamUser
user = record { user_id = 7; tenant_id = 1; roles = "reader" ∷ "writer" ∷ [] }

-- Nothing grants an access, and no ticket is minted.
abbrev client : Client Bool
client = record {
  check_access_as = λ subject action resource scope up. (
    if up
        then ok (record { allowed = false; reason_code = some "no_grant" })
        else err (new_network "down"),
    up,
  );
  uma_request_ticket = λ pat resource scopes up. (err (new_auth "expired"), up);
}

abbrev guard : RequireAccess
guard = record {
  action = "files:read";
  scope = some "files";
  challenger = some (record { realm = "r"; as_uri = "https://as"; pat = "p" });
  mcp = some (λ scope. ok scope);
}

hints_scope :
    check client guard user 3 true
    ≡ (err (denied_with_challenge "access denied for action 'files:read'" "files"), true)
unfolding check
hints_scope = refl

fails_closed :
    check client guard user 3 false ≡ (err (unavailable "authorization service unavailable"), false)
unfolding check new_network
fails_closed = refl

one_role : require_role_check user ("admin" ∷ "writer" ∷ []) ≡ ok tt
unfolding require_role_check contains
one_role = refl

no_role :
    require_role_check user ("admin" ∷ [])
    ≡ err (denied_guard "caller does not hold any of the required roles")
unfolding require_role_check contains
no_role = refl

check_iff_example :
    ((check client guard user 3 true).0 ≡ ok tt)
    ↔ Allowed (client.check_access_as 7 "files:read" 3 (some "files") true).0
check_iff_example = check_iff client guard 3 user true

check-challenge_of_example :
    IsTicket guard.challenger "files"
    ⊎ Hints guard (client.check_access_as 7 "files:read" 3 (some "files") true).0 "files"
unfolding check challenge_of
check-challenge_of_example =
    check-challenge_of client guard 3 user true
      (denied_with_challenge "access denied for action 'files:read'" "files") "files" refl refl
