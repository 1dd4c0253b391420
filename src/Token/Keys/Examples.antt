-- ===== src/Token/Keys/Examples.antt =====
-- Runs of the cache of keys of src/token/jwks.rs: a fetch, an unknown `kid`, and a server that fails.
use axiam_rust_sdk.Prelude.{
  ℕ, ◌+◌, ◌≡◌, refl, String, Bool, true, false, none, some, List, [], ◌∷◌, Result, ok, err,
}
use axiam_rust_sdk.Error.{AxiamError, new_network}
use axiam_rust_sdk.Retry.{secs}
use axiam_rust_sdk.Token.Keys.{
  Jwk, Readings, new_cache, get_or_fetch, force_refetch_if_allowed, key_for, key_for_kid,
}
use axiam_rust_sdk.Token.Keys.Log.{Fetch, Lookup, gets, forces, lookups}
use axiam_rust_sdk.Token.Keys.Spaced.{AllRest, lookups_rest}
use axiam_rust_sdk.Token.Keys.Given.{Given, get_or_fetch-lookups}

abbrev only_key : Jwk String
only_key = record { key_id = some "k1"; key = "x1" }

abbrev at : ℕ → Result (List (Jwk String)) AxiamError → Readings String
at now answer = record {
  looked_at = secs now;
  checked_at = secs now;
  answer = answer;
  answered_at = secs now + 1;
}

abbrev served : ℕ → Readings String
served now = at now (ok (only_key ∷ []))

abbrev failing : ℕ → Readings String
failing now = at now (err (new_network "down"))

-- A first set, an unknown `kid` twice in a minute, and the end of the set's five minutes.
abbrev day : List (Lookup String)
day =
    gets (served 0)
    ∷ forces (served 10)
    ∷ forces (served 20)
    ∷ gets (served 300)
    ∷ gets (failing 320)
    ∷ gets (failing 350)
    ∷ gets (served 400)
    ∷ []

abbrev forced_of : List (Fetch String) → List Bool
forced_of [] = []
forced_of (f ∷ log) = f.is_forced ∷ forced_of log

day_fetches : forced_of (lookups day (new_cache true, [])).1 ≡ false ∷ false ∷ true ∷ false ∷ []
unfolding get_or_fetch force_refetch_if_allowed new_cache
day_fetches = refl

known_kid : (key_for (some "k1") (served 0) (served 1) (new_cache false)).0 ≡ ok (some only_key)
unfolding key_for new_cache
known_kid = refl

unknown_kid : (key_for_kid "k2" (served 0) (served 1) (new_cache false)).0 ≡ ok none
unfolding key_for_kid new_cache
unknown_kid = refl

lookups_rest_example : AllRest true (lookups day (new_cache true, [])).1
lookups_rest_example = lookups_rest true day

get_or_fetch-lookups_example :
    let (c, log) = lookups day (new_cache true, []) in
    Given log (served 500) (get_or_fetch (served 500) c)
get_or_fetch-lookups_example = get_or_fetch-lookups true day (served 500)
