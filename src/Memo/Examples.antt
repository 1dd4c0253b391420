-- ===== src/Memo/Examples.antt =====
-- Tests of src/memo.rs, and the theorems at concrete inputs. A UUID is a number here.
use axiam_rust_sdk.Prelude.{
  ℕ, ◌+◌, ◌<◌, min, ◌≡◌, refl, true, none, some, [], ◌∷◌, ℕ-Eq, String-Eq, Option-Eq,
}
use axiam_rust_sdk.Prelude.Maps.{lookup, insert}
use axiam_rust_sdk.Memo.Key
use axiam_rust_sdk.Memo.Key.{MemoKey, MemoKey-Eq, key_eq, key_eq_iff}
use axiam_rust_sdk.Memo.{max_ttl, AccessDecision, clear, new, get_at, put_at, evict}
use axiam_rust_sdk.Memo.Invariant.{WellFormed, new-WellFormed, put_at-WellFormed}
use axiam_rust_sdk.Memo.History.{puts, clears, run, latest, get_at-run}

abbrev read_key : MemoKey ℕ
read_key = record {
  subject_id = none;
  resource_id = 7;
  action = "read";
  scope = none;
  acting_tenant = none;
}

abbrev scoped_key : MemoKey ℕ
scoped_key = record read_key { scope = some "eu" }

abbrev allow : AccessDecision
allow = record { allowed = true; reason = none; reason_code = some "allowed" }

new_key : Key.new none 7 "read" none ≡ read_key
unfolding Key.new
new_key = refl

abbrev minute : ℕ
minute = 60_000_000_000

-- A time to live of a minute is clamped to five seconds.
expires_at_the_cap :
    (get_at (run minute (puts read_key allow 10 ∷ [])) read_key (max_ttl + 9) ≡ some allow)
    × (get_at (run minute (puts read_key allow 10 ∷ [])) read_key (max_ttl + 10) ≡ none)
    × (get_at (run minute (puts read_key allow 10 ∷ [])) scoped_key 11 ≡ none)
    × (get_at (run minute (clears ∷ puts read_key allow 10 ∷ [])) read_key 11 ≡ none)
    × (get_at (run 0 (puts read_key allow 10 ∷ [])) read_key 10 ≡ none)
unfolding run get_at put_at new evict lookup insert clear
expires_at_the_cap = (refl, refl, refl, refl, refl)

put_at-WellFormed_example : WellFormed (put_at (new minute) read_key allow 10)
put_at-WellFormed_example = put_at-WellFormed (new minute) read_key allow 10 (new-WellFormed minute)

get_at-run_example :
    (stored_at : ℕ) × (latest read_key (puts read_key allow 10 ∷ [])
      ≡ some (record { decision = allow; stored_at = stored_at }))
    × (12 < stored_at + min minute max_ttl)
unfolding run get_at put_at new evict lookup insert clear
get_at-run_example = get_at-run minute (puts read_key allow 10 ∷ []) read_key 12 allow refl
