-- ===== src/Webhook.antt =====
-- src/webhook.rs: the check of a webhook delivery's signature. HMAC-SHA256 and the hex decoder are
-- parameters. A text is the list of its code points: what reaches the MAC has parsed as an integer,
-- so it is ASCII, and its code points are its bytes.
pub mod Header
pub mod Soundness
pub mod Delivery
mod Examples
use axiam_rust_sdk.Prelude.{
  ℕ, ◌+◌, ◌-◌, ◌/◌, ◌^◌, min, String, Bool, true, false, not, ◌||◌, Option, none, some, List, [],
  ◌∷◌, ◌++◌, Result, ok, err, ◌>>=◌, ◌>>◌, ok_or, ensure, ltb, leb, if◌then◌else◌,
}
use mathlib.Core.Option.{get_or}
use axiam_rust_sdk.Prelude.Int.{ℤ, pos_part, neg_part, int_eq}
use axiam_rust_sdk.Prelude.Text.{Text, text, text_eq, trim, split, split_once, parse_i64}

pub data WebhookVerifyError : Type 0 where
  malformed_header : String → WebhookVerifyError
  missing_signature invalid_timestamp timestamp_mismatch signature_mismatch : WebhookVerifyError
  stale : ℕ → ℕ → WebhookVerifyError

pub record WebhookEvent : Type 0 where
  pub timestamp : ℤ
  pub event_type : Option Text
  pub delivery_id : Option Text
  pub body : List ℕ

-- `tolerance` is a duration in nanoseconds.
pub record WebhookVerifyOptions : Type 0 where
  pub tolerance : ℕ
  pub now : Option ℤ
  pub timestamp_header : Option Text
  pub event_type : Option Text
  pub delivery_id : Option Text

abbrev pub nanos_per_sec : ℕ
nanos_per_sec = 1_000_000_000

abbrev pub default_tolerance : ℕ
default_tolerance = 300_000_000_000

-- `WebhookVerifyOptions::default`
abbrev pub default_options : WebhookVerifyOptions
default_options = record {
  tolerance = default_tolerance;
  now = none;
  timestamp_header = none;
  event_type = none;
  delivery_id = none;
}

-- What the header loop has found: the `t` field and the `v1` fields, in order.
pub record Fields : Type 0 where
  pub raw_t : Option Text
  pub v1_values : List Text

-- The `match key` of the loop.
unfoldable pub add_field : Text → Text → Fields → Result Fields WebhookVerifyError
add_field key value f =
    if text_eq key (text "t")
    then elim f.raw_t [
      | some _ ↦ err (malformed_header "duplicate `t` field")
      | none ↦ ok (record f { raw_t = some value })
    ]
    else if text_eq key (text "v1")
    then ok (record f { v1_values = f.v1_values ++ value ∷ [] })
    else ok f

unfoldable pub add_pair : Text → Fields → Result Fields WebhookVerifyError
unfolding add_field
add_pair [] f = ok f
add_pair (c ∷ pair) f = elim (split_once b'=' (c ∷ pair)) [
  | none ↦ err (malformed_header "expected comma-separated key=value pairs")
  | some (key, value) ↦ add_field (trim key) (trim value) f
]

unfoldable pub add_pairs : List Text → Fields → Result Fields WebhookVerifyError
unfolding add_pair
add_pairs [] f = ok f
add_pairs (pair ∷ pairs) f = add_pair (trim pair) f >>= λ f'. add_pairs pairs f'

unfoldable pub parse_header : Text → Result Fields WebhookVerifyError
unfolding add_pairs
parse_header header = add_pairs (split b',' header) (record { raw_t = none; v1_values = [] })

-- The separate timestamp header has to agree, where it is given.
unfoldable pub check_timestamp_header : Option Text → ℤ → Result Unit WebhookVerifyError
check_timestamp_header none timestamp = ok tt
check_timestamp_header (some raw) timestamp = do
  header_ts ← ok_or (parse_i64 (trim raw)) timestamp_mismatch
  ensure (int_eq header_ts timestamp) timestamp_mismatch

unfoldable pub is_empty : List Text → Bool
is_empty [] = true
is_empty (_ ∷ _) = false

-- `now.saturating_sub(timestamp).unsigned_abs()` on `i64`
unfoldable pub skew : ℤ → ℤ → ℕ
skew now timestamp =
    let ahead = pos_part now + neg_part timestamp in
    let behind = pos_part timestamp + neg_part now in
    if leb behind ahead then min (ahead - behind) (2 ^ 63 - 1) else min (behind - ahead) (2 ^ 63)

unfoldable pub check_freshness : ℕ → ℤ → ℤ → Result Unit WebhookVerifyError
unfolding skew
check_freshness tolerance now timestamp =
    let skew_secs = skew now timestamp in
    let tolerance_secs = tolerance / nanos_per_sec in
    if ltb tolerance_secs skew_secs then err (stale skew_secs tolerance_secs) else ok tt

-- `mac key message` is HMAC-SHA256; `decode` is `hex::decode_to_slice` into 32 bytes.
module _ (mac : List ℕ → List ℕ → List ℕ) (decode : Text → Option (List ℕ)) where
  -- Whether one candidate matches: what is no hex text of 32 bytes does not.
  unfoldable pub is_match : List ℕ → Text → Bool
  is_match expected candidate = elim (decode candidate) [
    | some decoded ↦ text_eq expected decoded
    | none ↦ false
  ]

  -- The loop over all candidates, with no early return.
  unfoldable pub match_any : List ℕ → List Text → Bool → Bool
  unfolding is_match
  match_any expected [] matched = matched
  match_any expected (candidate ∷ v1_values) matched =
      match_any expected v1_values (matched || is_match expected candidate)

  -- `clock` is what `current_unix_secs` reads.
  unfoldable pub verify_webhook :
      ℤ → List ℕ → Text → List ℕ → WebhookVerifyOptions → Result WebhookEvent WebhookVerifyError
  unfolding parse_header check_timestamp_header match_any check_freshness is_empty
  verify_webhook clock secret signature_header body options = do
    fields ← parse_header signature_header
    raw_t ← ok_or fields.raw_t invalid_timestamp
    timestamp ← ok_or (parse_i64 raw_t) invalid_timestamp
    check_timestamp_header options.timestamp_header timestamp
    ensure (not (is_empty fields.v1_values)) missing_signature
    ensure (match_any (mac secret (raw_t ++ text "." ++ body)) fields.v1_values false)
        signature_mismatch
    check_freshness options.tolerance (get_or options.now clock) timestamp
    ok (record {
      timestamp = timestamp;
      event_type = options.event_type;
      delivery_id = options.delivery_id;
      body = body;
    })
