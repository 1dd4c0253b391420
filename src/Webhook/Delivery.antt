-- ===== src/Webhook/Delivery.antt =====
-- A genuine delivery is accepted by src/webhook.rs.
use mathlib.Core.Option.{get_or}
use axiam_rust_sdk.Prelude.{
  ℕ, ◌-◌, ◌/◌, ◌^◌, ◌≤◌, ◌<◌, ◌≡◌, ◌↔◌, refl, true, false, Option, none, some, List, [], ◌∷◌, ◌++◌,
  arith, ok,
}
use axiam_rust_sdk.Prelude.Int.{ℤ, int_eq_iff, abs_diff}
use axiam_rust_sdk.Prelude.Text.{Text, text, text_eq_iff, parse_i64}
use axiam_rust_sdk.Webhook.{
  WebhookVerifyOptions, nanos_per_sec, check_timestamp_header, skew, check_freshness, is_match,
  match_any, verify_webhook,
}
use axiam_rust_sdk.Webhook.Header.{
  IsPlain, parse_i64-IsPlain, server_header, parse_header-server_header,
}
use axiam_rust_sdk.Webhook.Soundness.{Agrees}

-- Below the largest `i64` the skew decides exactly as the distance does: the window has two sides,
-- and the saturating subtraction changes no answer.
skew-le_iff :
    (now timestamp : ℤ) (tolerance_secs : ℕ)
    → tolerance_secs < 2 ^ 63 - 1
    → (skew now timestamp ≤ tolerance_secs) ↔ (abs_diff now timestamp ≤ tolerance_secs)
unfolding skew abs_diff
skew-le_iff now timestamp tolerance_secs h = (λ k. ground arith, λ k. ground (arith, k))

check_timestamp_header-ok :
    (header : Option Text) (timestamp : ℤ)
    → Agrees header timestamp
    → check_timestamp_header header timestamp ≡ ok tt
unfolding check_timestamp_header
check_timestamp_header-ok none timestamp h = refl
check_timestamp_header-ok (some raw) timestamp h =
    rw h (rw ((int_eq_iff timestamp timestamp).1 refl) refl)

check_freshness-ok :
    (tolerance : ℕ) (now timestamp : ℤ)
    → skew now timestamp ≤ tolerance / nanos_per_sec
    → check_freshness tolerance now timestamp ≡ ok tt
unfolding check_freshness
check_freshness-ok tolerance now timestamp h = ground arith

module _ (mac : List ℕ → List ℕ → List ℕ) (decode : Text → Option (List ℕ)) where
  is_match-ok :
      (expected : List ℕ) (candidate : Text)
      → decode candidate ≡ some expected
      → is_match mac decode expected candidate ≡ true
  unfolding is_match
  is_match-ok expected candidate h = rw (h, is_match) ((text_eq_iff expected expected).1 refl)

  match_any-one :
      (expected : List ℕ) (candidate : Text)
      → decode candidate ≡ some expected
      → match_any mac decode expected (candidate ∷ []) false ≡ true
  unfolding match_any
  match_any-one expected candidate h = rw (is_match-ok expected candidate h, match_any) refl

  -- A delivery with the header that a server writes over the MAC of its own timestamp and body, fresh
  -- and with an agreeing separate header if one is given, is accepted, and the event carries its
  -- timestamp and body. The timestamp is any text that parses as an `i64`, the signature any text
  -- without white space or commas that decodes to the MAC.
  pub verify_webhook-genuine :
      (clock timestamp : ℤ) (secret ts sig : Text) (body : List ℕ) (options : WebhookVerifyOptions)
      → parse_i64 ts ≡ some timestamp
      → IsPlain sig
      → decode sig ≡ some (mac secret (ts ++ text "." ++ body))
      → Agrees options.timestamp_header timestamp
      → skew (get_or options.now clock) timestamp ≤ options.tolerance / nanos_per_sec
      → verify_webhook mac decode clock secret (server_header ts sig) body options
        ≡ ok (record {
          timestamp = timestamp;
          event_type = options.event_type;
          delivery_id = options.delivery_id;
          body = body;
        })
  unfolding verify_webhook
  verify_webhook-genuine clock timestamp secret ts sig body options parsed plain signs agrees
        fresh =
      rw (parse_header-server_header ts sig (parse_i64-IsPlain ts timestamp parsed) plain) (
        rw parsed (
          rw (check_timestamp_header-ok options.timestamp_header timestamp agrees) (
            rw (match_any-one (mac secret (ts ++ text "." ++ body)) sig signs) (
              rw (check_freshness-ok options.tolerance (get_or options.now clock) timestamp fresh)
                refl))))
