-- ===== src/Webhook/Soundness.antt =====
-- What an accepted delivery of src/webhook.rs proves, for every MAC and every decoder.
use mathlib.Core.Option.{get_or}
use axiam_rust_sdk.Prelude.{
  ℕ, ◌/◌, ◌≤◌, ◌≡◌, ◌⊎◌, inl, inr, sym, subst, ap, ◌∙◌, ensure, ok-injective, Bool, true, false,
  not, ◌||◌, Option, none, some, List, [], ◌∷◌, ◌++◌, arith, Any, ok, ok_or, >>=-ok, ok_or-ok,
  ensure-ok, Option-cases, Bool-cases,
}
use axiam_rust_sdk.Prelude.Int.{ℤ, int_eq_iff}
use axiam_rust_sdk.Prelude.Text.{Text, text, text_eq_iff, trim, parse_i64}
use axiam_rust_sdk.Webhook.{
  WebhookEvent, WebhookVerifyOptions, nanos_per_sec, parse_header, check_timestamp_header, is_empty,
  skew, check_freshness, is_match, match_any, verify_webhook, timestamp_mismatch, invalid_timestamp,
  missing_signature, signature_mismatch,
}

module _ (mac : List ℕ → List ℕ → List ℕ) (decode : Text → Option (List ℕ)) where
  is_match-true :
      (expected : List ℕ) (candidate : Text)
      → is_match mac decode expected candidate ≡ true
      → decode candidate ≡ some expected
  unfolding is_match
  is_match-true expected candidate h = elim (Option-cases (decode candidate)) [
    | inl e ↦ absurd (ground (arith, e, h))
    | inr (d, e) ↦ ground (arith, e, h, (text_eq_iff expected d).0)
  ]

  pub match_any-Any :
      (expected : List ℕ) (candidates : List Text) (matched : Bool)
      → match_any mac decode expected candidates matched ≡ true
      → (matched ≡ true) ⊎ Any (λ c. decode c ≡ some expected) candidates
  unfolding match_any
  match_any-Any expected [] matched h = inl h
  match_any-Any expected (c ∷ cs) matched h =
      elim (match_any-Any expected cs (matched || is_match mac decode expected c) h) [
        | inr later ↦ inr (inr later)
        | inl now ↦ elim (Bool-cases matched) [
          | inl before ↦ inl before
          | inr fresh ↦ inr (inl (is_match-true expected c (ground (arith, fresh, now))))
        ]
      ]

-- The integer of the separate header, where it is given.
abbrev pub Agrees : Option Text → ℤ → Type 0
Agrees none timestamp = Unit
Agrees (some raw) timestamp = parse_i64 (trim raw) ≡ some timestamp

check_timestamp_header-Agrees :
    (header : Option Text) (timestamp : ℤ)
    → check_timestamp_header header timestamp ≡ ok tt
    → Agrees header timestamp
unfolding check_timestamp_header
check_timestamp_header-Agrees none timestamp h = tt
check_timestamp_header-Agrees (some raw) timestamp h =
    let parsed = >>=-ok (ok_or (parse_i64 (trim raw)) timestamp_mismatch) _ h in
    let same = (int_eq_iff parsed.0 timestamp).0 (ensure-ok _ _ parsed.2) in
    ok_or-ok _ _ parsed.1 ∙ ap some same

check_freshness-ok :
    (tolerance : ℕ) (now timestamp : ℤ)
    → check_freshness tolerance now timestamp ≡ ok tt
    → skew now timestamp ≤ tolerance / nanos_per_sec
unfolding check_freshness
check_freshness-ok tolerance now timestamp h = ground arith

-- What a delivery has to show to be accepted as `event`.
pub record Proven (mac : List ℕ → List ℕ → List ℕ) (decode : Text → Option (List ℕ)) (clock : ℤ)
    (secret : List ℕ) (header : Text) (body : List ℕ) (options : WebhookVerifyOptions)
    (event : WebhookEvent) : Type 0 where
  pub raw_t : Text
  pub v1_values : List Text
  pub parsed : parse_header header ≡ ok (record { raw_t = some raw_t; v1_values = v1_values })
  pub timestamp : parse_i64 raw_t ≡ some event.timestamp
  pub agreed : Agrees options.timestamp_header event.timestamp
  pub signed : Any (λ c. decode c ≡ some (mac secret (raw_t ++ text "." ++ body))) v1_values
  pub fresh : skew (get_or options.now clock) event.timestamp ≤ options.tolerance / nanos_per_sec
  pub carried_body : event.body ≡ body
  pub carried_type : event.event_type ≡ options.event_type
  pub carried_id : event.delivery_id ≡ options.delivery_id

-- Whatever the MAC and the decoder, an accepted delivery has one `t` field, which is the event's
-- timestamp, agrees with the separate header where that is given, and lies within the tolerance on
-- either side of now; one of its `v1` fields decodes to the MAC of that field, a dot and the body;
-- and the event carries this body.
pub verify_webhook-Proven :
    (mac : List ℕ → List ℕ → List ℕ) (decode : Text → Option (List ℕ)) (clock : ℤ) (secret : List ℕ)
    (header : Text) (body : List ℕ) (options : WebhookVerifyOptions) (event : WebhookEvent)
    → verify_webhook mac decode clock secret header body options ≡ ok event
    → Proven mac decode clock secret header body options event
unfolding verify_webhook
verify_webhook-Proven mac decode clock secret header body options event h =
    let fields = >>=-ok (parse_header header) _ h in
    let raw_t = >>=-ok (ok_or fields.0.raw_t invalid_timestamp) _ fields.2 in
    let timestamp = >>=-ok (ok_or (parse_i64 raw_t.0) invalid_timestamp) _ raw_t.2 in
    let agreed =
      >>=-ok (check_timestamp_header options.timestamp_header timestamp.0) _ timestamp.2 in
    let present =
      >>=-ok (ensure (not (is_empty fields.0.v1_values)) missing_signature) _ agreed.2 in
    let expected = mac secret (raw_t.0 ++ text "." ++ body) in
    let signed =
      >>=-ok (ensure (match_any mac decode expected fields.0.v1_values false) signature_mismatch) _
        present.2 in
    let now = get_or options.now clock in
    let fresh = >>=-ok (check_freshness options.tolerance now timestamp.0) _ signed.2 in
    let same = ok-injective fresh.2 in
    record {
      raw_t = raw_t.0;
      v1_values = fields.0.v1_values;
      parsed =
          fields.1
          ∙ ap (λ (o : Option Text). ok (record { raw_t = o; v1_values = fields.0.v1_values }))
              (ok_or-ok _ _ raw_t.1);
      timestamp = ok_or-ok _ _ timestamp.1 ∙ ap (λ (e : WebhookEvent). some e.timestamp) same;
      agreed =
          subst (λ (e : WebhookEvent). Agrees options.timestamp_header e.timestamp) same
            (check_timestamp_header-Agrees options.timestamp_header timestamp.0 agreed.1);
      signed =
          one_of
            (match_any-Any mac decode expected fields.0.v1_values false (ensure-ok _ _ signed.1));
      fresh =
          subst (λ (e : WebhookEvent). skew now e.timestamp ≤ options.tolerance / nanos_per_sec)
            same (check_freshness-ok options.tolerance now timestamp.0 fresh.1);
      carried_body = sym (ap (λ (e : WebhookEvent). e.body) same);
      carried_type = sym (ap (λ (e : WebhookEvent). e.event_type) same);
      carried_id = sym (ap (λ (e : WebhookEvent). e.delivery_id) same);
    }
  where
    one_of : {B : Type 0} → (false ≡ true) ⊎ B → B
    one_of (inl e) = absurd (cc e)
    one_of (inr b) = b
