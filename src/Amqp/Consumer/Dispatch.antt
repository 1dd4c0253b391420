-- ===== src/Amqp/Consumer/Dispatch.antt =====
-- What `verify_and_dispatch` of src/amqp/consumer.rs does with a delivery.
use axiam_rust_sdk.Prelude.{
  ℕ, ◌≤◌, ◌≡◌, refl, ◌⊎◌, inl, inr, Bool, true, false, Option, none, some, List, [], ◌∷◌, String,
  Result, ok, err, arith, Bool-cases, Option-cases, ltb,
}
use axiam_rust_sdk.Amqp.Json.{Json, Codec}
use axiam_rust_sdk.Amqp.Hmac.{verify_payload}
use axiam_rust_sdk.Amqp.Replay.{Clock, ReplayGuard, is_fresh, check_and_record_nonce}
use axiam_rust_sdk.Amqp.Consumer.{
  ReplayFields, Effect, handled, acked, nacked, min_accepted_key_version, extract_replay_fields,
  validate_fields, validate_v2_replay_protection, signature_of, is_verified, settle,
  dispatch_verified, dispatch_parsed, verify_and_dispatch,
}

module _ (json : Json) (codec : Codec) (doubled : ℕ → Option ℕ) where
  abbrev pub checked : String → Clock → ReplayGuard → Bool × ReplayGuard
  checked nonce clock guard = check_and_record_nonce doubled nonce clock.instant guard

  -- The fields of a body that passed.
  pub record Passed (fields : ReplayFields) (clock : Clock) (guard guard' : ReplayGuard)
      : Type 0 where
    pub current : 2 ≤ fields.key_version
    pub fresh : is_fresh fields.issued_at clock.utc guard.skew ≡ true
    pub unseen : (checked fields.nonce clock guard).0 ≡ true
    pub recorded : guard' ≡ (checked fields.nonce clock guard).1

  -- What a verdict leaves of the guard.
  abbrev Touched : Clock → ReplayGuard → ReplayGuard → Type 0
  Touched clock guard guard' =
      (guard' ≡ guard) ⊎ ((nonce : String) × (guard' ≡ (checked nonce clock guard).1))

  abbrev Verdict : ReplayFields → Clock → ReplayGuard → Result Unit String × ReplayGuard → Type 0
  Verdict fields clock guard (ok _, guard') = Passed fields clock guard guard'
  Verdict fields clock guard (err _, guard') = Touched clock guard guard'

  validate_fields-Verdict :
      (fields : ReplayFields) (clock : Clock) (guard : ReplayGuard)
      → Verdict fields clock guard (validate_fields json codec doubled fields clock guard)
  unfolding validate_fields
  validate_fields-Verdict fields clock guard =
      elim (Bool-cases (ltb fields.key_version min_accepted_key_version)) [
        | inl old ↦ rw old (inl refl)
        | inr current ↦ elim (Bool-cases (is_fresh fields.issued_at clock.utc guard.skew)) [
          | inr stale ↦ rw (current, stale) (inl refl)
          | inl fresh ↦ elim (Bool-cases (checked fields.nonce clock guard).0) [
            | inr seen ↦ rw (current, fresh, seen) (inr (fields.nonce, refl))
            | inl unseen ↦
                rw (current, fresh, unseen)
                  (record {
                    current = ground arith;
                    fresh = fresh;
                    unseen = unseen;
                    recorded = refl;
                  })
          ]
        ]
      ]

  abbrev pub Effects : Type 0
  Effects = List (Effect json.Value)

  abbrev pub Refused : Clock → ReplayGuard → Effects × ReplayGuard → Type 0
  Refused clock guard r = (r.0 ≡ nacked false ∷ []) × Touched clock guard r.1

  -- A body that was handled, once, and acknowledged after that.
  pub record Handled (body : json.Value) (clock : Clock) (guard : ReplayGuard)
      (r : Effects × ReplayGuard) : Type 0 where
    pub fields : ReplayFields
    pub has_fields : extract_replay_fields json codec doubled body ≡ some fields
    pub passed : Passed fields clock guard r.1
    pub effects : r.0 ≡ handled body ∷ acked ∷ []

  settled :
      (body : json.Value) (fields : ReplayFields) (clock : Clock) (guard : ReplayGuard)
      (v : Result Unit String × ReplayGuard)
      → extract_replay_fields json codec doubled body ≡ some fields
      → Verdict fields clock guard v
      → Handled body clock guard (settle json codec doubled body v)
        ⊎ Refused clock guard (settle json codec doubled body v)
  unfolding settle
  settled body fields clock guard (err reason, guard') has touched = inr (refl, touched)
  settled body fields clock guard (ok _, guard') has passed =
      inl (record { fields = fields; has_fields = has; passed = passed; effects = refl })

  dispatch_verified_cases :
      (body : json.Value) (clock : Clock) (guard : ReplayGuard)
      → Handled body clock guard (dispatch_verified json codec doubled body clock guard)
        ⊎ Refused clock guard (dispatch_verified json codec doubled body clock guard)
  unfolding dispatch_verified validate_v2_replay_protection
  dispatch_verified_cases body clock guard =
      elim (Option-cases (extract_replay_fields json codec doubled body)) [
        | inl missing ↦ rw (missing, validate_v2_replay_protection, settle) (inr (refl, inl refl))
        | inr (fields, has) ↦
            rw (has, validate_v2_replay_protection)
              (settled body fields clock guard _ has (validate_fields-Verdict fields clock guard))
      ]

  -- A delivery whose signature covers its body, and whose body was handled.
  pub record Accepted (key bytes : List ℕ) (clock : Clock) (guard : ReplayGuard)
      (r : Effects × ReplayGuard) : Type 0 where
    pub parsed : json.Value
    pub parses : json.from_slice bytes ≡ some parsed
    pub signature : String
    pub signed : signature_of json codec doubled parsed ≡ some signature
    pub canonical : List ℕ
    pub covers : json.to_vec (json.shift_remove "hmac_signature" parsed) ≡ some canonical
    pub verified : verify_payload codec key canonical signature ≡ true
    pub body : Handled (json.shift_remove "hmac_signature" parsed) clock guard r

  unsigned : (key canonical : List ℕ) → is_verified json codec doubled key none canonical ≡ false
  unfolding is_verified
  unsigned key canonical = refl

  signed_of :
      (key canonical : List ℕ) (sig : Option String)
      → is_verified json codec doubled key sig canonical ≡ true
      → (s : String) × (sig ≡ some s) × (verify_payload codec key canonical s ≡ true)
  unfolding is_verified
  signed_of key canonical none v = absurd (cc v)
  signed_of key canonical (some s) v = (s, refl, v)

  module _ (key bytes : List ℕ) (clock : Clock) (guard : ReplayGuard) (parsed : json.Value)
      (parses : json.from_slice bytes ≡ some parsed) where
    dispatch_parsed_cases :
        Accepted key bytes clock guard (dispatch_parsed json codec doubled parsed key clock guard)
        ⊎ Refused clock guard (dispatch_parsed json codec doubled parsed key clock guard)
    unfolding dispatch_parsed
    dispatch_parsed_cases =
        elim (Option-cases (json.to_vec (json.shift_remove "hmac_signature" parsed))) [
          | inl unwritten ↦ rw (unwritten, dispatch_parsed) (inr (refl, inl refl))
          | inr (canonical, covers) ↦
              elim (Bool-cases (
                is_verified json codec doubled key (signature_of json codec doubled parsed)
                  canonical)) [
                    | inr forged ↦ rw (covers, dispatch_parsed) (rw forged (inr (refl, inl refl)))
                    | inl genuine ↦
                        let (s, signed, verified) = signed_of key canonical _ genuine in
                        rw (covers, dispatch_parsed)
                          (rw genuine
                            (elim (dispatch_verified_cases
                              (json.shift_remove "hmac_signature" parsed) clock guard) [
                                | inr refused ↦ inr refused
                                | inl body ↦ inl (record {
                                  parsed = parsed;
                                  parses = parses;
                                  signature = s;
                                  signed = signed;
                                  canonical = canonical;
                                  covers = covers;
                                  verified = verified;
                                  body = body;
                                })
                              ]))
                  ]
        ]

  -- Every delivery is settled once. Either its body is handled and then acknowledged: it has a string
  -- for a signature, which verifies over what is left of the body without it, a key version of 2 at
  -- least, a time of issue within the skew of now, and a nonce that the guard does not hold. Or the
  -- handler is not called, and the delivery is refused without a return to the queue.
  pub verify_and_dispatch_cases :
      (key bytes : List ℕ) (clock : Clock) (guard : ReplayGuard)
      → Accepted key bytes clock guard
          (verify_and_dispatch json codec doubled bytes key clock guard)
        ⊎ Refused clock guard (verify_and_dispatch json codec doubled bytes key clock guard)
  unfolding verify_and_dispatch
  verify_and_dispatch_cases key bytes clock guard = elim (Option-cases (json.from_slice bytes)) [
    | inl unread ↦ rw (unread, verify_and_dispatch) (inr (refl, inl refl))
    | inr (parsed, parses) ↦
        rw (parses, verify_and_dispatch) (dispatch_parsed_cases key bytes clock guard parsed parses)
  ]
