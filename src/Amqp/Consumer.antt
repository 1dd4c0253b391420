-- ===== src/Amqp/Consumer.antt =====
-- src/amqp/consumer.rs: from the bytes of a delivery to the handler and the acknowledgement. The
-- handler runs to its end; JSON, the MAC and `chrono` are parameters.
pub mod Dispatch
pub mod Replayed
mod Examples
use axiam_rust_sdk.Prelude.{
  ℕ, ◌^◌, String, Bool, true, false, Option, none, some, List, [], ◌∷◌, ltb, leb, Result, ok, err,
  ◌>>=◌, ◌>>◌, ok_or, ensure, if◌then◌else◌,
}
use axiam_rust_sdk.Amqp.Json.{Json, Codec}
use axiam_rust_sdk.Amqp.Hmac.{verify_payload}
use axiam_rust_sdk.Amqp.Replay.{Clock, ReplayGuard, is_fresh, check_and_record_nonce}

abbrev pub min_accepted_key_version : ℕ
min_accepted_key_version = 2

pub record ReplayFields : Type 0 where
  pub key_version : ℕ
  pub nonce : String
  pub issued_at : ℕ

-- What is done with a delivery and its body.
pub data Effect (V : Type 0) : Type 0 where
  handled : V → Effect V
  acked : Effect V
  nacked : Bool → Effect V

infixl 5 ◌>>?◌
abbrev ◌>>?◌ : {A B : Type 0} → Option A → (A → Option B) → Option B
none >>? next = none
some a >>? next = next a

-- `u8::try_from`
abbrev pub u8_of : ℕ → Option ℕ
u8_of n = if ltb n (2 ^ 8) then some n else none

module _ (json : Json) (codec : Codec) (doubled : ℕ → Option ℕ) where
  -- The three fields, in the order in which they are read.
  unfoldable pub extract_replay_fields : json.Value → Option ReplayFields
  extract_replay_fields body =
      json.get "key_version" body >>? json.as_u64 >>? u8_of >>? λ key_version.
      json.get "nonce" body >>? json.as_str >>? λ nonce.
      json.get "issued_at" body >>? json.as_str >>? codec.parse_from_rfc3339 >>? λ issued_at.
      some (record { key_version = key_version; nonce = nonce; issued_at = issued_at })

  unfoldable pub validate_fields :
      ReplayFields → Clock → ReplayGuard → Result Unit String × ReplayGuard
  validate_fields fields clock guard =
      let (first, guard') = check_and_record_nonce doubled fields.nonce clock.instant guard in
      if ltb fields.key_version min_accepted_key_version
      then (err "key_version below the minimum accepted version (NEW-4 hard cutover)", guard)
      else if is_fresh fields.issued_at clock.utc guard.skew
      then (if first then ok tt else err "nonce already seen (replay)", guard')
      else (err "issued_at outside the freshness skew window", guard)

  unfoldable pub validate_v2_replay_protection :
      json.Value → Clock → ReplayGuard → Result Unit String × ReplayGuard
  unfolding extract_replay_fields validate_fields
  validate_v2_replay_protection body clock guard = elim (extract_replay_fields body) [
    | none ↦ (
      err "missing or malformed key_version/nonce/issued_at (NEW-4 v2 fields are mandatory)",
      guard,
    )
    | some fields ↦ validate_fields fields clock guard
  ]

  -- The `hmac_signature` of a body, if it is a string.
  unfoldable pub signature_of : json.Value → Option String
  signature_of body = json.get "hmac_signature" body >>? json.as_str

  unfoldable pub is_verified : List ℕ → Option String → List ℕ → Bool
  is_verified signing_key sig canonical = elim sig [
    | some s ↦ verify_payload codec signing_key canonical s
    | none ↦ false
  ]

  -- What follows the verdict on the fields.
  unfoldable pub settle :
      json.Value → Result Unit String × ReplayGuard → List (Effect json.Value) × ReplayGuard
  settle body (err reason, guard) = (nacked false ∷ [], guard)
  settle body (ok _, guard) = (handled body ∷ acked ∷ [], guard)

  -- From a verified body on.
  unfoldable pub dispatch_verified :
      json.Value → Clock → ReplayGuard → List (Effect json.Value) × ReplayGuard
  unfolding settle
  dispatch_verified body clock guard = settle body (validate_v2_replay_protection body clock guard)

  -- From a parsed body on: the signature is taken out, and checked against the rest.
  unfoldable pub dispatch_parsed :
      json.Value → List ℕ → Clock → ReplayGuard → List (Effect json.Value) × ReplayGuard
  unfolding signature_of is_verified dispatch_verified
  dispatch_parsed parsed signing_key clock guard =
      let body = json.shift_remove "hmac_signature" parsed in
      elim (json.to_vec body) [
        | none ↦ (nacked false ∷ [], guard)
        | some canonical ↦
            if is_verified signing_key (signature_of parsed) canonical
            then dispatch_verified body clock guard
            else (nacked false ∷ [], guard)
      ]

  unfoldable pub verify_and_dispatch :
      List ℕ → List ℕ → Clock → ReplayGuard → List (Effect json.Value) × ReplayGuard
  unfolding dispatch_parsed
  verify_and_dispatch bytes signing_key clock guard = elim (json.from_slice bytes) [
    | none ↦ (nacked false ∷ [], guard)
    | some parsed ↦ dispatch_parsed parsed signing_key clock guard
  ]

  -- The loop of `consume_with_tls` over what the stream gives: a delivery with the clock's reading, or
  -- an error of the stream, which is passed over. The effects of each delivery, in order.
  unfoldable pub consume_loop :
      List ℕ
      → List (Option (List ℕ × Clock))
      → ReplayGuard
      → List (List (Effect json.Value)) × ReplayGuard
  unfolding verify_and_dispatch
  consume_loop signing_key [] guard = ([], guard)
  consume_loop signing_key (none ∷ rest) guard = consume_loop signing_key rest guard
  consume_loop signing_key (some (bytes, clock) ∷ rest) guard =
      let (effects, guard') = verify_and_dispatch bytes signing_key clock guard in
      let (later, guard'') = consume_loop signing_key rest guard' in (effects ∷ later, guard'')
