-- ===== src/Reactor/Protocol.antt =====
-- src/amqp/reactor/protocol.rs: the check of an event, and the reply to it. JSON, the MAC and the
-- serialization of the two messages are parameters.
pub mod Signed
mod Examples
use axiam_rust_sdk.Prelude.{
  ℕ, ◌*◌, ◌^◌, String, Bool, true, false, Option, none, some, List, Result, ok, err, ◌>>=◌, ◌>>◌,
  ok_or, ensure, not, ltb, leb, if◌then◌else◌,
}
use axiam_rust_sdk.Prelude.Maps.{Map}
use axiam_rust_sdk.Amqp.Json.{Json, Codec}
use axiam_rust_sdk.Amqp.Hmac.{sign_payload, verify_payload}
use axiam_rust_sdk.Amqp.Replay.{is_fresh}
use axiam_rust_sdk.Reactor.Registry.{ReactorEventSpec, event_spec}
use axiam_rust_sdk.Reactor.Router.{ReactorEvent}

-- `REACTOR_KEY_VERSION`
abbrev pub reactor_key_version : ℕ
reactor_key_version = 2

pub data EventRejection : Type 0 where
  malformed : String → EventRejection
  key_version_too_old : ℕ → EventRejection
  bad_signature : EventRejection
  stale : EventRejection
  replayed_nonce : EventRejection

pub data ReplyDecision : Type 0 where
  allow_reply deny_reply mutate_reply : ReplyDecision

pub record ReactorReply : Type 0 where
  pub correlation_id : String
  pub tenant_id : String
  pub event : String
  pub decision : ReplyDecision
  pub reason : Option String
  pub patch : Option (Map String String)
  pub require_mfa : Bool
  pub key_version : ℕ
  pub nonce : String
  pub issued_at : ℕ
  pub hmac_signature : Option String

-- `serde_json` on the two messages.
pub record Messages (V : Type 0) : Type 0 where
  pub from_value : V → Option (ReactorEvent V)
  pub reply_to_vec : ReactorReply → Option (List ℕ)

module _ {V : Type 0} where
  -- `ReactorEvent::spec`
  unfoldable pub spec : ReactorEvent V → Option ReactorEventSpec
  spec event = event_spec event.event

  -- `ReactorEvent::timeout`, in nanoseconds
  unfoldable pub timeout : ReactorEvent V → ℕ
  timeout event = event.timeout_ms * 1_000_000

  -- `ReactorReply::answering`; the nonce and the time are read inside.
  unfoldable pub answering : ReactorEvent V → ReplyDecision → ℕ → String → ReactorReply
  answering event decision now nonce = record {
    correlation_id = event.correlation_id;
    tenant_id = event.tenant_id;
    event = event.event;
    decision = decision;
    reason = none;
    patch = none;
    require_mfa = false;
    key_version = reactor_key_version;
    nonce = nonce;
    issued_at = now;
    hmac_signature = none;
  }

abbrev is_some {ℓ} : {A : Type ℓ} → Option A → Bool
is_some none = false
is_some (some a) = true

-- An early return unless there is a value.
abbrev join_option : {A B : Type 0} → Option A → (A → Option B) → Option B
join_option none next = none
join_option (some a) next = next a

module _ (json : Json) (codec : Codec) (messages : Messages json.Value) where
  -- `ReactorEvent::chained_patch`
  unfoldable pub chained_patch : ReactorEvent json.Value → Option json.Value
  chained_patch event = json.get "_reactor_patch" event.payload

  -- `key_version` of a body, if it is a byte.
  unfoldable pub key_version_of : json.Value → Option ℕ
  key_version_of body =
      join_option (json.get "key_version" body)
        (λ v. join_option (json.as_u64 v) (λ n. if ltb n (2 ^ 8) then some n else none))

  unfoldable pub string_of : String → json.Value → Option String
  string_of name body = join_option (json.get name body) json.as_str

  -- The bytes that an event's signature covers.
  unfoldable pub canonical_event_bytes : json.Value → Result (List ℕ) EventRejection
  canonical_event_bytes body = do
    ensure (json.is_object body) (malformed "body is not a JSON object")
    ensure (is_some (json.get "hmac_signature" body)) (malformed "hmac_signature is absent")
    ok_or (json.to_vec (json.insert "hmac_signature" json.null body))
        (malformed "body could not be re-serialized")

  unfoldable pub verify_event :
      json.Value → List ℕ → ℕ → ℕ → Result (ReactorEvent json.Value) EventRejection
  unfolding key_version_of string_of canonical_event_bytes
  verify_event body signing_key now skew = do
    key_version ← ok_or (key_version_of body) (malformed "key_version is absent or invalid")
    ensure (not (ltb key_version reactor_key_version)) (key_version_too_old key_version)
    signature ← ok_or (string_of "hmac_signature" body) bad_signature
    canonical ← canonical_event_bytes body
    ensure (verify_payload codec signing_key canonical signature) bad_signature
    event ← ok_or (messages.from_value body) (malformed "body does not decode as a reactor event")
    ensure (is_fresh event.issued_at now skew) stale
    ok event

  unfoldable pub canonical_signed_bytes : ReactorReply → Option (List ℕ)
  canonical_signed_bytes reply = messages.reply_to_vec (record reply { hmac_signature = none })

  -- `ReactorReply::sign`: nothing where the reply cannot be written.
  unfoldable pub sign : List ℕ → ReactorReply → Option ReactorReply
  unfolding canonical_signed_bytes
  sign signing_key reply =
      let unsigned : ReactorReply = record reply {
        hmac_signature = none;
        key_version = reactor_key_version;
      } in
      elim (canonical_signed_bytes unsigned) [
        | none ↦ none
        | some bytes ↦
            some (record unsigned { hmac_signature = some (sign_payload codec signing_key bytes) })
      ]

  unfoldable pub signature_valid : List ℕ → ReactorReply → Bool
  unfolding canonical_signed_bytes
  signature_valid signing_key reply = elim reply.hmac_signature [
    | none ↦ false
    | some signature ↦ elim (canonical_signed_bytes reply) [
      | none ↦ false
      | some bytes ↦ verify_payload codec signing_key bytes signature
    ]
  ]
