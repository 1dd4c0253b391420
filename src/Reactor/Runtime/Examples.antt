-- ===== src/Reactor/Runtime/Examples.antt =====
-- Runs of src/amqp/reactor/runtime.rs on the sample message, as an event of the login, issued at 1000.
use axiam_rust_sdk.Prelude.{
  ℕ, ◌≡◌, refl, ◌⊎◌, true, false, Option, none, some, List, [], ◌∷◌, String, String-Eq,
}
use axiam_rust_sdk.Prelude.Maps.{contains}
use axiam_rust_sdk.Amqp.Hmac.{verify_payload}
use axiam_rust_sdk.Amqp.Sample.{Sample, message_sample, sample_json, sample_codec, twice}
use axiam_rust_sdk.Amqp.Replay.{ReplayGuard, new_guard, is_fresh, check_and_record_nonce}
use axiam_rust_sdk.Reactor.Registry.{intercept, event_spec}
use axiam_rust_sdk.Reactor.Router.{ReactorEvent, deny}
use axiam_rust_sdk.Reactor.Protocol.{Messages, answering, sign, verify_event, timeout}
use axiam_rust_sdk.Reactor.Runtime.{
  Properties, Deed, acked, nacked, published, request_start, request_end, DispatchContext, Ran,
  escaped, decided, elapsed, Readings, dispatch_delivery,
}
use axiam_rust_sdk.Reactor.Runtime.Answered.{Dispatched, Rejected, dispatch_delivery_cases}

abbrev event_of_sample : Sample → Option (ReactorEvent Sample)
event_of_sample (message_sample version nonce signature) = some (record {
  tenant_id = "t1";
  event = "login.post_auth";
  correlation_id = "c1";
  payload = message_sample version nonce none;
  timeout_ms = 5;
  key_version = version;
  nonce = nonce;
  issued_at = 1000;
  hmac_signature = signature;
})
event_of_sample _ = none

abbrev signature_bytes : Option String → List ℕ
signature_bytes none = []
signature_bytes (some s) = 1 ∷ []

abbrev sample_messages : Messages Sample
sample_messages = record {
  from_value = event_of_sample;
  reply_to_vec = λ reply. some (reply.issued_at ∷ signature_bytes reply.hmac_signature);
}

abbrev delivery : Properties
delivery = record { reply_to = some "q1"; correlation_id = none }

abbrev ctx : DispatchContext
ctx = record { signing_key = 7 ∷ []; tenant_id = "t1"; mode = intercept; freshness_skew = 100 }

abbrev at : Readings
at = record {
  verified_at = 1050;
  checked_at = 50;
  started = 50;
  replied_at = 1051;
  reply_nonce = "r1";
  written_at = 60;
}

abbrev late : Readings
late = record at { written_at = 5_000_050 }

abbrev guard : ReplayGuard
guard = new_guard 100

abbrev denies : ReactorEvent Sample → Ran
denies event = decided (deny (some "no"))

abbrev stalls : ReactorEvent Sample → Ran
stalls event = elapsed

abbrev dispatched : (ReactorEvent Sample → Ran) → Readings → List ℕ → List Deed
dispatched handler readings bytes =
    (dispatch_delivery sample_json sample_codec sample_messages twice handler bytes delivery ctx
      readings guard).0

answers :
    dispatched denies at (2 ∷ [])
    ≡ request_start "login.post_auth"
      ∷ request_end "login.post_auth" true
      ∷ published "q1" "c1" (1051 ∷ 1 ∷ [])
      ∷ acked
      ∷ []
unfolding dispatch_delivery verify_event verify_payload check_and_record_nonce is_fresh contains
    event_spec sign timeout answering
answers = refl

too_late :
    dispatched denies late (2 ∷ [])
    ≡ request_start "login.post_auth" ∷ request_end "login.post_auth" true ∷ acked ∷ []
unfolding dispatch_delivery verify_event verify_payload check_and_record_nonce is_fresh contains
    event_spec sign timeout answering
too_late = refl

stalled :
    dispatched stalls at (2 ∷ [])
    ≡ request_start "login.post_auth" ∷ request_end "login.post_auth" false ∷ acked ∷ []
unfolding dispatch_delivery verify_event verify_payload check_and_record_nonce is_fresh contains
    event_spec
stalled = refl

abbrev bursts : ReactorEvent Sample → Ran
bursts event = escaped

-- A panic of the call leaves the delivery unsettled.
burst : dispatched bursts at (2 ∷ []) ≡ request_start "login.post_auth" ∷ []
unfolding dispatch_delivery verify_event verify_payload check_and_record_nonce is_fresh contains
    event_spec
burst = refl

forged : dispatched denies at (2 ∷ 0 ∷ []) ≡ nacked false ∷ []
unfolding dispatch_delivery verify_event verify_payload
forged = refl

abbrev result : List Deed × ReplayGuard
result =
    dispatch_delivery sample_json sample_codec sample_messages twice denies (2 ∷ []) delivery ctx at
      guard

dispatch_delivery_cases_example :
    Dispatched sample_json sample_codec sample_messages twice denies delivery ctx at
      (2 ∷ [])
      guard
      result
    ⊎ Rejected sample_json sample_codec sample_messages twice denies delivery ctx at guard result
dispatch_delivery_cases_example =
    dispatch_delivery_cases sample_json sample_codec sample_messages twice denies delivery ctx at
      (2 ∷ []) guard
