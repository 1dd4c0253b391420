-- ===== src/Reactor/Runtime.antt =====
-- src/amqp/reactor/runtime.rs: what a reactor does with one delivery. The readings of the clocks, the
-- nonce of the reply and what the handler came to are arguments. Log lines are left out.
pub mod Answer
pub mod Answered
mod Examples
use axiam_rust_sdk.Prelude.{
  ℕ, ◌+◌, String, String-Eq, ◌==◌, Bool, true, false, not, ◌&&◌, Option, none, some, List, [], ◌∷◌,
  ◌++◌, Result, ok, err, leb, if◌then◌else◌,
}
use mathlib.Core.Option.{get_or}
use axiam_rust_sdk.Prelude.Maps.{Map}
use axiam_rust_sdk.Amqp.Json.{Json, Codec}
use axiam_rust_sdk.Amqp.Replay.{ReplayGuard, check_and_record_nonce}
use axiam_rust_sdk.Reactor.Registry.{ReactorMode, intercept, listen, event_spec}
use axiam_rust_sdk.Reactor.Router.{ReactorEvent, ReactorDecision, allow, deny, mutate, abstain}
use axiam_rust_sdk.Reactor.Protocol.{
  ReplyDecision, allow_reply, deny_reply, mutate_reply, ReactorReply, Messages, timeout, answering,
  verify_event, sign,
}

-- What `ReactorDelivery` carries beside the bytes.
pub record Properties : Type 0 where
  pub reply_to : Option String
  pub correlation_id : Option String

-- What is done to a delivery, and the two events of its telemetry.
pub data Deed : Type 0 where
  acked : Deed
  nacked : Bool → Deed
  published : String → String → List ℕ → Deed
  request_start : String → Deed
  request_end : String → Bool → Deed

-- `DispatchContext`, but the guard, which is the state.
pub record DispatchContext : Type 0 where
  pub signing_key : List ℕ
  pub tenant_id : String
  pub mode : ReactorMode
  pub freshness_skew : ℕ

-- What the handler came to inside its window. A panic of its future is caught; one of the call itself,
-- which is made before there is a future, is not, and escapes the dispatch.
pub data Ran : Type 0 where
  escaped : Ran
  decided : ReactorDecision → Ran
  panicked : Ran
  elapsed : Ran

-- The readings of one dispatch, in order, and the nonce that the reply is given.
pub record Readings : Type 0 where
  pub verified_at : ℕ
  pub checked_at : ℕ
  pub started : ℕ
  pub replied_at : ℕ
  pub reply_nonce : String
  pub written_at : ℕ

abbrev pub login_post_auth : String
login_post_auth = "login.post_auth"

-- `static_event_label`
unfoldable pub static_event_label : String → String
static_event_label name = elim (event_spec name) [ none ↦ "unknown_event" | some spec ↦ spec.name ]

-- The parts of the reply to a decision, or nothing to publish.
unfoldable pub reply_parts :
    ReactorDecision → Option (ReplyDecision × Option String × Option (Map String String) × Bool)
reply_parts abstain = none
reply_parts (allow require_mfa) = some (allow_reply, none, none, require_mfa)
reply_parts (deny reason) = some (deny_reply, reason, none, false)
reply_parts (mutate []) = none
reply_parts (mutate (field ∷ patch)) = some (mutate_reply, none, some (field ∷ patch), false)

-- The decision, where there is one.
unfoldable pub decision_of : Ran → Option ReactorDecision
decision_of (decided d) = some d
decision_of escaped = none
decision_of panicked = none
decision_of elapsed = none

unfoldable pub is_decided : Option ReactorDecision → Bool
is_decided none = false
is_decided (some d) = true

module _ (json : Json) (codec : Codec) (messages : Messages json.Value) where
  -- The reply with its parts, before it is signed.
  unfoldable pub reply_of :
      ReactorEvent json.Value
      → Readings
      → ReplyDecision × Option String × Option (Map String String) × Bool
      → ReactorReply
  reply_of event at (decision, reason, patch, require_mfa) =
      record (answering event decision at.replied_at at.reply_nonce) {
        reason = reason;
        patch = patch;
        require_mfa = require_mfa;
      }

  -- Where the body goes: nowhere without a queue to reply to.
  unfoldable pub send_to : Option String → Properties → ReactorEvent json.Value → List ℕ → List Deed
  send_to none delivery event body = []
  send_to (some reply_to) delivery event body =
      published reply_to (get_or delivery.correlation_id event.correlation_id) body ∷ []

  -- From the written body on: the deadline, and where the reply goes.
  unfoldable pub publish_body :
      Properties → ReactorEvent json.Value → Readings → ℕ → List ℕ → List Deed
  unfolding send_to
  publish_body delivery event at deadline body =
      if leb deadline at.written_at then [] else send_to delivery.reply_to delivery event body

  -- From the parts of the reply on.
  unfoldable pub publish_parts :
      Properties
      → DispatchContext
      → ReactorEvent json.Value
      → Readings
      → ℕ
      → ReplyDecision × Option String × Option (Map String String) × Bool
      → List Deed
  unfolding reply_of publish_body
  publish_parts delivery ctx event at deadline parts =
      if parts.3 && not (event.event == login_post_auth)
      then []
      else elim (sign json codec messages ctx.signing_key (reply_of event at parts)) [
        | none ↦ []
        | some reply ↦ elim (messages.reply_to_vec reply) [
          | none ↦ []
          | some body ↦ publish_body delivery event at deadline body
        ]
      ]

  unfoldable pub publish_answer :
      Properties
      → DispatchContext
      → ReactorEvent json.Value
      → ReactorDecision
      → Readings
      → ℕ
      → List Deed
  unfolding reply_parts publish_parts
  publish_answer delivery ctx event decision at deadline = elim (reply_parts decision) [
    | none ↦ []
    | some parts ↦ publish_parts delivery ctx event at deadline parts
  ]

  -- Only an interceptor answers.
  unfoldable pub answer_in :
      ReactorMode
      → Properties
      → DispatchContext
      → ReactorEvent json.Value
      → ReactorDecision
      → Readings
      → ℕ
      → List Deed
  unfolding publish_answer
  answer_in listen delivery ctx event decision at deadline = []
  answer_in intercept delivery ctx event decision at deadline =
      publish_answer delivery ctx event decision at deadline

  -- What a decision leads to, and nothing without a decision.
  unfoldable pub answer :
      Properties
      → DispatchContext
      → ReactorEvent json.Value
      → Option ReactorDecision
      → Readings
      → ℕ
      → List Deed
  unfolding answer_in
  answer delivery ctx event none at deadline = []
  answer delivery ctx event (some decision) at deadline =
      answer_in ctx.mode delivery ctx event decision at deadline

  -- From the end of the window on.
  unfoldable pub finish_event :
      Properties
      → DispatchContext
      → ReactorEvent json.Value
      → Option ReactorDecision
      → Readings
      → List Deed
  unfolding static_event_label is_decided answer
  finish_event delivery ctx event decision at =
      request_end (static_event_label event.event) (is_decided decision)
        ∷ answer delivery ctx event decision at (at.started + timeout event)
      ++ acked ∷ []

  -- From the call of the handler on: nothing is done where the call itself panics.
  unfoldable pub after_call :
      Properties → DispatchContext → ReactorEvent json.Value → Ran → Readings → List Deed
  unfolding decision_of finish_event
  after_call delivery ctx event escaped at = []
  after_call delivery ctx event (decided d) at =
      finish_event delivery ctx event (decision_of (decided d)) at
  after_call delivery ctx event panicked at =
      finish_event delivery ctx event (decision_of panicked) at
  after_call delivery ctx event elapsed at =
      finish_event delivery ctx event (decision_of elapsed) at

  -- From an event that passed every check on.
  unfoldable pub serve_event :
      Properties → DispatchContext → ReactorEvent json.Value → Ran → Readings → List Deed
  unfolding static_event_label after_call
  serve_event delivery ctx event ran at =
      request_start (static_event_label event.event) ∷ after_call delivery ctx event ran at

  module _ (doubled : ℕ → Option ℕ) (handler : ReactorEvent json.Value → Ran) where
    -- From a verified event on: the nonce, then the tenant.
    unfoldable pub dispatch_event :
        Properties
        → DispatchContext
        → ReactorEvent json.Value
        → Readings
        → ReplayGuard
        → List Deed × ReplayGuard
    unfolding serve_event
    dispatch_event delivery ctx event at guard =
        let (first, guard') = check_and_record_nonce doubled event.nonce at.checked_at guard in
        if not first
        then (nacked false ∷ [], guard')
        else if event.tenant_id == ctx.tenant_id
        then (serve_event delivery ctx event (handler event) at, guard')
        else (nacked false ∷ [], guard')

    -- From the parsed body on.
    unfoldable pub dispatch_body :
        json.Value → Properties → DispatchContext → Readings → ReplayGuard → List Deed × ReplayGuard
    unfolding dispatch_event
    dispatch_body body delivery ctx at guard =
        elim (verify_event json codec messages body ctx.signing_key at.verified_at
          ctx.freshness_skew) [
            | err rejection ↦ (nacked false ∷ [], guard)
            | ok event ↦ dispatch_event delivery ctx event at guard
          ]

    unfoldable pub dispatch_delivery :
        List ℕ → Properties → DispatchContext → Readings → ReplayGuard → List Deed × ReplayGuard
    unfolding dispatch_body
    dispatch_delivery bytes delivery ctx at guard = elim (json.from_slice bytes) [
      | none ↦ (nacked false ∷ [], guard)
      | some body ↦ dispatch_body body delivery ctx at guard
    ]
