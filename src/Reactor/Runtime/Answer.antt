-- ===== src/Reactor/Runtime/Answer.antt =====
-- When `publish_answer` of src/amqp/reactor/runtime.rs publishes.
use axiam_rust_sdk.Prelude.{
  ℕ, ◌<◌, ◌≡◌, refl, ap, ◌⊎◌, inl, inr, String, String-Eq, ◌==◌, ==_iff, Bool, true, false, not,
  ◌&&◌, Option, none, some, List, [], ◌∷◌, Bool-cases, Option-cases, leb, arith,
}
use mathlib.Core.Option.{get_or}
use axiam_rust_sdk.Prelude.Maps.{Map}
use axiam_rust_sdk.Amqp.Json.{Json, Codec}
use axiam_rust_sdk.Reactor.Registry.{ReactorMode, intercept, listen}
use axiam_rust_sdk.Reactor.Router.{ReactorEvent, ReactorDecision}
use axiam_rust_sdk.Reactor.Protocol.{ReplyDecision, ReactorReply, Messages, sign}
use axiam_rust_sdk.Reactor.Runtime.{
  Properties, Deed, published, DispatchContext, Readings, login_post_auth, reply_parts, reply_of,
  send_to, publish_body, publish_parts, publish_answer, answer_in, answer,
}

module _ (json : Json) (codec : Codec) (messages : Messages json.Value) (delivery : Properties)
    (ctx : DispatchContext) (event : ReactorEvent json.Value) (at : Readings) (deadline : ℕ) where
  -- What a published body shows of where it goes.
  pub record Sent (body : List ℕ) (deeds : List Deed) : Type 0 where
    pub in_time : at.written_at < deadline
    pub queue : String
    pub has_queue : delivery.reply_to ≡ some queue
    pub sends :
        deeds ≡ published queue (get_or delivery.correlation_id event.correlation_id) body ∷ []

  send_to-Sent :
      (queue : Option String) (body : List ℕ)
      → delivery.reply_to ≡ queue
      → at.written_at < deadline
      → (send_to json codec messages queue delivery event body ≡ [])
        ⊎ Sent body (send_to json codec messages queue delivery event body)
  unfolding send_to
  send_to-Sent none body goes early = inl refl
  send_to-Sent (some queue) body goes early =
      inr (record { in_time = early; queue = queue; has_queue = goes; sends = refl })

  publish_body_cases :
      (body : List ℕ)
      → (publish_body json codec messages delivery event at deadline body ≡ [])
        ⊎ Sent body (publish_body json codec messages delivery event at deadline body)
  unfolding publish_body
  publish_body_cases body = elim (Bool-cases (leb deadline at.written_at)) [
    | inl late ↦ rw late (inl refl)
    | inr early ↦ rw early (send_to-Sent delivery.reply_to body refl (ground (arith, early)))
  ]

  -- What a published reply shows of the decision it answers with.
  pub record Reply (decision : ReactorDecision) (deeds : List Deed) : Type 0 where
    pub parts : ReplyDecision × Option String × Option (Map String String) × Bool
    pub has_parts : reply_parts decision ≡ some parts
    pub mfa_where_supported : parts.3 ≡ true → event.event ≡ login_post_auth
    pub reply : ReactorReply
    pub signs :
        sign json codec messages ctx.signing_key (reply_of json codec messages event at parts)
        ≡ some reply
    pub body : List ℕ
    pub writes : messages.reply_to_vec reply ≡ some body
    pub sent : Sent body deeds

  supported_cases :
      (mfa : Bool)
      → (mfa && not (event.event == login_post_auth) ≡ true)
        ⊎ ((mfa && not (event.event == login_post_auth) ≡ false)
            × (mfa ≡ true → event.event ≡ login_post_auth))
  supported_cases false = inr (refl, λ h. absurd (cc h))
  supported_cases true = elim (Bool-cases (event.event == login_post_auth)) [
    | inl same ↦ inr (ap not same, λ _. (==_iff event.event login_post_auth).0 same)
    | inr other ↦ inl (ap not other)
  ]

  module _ (decision : ReactorDecision)
      (parts : ReplyDecision × Option String × Option (Map String String) × Bool)
      (has : reply_parts decision ≡ some parts) where
    publish_parts_cases :
        (publish_parts json codec messages delivery ctx event at deadline parts ≡ [])
        ⊎ Reply decision (publish_parts json codec messages delivery ctx event at deadline parts)
    unfolding publish_parts
    publish_parts_cases = elim (supported_cases parts.3) [
      | inl forbidden ↦ rw forbidden (inl refl)
      | inr (allowed, only) ↦
          elim (Option-cases (
            sign json codec messages ctx.signing_key
              (reply_of json codec messages event at parts))) [
                | inl unsigned ↦ rw (allowed) (rw (unsigned, publish_parts) (inl refl))
                | inr (reply, signs) ↦ elim (Option-cases (messages.reply_to_vec reply)) [
                  | inl unwritten ↦
                      rw allowed
                        (rw (signs, publish_parts) (rw (unwritten, publish_parts) (inl refl)))
                  | inr (body, writes) ↦ rw allowed (
                      rw (signs, publish_parts)
                        (rw (writes, publish_parts)
                          (elim (publish_body_cases body) [
                            | inl silent ↦ inl silent
                            | inr sent ↦ inr (record {
                              parts = parts;
                              has_parts = has;
                              mfa_where_supported = only;
                              reply = reply;
                              signs = signs;
                              body = body;
                              writes = writes;
                              sent = sent;
                            })
                          ])))
                ]
              ]
    ]

  publish_answer_cases :
      (decision : ReactorDecision)
      → (publish_answer json codec messages delivery ctx event decision at deadline ≡ [])
        ⊎ Reply decision
            (publish_answer json codec messages delivery ctx event decision at deadline)
  unfolding publish_answer
  publish_answer_cases decision = elim (Option-cases (reply_parts decision)) [
    | inl silent ↦ rw (silent, publish_answer) (inl refl)
    | inr (parts, has) ↦ rw (has, publish_answer) (publish_parts_cases decision parts has)
  ]

  -- An answer that is sent: only an interceptor sends one, for a decision.
  pub record Answered (d : Option ReactorDecision) (deeds : List Deed) : Type 0 where
    pub intercepts : ctx.mode ≡ intercept
    pub decision : ReactorDecision
    pub decides : d ≡ some decision
    pub reply : Reply decision deeds

  answer_in_cases :
      (mode : ReactorMode) (decision : ReactorDecision)
      → ctx.mode ≡ mode
      → (answer_in json codec messages mode delivery ctx event decision at deadline ≡ [])
        ⊎ Answered
            (some decision)
            (answer_in json codec messages mode delivery ctx event decision at deadline)
  unfolding answer_in
  answer_in_cases listen decision m = inl refl
  answer_in_cases intercept decision m = elim (publish_answer_cases decision) [
    | inl silent ↦ inl silent
    | inr reply ↦
        inr (record { intercepts = m; decision = decision; decides = refl; reply = reply })
  ]

  pub answer_cases :
      (d : Option ReactorDecision)
      → (answer json codec messages delivery ctx event d at deadline ≡ [])
        ⊎ Answered d (answer json codec messages delivery ctx event d at deadline)
  unfolding answer
  answer_cases none = inl refl
  answer_cases (some decision) = answer_in_cases ctx.mode decision refl
