-- ===== src/Reactor/Runtime/Answered.antt =====
-- What `dispatch_delivery` of src/amqp/reactor/runtime.rs does with a delivery.
use axiam_rust_sdk.Prelude.{
  ℕ, ◌+◌, ◌≡◌, refl, ◌⊎◌, inl, inr, String, String-Eq, ◌==◌, ==_iff, true, false, Option, some,
  List, [], ◌∷◌, ◌++◌, Bool-cases, Option-cases, Result-cases,
}
use axiam_rust_sdk.Amqp.Json.{Json, Codec}
use axiam_rust_sdk.Amqp.Replay.{ReplayGuard, check_and_record_nonce}
use axiam_rust_sdk.Reactor.Router.{ReactorEvent}
use axiam_rust_sdk.Reactor.Protocol.{Messages, verify_event, timeout}
use axiam_rust_sdk.Reactor.Protocol.Signed.{Genuine, verify_event-Genuine}
use axiam_rust_sdk.Reactor.Runtime.{
  Properties, Deed, acked, nacked, request_start, request_end, DispatchContext, Ran, escaped,
  decided, panicked, elapsed, Readings, finish_event, after_call, static_event_label, decision_of,
  is_decided, answer, serve_event, dispatch_event, dispatch_body, dispatch_delivery,
}
use axiam_rust_sdk.Reactor.Runtime.Answer.{Answered, answer_cases}

module _ (json : Json) (codec : Codec) (messages : Messages json.Value) (doubled : ℕ → Option ℕ)
    (handler : ReactorEvent json.Value → Ran) (delivery : Properties) (ctx : DispatchContext)
    (at : Readings) where
  abbrev deadline_of : ReactorEvent json.Value → ℕ
  deadline_of event = at.started + timeout event

  -- What is done once the handler was run: the end of the request, at most one reply, and the
  -- acknowledgement, last.
  pub record Finished (event : ReactorEvent json.Value) (ran : Ran) (deeds : List Deed)
      : Type 0 where
    pub replies : List Deed
    pub done :
        deeds
        ≡ request_start (static_event_label event.event)
            ∷ request_end (static_event_label event.event) (is_decided (decision_of ran))
            ∷ replies
          ++ acked ∷ []
    pub silent_or_answered :
        (replies ≡ [])
        ⊎ Answered json codec messages delivery ctx event at
            (deadline_of event)
            (decision_of ran)
            replies

  -- What is done for an event that the handler is called on.
  abbrev pub Ends : ReactorEvent json.Value → Ran → List Deed → Type 0
  Ends event escaped deeds = deeds ≡ request_start (static_event_label event.event) ∷ []
  Ends event ran deeds = Finished event ran deeds

  -- An event that the handler was called on.
  pub record Served (event : ReactorEvent json.Value) (guard : ReplayGuard)
      (r : List Deed × ReplayGuard) : Type 0 where
    pub unseen : (check_and_record_nonce doubled event.nonce at.checked_at guard).0 ≡ true
    pub same_tenant : event.tenant_id ≡ ctx.tenant_id
    pub recorded : r.1 ≡ (check_and_record_nonce doubled event.nonce at.checked_at guard).1
    pub ended : Ends event (handler event) r.0

  finish_event-Finished :
      (event : ReactorEvent json.Value) (ran : Ran)
      → Finished event ran (
          request_start (static_event_label event.event)
          ∷ finish_event json codec messages delivery ctx event (decision_of ran) at)
  unfolding finish_event
  finish_event-Finished event ran = record {
    replies =
        answer json codec messages delivery ctx event (decision_of ran) at (deadline_of event);
    done = refl;
    silent_or_answered =
        answer_cases json codec messages delivery ctx event at (deadline_of event)
          (decision_of ran);
  }

  serve_event-Ends :
      (event : ReactorEvent json.Value) (ran : Ran)
      → Ends event ran (serve_event json codec messages delivery ctx event ran at)
  unfolding serve_event after_call
  serve_event-Ends event escaped = refl
  serve_event-Ends event (decided d) = finish_event-Finished event (decided d)
  serve_event-Ends event panicked = finish_event-Finished event panicked
  serve_event-Ends event elapsed = finish_event-Finished event elapsed

  -- A delivery that was refused: the guard at most records a nonce.
  abbrev pub Rejected : ReplayGuard → List Deed × ReplayGuard → Type 0
  Rejected guard r =
      (r.0 ≡ nacked false ∷ [])
      × ((r.1 ≡ guard)
          ⊎ ((nonce : String) × (r.1
                ≡ (check_and_record_nonce doubled nonce at.checked_at guard).1)))

  dispatch_event_cases :
      (event : ReactorEvent json.Value) (guard : ReplayGuard)
      → Served event guard
          (dispatch_event json codec messages doubled handler delivery ctx event at guard)
        ⊎ Rejected guard
            (dispatch_event json codec messages doubled handler delivery ctx event at guard)
  unfolding dispatch_event
  dispatch_event_cases event guard =
      elim (Bool-cases (check_and_record_nonce doubled event.nonce at.checked_at guard).0) [
        | inr seen ↦ rw seen (inr (refl, inr (event.nonce, refl)))
        | inl unseen ↦ elim (Bool-cases (event.tenant_id == ctx.tenant_id)) [
          | inr foreign ↦ rw unseen (rw foreign (inr (refl, inr (event.nonce, refl))))
          | inl same ↦ rw unseen (
              rw same (
                inl (record {
                  unseen = unseen;
                  same_tenant = (==_iff event.tenant_id ctx.tenant_id).0 same;
                  recorded = refl;
                  ended = serve_event-Ends event (handler event);
                })))
        ]
      ]

  -- A delivery whose event the handler was called on.
  pub record Dispatched (bytes : List ℕ) (guard : ReplayGuard) (r : List Deed × ReplayGuard)
      : Type 0 where
    pub body : json.Value
    pub parses : json.from_slice bytes ≡ some body
    pub event : ReactorEvent json.Value
    pub genuine :
        Genuine json codec messages body ctx.signing_key at.verified_at ctx.freshness_skew event
    pub served : Served event guard r

  dispatch_body_cases :
      (bytes : List ℕ) (guard : ReplayGuard) (body : json.Value)
      → json.from_slice bytes ≡ some body
      → Dispatched bytes guard
          (dispatch_body json codec messages doubled handler body delivery ctx at guard)
        ⊎ Rejected guard
            (dispatch_body json codec messages doubled handler body delivery ctx at guard)
  unfolding dispatch_body
  dispatch_body_cases bytes guard body parses =
      elim (Result-cases
        (verify_event json codec messages body ctx.signing_key at.verified_at ctx.freshness_skew)) [
          | inr (rejection, bad) ↦ rw (bad, dispatch_body) (inr (refl, inl refl))
          | inl (event, good) ↦
              rw (good, dispatch_body)
                (elim (dispatch_event_cases event guard) [
                  | inr rejected ↦ inr rejected
                  | inl served ↦ inl (record {
                    body = body;
                    parses = parses;
                    event = event;
                    genuine = verify_event-Genuine json codec messages body _ _ _ event good;
                    served = served;
                  })
                ])
        ]

  -- A delivery is settled once, as its last deed, or, where the call of the handler itself panics, not
  -- at all. Either it is refused, without a return to the queue and with no reply. Or the handler is
  -- called on an event that is genuine, of this tenant and with a nonce that the guard does not hold.
  -- Where that call panics, nothing follows the start of the request. Otherwise, whether the handler
  -- comes to a decision, its future panics or its window closes, the delivery is acknowledged. Before that at most one reply is sent off: by an interceptor, for a decision that has a
  -- reply, signed with the reactor's key, before the event's deadline, to the queue that the delivery
  -- names; one that asks for a second factor, on the login event only.
  pub dispatch_delivery_cases :
      (bytes : List ℕ) (guard : ReplayGuard)
      → Dispatched bytes guard
          (dispatch_delivery json codec messages doubled handler bytes delivery ctx at guard)
        ⊎ Rejected guard
            (dispatch_delivery json codec messages doubled handler bytes delivery ctx at guard)
  unfolding dispatch_delivery
  dispatch_delivery_cases bytes guard = elim (Option-cases (json.from_slice bytes)) [
    | inl unread ↦ rw (unread, dispatch_delivery) (inr (refl, inl refl))
    | inr (body, parses) ↦
        rw (parses, dispatch_delivery) (dispatch_body_cases bytes guard body parses)
  ]
