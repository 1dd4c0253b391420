-- ===== src/Oidc/Device/Poll.antt =====
-- `device_poll_step` of src/oidc/device.rs: one poll, with its retries. The request, the token endpoint
-- and the parsers are the record `Backend`.
use Prim.Native.String.{◌++◌ as concat}
use mathlib.Core.Option.{get_or}
use axiam_rust_sdk.Prelude.{
  ℕ, Result, ok, err, String, String-Eq, ◌==◌, ◌&&◌, Option, none, some, leb, ltb, nat_eq,
  if◌then◌else◌,
}
use axiam_rust_sdk.Prelude.Text.{Text}
use axiam_rust_sdk.Error.{
  AxiamError, auth, AuthzBodyParser, OauthProtocolError, oauth_protocol_error, from_http_status,
  new_network,
}
use axiam_rust_sdk.Retry.{Fraction, Attempt, bare, parse_retry_after}
use axiam_rust_sdk.Retry.Run.{RetryBound, RetryRunner, Ended, run_until}
use axiam_rust_sdk.Oidc.Device.{PollFailure, from_error, device_expired}

pub record Response : Type 0 where
  pub status : ℕ
  pub retry_after : Option Text
  pub text : Option String

-- What a poll asks of its surroundings, `W`: that the client is set up for it, the request, with the
-- kind of a failure, and the two parsers of an answer.
pub record Backend (W Wire TokenSet : Type 0) : Type 0 where
  pub prepare : W → Result Unit AxiamError × W
  pub send : W → Result Response String × W
  pub parse_error : String → Option OauthProtocolError
  pub parse_authz : AuthzBodyParser
  pub parse_tokens : Response → Result Wire AxiamError
  pub to_token_set : Wire → W → Result TokenSet AxiamError × W
  pub display : ℕ → String

-- The `Retry-After` of a response.
unfoldable pub retry_after_of : Response → Option ℕ
retry_after_of response = elim response.retry_after [
  | none ↦ none
  | some value ↦ parse_retry_after value
]

-- The slot of the hint, which only an authentication error has.
unfoldable pub with_retry_after : Option ℕ → AxiamError → AxiamError
with_retry_after retry_after (auth e) = auth (record e { retry_after = retry_after })
with_retry_after retry_after e = e

module _ {W Wire TokenSet : Type 0} (b : Backend W Wire TokenSet) where
  -- From the parsed body on.
  unfoldable pub oauth2_error_of : Response → String → Option OauthProtocolError → AxiamError
  unfolding with_retry_after retry_after_of
  oauth2_error_of response text none = from_http_status b.parse_authz response.status text
  oauth2_error_of response text (some body) =
      if body.error == ""
      then from_http_status b.parse_authz response.status text
      else let e = oauth_protocol_error body.error body.error_description in
        if nat_eq response.status 429 then with_retry_after (retry_after_of response) e else e

  -- `oauth2_error_or_fallback` of src/oidc/exchange.rs
  unfoldable pub oauth2_error_or_fallback : Response → AxiamError
  unfolding oauth2_error_of
  oauth2_error_or_fallback response =
      if leb 300 response.status && ltb response.status 400
      then new_network (
          concat "unexpected redirect (HTTP "
            (concat (b.display response.status) ") from an OAuth2 endpoint; not followed"))
      else let text = get_or response.text "no response body" in
        oauth2_error_of response text (b.parse_error text)

  -- What the closure makes of a response: a `5xx` is retried, and every other answer is decisive.
  unfoldable pub answer_of : Response → Result (Result Wire PollFailure) Attempt
  unfolding retry_after_of oauth2_error_or_fallback from_error
  answer_of response =
      if leb 200 response.status && ltb response.status 300
      then ok (elim (b.parse_tokens response) [ ok wire ↦ ok wire | err e ↦ err (from_error e) ])
      else if leb 500 response.status
      then err (record {
        err =
            from_http_status b.parse_authz response.status
              (concat "device token request failed: HTTP " (b.display response.status));
        retry_after = retry_after_of response;
      })
      else ok (
          err (record {
            err = oauth2_error_or_fallback response;
            retry_after = retry_after_of response;
            status = some response.status;
          }))

  -- The closure.
  unfoldable pub send_poll : ℕ → W → Result (Result Wire PollFailure) Attempt × W
  unfolding answer_of bare
  send_poll attempt w =
      let (sent, w') = b.send w in
      elim sent [
        | err kind ↦ (err (bare (new_network (concat "device token request failed: " kind))), w')
        | ok response ↦ (answer_of response, w')
      ]

  -- What is left of a run that did not get a decisive answer.
  unfoldable pub ended_failure : Ended → PollFailure
  unfolding from_error
  ended_failure ended =
      if ended.at_deadline
      then from_error device_expired
      else record { err = ended.err; retry_after = ended.retry_after; status = none }

  -- From the end of the run on.
  unfoldable pub finish :
      Result (Result Wire PollFailure) Ended → W → Result TokenSet PollFailure × W
  unfolding ended_failure from_error
  finish (err ended) w = (err (ended_failure ended), w)
  finish (ok (err failure)) w = (err failure, w)
  finish (ok (ok wire)) w =
      let (made, w') = b.to_token_set wire w in
      elim made [ ok tokens ↦ (ok tokens, w') | err e ↦ (err (from_error e), w') ]

  module _ {fr : Fraction} (r : RetryRunner fr W (Result Wire PollFailure)) where
    -- The runner of the poll, with its closure.
    unfoldable pub runner_of : RetryRunner fr W (Result Wire PollFailure)
    unfolding send_poll
    runner_of = record r { op = send_poll }

    unfoldable pub device_poll_step :
        Option (RetryBound W) → W → Option (Result TokenSet PollFailure × W)
    unfolding runner_of finish
    device_poll_step bound w =
        let (prepared, w') = b.prepare w in
        elim prepared [
          | err e ↦ some (err (from_error e), w')
          | ok _ ↦ elim (run_until runner_of bound w') [
            | none ↦ none
            | some (result, w'') ↦ some (finish result w''.outside)
          ]
        ]

    -- `AxiamClient::device_poll`
    unfoldable pub device_poll : W → Option (Result TokenSet AxiamError × W)
    unfolding device_poll_step
    device_poll w = elim (device_poll_step none w) [
      | none ↦ none
      | some (ok tokens, w') ↦ some (ok tokens, w')
      | some (err failure, w') ↦ some (err failure.err, w')
    ]
