-- ===== src/Oidc/Device/Examples.antt =====
-- Logins of src/oidc/device.rs on a server that answers from a list: a grant for 100 seconds, with an
-- interval of 5. A request takes a second.
use axiam_rust_sdk.Prelude.{
  ℕ, ◌+◌, ◌≤◌, ◌≡◌, refl, subst, Result, ok, err, ok-injective, leb, true, String, String-Eq,
  Option, none, some, List, [], ◌∷◌, map, arith, if◌then◌else◌,
}
use axiam_rust_sdk.Prelude.Text.{Text, text, trim, is_whitespace, parse_u64}
use axiam_rust_sdk.Error.{oauth_protocol_error, oauth_error_code}
use axiam_rust_sdk.Retry.{Fraction, secs, parse_retry_after}
use axiam_rust_sdk.Retry.Run.{RetryRunner, run_until, attempts, cap, turn}
use axiam_rust_sdk.Oidc.Device.{
  DeviceAuthorization, new_schedule, slow_down, tick, PollFailure, classify_failure, device_expired,
}
use axiam_rust_sdk.Oidc.Device.Poll.{Response, Backend, device_poll_step}
use axiam_rust_sdk.Oidc.Device.Login.{
  DeviceClient, Outcome, returned, panicked, Round, device_login_with,
}
use axiam_rust_sdk.Oidc.Device.Granted.{Granted}
use axiam_rust_sdk.Oidc.Device.Ends.{Concludes}
use axiam_rust_sdk.Oidc.Device.Composed.{SteadyClock, login_client, login_client-Concludes}

record Server : Type 0 where
  clock : ℕ
  script : List Response

-- An answer of a status, with its `error` as its body, and its hint.
abbrev answer : ℕ → String → Option Text → Response
answer status error hint = record { status = status; retry_after = hint; text = some error }

abbrev send_next : Server → Result Response String × Server
send_next s = elim s.script [
  | [] ↦ (err "timed out", record s { clock = s.clock + secs 1 })
  | response ∷ rest ↦ (ok response, record { clock = s.clock + secs 1; script = rest })
]

sending : (s : Server) → s.clock ≤ (send_next s).1.clock
sending s = elim s.script as (λ l. s.clock ≤ (send_next (record s { script = l })).1.clock) [
  | [] ↦ omega arith
  | response ∷ rest ↦ omega arith
]

abbrev full : Fraction
full = record {
  F64 = ℕ;
  clamp = λ f. f;
  mul_f64 = λ d f. d;
  mul_f64-clamp-le = λ d f h. omega arith;
}

abbrev granted : DeviceAuthorization
granted = record {
  device_code = "d";
  user_code = "u";
  verification_uri = "v";
  verification_uri_complete = none;
  expires_in = 100;
  interval = 5;
}

abbrev base : DeviceClient Server String
base = record {
  now = λ s. (s.clock, s);
  sleep = λ d s. record s { clock = s.clock + d };
  checked_add = λ t d. some (t + d);
  discover = λ s. (ok tt, s);
  authorize = λ s. (ok granted, s);
  on_user_code = λ a s. s;
  poll = λ bound s. none;
}

abbrev backend : Backend Server String String
backend = record {
  prepare = λ s. (ok tt, s);
  send = send_next;
  parse_error = λ body. some (record { error = body; error_description = "" });
  parse_authz = λ body. none;
  parse_tokens = λ response. ok "tokens";
  to_token_set = λ wire s. (ok wire, s);
  display = λ n. "";
}

abbrev runner : RetryRunner full Server (Result String PollFailure)
runner = record {
  enabled = true;
  op = λ n s. (ok (ok ""), s);
  fraction = λ s. (0, s);
  sleep = λ d s. s;
  emit = λ n d reason s. s;
}

abbrev client : DeviceClient Server String
client = record base { poll = λ bound s. device_poll_step backend runner (some bound) s }

-- Slowed down once, then told to wait for 30 seconds, then granted.
abbrev server : Server
server = record {
  clock = 0;
  script =
      answer 400 "slow_down" none
      ∷ answer 429 "rate_limit_exceeded" (some (text "30"))
      ∷ answer 400 "authorization_pending" none
      ∷ answer 200 "" none
      ∷ [];
}

abbrev slept : Round → ℕ × ℕ
slept round = (round.waited, round.polled_at)

abbrev summary :
    {W : Type 0} → Option (Outcome String × List Round × W) → Option (Outcome String × List (ℕ × ℕ))
summary none = none
summary (some (outcome, rounds, s)) = some (outcome, map slept rounds)

paces :
    summary (device_login_with client 5 server)
    ≡ some
        (returned (ok "tokens"), (10, secs 58) ∷ (30, secs 47) ∷ (10, secs 16) ∷ (5, secs 5) ∷ [])
unfolding device_login_with new_schedule device_poll_step run_until attempts cap turn
    classify_failure oauth_error_code oauth_protocol_error slow_down parse_retry_after parse_u64
    trim is_whitespace
paces = refl

-- A hint that reaches past the deadline is not waited for.
expires :
    summary (
      device_login_with client 5 (record server { script = answer 429 "" (some (text "95")) ∷ [] }))
    ≡ some (returned (err device_expired), (5, secs 5) ∷ [])
unfolding device_login_with new_schedule device_poll_step run_until attempts cap turn
    classify_failure oauth_error_code oauth_protocol_error slow_down parse_retry_after parse_u64
    trim is_whitespace
expires = refl

-- On a clock that ends at 1000 seconds a longer hint has no instant.
overflows :
    summary (
      device_login_with
        (record client {
          checked_add = λ t d. if leb (t + d) (secs 1000) then some (t + d) else none;
        })
        5
        (record server { script = answer 429 "" (some (text "1000")) ∷ [] }))
    ≡ some (panicked, (5, secs 5) ∷ [])
unfolding device_login_with new_schedule device_poll_step run_until attempts cap turn
    classify_failure oauth_error_code oauth_protocol_error slow_down parse_retry_after parse_u64
    trim is_whitespace
overflows = refl

ticks : (tick (new_schedule 0 6)).1 ≡ record { interval_secs = 5; remaining_secs = 1 }
unfolding tick new_schedule
ticks = refl

abbrev slow_server : Server
slow_server = record server { script = answer 400 "slow_down" none ∷ answer 200 "" none ∷ [] }

abbrev slow_rounds : List Round
slow_rounds =
    record { waited = 10; polled_at = secs 16; failure = none }
    ∷ record {
      waited = 5;
      polled_at = secs 5;
      failure = some (record {
        err = oauth_protocol_error "slow_down" "";
        retry_after = none;
        status = some 400;
      });
    }
    ∷ []

steady : SteadyClock base backend runner (λ s. s.clock)
steady = record {
  now_reads = λ s. refl;
  sleep_lasts = λ d s. omega arith;
  adds = λ t d until h. cc h;
  preparing = λ s. omega arith;
  sending = sending;
  making = λ wire s. omega arith;
  telling = λ n d reason s. omega arith;
  drawing = λ s. omega arith;
}

login_client-Concludes_example :
    Concludes (device_login_with (login_client base backend runner) 101 server)
login_client-Concludes_example =
    login_client-Concludes base backend runner (λ s. s.clock) steady 100 server (omega arith)
      (λ given a h.
        subst (λ (g : DeviceAuthorization). g.expires_in ≤ 100) (ok-injective h) (omega arith))
