-- ===== src/Oidc/Ciba/Examples.antt =====
-- A wait of src/oidc/ciba.rs for a request of 60 seconds, on a server that slows it down once. The world
-- is the clock; a request takes a second.
use axiam_rust_sdk.Prelude.{
  ℕ, ◌+◌, ◌≡◌, refl, Result, ok, String, String-Eq, none, some, List, [], ◌∷◌, true, ltb, arith,
  if◌then◌else◌,
}
use axiam_rust_sdk.Error.{oauth_protocol_error, oauth_error_code, new_auth}
use axiam_rust_sdk.Retry.{Fraction, secs, status_is_retryable}
use axiam_rust_sdk.Retry.Run.{RetryRunner, run_until, attempts, cap, turn}
use axiam_rust_sdk.Oidc.Device.Poll.{Response, Backend, oauth2_error_or_fallback}
use axiam_rust_sdk.Oidc.Ciba.{
  Awaited, CibaFailure, slowed, transient, terminal, decisive_step, CibaClient,
  CibaInitiateResponse, returned, CibaRound, ciba_poll_step, ciba_await,
}
use axiam_rust_sdk.Oidc.Ciba.Paced.{AwaitEnd}
use axiam_rust_sdk.Oidc.Ciba.Ends.{ciba_client, CibaTime}
use axiam_rust_sdk.Oidc.Ciba.Concludes.{ciba_await_concludes}

abbrev answer : ℕ → Response
answer clock =
    if ltb clock (secs 10)
    then record { status = 400; retry_after = none; text = some "slow_down" }
    else record { status = 200; retry_after = none; text = none }

abbrev backend : Backend ℕ String String
backend = record {
  prepare = λ w. (ok tt, w);
  send = λ w. (ok (answer w), w + secs 1);
  parse_error = λ body. some (record { error = body; error_description = "" });
  parse_authz = λ body. none;
  parse_tokens = λ response. ok "tokens";
  to_token_set = λ wire w. (ok wire, w);
  display = λ n. "";
}

abbrev full : Fraction
full = record {
  F64 = ℕ;
  clamp = λ f. f;
  mul_f64 = λ d f. d;
  mul_f64-clamp-le = λ d f h. omega arith;
}

abbrev runner : RetryRunner full ℕ (Result String CibaFailure)
runner = record {
  enabled = true;
  op = λ n w. (ok (ok ""), w);
  fraction = λ w. (0, w);
  sleep = λ d w. w;
  emit = λ n d reason w. w;
}

abbrev client : CibaClient ℕ String
client = record {
  now = λ w. (w, w);
  sleep = λ d w. w + d;
  checked_add = λ t d. some (t + d);
  poll = λ bound w. ciba_poll_step backend runner (some bound) w;
}

abbrev initiated : CibaInitiateResponse
initiated = record { auth_req_id = "r"; expires_in = 60; interval = 5; received_at = 0 }

abbrev rounds : List CibaRound
rounds =
    record { waited = 10; until = secs 16; failure = none }
    ∷ record {
      waited = 5;
      until = secs 5;
      failure = some (record { err = oauth_protocol_error "slow_down" ""; step = slowed });
    }
    ∷ []

awaits : ciba_await client 3 initiated 0 ≡ some (returned (ok "tokens"), rounds, secs 17)
unfolding ciba_await ciba_poll_step run_until attempts cap turn oauth2_error_or_fallback
    oauth_error_code oauth_protocol_error status_is_retryable
awaits = refl

-- A `slow_down` is one whatever its status, and a bare 429 is transient.
steps :
    (decisive_step (oauth_protocol_error "slow_down" "") 429 ≡ slowed)
    × (decisive_step (new_auth "no") 429 ≡ transient)
    × (decisive_step (oauth_protocol_error "access_denied" "") 400 ≡ terminal)
unfolding decisive_step oauth_error_code oauth_protocol_error new_auth
steps = (refl, refl, refl)

abbrev base : CibaClient ℕ String
base = record client { poll = λ bound w. none }

steady : CibaTime base backend runner (λ w. w)
steady = record {
  now_reads = λ w. refl;
  sleep_lasts = λ d w. omega arith;
  adds = λ t d until h. cc h;
  preparing = λ w. omega arith;
  sending = λ w. omega arith;
  making = λ wire w. omega arith;
  telling = λ n d reason w. omega arith;
  drawing = λ w. omega arith;
}

ciba_await_concludes_example :
    (outcome : Awaited String) × (rounds' : List CibaRound) × (w' : ℕ) × (ciba_await
        (ciba_client base backend runner)
        61
        initiated
        0
      ≡ some (outcome, rounds', w'))
    × AwaitEnd (ciba_client base backend runner) initiated 0 (some (outcome, rounds', w'))
ciba_await_concludes_example =
    ciba_await_concludes base backend runner (λ w. w) steady initiated 60 0 (omega arith)
      (omega arith) (omega arith) (omega arith)
