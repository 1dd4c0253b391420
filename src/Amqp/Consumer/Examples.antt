-- ===== src/Amqp/Consumer/Examples.antt =====
-- Runs of the consumer of src/amqp/consumer.rs on the sample message, issued at 1000, with a skew of 100.
use axiam_rust_sdk.Prelude.{
  ℕ, ◌+◌, ◌*◌, ◌≡◌, refl, ◌⊎◌, Option, none, some, List, [], ◌∷◌, String-Eq, false, arith,
}
use axiam_rust_sdk.Prelude.Maps.{insert, contains}
use axiam_rust_sdk.Amqp.Hmac.{verify_payload}
use axiam_rust_sdk.Amqp.Sample.{Sample, message_sample, sample_json, sample_codec, twice}
use axiam_rust_sdk.Amqp.Replay.{Clock, ReplayGuard, new_guard, is_fresh, check_and_record_nonce}
use axiam_rust_sdk.Amqp.Consumer.{
  handled, acked, nacked, verify_and_dispatch, consume_loop, validate_v2_replay_protection,
}
use axiam_rust_sdk.Amqp.Consumer.Dispatch.{Accepted, Refused, verify_and_dispatch_cases}
use axiam_rust_sdk.Amqp.Consumer.Replayed.{replay-at_window_end}

abbrev guard : ReplayGuard
guard = new_guard 100

abbrev at_start : Clock
at_start = record { utc = 900; instant = 0 }

abbrev inside : Clock
inside = record { utc = 1099; instant = 199 }

abbrev at_end : Clock
at_end = record { utc = 1100; instant = 200 }

abbrev message : Sample
message = message_sample 2 "n1" none

abbrev stream : List (Option (List ℕ × Clock))
stream = some (2 ∷ [], inside) ∷ none ∷ some (2 ∷ 0 ∷ [], inside) ∷ []

accepted :
    (verify_and_dispatch sample_json sample_codec twice (2 ∷ []) (7 ∷ []) at_start guard).0
    ≡ handled message ∷ acked ∷ []
unfolding verify_and_dispatch verify_payload validate_v2_replay_protection check_and_record_nonce
    is_fresh contains
accepted = refl

-- In between the copy and a forged message are refused; at the end of the window the copy passes.
refused_between :
    (consume_loop sample_json sample_codec twice
      (7 ∷ [])
      stream
      (verify_and_dispatch sample_json sample_codec twice (2 ∷ []) (7 ∷ []) at_start guard).1).0
    ≡ (nacked false ∷ []) ∷ (nacked false ∷ []) ∷ []
unfolding consume_loop verify_payload validate_v2_replay_protection check_and_record_nonce is_fresh
    contains insert
refused_between = refl

accepted_again :
    (verify_and_dispatch sample_json sample_codec twice
      (2 ∷ [])
      (7 ∷ [])
      at_end
      (consume_loop sample_json sample_codec twice
        (7 ∷ [])
        stream
        (verify_and_dispatch sample_json sample_codec twice
          (2 ∷ [])
          (7 ∷ [])
          at_start
          guard).1).1).0
    ≡ handled message ∷ acked ∷ []
unfolding consume_loop verify_payload validate_v2_replay_protection check_and_record_nonce is_fresh
    contains insert
accepted_again = refl

verify_and_dispatch_cases_example :
    Accepted sample_json sample_codec twice
      (7 ∷ [])
      (2 ∷ [])
      at_start
      guard
      (verify_and_dispatch sample_json sample_codec twice (2 ∷ []) (7 ∷ []) at_start guard)
    ⊎ Refused sample_json sample_codec twice at_start guard
        (verify_and_dispatch sample_json sample_codec twice (2 ∷ []) (7 ∷ []) at_start guard)
verify_and_dispatch_cases_example =
    verify_and_dispatch_cases sample_json sample_codec twice (7 ∷ []) (2 ∷ []) at_start guard

replay-at_window_end_example : at_end.utc ≡ at_start.utc + guard.skew * 2
replay-at_window_end_example =
    replay-at_window_end sample_json sample_codec twice (7 ∷ []) (2 ∷ []) at_start at_end guard
      stream message message refl (omega arith, (tt, (omega arith, tt))) (omega arith) accepted
      accepted_again
