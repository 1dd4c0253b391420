-- ===== src/Webhook/Examples.antt =====
-- Tests of src/webhook.rs, and the theorems at concrete inputs. The MAC here is the message itself
-- behind the key, and the decoder the identity: what the theorems ask holds of them.
use axiam_rust_sdk.Prelude.{ℕ, ◌≡◌, refl, Option, none, some, List, ◌++◌, arith, ok, err}
use axiam_rust_sdk.Prelude.Int.{pos}
use axiam_rust_sdk.Prelude.Text.{
  Text, text, trim, split, split_first, split_once, is_whitespace, parse_i64,
}
use axiam_rust_sdk.Webhook.{
  WebhookEvent, default_options, malformed_header, missing_signature, signature_mismatch,
  invalid_timestamp, stale, skew, verify_webhook,
}
use axiam_rust_sdk.Webhook.Header.{server_header}
use axiam_rust_sdk.Webhook.Soundness.{Proven, verify_webhook-Proven}
use axiam_rust_sdk.Webhook.Delivery.{verify_webhook-genuine}

abbrev mac : List ℕ → List ℕ → List ℕ
mac key message = key ++ message

abbrev decode : Text → Option (List ℕ)
decode s = some s

abbrev signature : Text
signature = text "k17.hi"

abbrev event : WebhookEvent
event = record { timestamp = pos 17; event_type = none; delivery_id = none; body = text "hi" }

accepts :
    verify_webhook mac decode
      (pos 20)
      (text "k")
      (text " t=17 , v2=x,v1=no,v1=k17.hi")
      (text "hi")
      default_options
    ≡ ok event
unfolding verify_webhook trim split split_first split_once is_whitespace parse_i64
accepts = refl

refuses :
    (verify_webhook mac decode
        (pos 20)
        (text "k")
        (text "t=17,v1=other")
        (text "hi")
        default_options
      ≡ err signature_mismatch)
    × (verify_webhook mac decode (pos 20) (text "k") (text "t=17") (text "hi") default_options
        ≡ err missing_signature)
    × (verify_webhook mac decode (pos 20) (text "k") (text "t=17,t=17") (text "hi") default_options
        ≡ err (malformed_header "duplicate `t` field"))
    × (verify_webhook mac decode (pos 20) (text "k") (text "t=1x,v1=a") (text "hi") default_options
        ≡ err invalid_timestamp)
    × (verify_webhook mac decode
          (pos 318)
          (text "k")
          (text "t=17,v1=k17.hi")
          (text "hi")
          default_options
        ≡ err (stale 301 300))
unfolding verify_webhook trim split split_first split_once is_whitespace parse_i64
refuses = (refl, refl, refl, refl, refl)

verify_webhook-Proven_example :
    Proven mac decode (pos 20) (text "k") (text "t=17,v1=k17.hi") (text "hi") default_options event
unfolding verify_webhook trim split split_first split_once is_whitespace parse_i64
verify_webhook-Proven_example =
    verify_webhook-Proven mac decode (pos 20) (text "k") (text "t=17,v1=k17.hi") (text "hi")
      default_options event refl

verify_webhook-genuine_example :
    verify_webhook mac decode
      (pos 20)
      (text "k")
      (server_header (text "17") signature)
      (text "hi")
      default_options
    ≡ ok event
unfolding parse_i64 is_whitespace skew
verify_webhook-genuine_example =
    verify_webhook-genuine mac decode (pos 20) (pos 17) (text "k") (text "17") signature (text "hi")
      default_options refl
      (
        (refl, refl),
        ((refl, refl), ((refl, refl), ((refl, refl), ((refl, refl), ((refl, refl), tt))))),
      )
      refl tt (omega arith)
