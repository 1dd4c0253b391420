-- ===== src/Amqp/Hmac.antt =====
-- src/amqp/hmac.rs: the signature of a payload, as hex text.

use mathlib.Core.Option.{get_or}
use axiam_rust_sdk.Prelude.{ℕ, String, Bool, List, []}
use axiam_rust_sdk.Prelude.Text.{text_eq}
use axiam_rust_sdk.Amqp.Json.{Codec}

unfoldable pub sign_payload : Codec → List ℕ → List ℕ → String
sign_payload c key payload = c.hex_encode (c.mac key payload)

-- A signature that is no hex text counts as the empty one.
unfoldable pub verify_payload : Codec → List ℕ → List ℕ → String → Bool
verify_payload c key payload signature =
    text_eq (c.mac key payload) (get_or (c.hex_decode signature) [])
