-- ===== src/Amqp/Json.antt =====
-- What src/amqp uses of `serde_json`, `chrono` and the HMAC packages: parameters of the model.
use axiam_rust_sdk.Prelude.{ℕ, String, Bool, Option, List}

-- `serde_json::Value`, with the calls that are made of it. An unsigned number is below 2^64.
pub record Json : Type 1 where
  pub Value : Type 0
  pub from_slice : List ℕ → Option Value
  pub to_vec : Value → Option (List ℕ)
  pub get : String → Value → Option Value
  pub as_str : Value → Option String
  pub as_u64 : Value → Option ℕ
  pub is_object : Value → Bool
  pub null : Value
  -- On an object; any other value stays as it is.
  pub insert : String → Value → Value → Value
  pub shift_remove : String → Value → Value

-- `Hmac<Sha256>` of a key and a message, `hex`, and `DateTime::parse_from_rfc3339`, which gives an
-- instant in nanoseconds from the earliest that the type holds.
pub record Codec : Type 0 where
  pub mac : List ℕ → List ℕ → List ℕ
  pub hex_decode : String → Option (List ℕ)
  pub hex_encode : List ℕ → String
  pub parse_from_rfc3339 : String → Option ℕ
