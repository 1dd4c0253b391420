-- ===== src/Amqp/Sample.antt =====
-- A small stand-in for JSON, the MAC and the decoders, with one signed message: the tests and the
-- witnesses of src/amqp run on it.
use axiam_rust_sdk.Prelude.{
  ℕ, ◌*◌, String, String-Eq, ◌==◌, Bool, true, false, Option, none, some, List, [], ◌∷◌, ◌++◌,
  if◌then◌else◌,
}
use axiam_rust_sdk.Amqp.Json.{Json, Codec}

pub data Sample : Type 0 where
  null_sample : Sample
  text_sample : String → Sample
  number_sample : ℕ → Sample
  message_sample : ℕ → String → Option String → Sample

abbrev pub get_sample : String → Sample → Option Sample
get_sample name (message_sample version nonce signature) =
    if name == "key_version"
    then some (number_sample version)
    else if name == "nonce"
    then some (text_sample nonce)
    else if name == "issued_at"
    then some (text_sample "1000")
    else if name == "hmac_signature"
    then elim signature [ none ↦ none | some s ↦ some (text_sample s) ]
    else none
get_sample name _ = none

abbrev as_str_sample : Sample → Option String
as_str_sample (text_sample s) = some s
as_str_sample _ = none

abbrev as_u64_sample : Sample → Option ℕ
as_u64_sample (number_sample n) = some n
as_u64_sample _ = none

abbrev unsign : Sample → Sample
unsign (message_sample version nonce signature) = message_sample version nonce none
unsign v = v

abbrev write_sample : Sample → Option (List ℕ)
write_sample (message_sample version nonce none) = some (version ∷ [])
write_sample _ = none

abbrev read_sample : List ℕ → Option Sample
read_sample (version ∷ []) = some (message_sample version "n1" (some "good"))
read_sample (version ∷ _ ∷ _) = some (message_sample version "n2" (some "bad"))
read_sample [] = none

abbrev is_message : Sample → Bool
is_message (message_sample version nonce signature) = true
is_message _ = false

abbrev pub sample_json : Json
sample_json = record {
  Value = Sample;
  from_slice = read_sample;
  to_vec = write_sample;
  get = get_sample;
  as_str = as_str_sample;
  as_u64 = as_u64_sample;
  is_object = is_message;
  null = null_sample;
  insert = λ name value v. unsign v;
  shift_remove = λ name v. unsign v;
}

abbrev pub sample_codec : Codec
sample_codec = record {
  mac = λ key payload. key ++ payload;
  hex_decode = λ s. if s == "good" then some (7 ∷ 2 ∷ []) else none;
  hex_encode = λ bytes. "good";
  parse_from_rfc3339 = λ s. if s == "1000" then some 1000 else none;
}

abbrev pub twice : ℕ → Option ℕ
twice n = some (n * 2)
