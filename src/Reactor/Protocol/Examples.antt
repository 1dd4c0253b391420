-- ===== src/Reactor/Protocol/Examples.antt =====
-- A run of src/amqp/reactor/protocol.rs with a text form of bytes that is read back: each byte as its
-- count of marks and an end.
use axiam_rust_sdk.Prelude.{
  ℕ, zero, suc, ◌+◌, ◌≡◌, refl, ap, ◌∙◌, true, none, some, List, [], ◌∷◌, ◌++◌, String, nat_eq,
  if◌then◌else◌, arith,
}
use axiam_rust_sdk.Amqp.Json.{Codec}
use axiam_rust_sdk.Amqp.Hmac.{sign_payload}
use axiam_rust_sdk.Amqp.Sample.{Sample, sample_json}
use axiam_rust_sdk.Reactor.Protocol.{ReactorReply, allow_reply, Messages, sign, signature_valid}
use axiam_rust_sdk.Reactor.Protocol.Signed.{signature_valid-sign}
use Prim.Native.Char.{code}

abbrev marks : ℕ → String → String
marks zero rest = String.◌∷◌ "." rest
marks (suc n) rest = String.◌∷◌ "|" (marks n rest)

abbrev encode : List ℕ → String
encode [] = ""
encode (b ∷ bytes) = marks b (encode bytes)

abbrev decode : ℕ → String → List ℕ
decode n String.[] = []
decode n (String.◌∷◌ c rest) =
    let more = decode (suc n) rest in
    let end = decode zero rest in if nat_eq (code c) b'|' then more else n ∷ end

decode-marks : (n k : ℕ) (rest : String) → decode n (marks k rest) ≡ (n + k) ∷ decode zero rest
decode-marks n zero rest = ap (λ m. m ∷ decode zero rest) (omega arith)
decode-marks n (suc k) rest =
    decode-marks (suc n) k rest ∙ ap (λ m. m ∷ decode zero rest) (omega arith)

decode-encode : (bytes : List ℕ) → decode zero (encode bytes) ≡ bytes
decode-encode [] = refl
decode-encode (b ∷ bytes) =
    decode-marks zero b (encode bytes)
    ∙ rw (decode-encode bytes) (ap (λ m. m ∷ bytes) (omega arith))

abbrev codec : Codec
codec = record {
  mac = λ key payload. key ++ payload;
  hex_decode = λ s. some (decode zero s);
  hex_encode = encode;
  parse_from_rfc3339 = λ s. none;
}

abbrev messages : Messages Sample
messages = record { from_value = λ v. none; reply_to_vec = λ reply. some (reply.issued_at ∷ []) }

abbrev reply : ReactorReply
reply = record {
  correlation_id = "c1";
  tenant_id = "t1";
  event = "login.post_auth";
  decision = allow_reply;
  reason = none;
  patch = none;
  require_mfa = true;
  key_version = 1;
  nonce = "r1";
  issued_at = 3;
  hmac_signature = none;
}

abbrev signed : ReactorReply
signed = record reply { key_version = 2; hmac_signature = some "|.|||." }

signs : sign sample_json codec messages (1 ∷ []) reply ≡ some signed
unfolding sign sign_payload
signs = refl

signature_valid-sign_example : signature_valid sample_json codec messages (1 ∷ []) signed ≡ true
signature_valid-sign_example =
    signature_valid-sign sample_json codec messages (λ bytes. ap some (decode-encode bytes))
      (1 ∷ []) reply signed signs
