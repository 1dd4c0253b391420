-- ===== src/Reactor/Protocol/Signed.antt =====
-- What src/amqp/reactor/protocol.rs accepts and signs.
use axiam_rust_sdk.Prelude.{
  ◌⊎◌, subst, ℕ, ◌≤◌, ◌≡◌, refl, ap, ◌∙◌, inl, inr, String, true, none, some, List, ok, not, ltb,
  >>=-ok, ok_or-ok, ensure-ok, ok-injective, Option-cases, arith,
}
use axiam_rust_sdk.Prelude.Text.{text_eq_iff}
use axiam_rust_sdk.Amqp.Json.{Json, Codec}
use axiam_rust_sdk.Amqp.Hmac.{sign_payload, verify_payload}
use axiam_rust_sdk.Amqp.Replay.{is_fresh}
use axiam_rust_sdk.Reactor.Router.{ReactorEvent}
use axiam_rust_sdk.Reactor.Protocol.{
  reactor_key_version, ReactorReply, Messages, key_version_of, string_of, canonical_event_bytes,
  verify_event, canonical_signed_bytes, sign, signature_valid,
}

module _ (json : Json) (codec : Codec) (messages : Messages json.Value) where
  -- What an accepted event shows of its body.
  pub record Genuine (body : json.Value) (key : List ℕ) (now skew : ℕ)
      (event : ReactorEvent json.Value) : Type 0 where
    pub key_version : ℕ
    pub has_version : key_version_of json codec messages body ≡ some key_version
    pub current : 2 ≤ key_version
    pub signature : String
    pub has_signature : string_of json codec messages "hmac_signature" body ≡ some signature
    pub canonical : List ℕ
    pub covers : canonical_event_bytes json codec messages body ≡ ok canonical
    pub verified : verify_payload codec key canonical signature ≡ true
    pub decodes : messages.from_value body ≡ some event
    pub fresh : is_fresh event.issued_at now skew ≡ true

  not_old : (n : ℕ) → not (ltb n reactor_key_version) ≡ true → 2 ≤ n
  not_old n h = ground (arith, h)

  pub verify_event-Genuine :
      (body : json.Value) (key : List ℕ) (now skew : ℕ) (event : ReactorEvent json.Value)
      → verify_event json codec messages body key now skew ≡ ok event
      → Genuine body key now skew event
  unfolding verify_event
  verify_event-Genuine body key now skew event h =
      let (version, e1, h1) = >>=-ok _ _ h in
      let (_, e2, h2) = >>=-ok _ _ h1 in
      let (signature, e3, h3) = >>=-ok _ _ h2 in
      let (canonical, e4, h4) = >>=-ok _ _ h3 in
      let (_, e5, h5) = >>=-ok _ _ h4 in
      let (got, e6, h6) = >>=-ok _ _ h5 in
      let (_, e7, h7) = >>=-ok _ _ h6 in
      let same = ok-injective h7 in
      record {
        key_version = version;
        has_version = ok_or-ok _ _ e1;
        current = not_old version (ensure-ok _ _ e2);
        signature = signature;
        has_signature = ok_or-ok _ _ e3;
        canonical = canonical;
        covers = e4;
        verified = ensure-ok _ _ e5;
        decodes = ok_or-ok _ _ e6 ∙ ap some same;
        fresh =
            subst (λ (v : ReactorEvent json.Value). is_fresh v.issued_at now skew ≡ true) same
              (ensure-ok _ _ e7);
      }

  abbrev unsigned : ReactorReply → ReactorReply
  unsigned reply = record reply { hmac_signature = none; key_version = reactor_key_version }

  abbrev signed_with : List ℕ → ReactorReply → List ℕ → ReactorReply
  signed_with key reply bytes = record (unsigned reply) {
    hmac_signature = some (sign_payload codec key bytes);
  }

  sign_cases :
      (key : List ℕ) (reply : ReactorReply)
      → (sign json codec messages key reply ≡ none)
        ⊎ ((bytes : List ℕ) × (messages.reply_to_vec (unsigned reply) ≡ some bytes)
            × (sign json codec messages key reply ≡ some (signed_with key reply bytes)))
  unfolding sign canonical_signed_bytes
  sign_cases key reply = elim (Option-cases (messages.reply_to_vec (unsigned reply))) [
    | inl unwritten ↦ rw (unwritten, sign) (inl refl)
    | inr (bytes, written) ↦ rw (written, sign) (inr (bytes, refl, refl))
  ]

  module _
      (readable : (bytes : List ℕ) → codec.hex_decode (codec.hex_encode bytes) ≡ some bytes) where
    verify_payload-sign_payload :
        (key bytes : List ℕ) → verify_payload codec key bytes (sign_payload codec key bytes) ≡ true
    unfolding verify_payload sign_payload
    verify_payload-sign_payload key bytes =
        rw (readable (codec.mac key bytes))
          ((text_eq_iff (codec.mac key bytes) (codec.mac key bytes)).1 refl)

    signature_valid-signed_with :
        (key bytes : List ℕ) (reply : ReactorReply)
        → messages.reply_to_vec (unsigned reply) ≡ some bytes
        → signature_valid json codec messages key (signed_with key reply bytes) ≡ true
    unfolding signature_valid canonical_signed_bytes
    signature_valid-signed_with key bytes reply written =
        rw (written, signature_valid) (verify_payload-sign_payload key bytes)

    -- A reply that was signed verifies under the same key, where the codec reads what it writes.
    pub signature_valid-sign :
        (key : List ℕ) (reply signed : ReactorReply)
        → sign json codec messages key reply ≡ some signed
        → signature_valid json codec messages key signed ≡ true
    signature_valid-sign key reply signed h = elim (sign_cases key reply) [
      | inl unwritten ↦ absurd (cc (unwritten, h))
      | inr (bytes, written, e) ↦
          subst (λ r. signature_valid json codec messages key r ≡ true) (cc (e, h))
            (signature_valid-signed_with key bytes reply written)
    ]
