-- ===== src/Amqp/Consumer/Replayed.antt =====
-- When `consume` of src/amqp/consumer.rs handles one message twice.
use native.Mathlib.Decide.{dec_lt}
use axiam_rust_sdk.Prelude.{
  ℕ, ◌+◌, ◌*◌, ◌≤◌, ◌<◌, ◌≡◌, refl, sym, ap, subst, ◌∙◌, inl, inr, true, Option, none, some, List,
  [], ◌∷◌, String, All, arith, of_some,
}
use axiam_rust_sdk.Amqp.Json.{Json, Codec}
use axiam_rust_sdk.Amqp.Replay.{Clock, ReplayGuard, apart, is_fresh, ttl, check_and_record_nonce}
use axiam_rust_sdk.Amqp.Replay.Forget.{
  Remembers, check-Remembers, check_keeps, check_records, check-skew,
}
use axiam_rust_sdk.Amqp.Consumer.{
  ReplayFields, handled, acked, extract_replay_fields, verify_and_dispatch, consume_loop,
}
use axiam_rust_sdk.Amqp.Consumer.Dispatch.{Accepted, verify_and_dispatch_cases}

module _ (json : Json) (codec : Codec) (doubled : ℕ → Option ℕ) where
  -- The guard after a delivery.
  abbrev after : List ℕ → List ℕ → Clock → ReplayGuard → ReplayGuard
  after key bytes clock guard = (verify_and_dispatch json codec doubled bytes key clock guard).1

  -- Whatever the delivery, the guard goes on to remember, and keeps its skew.
  after-Remembers :
      (key bytes : List ℕ) (clock : Clock) (guard : ReplayGuard) (nonce : String) (expiry : ℕ)
      → clock.instant < expiry
      → Remembers doubled guard nonce expiry
      → Remembers doubled (after key bytes clock guard) nonce expiry
  after-Remembers key bytes clock guard nonce expiry live h =
      elim (verify_and_dispatch_cases json codec doubled key bytes clock guard) [
        | inl accepted ↦
            rw accepted.body.passed.recorded
              (check_keeps doubled nonce _ expiry clock.instant guard live h)
        | inr (_, inl same) ↦ rw same h
        | inr (_, inr (other, checked)) ↦
            rw checked (check_keeps doubled nonce other expiry clock.instant guard live h)
      ]

  after-skew :
      (key bytes : List ℕ) (clock : Clock) (guard : ReplayGuard)
      → (after key bytes clock guard).skew ≡ guard.skew
  after-skew key bytes clock guard =
      elim (verify_and_dispatch_cases json codec doubled key bytes clock guard) [
        | inl accepted ↦ rw accepted.body.passed.recorded (check-skew doubled _ clock.instant guard)
        | inr (_, inl same) ↦ rw same refl
        | inr (_, inr (other, checked)) ↦ rw checked (check-skew doubled other clock.instant guard)
      ]

  abbrev Before : ℕ → Option (List ℕ × Clock) → Type 0
  Before expiry none = Unit
  Before expiry (some (bytes, clock)) = clock.instant < expiry

  consume_loop-Remembers :
      (key : List ℕ) (stream : List (Option (List ℕ × Clock))) (guard : ReplayGuard)
      (nonce : String) (expiry : ℕ)
      → All (Before expiry) stream
      → Remembers doubled guard nonce expiry
      → Remembers doubled (consume_loop json codec doubled key stream guard).1 nonce expiry
  unfolding consume_loop
  consume_loop-Remembers key [] guard nonce expiry _ h = h
  consume_loop-Remembers key (none ∷ rest) guard nonce expiry (_, soon) h =
      consume_loop-Remembers key rest guard nonce expiry soon h
  consume_loop-Remembers key (some (bytes, clock) ∷ rest) guard nonce expiry (now, soon) h =
      consume_loop-Remembers key rest (after key bytes clock guard) nonce expiry soon
        (after-Remembers key bytes clock guard nonce expiry now h)

  consume_loop-skew :
      (key : List ℕ) (stream : List (Option (List ℕ × Clock))) (guard : ReplayGuard)
      → (consume_loop json codec doubled key stream guard).1.skew ≡ guard.skew
  unfolding consume_loop
  consume_loop-skew key [] guard = refl
  consume_loop-skew key (none ∷ rest) guard = consume_loop-skew key rest guard
  consume_loop-skew key (some (bytes, clock) ∷ rest) guard =
      consume_loop-skew key rest (after key bytes clock guard) ∙ after-skew key bytes clock guard

  ttl-doubles :
      (guard : ReplayGuard)
      → doubled guard.skew ≡ some (guard.skew * 2)
      → ttl doubled guard ≡ guard.skew * 2
  unfolding ttl
  ttl-doubles guard doubles = rw doubles refl

  handled-Accepted :
      (key bytes : List ℕ) (clock : Clock) (guard : ReplayGuard) (body : json.Value)
      → (verify_and_dispatch json codec doubled bytes key clock guard).0 ≡ handled body ∷ acked ∷ []
      → Accepted json codec doubled key bytes clock guard
          (verify_and_dispatch json codec doubled bytes key clock guard)
  handled-Accepted key bytes clock guard body h =
      elim (verify_and_dispatch_cases json codec doubled key bytes clock guard) [
        | inl accepted ↦ accepted
        | inr (refused, _) ↦ absurd (cc (refused, h))
      ]

  within :
      (issued_at now skew : ℕ)
      → is_fresh issued_at now skew ≡ true
      → (now ≤ issued_at + skew) × (issued_at ≤ now + skew)
  unfolding is_fresh apart
  within issued_at now skew h = (ground (arith, h), ground (arith, h))

  module _ (key bytes : List ℕ) (first second : Clock) (guard : ReplayGuard)
      (stream : List (Option (List ℕ × Clock))) where
    abbrev between : ReplayGuard
    between = (consume_loop json codec doubled key stream (after key bytes first guard)).1

    module _
        (a : Accepted json codec doubled key bytes first guard
          (verify_and_dispatch json codec doubled bytes key first guard))
        (b : Accepted json codec doubled key bytes second between
          (verify_and_dispatch json codec doubled bytes key second between)) where
      same_fields : a.body.fields ≡ b.body.fields
      same_fields =
          let same : a.parsed ≡ b.parsed = of_some (sym a.parses ∙ b.parses) in
          of_some (
            sym a.body.has_fields
            ∙ ap
                (λ v.
                  extract_replay_fields json codec doubled (json.shift_remove "hmac_signature" v))
                same
            ∙ b.body.has_fields)

      expiry_passed :
          All (Before (first.instant + ttl doubled guard)) stream
          → second.instant < first.instant + ttl doubled guard
          → ⊥
      expiry_passed soon early =
          let expiry = first.instant + ttl doubled guard in
          let recorded =
            subst (λ (g : ReplayGuard). Remembers doubled g a.body.fields.nonce expiry)
              (sym a.body.passed.recorded)
              (check_records doubled a.body.fields.nonce first.instant guard
                a.body.passed.unseen) in
          let kept =
            consume_loop-Remembers key stream (after key bytes first guard) a.body.fields.nonce
              expiry soon recorded in
          let refused =
            check-Remembers doubled a.body.fields.nonce expiry second.instant between early kept in
          let unseen =
            subst
              (λ (f : ReplayFields).
                (check_and_record_nonce doubled f.nonce second.instant between).0 ≡ true)
              (sym same_fields) b.body.passed.unseen in
          cc (refused, unseen)

      both_fresh : between.skew ≡ guard.skew → second.utc ≤ first.utc + guard.skew * 2
      both_fresh same =
          let early = within a.body.fields.issued_at first.utc guard.skew a.body.passed.fresh in
          let late = within a.body.fields.issued_at second.utc between.skew (
            subst (λ (f : ReplayFields). is_fresh f.issued_at second.utc between.skew ≡ true)
              (sym same_fields) b.body.passed.fresh) in
          omega (arith, early.0, early.1, late.0, late.1, same)

  abbrev pub NotAfter : ℕ → Option (List ℕ × Clock) → Type 0
  NotAfter instant none = Unit
  NotAfter instant (some (bytes, clock)) = clock.instant ≤ instant

  soon_of :
      (instant expiry : ℕ) (stream : List (Option (List ℕ × Clock)))
      → instant < expiry
      → All (NotAfter instant) stream
      → All (Before expiry) stream
  soon_of instant expiry [] live h = tt
  soon_of instant expiry (none ∷ rest) live (_, h) = (tt, soon_of instant expiry rest live h)
  soon_of instant expiry (some (bytes, clock) ∷ rest) live (now, h) =
      (omega (arith, now, live), soon_of instant expiry rest live h)

  -- One message that a consumer handles at two readings of the clocks, with any deliveries in between,
  -- is handled at the ends of its window of freshness: exactly twice the skew later. It is supposed that
  -- the readings of the monotonic clock are in order, that UTC does not fall behind it, and that `chrono`
  -- doubles the skew.
  pub replay-at_window_end :
      (key bytes : List ℕ) (first second : Clock) (guard : ReplayGuard)
      (stream : List (Option (List ℕ × Clock))) (body again : json.Value)
      → doubled guard.skew ≡ some (guard.skew * 2)
      → All (NotAfter second.instant) stream
      → first.utc + second.instant ≤ second.utc + first.instant
      → (verify_and_dispatch json codec doubled bytes key first guard).0 ≡ handled body ∷ acked ∷ []
      → (verify_and_dispatch json codec doubled bytes key second
          (consume_loop json codec doubled key stream
            (verify_and_dispatch json codec doubled bytes key first guard).1).1).0
        ≡ handled again ∷ acked ∷ []
      → second.utc ≡ first.utc + guard.skew * 2
  replay-at_window_end key bytes first second guard stream body again doubles ordered steady one
        two =
      let a = handled-Accepted key bytes first guard body one in
      let b =
        handled-Accepted key bytes second (between key bytes first second guard stream) again two in
      let same =
        consume_loop-skew key stream (after key bytes first guard)
        ∙ after-skew key bytes first guard in
      let latest = both_fresh key bytes first second guard stream a b same in
      elim (dec_lt second.instant (first.instant + ttl doubled guard)) [
        | yes early ↦ absurd (
            expiry_passed key bytes first second guard stream a b
              (soon_of second.instant (first.instant + ttl doubled guard) stream early ordered)
              early)
        | no late ↦ omega (arith, late, latest, steady, ttl-doubles guard doubles)
      ]
