-- ===== src/Amqp/Replay/Forget.antt =====
-- How long `ReplayGuard` of src/amqp/consumer.rs remembers a nonce.
use axiam_rust_sdk.Prelude.{
  ℕ, ◌+◌, ◌<◌, ◌≡◌, refl, sym, subst, ◌∙◌, inl, inr, true, false, Option, some, [], ◌∷◌, String,
  String-Eq, ◌==◌, ==_iff, ==_refl, arith, Bool-cases,
}
use axiam_rust_sdk.Prelude.Maps.{Map, lookup, keys, contains, lookup-insert, lookup-none_iff}
use axiam_rust_sdk.Amqp.Replay.{ReplayGuard, retain_unexpired, ttl, check_and_record_nonce}

retain_unexpired-lookup :
    (nonce : String) (now expiry : ℕ) (m : Map String ℕ)
    → now < expiry
    → lookup nonce m ≡ some expiry
    → lookup nonce (retain_unexpired now m) ≡ some expiry
unfolding lookup retain_unexpired
retain_unexpired-lookup nonce now expiry [] live h = h
retain_unexpired-lookup nonce now expiry ((other, e) ∷ m) live h =
    ground (arith, retain_unexpired-lookup nonce now expiry m live, live, h)

present :
    (nonce : String) (expiry : ℕ) (m : Map String ℕ)
    → lookup nonce m ≡ some expiry
    → contains nonce (keys m) ≡ true
present nonce expiry m h = elim (Bool-cases (contains nonce (keys m))) [
  | inl c ↦ c
  | inr c ↦ absurd (cc ((lookup-none_iff nonce m).1 c, h))
]

unequal :
    (nonce other : String) (expiry : ℕ) (m : Map String ℕ)
    → lookup nonce m ≡ some expiry
    → contains other (keys m) ≡ false
    → (other == nonce) ≡ false
unequal nonce other expiry m h new = elim (Bool-cases (other == nonce)) [
  | inr differ ↦ differ
  | inl same ↦ absurd (
      cc (
        sym (subst (λ (k : String). contains k (keys m) ≡ false) ((==_iff other nonce).0 same) new)
        ∙ present nonce expiry m h))
]

module _ (doubled : ℕ → Option ℕ) where
  -- A guard remembers a nonce until an instant.
  abbrev pub Remembers : ReplayGuard → String → ℕ → Type 0
  Remembers g nonce expiry = lookup nonce g.seen ≡ some expiry

  -- What a check answers of a nonce that is remembered, and what it leaves of it.
  pub check-Remembers :
      (nonce : String) (expiry now : ℕ) (g : ReplayGuard)
      → now < expiry
      → Remembers g nonce expiry
      → (check_and_record_nonce doubled nonce now g).0 ≡ false
  unfolding check_and_record_nonce
  check-Remembers nonce expiry now g live h =
      rw
        (present nonce expiry (retain_unexpired now g.seen)
          (retain_unexpired-lookup nonce now expiry g.seen live h))
        refl

  pub check_keeps :
      (nonce other : String) (expiry now : ℕ) (g : ReplayGuard)
      → now < expiry
      → Remembers g nonce expiry
      → Remembers (check_and_record_nonce doubled other now g).1 nonce expiry
  unfolding check_and_record_nonce
  check_keeps nonce other expiry now g live h =
      let kept = retain_unexpired-lookup nonce now expiry g.seen live h in
      elim (Bool-cases (contains other (keys (retain_unexpired now g.seen)))) [
        | inl old ↦ rw old kept
        | inr new ↦
            rw
              (
                new,
                lookup-insert other nonce (now + ttl doubled g) (retain_unexpired now g.seen),
                unequal nonce other expiry (retain_unexpired now g.seen) kept new,
              )
              kept
      ]

  pub check_records :
      (nonce : String) (now : ℕ) (g : ReplayGuard)
      → (check_and_record_nonce doubled nonce now g).0 ≡ true
      → Remembers (check_and_record_nonce doubled nonce now g).1 nonce (now + ttl doubled g)
  unfolding check_and_record_nonce
  check_records nonce now g h =
      elim (Bool-cases (contains nonce (keys (retain_unexpired now g.seen)))) [
        | inl old ↦ absurd (cc (rw old at h))
        | inr new ↦ rw new (
            rw
              (
                lookup-insert nonce nonce (now + ttl doubled g) (retain_unexpired now g.seen),
                ==_refl nonce,
              )
              refl)
      ]

  pub check-skew :
      (nonce : String) (now : ℕ) (g : ReplayGuard)
      → (check_and_record_nonce doubled nonce now g).1.skew ≡ g.skew
  unfolding check_and_record_nonce
  check-skew nonce now g = elim (Bool-cases (contains nonce (keys (retain_unexpired now g.seen)))) [
    | inl old ↦ rw old refl
    | inr new ↦ rw new refl
  ]
