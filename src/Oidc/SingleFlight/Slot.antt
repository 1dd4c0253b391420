-- ===== src/Oidc/SingleFlight/Slot.antt =====
-- The slot of src/oidc/single_flight.rs under a retirement, and the owners of publications.
use axiam_rust_sdk.Prelude.{
  ℕ, ◌≡◌, sym, ap, subst, ◌∙◌, inl, inr, false, Option, none, some, nat_eq, nat_eq_iff, Bool-cases,
  arith, of_some,
}
use axiam_rust_sdk.Oidc.SingleFlight.{retire_slot}

-- One publication has one owner.
pub distinct_owner :
    (owner : ℕ → ℕ) (i j p q : ℕ) → nat_eq i j ≡ false → owner p ≡ i → owner q ≡ j → p ≡ q → ⊥
distinct_owner owner i j p q apart mine theirs same =
    let equal : i ≡ j = sym mine ∙ ap owner same ∙ theirs in ground (arith, apart, equal)

pub unequal : (p q : ℕ) → nat_eq p q ≡ false → p ≡ q → ⊥
unequal p q apart same = ground (arith, apart, same)

pub retire_other : (p q : ℕ) (o : Option ℕ) → (p ≡ q → ⊥) → o ≡ some q → retire_slot p o ≡ some q
unfolding retire_slot
retire_other p q none apart h = absurd (cc h)
retire_other p q (some c) apart h = elim (Bool-cases (nat_eq c p)) [
  | inl same ↦ absurd (apart (sym ((nat_eq_iff c p).0 same) ∙ of_some h))
  | inr other ↦ rw other h
]

pub retire_kept :
    (p q : ℕ) (o : Option ℕ) → retire_slot p o ≡ some q → (o ≡ some q) × (nat_eq q p ≡ false)
unfolding retire_slot
retire_kept p q none h = absurd (cc h)
retire_kept p q (some c) h = elim (Bool-cases (nat_eq c p)) [
  | inl same ↦ absurd (cc (rw same at h))
  | inr other ↦
      let same = of_some (rw other at h) in
      (ap some same, subst (λ (n : ℕ). nat_eq n p ≡ false) same other)
]
