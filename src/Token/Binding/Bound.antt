-- ===== src/Token/Binding/Bound.antt =====
-- Which proofs the confirmation claim of src/token/jwks.rs accepts.
use package.text.Mathlib.TextEquality.{Char-path}
use axiam_rust_sdk.Prelude.{
  ◌≡◌, refl, sym, ap, ◌↔◌, inl, inr, subst, String, true, false, Option, none, some, [], ◌∷◌, ok,
  nat_eq, length, >>=-ok, Bool-cases, arith,
}
use axiam_rust_sdk.Prelude.Text.{Text, text}
use axiam_rust_sdk.Token.Binding.{
  CnfClaim, Claims, PresentedProofs, any_differs, constant_time_eq, names_nothing_checkable,
  check_thumbprint, verify_cnf, verify_confirmation, verify_token_binding, verify_certificate_cnf,
  verify_certificate_binding,
}

text-any_differs : (a b : Text) → length a ≡ length b → any_differs a b ≡ false → a ≡ b
unfolding any_differs
text-any_differs [] [] same h = refl
text-any_differs [] (y ∷ b) same h = absurd (omega (arith, same))
text-any_differs (x ∷ a) [] same h = absurd (omega (arith, same))
text-any_differs (x ∷ a) (y ∷ b) same h = ground (arith, text-any_differs a b, same, h)

any_differs_refl : (a : Text) → any_differs a a ≡ false
unfolding any_differs
any_differs_refl [] = refl
any_differs_refl (x ∷ a) = ground (arith, any_differs_refl a)

text-injective : (a b : String) → text a ≡ text b → a ≡ b
text-injective String.[] String.[] h = refl
text-injective String.[] (String.◌∷◌ d b) h = cc
text-injective (String.◌∷◌ c a) String.[] h = cc
text-injective (String.◌∷◌ c a) (String.◌∷◌ d b) h =
    let same : c ≡ d = Char-path c d (cc h) in
    let rest : a ≡ b = text-injective a b (cc h) in λ i. String.◌∷◌ (same i) (rest i)

-- The comparison of thumbprints finds those equal that are.
pub constant_time_eq_iff : (a b : String) → (constant_time_eq a b ≡ true) ↔ (a ≡ b)
unfolding constant_time_eq
constant_time_eq_iff a b = (
  λ h. elim (Bool-cases (nat_eq (length (text a)) (length (text b)))) [
    | inr other ↦ absurd (cc (rw other at h))
    | inl same ↦
        text-injective a b
          (text-any_differs (text a) (text b) (ground (arith, same)) (ground (arith, rw same at h)))
  ],
  λ h. subst (λ x. constant_time_eq a x ≡ true) h (ground (arith, any_differs_refl (text a))),
)

-- A constraint on a thumbprint, and what is presented for it.
abbrev pub Matches : Option String → Option String → Type 0
Matches none presented = Unit
Matches (some expected) presented = presented ≡ some expected

-- What the confirmation of a token asks of the proofs: it names a method, and each that it names is
-- presented, with the thumbprint that it names.
abbrev pub IsBound : Option CnfClaim → PresentedProofs → Type 0
IsBound none proofs = Unit
IsBound (some cnf) proofs =
    (names_nothing_checkable cnf ≡ false)
    × Matches cnf.x5t_s256 proofs.certificate_thumbprint
    × Matches cnf.jkt proofs.dpop_thumbprint

check_thumbprint_iff :
    (absent different : String) (expected presented : Option String)
    → (check_thumbprint absent different expected presented ≡ ok tt) ↔ Matches expected presented
unfolding check_thumbprint
check_thumbprint_iff absent different none presented = (λ _. tt, λ _. refl)
check_thumbprint_iff absent different (some e) none = (λ h. cc, λ h. cc)
check_thumbprint_iff absent different (some e) (some p) = elim (Bool-cases (constant_time_eq e p)) [
  | inl same ↦ rw same (λ _. ap some (sym ((constant_time_eq_iff e p).0 same)), λ _. refl)
  | inr other ↦ (
    λ h. absurd (cc (rw other at h)),
    λ h. absurd (cc (other, (constant_time_eq_iff e p).1 (cc h))),
  )
]

module _ (cnf : CnfClaim) (proofs : PresentedProofs) where
  verify_cnf_iff : (verify_cnf cnf proofs ≡ ok tt) ↔ IsBound (some cnf) proofs
  unfolding verify_cnf
  verify_cnf_iff =
      let x5t =
        check_thumbprint_iff "token is certificate-bound but no client certificate was presented"
          "token is bound to a different client certificate than the one presented" cnf.x5t_s256
          proofs.certificate_thumbprint in
      let jkt =
        check_thumbprint_iff "token is DPoP-bound but no verified DPoP proof was presented"
          "token is bound to a different DPoP key than the one presented" cnf.jkt
          proofs.dpop_thumbprint in
      elim (Bool-cases (names_nothing_checkable cnf)) [
        | inl nothing ↦ rw nothing (λ h. absurd (cc h), λ h. absurd (cc h.0))
        | inr named ↦ rw named (
          λ h.
              let (_, first, second) = >>=-ok (check_thumbprint _ _ cnf.x5t_s256 _) _ h in
              (refl, x5t.0 first, jkt.0 second),
          λ (_, first, second). rw (x5t.1 first) (jkt.1 second),
        )
      ]

verify_confirmation_iff :
    (confirmation : Option CnfClaim) (proofs : PresentedProofs)
    → (verify_confirmation confirmation proofs ≡ ok tt) ↔ IsBound confirmation proofs
unfolding verify_confirmation
verify_confirmation_iff none proofs = (λ _. tt, λ _. refl)
verify_confirmation_iff (some cnf) proofs = verify_cnf_iff cnf proofs

-- A token is accepted with the proofs presented exactly if it has no confirmation, or its confirmation
-- names a certificate or a key and for each that it names the very same thumbprint is presented.
pub verify_token_binding_iff :
    (claims : Claims) (proofs : PresentedProofs)
    → (verify_token_binding claims proofs ≡ ok tt) ↔ IsBound claims.cnf proofs
unfolding verify_token_binding
verify_token_binding_iff claims proofs = verify_confirmation_iff claims.cnf proofs

abbrev pub certificate_only : Option String → PresentedProofs
certificate_only presented = record { certificate_thumbprint = presented; dpop_thumbprint = none }

verify_certificate_cnf_iff :
    (x5t jkt presented : Option String)
    → (verify_certificate_cnf (some (record { x5t_s256 = x5t; jkt = jkt })) presented ≡ ok tt)
      ↔ IsBound (some (record { x5t_s256 = x5t; jkt = jkt })) (certificate_only presented)
unfolding verify_certificate_cnf names_nothing_checkable
verify_certificate_cnf_iff none none presented = (λ h. cc h, λ h. absurd (cc h.0))
verify_certificate_cnf_iff none (some k) presented = (λ h. cc h, λ h. absurd (cc h.2))
verify_certificate_cnf_iff (some t) (some k) presented = (λ h. cc h, λ h. absurd (cc h.2))
verify_certificate_cnf_iff (some t) none presented =
    let x5t =
      check_thumbprint_iff "token is certificate-bound but no client certificate was presented"
        "token is bound to a different client certificate than the one presented" (some t)
        presented in
    (λ h. (refl, x5t.0 h, tt), λ h. x5t.1 h.1)

verify_certificate_iff :
    (confirmation : Option CnfClaim) (presented : Option String)
    → (verify_certificate_cnf confirmation presented ≡ ok tt)
      ↔ IsBound confirmation (certificate_only presented)
unfolding verify_certificate_cnf
verify_certificate_iff none presented = (λ _. tt, λ _. refl)
verify_certificate_iff (some cnf) presented =
    verify_certificate_cnf_iff cnf.x5t_s256 cnf.jkt presented

-- The entry point for a certificate alone accepts a token exactly if the full rule accepts it with that
-- certificate and no other proof.
pub verify_certificate_binding_iff :
    (claims : Claims) (presented : Option String)
    → (verify_certificate_binding claims presented ≡ ok tt)
      ↔ (verify_token_binding claims (certificate_only presented) ≡ ok tt)
unfolding verify_certificate_binding
verify_certificate_binding_iff claims presented =
    let narrow = verify_certificate_iff claims.cnf presented in
    let full = verify_token_binding_iff claims (certificate_only presented) in
    (λ h. full.1 (narrow.0 h), λ h. narrow.1 (full.0 h))
