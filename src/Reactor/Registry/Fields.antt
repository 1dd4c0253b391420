-- ===== src/Reactor/Registry/Fields.antt =====
-- What `patch_field_allowed` of src/amqp/reactor/registry.rs admits.
use axiam_rust_sdk.Prelude.{
  ◌≡◌, refl, sym, ◌↔◌, ◌⊎◌, inl, inr, ℕ, true, false, List, [], ◌∷◌, ◌++◌, length, length-append,
  Any, ltb, arith, Bool-cases,
}
use axiam_rust_sdk.Prelude.Text.{Text, text_eq_iff}
use axiam_rust_sdk.Reactor.Registry.{
  ReactorEventSpec, ends_with_dot, starts_with, entry_allows, any_allows, patch_field_allowed,
}

starts_with-append : (prefix s : Text) → starts_with (prefix ++ s) prefix ≡ true
unfolding starts_with
starts_with-append [] [] = refl
starts_with-append [] (c ∷ s) = refl
starts_with-append (c ∷ prefix) s = ground (arith, starts_with-append prefix s)

starts_with_rest :
    (s prefix : Text) → starts_with s prefix ≡ true → (rest : Text) × (s ≡ prefix ++ rest)
unfolding starts_with
starts_with_rest s [] h = (s, refl)
starts_with_rest [] (c ∷ prefix) h = absurd (cc h)
starts_with_rest (d ∷ s) (c ∷ prefix) h =
    let (rest, e) = starts_with_rest s prefix (ground (arith, h)) in
    let same : d ≡ c = ground (arith, h) in (rest, cc (same, e))

-- An entry that ends in a dot is a namespace: it admits what goes on after the dot. Any other entry
-- admits itself.
abbrev pub Admits : Text → Text → Type 0
Admits field allowed =
    ((ends_with_dot allowed ≡ true) × (c : ℕ) × (rest : Text) × (field ≡ allowed ++ c ∷ rest))
    ⊎ ((ends_with_dot allowed ≡ false) × (field ≡ allowed))

longer :
    (allowed rest : Text)
    → ltb (length allowed) (length (allowed ++ rest)) ≡ true
    → (c : ℕ) × (more : Text) × (rest ≡ c ∷ more)
longer allowed [] h = absurd (ground (arith, length-append allowed [], h))
longer allowed (c ∷ more) h = (c, more, refl)

entry_allows-Admits :
    (field allowed : Text) → entry_allows field allowed ≡ true → Admits field allowed
unfolding entry_allows
entry_allows-Admits field allowed h = elim (Bool-cases (ends_with_dot allowed)) [
  | inr plain ↦ inr (plain, (text_eq_iff field allowed).0 (ground (arith, plain, h)))
  | inl dot ↦
      let (rest, e) = starts_with_rest field allowed (ground (arith, dot, h)) in
      let (c, more, e') = longer allowed rest (rw (sym e) (ground (arith, dot, h))) in
      inl (dot, c, more, cc (e, e'))
]

Admits-entry_allows :
    (field allowed : Text) → Admits field allowed → entry_allows field allowed ≡ true
unfolding entry_allows
Admits-entry_allows field allowed (inr (plain, e)) = rw plain ((text_eq_iff field allowed).1 e)
Admits-entry_allows field allowed (inl (dot, c, rest, e)) =
    rw (dot, e)
      (ground (arith, starts_with-append allowed (c ∷ rest), length-append allowed (c ∷ rest)))

any_allows_iff :
    (field : Text) (entries : List Text)
    → (any_allows field entries ≡ true) ↔ Any (Admits field) entries
unfolding any_allows
any_allows_iff field [] = (λ h. absurd (cc h), λ h. absurd h)
any_allows_iff field (allowed ∷ rest) =
    let later = any_allows_iff field rest in
    (
      λ h. elim (Bool-cases (entry_allows field allowed)) [
        | inl now ↦ inl (entry_allows-Admits field allowed now)
        | inr not_now ↦ inr (later.0 (ground (arith, h, not_now)))
      ],
      λ h. elim h [
        | inl now ↦ ground (arith, Admits-entry_allows field allowed now)
        | inr more ↦ ground (arith, later.1 more)
      ],
    )

-- A field may appear in a patch exactly if the event's reply may carry a patch at all, and an entry
-- of its allow-list is the field, or is a namespace, ending in a dot, in which the field lies with at
-- least one more character.
patch_field_allowed_iff :
    (spec : ReactorEventSpec) (field : Text)
    → (patch_field_allowed spec field ≡ true)
      ↔ ((spec.mutable ≡ true) × Any (Admits field) spec.mutable_fields)
unfolding patch_field_allowed
patch_field_allowed_iff spec field =
    let entries = any_allows_iff field spec.mutable_fields in
    (λ h. (ground (arith, h), entries.0 (ground (arith, h))), λ (m, h). rw m (entries.1 h))
