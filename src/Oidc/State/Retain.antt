-- ===== src/Oidc/State/Retain.antt =====
-- The map of src/oidc/state.rs under its changes: no state stands in it twice.
use axiam_rust_sdk.Prelude.{
  ℕ, ◌≡◌, refl, subst, inl, inr, true, false, none, some, [], ◌∷◌, String, String-Eq, ◌==◌, ==_iff,
  arith, Bool-cases, leb,
}
use axiam_rust_sdk.Prelude.Maps.{
  Map, lookup, insert, remove, keys, contains, Distinct, Distinct-snoc, keys-insert,
  lookup-none_iff,
}
use axiam_rust_sdk.Oidc.State.{Held, retain_live}

contains-retain_live :
    (k : String) (now : ℕ) (m : Map String Held)
    → contains k (keys m) ≡ false
    → contains k (keys (retain_live now m)) ≡ false
unfolding contains retain_live
contains-retain_live k now [] h = refl
contains-retain_live k now ((state, held) ∷ m) h = ground (arith, contains-retain_live k now m, h)

absent_then :
    (state k : String) (now : ℕ) (m : Map String Held)
    → contains state (keys m) ≡ false
    → (state == k) ≡ true
    → lookup k (retain_live now m) ≡ none
absent_then state k now m new same = (lookup-none_iff k (retain_live now m)).1 (
    subst (λ (j : String). contains j (keys (retain_live now m)) ≡ false) ((==_iff state k).0 same)
      (contains-retain_live state now m new))

-- Without repetition in the map, what a swept map answers the map answers.
pub lookup-retain_live :
    (k : String) (now : ℕ) (m : Map String Held) (held : Held)
    → Distinct (keys m)
    → lookup k (retain_live now m) ≡ some held
    → lookup k m ≡ some held
unfolding lookup retain_live
lookup-retain_live k now [] held d h = h
lookup-retain_live k now ((state, other) ∷ m) held (new, d) h =
    ground (arith, h, lookup-retain_live k now m held d, absent_then state k now m new)

pub Distinct-retain_live :
    (now : ℕ) (m : Map String Held) → Distinct (keys m) → Distinct (keys (retain_live now m))
unfolding retain_live
Distinct-retain_live now [] d = tt
Distinct-retain_live now ((state, held) ∷ m) (new, d) =
    elim (Bool-cases (leb held.expires_at now)) [
      | inl old ↦ rw (old, retain_live) (Distinct-retain_live now m d)
      | inr live ↦
          rw (live, retain_live)
            (contains-retain_live state now m new, Distinct-retain_live now m d)
    ]

pub Distinct-insert :
    (k : String) (held : Held) (m : Map String Held)
    → Distinct (keys m)
    → Distinct (keys (insert k held m))
Distinct-insert k held m d = elim (Bool-cases (contains k (keys m))) [
  | inl old ↦ rw (keys-insert k held m, old) d
  | inr new ↦ rw (keys-insert k held m, new) (Distinct-snoc k (keys m) new d)
]

contains-remove :
    (j k : String) (m : Map String Held)
    → contains j (keys m) ≡ false
    → contains j (keys (remove k m)) ≡ false
unfolding contains remove
contains-remove j k [] h = refl
contains-remove j k ((state, held) ∷ m) h = ground (arith, contains-remove j k m, h)

pub Distinct-remove :
    (k : String) (m : Map String Held) → Distinct (keys m) → Distinct (keys (remove k m))
unfolding remove
Distinct-remove k [] d = tt
Distinct-remove k ((state, held) ∷ m) (new, d) = elim (Bool-cases (state == k)) [
  | inl same ↦ rw (same, remove) (Distinct-remove k m d)
  | inr other ↦ rw (other, remove) (contains-remove state k m new, Distinct-remove k m d)
]
