-- ===== src/Manifest/Validate/Bindings.antt =====
-- When `duplicates` and `check_bindings` of src/management/manifest/plan.rs find nothing to report.
use axiam_rust_sdk.Prelude.{
  ◌≡◌, refl, ap, ◌↔◌, Bool, true, false, not, ◌&&◌, List, [], ◌∷◌, ◌++◌, map, String, String-Eq,
  ==_iff, All, All-mono, arith,
}
use axiam_rust_sdk.Prelude.Maps.{contains, Distinct}
use axiam_rust_sdk.Manifest.Spec.{RoleBinding, role, inherit}
use axiam_rust_sdk.Manifest.Validate.{
  Problem, push_unless, duplicates_loop, duplicates, resource_declared, check_binding, check_loop,
  check_bindings,
}

snoc_problem : (ps : List Problem) (p : Problem) → ps ++ p ∷ [] ≡ [] → ⊥
snoc_problem [] p e = cc e
snoc_problem (q ∷ ps) p e = cc e

push_unless_iff :
    (passed : Bool) (p : Problem) (ps : List Problem)
    → (push_unless passed p ps ≡ []) ↔ ((passed ≡ true) × (ps ≡ []))
unfolding push_unless
push_unless_iff true p ps = (λ h. (refl, h), λ h. h.1)
push_unless_iff false p ps = (λ h. absurd (snoc_problem ps p h), λ h. absurd (cc (h.0)))

-- Each key is new to those before it, and to those seen.
abbrev AllNew : List String → List String → Type 0
AllNew seen [] = Unit
AllNew seen (k ∷ ks) = (contains k seen ≡ false) × AllNew (k ∷ seen) ks

push_seen :
    (seen : List String) (k : String) (ks : List String)
    → contains k ks ≡ false
    → All (λ j. contains j seen ≡ false) ks
    → All (λ j. contains j (k ∷ seen) ≡ false) ks
unfolding contains
push_seen seen k [] new f = tt
push_seen seen k (j ∷ ks) new (f, fs) =
    (ground (arith, new, f, ==_iff j k, ==_iff k j), push_seen seen k ks (ground (arith, new)) fs)

drop_seen :
    (seen : List String) (k j : String) → contains j (k ∷ seen) ≡ false → contains j seen ≡ false
unfolding contains
drop_seen seen k j h = ground (arith, h)

not_later :
    (seen : List String) (k : String) (ks : List String)
    → All (λ j. contains j (k ∷ seen) ≡ false) ks
    → contains k ks ≡ false
unfolding contains
not_later seen k [] f = refl
not_later seen k (j ∷ ks) (f, fs) =
    ground (arith, f, ==_iff j k, ==_iff k j, not_later seen k ks fs)

AllNew-of :
    (seen ks : List String) → Distinct ks → All (λ k. contains k seen ≡ false) ks → AllNew seen ks
unfolding contains
AllNew-of seen [] d f = tt
AllNew-of seen (k ∷ ks) (new, d) (f, fs) =
    (f, AllNew-of (k ∷ seen) ks d (push_seen seen k ks new fs))

AllNew-fresh : (seen ks : List String) → AllNew seen ks → All (λ k. contains k seen ≡ false) ks
AllNew-fresh seen [] n = tt
AllNew-fresh seen (k ∷ ks) (f, n) =
    (f, All-mono _ _ ks (drop_seen seen k) (AllNew-fresh (k ∷ seen) ks n))

AllNew-Distinct : (seen ks : List String) → AllNew seen ks → Distinct ks
AllNew-Distinct seen [] n = tt
AllNew-Distinct seen (k ∷ ks) (f, n) =
    (not_later seen k ks (AllNew-fresh (k ∷ seen) ks n), AllNew-Distinct (k ∷ seen) ks n)

AllNew-nothing_seen : (ks : List String) → All (λ k. contains k [] ≡ false) ks
unfolding contains
AllNew-nothing_seen [] = tt
AllNew-nothing_seen (k ∷ ks) = (refl, AllNew-nothing_seen ks)

absent_of : (b : Bool) → not b ≡ true → b ≡ false
absent_of b h = ground (arith, h)

duplicates_loop_iff :
    (kind : String) (seen keys : List String) (ps : List Problem)
    → (duplicates_loop kind seen keys ps ≡ []) ↔ (AllNew seen keys × (ps ≡ []))
unfolding duplicates_loop
duplicates_loop_iff kind seen [] ps = (λ h. (tt, h), λ h. h.1)
duplicates_loop_iff kind seen (k ∷ keys) ps =
    let later = duplicates_loop_iff kind (k ∷ seen) keys _ in
    let now = push_unless_iff (not (contains k seen)) _ ps in
    (
      λ h. ((absent_of _ (now.0 (later.0 h).1).0, (later.0 h).0), (now.0 (later.0 h).1).1),
      λ h. later.1 (h.0.1, now.1 (ap not h.0.0, h.1)),
    )

-- The check for repeated keys reports nothing exactly if nothing was reported before and no key
-- stands in the list twice.
duplicates_iff :
    (kind : String) (keys : List String) (ps : List Problem)
    → (duplicates kind keys ps ≡ []) ↔ (Distinct keys × (ps ≡ []))
unfolding duplicates
duplicates_iff kind keys ps =
    let loop = duplicates_loop_iff kind [] keys ps in
    (
      λ h. (AllNew-Distinct [] keys (loop.0 h).0, (loop.0 h).1),
      λ h. loop.1 (AllNew-of [] keys h.0 (AllNew-nothing_seen keys), h.1),
    )

module _ (kind subject : String) (role_keys resource_keys global_roles : List String) where
  -- What a binding has to be by itself.
  abbrev pub Sound : RoleBinding → Type 0
  Sound b =
      (contains (role b) role_keys ≡ true)
      × (resource_declared resource_keys b ≡ true)
      × (not (not (inherit b) && contains (role b) global_roles) ≡ true)

  check_binding_iff :
      (seen : List String) (b : RoleBinding) (ps : List Problem)
      → (check_binding kind subject role_keys resource_keys global_roles seen b ps ≡ [])
        ↔ (Sound b × (contains (role b) seen ≡ false) × (ps ≡ []))
  unfolding check_binding
  check_binding_iff seen b ps =
      let first = push_unless_iff (contains (role b) role_keys) _ ps in
      let second = push_unless_iff (resource_declared resource_keys b) _ _ in
      let third = push_unless_iff (not (contains (role b) seen)) _ _ in
      let fourth = push_unless_iff (not (not (inherit b) && contains (role b) global_roles)) _ _ in
      (
        λ h.
            let h4 = fourth.0 h in
            let h3 = third.0 h4.1 in
            let h2 = second.0 h3.1 in
            let h1 = first.0 h2.1 in ((h1.0, h2.0, h4.0), absent_of _ h3.0, h1.1),
        λ (sound, fresh, e).
            fourth.1 (sound.2, third.1 (ap not fresh, second.1 (sound.1, first.1 (sound.0, e)))),
      )

  check_loop_iff :
      (seen : List String) (bs : List RoleBinding) (ps : List Problem)
      → (check_loop kind subject role_keys resource_keys global_roles seen bs ps ≡ [])
        ↔ (All Sound bs × AllNew seen (map role bs) × (ps ≡ []))
  unfolding check_loop
  check_loop_iff seen [] ps = (λ h. (tt, tt, h), λ h. h.2)
  check_loop_iff seen (b ∷ bs) ps =
      let later = check_loop_iff (role b ∷ seen) bs _ in
      let now = check_binding_iff seen b ps in
      (
        λ h.
            let (sounds, fresh, e) = later.0 h in
            let (sound, new, e') = now.0 e in ((sound, sounds), (new, fresh), e'),
        λ ((sound, sounds), (new, fresh), e). later.1 (sounds, fresh, now.1 (sound, new, e)),
      )

  -- The check of one subject's bindings reports nothing exactly if nothing was reported before, each
  -- binding's role is declared, and so is its resource if it has one, no global role is bound without
  -- inheritance, and no role is bound twice.
  pub check_bindings_iff :
      (bs : List RoleBinding) (ps : List Problem)
      → (check_bindings kind subject role_keys resource_keys global_roles bs ps ≡ [])
        ↔ (All Sound bs × Distinct (map role bs) × (ps ≡ []))
  unfolding check_bindings
  check_bindings_iff bs ps =
      let loop = check_loop_iff [] bs ps in
      (
        λ h. ((loop.0 h).0, AllNew-Distinct [] (map role bs) (loop.0 h).1, (loop.0 h).2),
        λ (sounds, d, e).
            loop.1 (sounds, AllNew-of [] (map role bs) d (AllNew-nothing_seen (map role bs)), e),
      )
