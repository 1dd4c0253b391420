-- ===== src/Prelude/Fallible.antt =====
-- `Result<T, E>`, with `?` as the bind of a `do` block.
use mathlib.Core.Path.{◌≡◌, refl, subst}
use mathlib.Core.Logic.{◌⊎◌, ◌↔◌, inl, inr}
use mathlib.Core.Bool.{Bool, true, false}
use mathlib.Core.Option.{Option, none, some}

pub data Result {ℓ} (T E : Type ℓ) : Type ℓ where
  ok : T → Result T E
  err : E → Result T E

pub Result-cases {ℓ} :
    {T E : Type ℓ} (x : Result T E) → ((v : T) × (x ≡ ok v)) ⊎ ((e : E) × (x ≡ err e))
Result-cases (ok v) = inl (v, refl)
Result-cases (err e) = inr (e, refl)

infixl 5 ◌>>=◌ ◌>>◌
abbrev pub ◌>>=◌ {ℓ} : {T U E : Type ℓ} → Result T E → (T → Result U E) → Result U E
ok v >>= next = next v
err e >>= next = err e

abbrev pub ◌>>◌ {ℓ} : {U E : Type ℓ} → Result (Unit {ℓ}) E → Result U E → Result U E
first >> second = first >>= λ _. second

-- `ok_or`
abbrev pub ok_or {ℓ} : {T E : Type ℓ} → Option T → E → Result T E
ok_or none e = err e
ok_or (some v) e = ok v

-- An early return with `e` unless the test holds.
abbrev pub ensure {ℓ} : {E : Type ℓ} → Bool → E → Result (Unit {ℓ}) E
ensure true e = ok tt
ensure false e = err e

-- What a successful chain shows of its first step and of the rest.
pub >>=-ok {ℓ} :
    {T U E : Type ℓ} (step : Result T E) (rest : T → Result U E) {u : U}
    → (step >>= rest) ≡ ok u
    → (t : T) × (step ≡ ok t) × (rest t ≡ ok u)
>>=-ok (ok t) rest e = (t, refl, e)
>>=-ok (err x) rest e = cc

pub ok_or-ok {ℓ} : {T E : Type ℓ} (o : Option T) (x : E) {t : T} → ok_or o x ≡ ok t → o ≡ some t
ok_or-ok none x e = cc
ok_or-ok (some t) x e = cc

pub ensure-ok {ℓ} : {E : Type ℓ} (b : Bool) (x : E) {u : Unit {ℓ}} → ensure b x ≡ ok u → b ≡ true
ensure-ok true x e = refl
ensure-ok false x e = cc

pub ok-injective {ℓ} : {T E : Type ℓ} {t u : T} → ◌≡◌ {A = Result T E} (ok t) (ok u) → t ≡ u
ok-injective e = cc

-- A chain of checks passes exactly if each does.
pub >>_iff :
    {U E : Type 0} (first : Result Unit E) (second : Result U E) {u : U}
    → ((first >> second) ≡ ok u) ↔ ((first ≡ ok tt) × (second ≡ ok u))
>>_iff (ok _) second = (λ h. (refl, h), λ h. h.1)
>>_iff (err e) second = (λ h. cc h, λ h. absurd (cc h.0))

pub ensure_iff : {E : Type 0} (b : Bool) (x : E) → (ensure b x ≡ ok tt) ↔ (b ≡ true)
ensure_iff true x = (λ _. refl, λ _. refl)
ensure_iff false x = (λ h. cc h, λ h. cc h)

pub iff_trans : {A B C : Type 0} → A ↔ B → B ↔ C → A ↔ C
iff_trans f g = (λ a. g.0 (f.0 a), λ c. f.1 (g.1 c))

pub iff_and : {A B C D : Type 0} → A ↔ B → C ↔ D → (A × C) ↔ (B × D)
iff_and f g = (λ (a, c). (f.0 a, g.0 c), λ (b, d). (f.1 b, g.1 d))

-- A check, and then the rest.
pub passes_then :
    {U E P Q : Type 0} (first : Result Unit E) (second : Result U E) {u : U}
    → (first ≡ ok tt) ↔ P
    → (second ≡ ok u) ↔ Q
    → ((first >> second) ≡ ok u) ↔ (P × Q)
passes_then first second p q = iff_trans (>>_iff first second) (iff_and p q)

-- Checks do not change what the end of their chain returns.
pub kept_by :
    {U E : Type 0} (first : Result Unit E) (second : Result U E) {u v : U}
    → (second ≡ ok v → u ≡ v)
    → (first >> second) ≡ ok v
    → u ≡ v
kept_by (ok _) second kept h = kept h
kept_by (err e) second kept h = cc h

-- A result that a check lets pass as it is.
pub checked_iff :
    {U E : Type 0} (step : Result U E) (check : U → Result Unit E) {u : U}
    → ((step >>= λ v. check v >> ok v) ≡ ok u) ↔ ((step ≡ ok u) × (check u ≡ ok tt))
checked_iff (err e) check = (λ h. cc h, λ h. absurd (cc h.0))
checked_iff (ok v) check {u} = (
  λ h.
      let (_, passed, same) = >>=-ok (check v) _ h in
      let it : v ≡ u = ok-injective same in (same, subst (λ x. check x ≡ ok tt) it passed),
  λ (same, passed). let it : v ≡ u = ok-injective same in rw (it, passed) refl,
)
