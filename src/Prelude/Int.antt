-- ===== src/Prelude/Int.antt =====
-- Signed integers over the native numbers. `negsuc n` is -(n + 1).
use Prim.Native.Nat.{ℕ, suc, ◌+◌, ◌-◌, ◌^◌, ◌≤◌, ◌<◌}
use mathlib.Core.Path.{◌≡◌}
use mathlib.Core.Logic.{◌↔◌}
use native.Mathlib.Omega.{arith}
use mathlib.Core.Bool.{Bool, true, false}
use axiam_rust_sdk.Prelude.Tests.{nat_eq, leb, if◌then◌else◌}

pub data ℤ : Type 0 where
  pos : ℕ → ℤ
  negsuc : ℕ → ℤ

abbrev pub i64_max : ℕ
i64_max = 9_223_372_036_854_775_807

abbrev pub pos_part : ℤ → ℕ
pos_part (pos n) = n
pos_part (negsuc n) = 0

abbrev pub neg_part : ℤ → ℕ
neg_part (pos n) = 0
neg_part (negsuc n) = suc n

-- `i64` equality and order
abbrev pub int_eq : ℤ → ℤ → Bool
int_eq (pos a) (pos b) = nat_eq a b
int_eq (negsuc a) (negsuc b) = nat_eq a b
int_eq _ _ = false

abbrev pub ◌≤ℤ◌ : ℤ → ℤ → Type 0
◌≤ℤ◌ a b = pos_part a + neg_part b ≤ pos_part b + neg_part a

abbrev pub int_le : ℤ → ℤ → Bool
int_le a b = leb (pos_part a + neg_part b) (pos_part b + neg_part a)

-- `i64` addition and subtraction of a small number, which wrap around where overflow is not trapped
unfoldable pub add_i64 : ℤ → ℕ → ℤ
add_i64 (pos n) s = if leb (n + s) i64_max then pos (n + s) else negsuc (2 ^ 64 - (n + s) - 1)
add_i64 (negsuc n) s = if leb s n then negsuc (n - s) else pos (s - n - 1)

unfoldable pub sub_i64 : ℤ → ℕ → ℤ
sub_i64 (pos n) s = if leb s n then pos (n - s) else negsuc (s - n - 1)
sub_i64 (negsuc n) s = if leb (n + s) i64_max then negsuc (n + s) else pos (2 ^ 64 - (n + s) - 1)

-- A sum that does not wrap around is later than a time exactly as the numbers are; one that does is not.
pub add_i64_later :
    (a : ℤ) (t s : ℕ)
    → s ≤ i64_max
    → (int_le (add_i64 a s) (pos t) ≡ false)
      ↔ ((t + neg_part a < pos_part a + s) × (pos_part a + s ≤ i64_max))
unfolding add_i64
add_i64_later (pos n) t s hs =
    (λ h. (ground (arith, h), ground (arith, h)), λ h. ground (arith, h.0, h.1))
add_i64_later (negsuc n) t s hs =
    (λ h. (ground (arith, h, hs), ground (arith, hs)), λ h. ground (arith, h.0, h.1))

-- A difference that does not wrap around is at most a time exactly as the numbers are; one that does is later
-- than any time well below the largest.
pub sub_i64_past :
    (a : ℤ) (t s : ℕ)
    → neg_part a ≤ suc i64_max
    → t + s + s ≤ i64_max
    → (int_le (sub_i64 a s) (pos t) ≡ true)
      ↔ ((pos_part a ≤ t + s + neg_part a) × (neg_part a + s ≤ suc i64_max))
unfolding sub_i64
sub_i64_past (pos n) t s ha ht =
    (λ h. (ground (arith, h), ground (arith, ht)), λ h. ground (arith, h.0))
sub_i64_past (negsuc n) t s ha ht =
    (λ h. (ground arith, ground (arith, h, ha, ht)), λ h. ground (arith, h.0, h.1, ha, ht))

-- |a - b|
unfoldable pub abs_diff : ℤ → ℤ → ℕ
abs_diff a b =
    let x = pos_part a + neg_part b in
    let y = pos_part b + neg_part a in if leb y x then x - y else y - x

pub int_eq_iff : (a b : ℤ) → (int_eq a b ≡ true) ↔ (a ≡ b)
int_eq_iff (pos a) (pos b) = (λ h. ground arith, λ h. ground (arith, h))
int_eq_iff (pos a) (negsuc b) = (λ h. cc, λ h. cc)
int_eq_iff (negsuc a) (pos b) = (λ h. cc, λ h. cc)
int_eq_iff (negsuc a) (negsuc b) = (λ h. ground arith, λ h. ground (arith, h))
