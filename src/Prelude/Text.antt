-- ===== src/Prelude/Text.antt =====
-- Text as the list of its code points, and what the program uses of `str`. On ASCII text, which the
-- formats here are made of, a code point is a byte.
use Prim.Native.Nat.{ℕ, zero, suc, ◌+◌, ◌-◌, ◌*◌, ◌^◌}
use Prim.Native.Char.{code}
use Prim.Native.String.{String}
use mathlib.Core.Logic.{◌↔◌}
use mathlib.Core.Path.{◌≡◌, refl}
use native.Mathlib.Omega.{arith}
use mathlib.Core.Bool.{Bool, true, false, ◌&&◌, ◌||◌}
use mathlib.Core.Option.{Option, none, some}
use mathlib.Core.List.{List, [], ◌∷◌, reverse}
use axiam_rust_sdk.Prelude.Tests.{nat_eq, leb, ltb, if◌then◌else◌}
use axiam_rust_sdk.Prelude.Int.{ℤ, pos, negsuc}

abbrev pub Text : Type 0
Text = List ℕ

-- A literal of the source, as text.
abbrev pub text : String → Text
text String.[] = []
text (String.◌∷◌ c s) = code c ∷ text s

abbrev pub text_eq : Text → Text → Bool
text_eq [] [] = true
text_eq (a ∷ s) (b ∷ t) = nat_eq a b && text_eq s t
text_eq _ _ = false

pub text_eq_iff : (s t : Text) → (text_eq s t ≡ true) ↔ (s ≡ t)
text_eq_iff [] [] = (λ _. refl, λ _. refl)
text_eq_iff [] (b ∷ t) = (λ h. cc, λ h. cc)
text_eq_iff (a ∷ s) [] = (λ h. cc, λ h. cc)
text_eq_iff (a ∷ s) (b ∷ t) =
    (λ h. ground (arith, (text_eq_iff s t).0), λ h. ground (arith, (text_eq_iff s t).1, h))

-- `char::is_whitespace`, the property `White_Space`
unfoldable pub is_whitespace : ℕ → Bool
is_whitespace c =
    (leb 9 c && leb c 13)
    || (nat_eq c 32
        || (nat_eq c 0x85
            || (nat_eq c 0xa0
                || (nat_eq c 0x1680
                    || ((leb 0x2000 c && leb c 0x200a)
                        || (nat_eq c 0x2028
                            || (nat_eq c 0x2029
                                || (nat_eq c 0x202f || (nat_eq c 0x205f || nat_eq c 0x3000)))))))))

unfoldable pub trim_start : Text → Text
trim_start [] = []
trim_start (c ∷ s) = let rest = trim_start s in if is_whitespace c then rest else c ∷ s

-- `str::trim`
unfoldable pub trim : Text → Text
unfolding trim_start
trim s = reverse (trim_start (reverse (trim_start s)))

-- The first piece and the pieces after it.
unfoldable pub split_first : ℕ → Text → Text × List Text
split_first sep [] = ([], [])
split_first sep (c ∷ s) =
    let (piece, pieces) = split_first sep s in
    if nat_eq c sep then ([], piece ∷ pieces) else (c ∷ piece, pieces)

-- `str::split` at one character: `n` separators give `n + 1` pieces.
unfoldable pub split : ℕ → Text → List Text
unfolding split_first
split sep s = let (piece, pieces) = split_first sep s in piece ∷ pieces

-- `str::split_once` at one character
unfoldable pub split_once : ℕ → Text → Option (Text × Text)
split_once sep [] = none
split_once sep (c ∷ s) =
    let rest = split_once sep s in
    if nat_eq c sep
    then some ([], s)
    else elim rest [ none ↦ none | some (key, value) ↦ some (c ∷ key, value) ]

unfoldable pub is_digit : ℕ → Bool
is_digit c = leb b'0' c && leb c b'9'

-- The value of a text of digits, read on from `acc`; no digits are left at its end.
unfoldable pub digits_value : ℕ → Text → Option ℕ
unfolding is_digit
digits_value acc [] = some acc
digits_value acc (c ∷ s) =
    let rest = digits_value (acc * 10 + (c - b'0')) s in if is_digit c then rest else none

unfoldable pub digits : Text → Option ℕ
unfolding digits_value
digits [] = none
digits (c ∷ s) = digits_value 0 (c ∷ s)

abbrev pub within : ℕ → Option ℕ → Option ℕ
within limit none = none
within limit (some n) = if ltb n limit then some n else none

-- `str::parse::<u64>`: one `+` may stand in front.
unfoldable pub parse_u64 : Text → Option ℕ
unfolding digits
parse_u64 [] = none
parse_u64 (c ∷ s) = within (2 ^ 64) (if nat_eq c b'+' then digits s else digits (c ∷ s))

abbrev pub negate : ℕ → ℤ
negate zero = pos 0
negate (suc n) = negsuc n

abbrev pub signed : Bool → Option ℕ → Option ℤ
signed negative none = none
signed negative (some n) =
    if negative
    then (if leb n (2 ^ 63) then some (negate n) else none)
    else if ltb n (2 ^ 63)
    then some (pos n)
    else none

-- `str::parse::<i64>`: one sign may stand in front.
unfoldable pub parse_i64 : Text → Option ℤ
unfolding digits
parse_i64 [] = none
parse_i64 (c ∷ s) =
    if nat_eq c b'-'
    then signed true (digits s)
    else if nat_eq c b'+'
    then signed false (digits s)
    else signed false (digits (c ∷ s))
