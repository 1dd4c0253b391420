-- ===== src/Webhook/Header.antt =====
-- How src/webhook.rs reads the header that a server writes, `t=<seconds>,v1=<hex>`.
use mathlib.Core.List.{reverse-reverse}
use axiam_rust_sdk.Prelude.{
  ℕ, ◌+◌, ◌-◌, ◌*◌, ◌≡◌, refl, Bool, true, false, Option, none, some, List, [], ◌∷◌, ◌++◌, reverse,
  arith, All, All-reverse, ok, ◌>>=◌, nat_eq, Bool-cases, inl, inr,
}
use axiam_rust_sdk.Prelude.Int.{ℤ}
use axiam_rust_sdk.Prelude.Text.{
  Text, text, is_whitespace, trim_start, trim, split_first, split, split_once, is_digit,
  digits_value, digits, parse_i64, signed,
}
use axiam_rust_sdk.Webhook.{Fields, add_pair, parse_header}

-- Neither white space nor a comma.
abbrev pub Plain : ℕ → Type 0
Plain c = (is_whitespace c ≡ false) × (nat_eq c b',' ≡ false)

abbrev pub IsPlain : Text → Type 0
IsPlain = All Plain

trim_start-IsPlain : (s : Text) → IsPlain s → trim_start s ≡ s
unfolding trim_start
trim_start-IsPlain [] h = refl
trim_start-IsPlain (c ∷ s) h = rw (h.0.0, trim_start) refl

pub trim-IsPlain : (s : Text) → IsPlain s → trim s ≡ s
unfolding trim
trim-IsPlain s h =
    rw (trim_start-IsPlain s h)
      (rw (trim_start-IsPlain (reverse s) (All-reverse Plain s h)) (reverse-reverse s))

split_first-IsPlain : (s : Text) → IsPlain s → split_first b',' s ≡ (s, [])
unfolding split_first
split_first-IsPlain [] h = refl
split_first-IsPlain (c ∷ s) h =
    rw (split_first-IsPlain s h.1, split_first) (rw (h.0.1, split_first) refl)

split_first-append :
    (s rest : Text)
    → IsPlain s
    → split_first b',' (s ++ b',' ∷ rest)
      ≡ (s, (split_first b',' rest).0 ∷ (split_first b',' rest).1)
unfolding split_first
split_first-append [] rest h = refl
split_first-append (c ∷ s) rest h =
    rw (split_first-append s rest h.1, split_first) (rw (h.0.1, split_first) refl)

pub split-two : (s t : Text) → IsPlain s → IsPlain t → split b',' (s ++ b',' ∷ t) ≡ s ∷ t ∷ []
unfolding split
split-two s t hs ht = rw (split_first-append s t hs, split) (rw (split_first-IsPlain t ht) refl)

digit-Plain : (c : ℕ) → is_digit c ≡ true → Plain c
unfolding is_digit is_whitespace
digit-Plain c h = (ground arith, ground arith)

digits_value-IsPlain : (acc : ℕ) (s : Text) (n : ℕ) → digits_value acc s ≡ some n → IsPlain s
unfolding digits_value
digits_value-IsPlain acc [] n h = tt
digits_value-IsPlain acc (c ∷ s) n h = elim (Bool-cases (is_digit c)) [
  | inl digit ↦ (
    digit-Plain c digit,
    digits_value-IsPlain (acc * 10 + (c - b'0')) s n (ground (arith, digit, h)),
  )
  | inr other ↦ absurd (ground (arith, other, h))
]

digits-IsPlain : (s : Text) (n : ℕ) → digits s ≡ some n → IsPlain s
unfolding digits
digits-IsPlain [] n h = tt
digits-IsPlain (c ∷ s) n h = digits_value-IsPlain 0 (c ∷ s) n h

signed-some :
    (negative : Bool) (o : Option ℕ) (t : ℤ) → signed negative o ≡ some t → (n : ℕ) × (o ≡ some n)
signed-some negative none t h = cc
signed-some negative (some n) t h = (n, refl)

minus-Plain : (c : ℕ) → nat_eq c b'-' ≡ true → Plain c
unfolding is_whitespace
minus-Plain c h = (ground arith, ground arith)

plus-Plain : (c : ℕ) → nat_eq c b'+' ≡ true → Plain c
unfolding is_whitespace
plus-Plain c h = (ground arith, ground arith)

-- A text that parses as an integer holds digits and a sign, so it is plain.
pub parse_i64-IsPlain : (s : Text) (t : ℤ) → parse_i64 s ≡ some t → IsPlain s
unfolding parse_i64
parse_i64-IsPlain [] t h = tt
parse_i64-IsPlain (c ∷ s) t h = elim (Bool-cases (nat_eq c b'-')) [
  | inl minus ↦
      let tail = signed-some true (digits s) t (ground (arith, minus, h)) in
      (minus-Plain c minus, digits-IsPlain s tail.0 tail.1)
  | inr unsigned ↦ elim (Bool-cases (nat_eq c b'+')) [
    | inl plus ↦
        let tail = signed-some false (digits s) t (ground (arith, unsigned, plus, h)) in
        (plus-Plain c plus, digits-IsPlain s tail.0 tail.1)
    | inr bare ↦
        let all = signed-some false (digits (c ∷ s)) t (ground (arith, unsigned, bare, h)) in
        digits-IsPlain (c ∷ s) all.0 all.1
  ]
]

abbrev found : Option Text → List Text → Fields
found raw_t v1_values = record { raw_t = raw_t; v1_values = v1_values }

add_pair-t :
    (ts : Text)
    → trim ts ≡ ts
    → add_pair (text "t=" ++ ts) (found none []) ≡ ok (found (some ts) [])
unfolding add_pair split_once is_whitespace
add_pair-t ts e = rw (e, trim-IsPlain (text "t") ((refl, refl), tt)) refl

add_pair-v1 :
    (ts sig : Text)
    → trim sig ≡ sig
    → (add_pair (text "v1=" ++ sig) (found (some ts) []) >>= λ f. ok f)
      ≡ ok (found (some ts) (sig ∷ []))
unfolding add_pair split_once is_whitespace
add_pair-v1 ts sig e = rw (e, trim-IsPlain (text "v1") ((refl, refl), ((refl, refl), tt))) refl

-- The header that the server writes.
abbrev pub server_header : Text → Text → Text
server_header ts sig = text "t=" ++ ts ++ b',' ∷ (text "v1=" ++ sig)

pub parse_header-server_header :
    (ts sig : Text)
    → IsPlain ts
    → IsPlain sig
    → parse_header (server_header ts sig) ≡ ok (record { raw_t = some ts; v1_values = sig ∷ [] })
unfolding parse_header split_once is_whitespace
parse_header-server_header ts sig ht hs =
    rw
      (split-two (text "t=" ++ ts) (text "v1=" ++ sig) ((refl, refl), ((refl, refl), ht))
        ((refl, refl), ((refl, refl), ((refl, refl), hs))))
      (rw (trim-IsPlain (text "t=" ++ ts) ((refl, refl), ((refl, refl), ht))) (
        rw (trim-IsPlain (text "v1=" ++ sig) ((refl, refl), ((refl, refl), ((refl, refl), hs))))
          (rw (add_pair-t ts (trim-IsPlain ts ht)) (add_pair-v1 ts sig (trim-IsPlain sig hs)))))
