-- ===== src/Middleware/Text.antt =====
-- What the extractor of src/middleware/actix.rs uses of `str`, on texts as they are.
use Prim.Native.Char.{code}
use Prim.Native.String.{String}
use Prim.Native.Nat.{ℕ, ◌+◌}
use axiam_rust_sdk.Prelude.{Bool, ◌&&◌, List, [], ◌∷◌, map, leb, if◌then◌else◌}
use axiam_rust_sdk.Prelude.Text.{text, text_eq, is_whitespace}

abbrev reverse_onto : String → String → String
reverse_onto String.[] acc = acc
reverse_onto (String.◌∷◌ c s) acc = reverse_onto s (String.◌∷◌ c acc)

unfoldable pub str_trim_start : String → String
unfolding is_whitespace
str_trim_start String.[] = String.[]
str_trim_start (String.◌∷◌ c s) =
    let rest = str_trim_start s in if is_whitespace (code c) then rest else String.◌∷◌ c s

-- `str::trim`
unfoldable pub str_trim : String → String
unfolding str_trim_start
str_trim s = reverse_onto (str_trim_start (reverse_onto (str_trim_start s) String.[])) String.[]

-- `splitn(2, char::is_whitespace)`, with an empty second piece where there is none
unfoldable pub split_scheme : String → String × String
unfolding is_whitespace
split_scheme String.[] = (String.[], String.[])
split_scheme (String.◌∷◌ c s) =
    let (scheme, rest) = split_scheme s in
    if is_whitespace (code c) then (String.[], s) else (String.◌∷◌ c scheme, rest)

abbrev ascii_lower : ℕ → ℕ
ascii_lower c = if leb 65 c && leb c 90 then c + 32 else c

unfoldable pub eq_ignore_ascii_case : String → String → Bool
eq_ignore_ascii_case a b = text_eq (map ascii_lower (text a)) (map ascii_lower (text b))

abbrev push_word : String → List String → List String
push_word String.[] words = words
push_word (String.◌∷◌ c s) words = String.◌∷◌ c s ∷ words

-- The word that a text begins with, and the words after it.
unfoldable pub words : String → String × List String
unfolding is_whitespace
words String.[] = (String.[], [])
words (String.◌∷◌ c s) =
    let (word, rest) = words s in
    if is_whitespace (code c) then (String.[], push_word word rest) else (String.◌∷◌ c word, rest)

-- `split_whitespace`
unfoldable pub split_whitespace : String → List String
unfolding words
split_whitespace s = let (word, rest) = words s in push_word word rest
