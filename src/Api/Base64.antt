-- ===== src/Api/Base64.antt =====
-- `base64.RawURLEncoding` of encoding/base64, which the session cookie is written in.
pub mod RoundTrip
use overworld_ops.Base.{
  ℕ, ◌+◌, ◌-◌, ◌*◌, ◌/◌, ◌%◌, ◌==◌, leb, ltb, ◌&&◌, ◌||◌, if◌then◌else◌, Option, none, some, List,
  [], ◌∷◌, Text,
}

-- The character of six bits.
unfoldable pub char_of : ℕ → ℕ
char_of n =
    if ltb n 26
    then n + 65
    else if ltb n 52
    then n + 71
    else if ltb n 62
    then n - 4
    else if n == 62
    then 45
    else 95

-- The six bits of a character.
unfoldable pub bits_of : ℕ → Option ℕ
bits_of c =
    if leb 65 c && leb c 90
    then some (c - 65)
    else if leb 97 c && leb c 122
    then some (c - 71)
    else if leb 48 c && leb c 57
    then some (c + 4)
    else if c == 45
    then some 62
    else if c == 95
    then some 63
    else none

-- Three bytes give four characters; a rest of one or two bytes gives two or three.
unfoldable pub encode : Text → Text
unfolding char_of
encode [] = []
encode (a ∷ []) = char_of (a / 4) ∷ char_of (a % 4 * 16) ∷ []
encode (a ∷ b ∷ []) = char_of (a / 4) ∷ char_of (a % 4 * 16 + b / 16) ∷ char_of (b % 16 * 4) ∷ []
encode (a ∷ b ∷ c ∷ s) =
    char_of (a / 4)
    ∷ char_of (a % 4 * 16 + b / 16)
    ∷ char_of (b % 16 * 4 + c / 64)
    ∷ char_of (c % 64)
    ∷ encode s

-- The decoder passes over line breaks.
unfoldable pub without_breaks : Text → Text
without_breaks [] = []
without_breaks (c ∷ s) =
    let rest = without_breaks s in if c == 10 || c == 13 then rest else c ∷ rest

unfoldable pub all_bits : Text → Option (List ℕ)
unfolding bits_of
all_bits [] = some []
all_bits (c ∷ s) = elim (bits_of c) [
  | none ↦ none
  | some n ↦ elim (all_bits s) [ none ↦ none | some l ↦ some (n ∷ l) ]
]

-- A rest of one character is an error; bits that are left over are dropped.
unfoldable pub join_bits : List ℕ → Option Text
join_bits [] = some []
join_bits (a ∷ []) = none
join_bits (a ∷ b ∷ []) = some ((a * 4 + b / 16) ∷ [])
join_bits (a ∷ b ∷ c ∷ []) = some ((a * 4 + b / 16) ∷ (b % 16 * 16 + c / 4) ∷ [])
join_bits (a ∷ b ∷ c ∷ d ∷ l) = elim (join_bits l) [
  | none ↦ none
  | some s ↦ some ((a * 4 + b / 16) ∷ (b % 16 * 16 + c / 4) ∷ (c % 4 * 64 + d) ∷ s)
]

unfoldable pub decode : Text → Option Text
unfolding without_breaks all_bits join_bits
decode s = elim (all_bits (without_breaks s)) [ none ↦ none | some l ↦ join_bits l ]
