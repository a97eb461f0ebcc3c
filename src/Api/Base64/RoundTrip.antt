-- ===== src/Api/Base64/RoundTrip.antt =====
-- What the decoder of the session cookie gives back.
use overworld_ops.Base.{
  refl, some, [], ◌∷◌, arith, ◌<◌, ◌+◌, ◌*◌, ◌/◌, ◌%◌, Text, ◌≡◌, List, ℕ, ◌==◌, ◌||◌, false, ap,
  ◌∙◌,
}
use overworld_ops.Api.Base64.{
  char_of, all_bits, encode, join_bits, bits_of, without_breaks, List, ℕ, decode,
}

abbrev pub IsBytes : Text → Type 0
IsBytes [] = Unit
IsBytes (c ∷ s) = (c < 256) × IsBytes s

-- The groups of six bits that are encoded.
abbrev sextets : Text → List ℕ
sextets [] = []
sextets (a ∷ []) = a / 4 ∷ a % 4 * 16 ∷ []
sextets (a ∷ b ∷ []) = a / 4 ∷ (a % 4 * 16 + b / 16) ∷ b % 16 * 4 ∷ []
sextets (a ∷ b ∷ c ∷ s) = a / 4 ∷ (a % 4 * 16 + b / 16) ∷ (b % 16 * 4 + c / 64) ∷ c % 64 ∷ sextets s

char_of-not_break : (n : ℕ) → n < 64 → (char_of n == 10 || char_of n == 13) ≡ false
unfolding char_of
char_of-not_break n h = ground arith

bits_of-char_of : (n : ℕ) → n < 64 → bits_of (char_of n) ≡ some n
unfolding char_of bits_of
bits_of-char_of n h = ground arith

without_breaks-cons :
    (c : ℕ) (s : Text)
    → (c == 10 || c == 13) ≡ false
    → without_breaks (c ∷ s) ≡ c ∷ without_breaks s
unfolding without_breaks
without_breaks-cons c s h = rw (without_breaks, h) refl

all_bits-cons :
    (c n : ℕ) (s : Text) (l : List ℕ)
    → bits_of c ≡ some n
    → all_bits s ≡ some l
    → all_bits (c ∷ s) ≡ some (n ∷ l)
unfolding all_bits
all_bits-cons c n s l h rest = rw (all_bits, h) (rw rest refl)

read_char :
    (n : ℕ) (s : Text) (l : List ℕ)
    → n < 64
    → all_bits (without_breaks s) ≡ some l
    → all_bits (without_breaks (char_of n ∷ s)) ≡ some (n ∷ l)
read_char n s l h rest =
    ap all_bits (without_breaks-cons (char_of n) s (char_of-not_break n h))
    ∙ all_bits-cons (char_of n) n (without_breaks s) l (bits_of-char_of n h) rest

read_encode : (s : Text) → IsBytes s → all_bits (without_breaks (encode s)) ≡ some (sextets s)
unfolding encode
read_encode [] h = unfold all_bits without_breaks in refl
read_encode (a ∷ []) (i, _) =
    read_char (a / 4) _ _ (omega arith)
      (read_char (a % 4 * 16) [] [] (omega arith) (read_encode [] tt))
read_encode (a ∷ b ∷ []) (i, (j, _)) = read_char (a / 4) _ _ (omega arith) (
    read_char (a % 4 * 16 + b / 16) _ _ (omega arith)
      (read_char (b % 16 * 4) [] [] (omega arith) (read_encode [] tt)))
read_encode (a ∷ b ∷ c ∷ s) (i, (j, (k, rest))) = read_char (a / 4) _ _ (omega arith) (
    read_char (a % 4 * 16 + b / 16) _ _ (omega arith) (
      read_char (b % 16 * 4 + c / 64) _ _ (omega arith)
        (read_char (c % 64) (encode s) (sextets s) (omega arith) (read_encode s rest))))

first_byte : (a b : ℕ) → b < 256 → a / 4 * 4 + (a % 4 * 16 + b / 16) / 16 ≡ a
first_byte a b h = omega arith

second_byte :
    (a b c : ℕ)
    → b < 256
    → c < 256
    → (a % 4 * 16 + b / 16) % 16 * 16 + (b % 16 * 4 + c / 64) / 4 ≡ b
second_byte a b c h k = omega arith

third_byte : (b c : ℕ) → c < 256 → (b % 16 * 4 + c / 64) % 4 * 64 + c % 64 ≡ c
third_byte b c h = omega arith

join_bits-sextets : (s : Text) → IsBytes s → join_bits (sextets s) ≡ some s
unfolding join_bits
join_bits-sextets [] h = refl
join_bits-sextets (a ∷ []) h = ap (λ x. some (x ∷ [])) (omega arith)
join_bits-sextets (a ∷ b ∷ []) (i, (j, _)) =
    rw (first_byte a b j) (ap (λ x. some (a ∷ x ∷ [])) (omega arith))
join_bits-sextets (a ∷ b ∷ c ∷ s) (i, (j, (k, rest))) =
    rw (join_bits, join_bits-sextets s rest)
      (rw (first_byte a b j) (rw (second_byte a b c j k) (rw (third_byte b c k) refl)))

-- Decoding what was encoded gives back every sequence of bytes.
pub decode-encode : (s : Text) → IsBytes s → decode (encode s) ≡ some s
unfolding decode
decode-encode s h = rw (decode, read_encode s h) (join_bits-sextets s h)
