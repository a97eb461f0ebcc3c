-- ===== src/Api/Session/Plain.antt =====
-- The pieces of a session cookie: texts without a bar, and printed numbers.
use overworld_ops.Base.{
  refl, [], ◌∷◌, ◌++◌, some, true, false, Text, digits_of, ◌≡◌, Bool, ℕ, List, ◌<◌, ◌==◌, arith,
  suc, ◌||◌, ◌∙◌, ap, Bool-cases, sym, ltb, inl, inr, ◌/◌, parse_digits, is_digit, is_empty, itoa,
  ◌%◌, none, ◌^◌, zero, parse_int, pos, parse_digits-digits_of, ◌≤◌, ◌+◌,
}
use overworld_ops.Api.Session.{
  split_bar, hex_digit, hex, Bool, ℕ, List, split_from, bar, ltb, itoa, none, parse_int, pos,
}
use overworld_ops.Api.Base64.RoundTrip.{IsBytes}
use overworld_ops.Api.Session.Sound.{split_from-bar, append_nil, split_from-other, append_assoc}

unfoldable pub has_bar : Text → Bool
has_bar [] = false
has_bar (c ∷ s) = c == bar || has_bar s

-- A piece without a bar in it is read whole.
split_from-word :
    (w v s : Text) → has_bar v ≡ false → split_from w (v ++ bar ∷ s) ≡ (w ++ v) ∷ split_from [] s
unfolding has_bar
split_from-word w [] s h =
    split_from-bar w s bar refl ∙ ap (λ t. t ∷ split_from [] s) (sym (append_nil w))
split_from-word w (c ∷ v) s h =
    split_from-other w (v ++ bar ∷ s) c (ground arith)
    ∙ split_from-word (w ++ c ∷ []) v s (ground arith)
    ∙ ap (λ t. t ∷ split_from [] s) (append_assoc w (c ∷ []) v)

split_from-last : (w v : Text) → has_bar v ≡ false → split_from w v ≡ (w ++ v) ∷ []
unfolding has_bar
split_from-last w [] h = unfold split_from in ap (λ t. t ∷ []) (sym (append_nil w))
split_from-last w (c ∷ v) h =
    split_from-other w v c (ground arith)
    ∙ split_from-last (w ++ c ∷ []) v (ground arith)
    ∙ ap (λ t. t ∷ []) (append_assoc w (c ∷ []) v)

pub split_bar-three_words :
    (a b c : Text)
    → has_bar a ≡ false
    → has_bar b ≡ false
    → has_bar c ≡ false
    → split_bar (a ++ bar ∷ (b ++ bar ∷ c)) ≡ a ∷ b ∷ c ∷ []
unfolding split_bar
split_bar-three_words a b c ha hb hc =
    split_from-word [] a (b ++ bar ∷ c) ha
    ∙ ap (λ t. a ∷ t) (split_from-word [] b c hb ∙ ap (λ t. b ∷ t) (split_from-last [] c hc))

pub has_bar-append : (a b : Text) → has_bar a ≡ false → has_bar b ≡ false → has_bar (a ++ b) ≡ false
unfolding has_bar
has_bar-append [] b ha hb = hb
has_bar-append (c ∷ a) b ha hb = ground (arith, has_bar-append a b)

pub IsBytes-append : (a b : Text) → IsBytes a → IsBytes b → IsBytes (a ++ b)
IsBytes-append [] b ha hb = hb
IsBytes-append (c ∷ a) b (h, rest) hb = (h, IsBytes-append a b rest hb)

-- Digits and hexadecimal digits are plain characters.
pub digits_of-plain :
    (fuel n : ℕ) → (has_bar (digits_of fuel n) ≡ false) × IsBytes (digits_of fuel n)
unfolding digits_of has_bar
digits_of-plain zero n = (refl, tt)
digits_of-plain (suc fuel) n = elim (Bool-cases (ltb n 10)) [
  | inl small ↦ rw small (ground arith, (ground arith, tt))
  | inr large ↦
      let (bars, bytes) = digits_of-plain fuel (n / 10) in
      rw large (
        has_bar-append (digits_of fuel (n / 10)) ((48 + n % 10) ∷ []) bars (ground arith),
        IsBytes-append (digits_of fuel (n / 10)) ((48 + n % 10) ∷ []) bytes (omega arith, tt),
      )
]

hex_digit-plain : (n : ℕ) → n < 16 → ((hex_digit n == bar) ≡ false) × (hex_digit n < 256)
unfolding hex_digit
hex_digit-plain n h = ground arith

pub hex-plain : (l : List ℕ) → IsBytes l → (has_bar (hex l) ≡ false) × IsBytes (hex l)
unfolding hex has_bar
hex-plain [] h = (refl, tt)
hex-plain (b ∷ l) (h, rest) =
    let (bars, bytes) = hex-plain l rest in
    let (high_bar, high_byte) = hex_digit-plain (b / 16) (omega arith) in
    let (low_bar, low_byte) = hex_digit-plain (b % 16) (omega arith) in
    (ground arith, (high_byte, (low_byte, bytes)))

first_digit : (c : ℕ) (s : Text) (n : ℕ) → parse_digits 0 (c ∷ s) ≡ some n → is_digit c ≡ true
unfolding parse_digits
first_digit c s n h = elim (Bool-cases (is_digit c)) [
  | inl digit ↦ digit
  | inr other ↦ let q : none ≡ some n = rw other at h in absurd cc
]

digit_unsigned : (c : ℕ) → is_digit c ≡ true → ((c == b'-') ≡ false) × ((c == b'+') ≡ false)
unfolding is_digit
digit_unsigned c h = ground arith

below : (a b : ℕ) → a < b → ltb a b ≡ true
below a b h = ground arith

pub not_below : (a b : ℕ) → b ≤ a → ltb a b ≡ false
not_below a b h = ground arith

-- What `ParseInt` reads of a printed number.
parse_int-digits :
    (s : Text) (n : ℕ)
    → is_empty s ≡ false
    → parse_digits 0 s ≡ some n
    → n < 2 ^ 63
    → parse_int s ≡ some (pos n)
unfolding is_empty parse_digits
parse_int-digits [] n h d lt = absurd cc
parse_int-digits (c ∷ s) n h d lt =
    let digit : is_digit c ≡ true = first_digit c s n d in
    let plain : ((c == b'-') ≡ false) × ((c == b'+') ≡ false) = digit_unsigned c digit in
    let small : ltb n (2 ^ 63) ≡ true = below n (2 ^ 63) lt in
    unfold parse_int in rw (plain.0) (rw (plain.1) (rw d (rw small refl)))

is_empty-append_one : (s : Text) (c : ℕ) → is_empty (s ++ c ∷ []) ≡ false
unfolding is_empty
is_empty-append_one [] c = refl
is_empty-append_one (d ∷ s) c = refl

digits_of-not_empty : (fuel n : ℕ) → is_empty (digits_of (suc fuel) n) ≡ false
unfolding digits_of is_empty
digits_of-not_empty fuel n = elim (Bool-cases (ltb n 10)) [
  | inl small ↦ rw small refl
  | inr large ↦ rw large (is_empty-append_one (digits_of fuel (n / 10)) (48 + n % 10))
]

pub parse_int-itoa : (n : ℕ) → n < 2 ^ 63 → parse_int (itoa n) ≡ some (pos n)
unfolding itoa
parse_int-itoa n lt =
    parse_int-digits (digits_of (suc n) n) n (digits_of-not_empty n n)
      (parse_digits-digits_of (suc n) n (omega arith)) lt
