-- ===== src/Base/Decimal.antt =====
-- `strconv.Itoa`, `strconv.FormatInt` and `strconv.ParseInt` in base 10.
use Prim.Native.Nat.{ℕ, zero, suc, ◌+◌, ◌-◌, ◌*◌, ◌/◌, ◌%◌, ◌^◌, ◌<◌}
use mathlib.Core.Path.{◌≡◌, ◌∙◌}
use mathlib.Core.Logic.{inl, inr}
use mathlib.Core.Bool.{Bool, ◌&&◌}
use mathlib.Core.Option.{Option, none, some}
use mathlib.Core.List.{[], ◌∷◌, ◌++◌}
use native.Mathlib.Omega.{arith}
use overworld_ops.Base.Tests.{ltb, leb, ◌==◌, if◌then◌else◌, Bool-cases}
use overworld_ops.Base.Strings.{Text}
use overworld_ops.Base.Int.{ℤ, pos, neg}

-- The decimal digits of a number; a number has fewer digits than its value plus one.
unfoldable pub digits_of : ℕ → ℕ → Text
digits_of zero n = []
digits_of (suc fuel) n =
    let front = digits_of fuel (n / 10) in
    if ltb n 10 then (48 + n) ∷ [] else front ++ (48 + n % 10) ∷ []

unfoldable pub itoa : ℕ → Text
unfolding digits_of
itoa n = digits_of (suc n) n

unfoldable pub is_digit : ℕ → Bool
is_digit c = leb 48 c && leb c 57

unfoldable pub parse_digits : ℕ → Text → Option ℕ
unfolding is_digit
parse_digits acc [] = some acc
parse_digits acc (c ∷ s) = if is_digit c then parse_digits (acc * 10 + (c - 48)) s else none

-- At least one digit, and nothing else.
unfoldable pub parse_uint : Text → Option ℕ
unfolding parse_digits
parse_uint [] = none
parse_uint (c ∷ s) = parse_digits 0 (c ∷ s)

-- The range of `int64`
abbrev pub int64_pos : Option ℕ → Option ℤ
int64_pos none = none
int64_pos (some n) = if ltb n (2 ^ 63) then some (pos n) else none

abbrev pub int64_neg : Option ℕ → Option ℤ
int64_neg none = none
int64_neg (some n) = if leb n (2 ^ 63) then some (neg n) else none

unfoldable pub parse_int : Text → Option ℤ
unfolding parse_uint
parse_int [] = none
parse_int (c ∷ s) =
    if c == b'-'
    then int64_neg (parse_uint s)
    else if c == b'+'
    then int64_pos (parse_uint s)
    else int64_pos (parse_uint (c ∷ s))

-- One more digit at the end.
parse_digits-append :
    (acc v d : ℕ) (s : Text)
    → parse_digits acc s ≡ some v
    → d < 10
    → parse_digits acc (s ++ (48 + d) ∷ []) ≡ some (v * 10 + d)
unfolding parse_digits
parse_digits-append acc v d [] h lt = ground arith
parse_digits-append acc v d (c ∷ s) h lt =
    ground (arith, parse_digits-append (acc * 10 + (c - 48)) v d s)

pub parse_digits-digits_of : (fuel n : ℕ) → n < fuel → parse_digits 0 (digits_of fuel n) ≡ some n
unfolding digits_of
parse_digits-digits_of zero n h = elim h [ ]
parse_digits-digits_of (suc fuel) n h = elim (Bool-cases (ltb n 10)) [
  | inl small ↦ rw small (unfold parse_digits in ground arith)
  | inr large ↦ rw large (
      parse_digits-append 0 (n / 10) (n % 10) (digits_of fuel (n / 10))
        (parse_digits-digits_of fuel (n / 10) (ground arith)) (omega arith)
      ∙ ground arith)
]
