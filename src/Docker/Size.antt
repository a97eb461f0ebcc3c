-- ===== src/Docker/Size.antt =====
-- `parseSize` and `deriveMemoryLimit` of backend/internal/docker/minecraft.go.
--
-- `strings.ToUpper` is modelled on ASCII letters alone: a text with a letter beyond ASCII has no
-- upper-case form that `ParseInt` accepts, so it is refused either way.
use overworld_ops.Base.{
  ℕ, ◌-◌, ◌^◌, ◌&&◌, leb, ◌==◌, if◌then◌else◌, Option, none, some, [], ◌∷◌, map, reverse, Text,
  trim_space, parse_int, ℤ, pos, is_zero, add_int64, mul_int64,
}

unfoldable pub upper : ℕ → ℕ
upper c = if leb b'a' c && leb c b'z' then c - 32 else c

unfoldable pub to_upper : Text → Text
unfolding upper
to_upper s = map upper s

-- The factor of a unit, by its letter.
unfoldable pub multiplier : ℕ → Option ℕ
multiplier c =
    if c == b'G'
    then some (2 ^ 30)
    else if c == b'M'
    then some (2 ^ 20)
    else if c == b'K'
    then some (2 ^ 10)
    else none

-- `n * mult`, an `int64` product
unfoldable pub scaled : ℕ → Option ℤ → Option ℤ
unfolding mul_int64
scaled mult none = none
scaled mult (some n) = some (mul_int64 n (pos mult))

-- On the text in reverse, its last letter first; `none` is an error.
unfoldable pub parse_sized : Text → Option ℤ
unfolding multiplier scaled
parse_sized [] = none
parse_sized (c ∷ rest) = elim (multiplier c) [
  | some mult ↦ scaled mult (parse_int (trim_space (reverse rest)))
  | none ↦ scaled 1 (parse_int (trim_space (reverse (c ∷ rest))))
]

unfoldable pub parse_size : Text → Option ℤ
unfolding to_upper parse_sized
parse_size s = parse_sized (reverse (trim_space (to_upper s)))

unfoldable pub with_headroom : Option ℤ → ℤ
unfolding add_int64
with_headroom none = pos 0
with_headroom (some bytes) = if is_zero bytes then pos 0 else add_int64 bytes (pos (2 ^ 30))

unfoldable pub derive_memory_limit : Text → ℤ
unfolding parse_size with_headroom
derive_memory_limit heap = with_headroom (parse_size heap)
