-- ===== src/Base/Space.antt =====
-- `strings.TrimSpace` on the bytes of a UTF-8 text.
use Prim.Native.Nat.{ℕ, zero, suc}
use mathlib.Core.Bool.{Bool, ◌&&◌, ◌||◌}
use mathlib.Core.List.{[], ◌∷◌, reverse}
use overworld_ops.Base.Tests.{leb, ◌==◌, if◌then◌else◌}
use overworld_ops.Base.Strings.{Text}

-- A white space of one byte: tab to carriage return, and space.
unfoldable pub is_space1 : ℕ → Bool
is_space1 a = (leb 9 a && leb a 13) || a == 32

-- Of two bytes: U+0085 and U+00A0.
unfoldable pub is_space2 : ℕ → ℕ → Bool
is_space2 a b = a == 0xc2 && (b == 0x85 || b == 0xa0)

-- Of three bytes: U+1680, U+2000 to U+200A, U+2028, U+2029, U+202F, U+205F and U+3000.
unfoldable pub is_space3 : ℕ → ℕ → ℕ → Bool
is_space3 a b c =
    (a == 0xe1 && b == 0x9a && c == 0x80)
    || (a == 0xe2
        && b == 0x80
        && ((leb 0x80 c && leb c 0x8a) || c == 0xa8 || c == 0xa9 || c == 0xaf))
    || (a == 0xe2 && b == 0x81 && c == 0x9f)
    || (a == 0xe3 && b == 0x80 && c == 0x80)

-- How many bytes the white space at the front of a text has, 0 if there is none.
unfoldable pub space_width : Text → ℕ
unfolding is_space1 is_space2 is_space3
space_width [] = 0
space_width (a ∷ []) = if is_space1 a then 1 else 0
space_width (a ∷ b ∷ []) = if is_space1 a then 1 else if is_space2 a b then 2 else 0
space_width (a ∷ b ∷ c ∷ s) =
    if is_space1 a then 1 else if is_space2 a b then 2 else if is_space3 a b c then 3 else 0

-- The same at the end of a text, which is given in reverse.
unfoldable pub space_width_back : Text → ℕ
unfolding is_space1 is_space2 is_space3
space_width_back [] = 0
space_width_back (a ∷ []) = if is_space1 a then 1 else 0
space_width_back (b ∷ a ∷ []) = if is_space1 b then 1 else if is_space2 a b then 2 else 0
space_width_back (c ∷ b ∷ a ∷ s) =
    if is_space1 c then 1 else if is_space2 b c then 2 else if is_space3 a b c then 3 else 0

-- Drops the rest of a white space, `k` bytes, and then every white space that follows.
unfoldable pub skip_space : (Text → ℕ) → ℕ → Text → Text
skip_space width k [] = []
skip_space width (suc k) (c ∷ s) = skip_space width k s
skip_space width zero (c ∷ s) = elim (width (c ∷ s)) [ zero ↦ c ∷ s | suc k ↦ skip_space width k s ]

unfoldable pub trim_space : Text → Text
unfolding space_width space_width_back skip_space
trim_space s = reverse (skip_space space_width_back 0 (reverse (skip_space space_width 0 s)))
