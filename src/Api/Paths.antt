-- ===== src/Api/Paths.antt =====
-- The paths that the mux of `net/http` looks up as they are.
use overworld_ops.Base.{Bool, false, not, ◌&&◌, ◌||◌, List, [], ◌∷◌, Text, codes, text_eq, is_empty}

unfoldable pub is_dots : Text → Bool
unfolding codes text_eq
is_dots s = text_eq s (codes ".") || text_eq s (codes "..")

-- Whether the segments of a path are what `path.Clean` leaves of it, but for a slash at its end.
unfoldable pub is_clean : List Text → Bool
unfolding is_dots is_empty
is_clean [] = false
is_clean (s ∷ []) = not (is_dots s)
is_clean (s ∷ t ∷ path) = not (is_empty s) && (not (is_dots s) && is_clean (t ∷ path))
