-- ===== src/Docker/Logs/Lines.antt =====
-- The lines of a payload, from the text that was written.
use overworld_ops.Base.{
  refl, [], ◌∷◌, ◌++◌, reverse, false, Text, List, ◌≡◌, Bool, ℕ, zero, suc, ◌==◌, ◌||◌, ◌∙◌, ap,
  sym, arith, length, ◌+◌,
}
use mathlib.Core.List.{append_assoc, append-nil, reverse-append, reverse-reverse}
use overworld_ops.Docker.Logs.{split_lines, drop_breaks, trim_breaks}

unfoldable pub has_break : Text → Bool
has_break [] = false
has_break (c ∷ s) = c == 10 || has_break s

-- Line breaks only
abbrev pub breaks : ℕ → Text
breaks zero = []
breaks (suc n) = 10 ∷ breaks n

-- Some lines with a break after each, then a last one.
abbrev pub joined : List Text → Text → Text
joined [] last = last
joined (l ∷ ls) last = l ++ 10 ∷ joined ls last

abbrev pub NoBreaks : List Text → Type 0
NoBreaks [] = Unit {0}
NoBreaks (l ∷ ls) = (has_break l ≡ false) × NoBreaks ls

split_lines-other :
    (w s : Text) (c : ℕ) → (c == 10) ≡ false → split_lines w (c ∷ s) ≡ split_lines (w ++ c ∷ []) s
unfolding split_lines
split_lines-other w s c h = rw (split_lines, h) refl

split_lines-line :
    (w v s : Text) → has_break v ≡ false → split_lines w (v ++ 10 ∷ s) ≡ (w ++ v) ∷ split_lines [] s
unfolding has_break
split_lines-line w [] s h =
    unfold split_lines in ap (λ t. t ∷ split_lines [] s) (sym (append-nil w))
split_lines-line w (c ∷ v) s h =
    split_lines-other w (v ++ 10 ∷ s) c (ground arith)
    ∙ split_lines-line (w ++ c ∷ []) v s (ground arith)
    ∙ ap (λ t. t ∷ split_lines [] s) (append_assoc w (c ∷ []) v)

split_lines-last : (w v : Text) → has_break v ≡ false → split_lines w v ≡ (w ++ v) ∷ []
unfolding has_break
split_lines-last w [] h = unfold split_lines in ap (λ t. t ∷ []) (sym (append-nil w))
split_lines-last w (c ∷ v) h =
    split_lines-other w v c (ground arith)
    ∙ split_lines-last (w ++ c ∷ []) v (ground arith)
    ∙ ap (λ t. t ∷ []) (append_assoc w (c ∷ []) v)

pub split_lines-joined :
    (ls : List Text) (last : Text)
    → NoBreaks ls
    → has_break last ≡ false
    → split_lines [] (joined ls last) ≡ ls ++ last ∷ []
split_lines-joined [] last h k = split_lines-last [] last k
split_lines-joined (l ∷ ls) last (h, hs) k =
    split_lines-line [] l (joined ls last) h ∙ ap (λ t. l ∷ t) (split_lines-joined ls last hs k)

drop_breaks-breaks : (n : ℕ) (s : Text) → drop_breaks (breaks n ++ s) ≡ drop_breaks s
unfolding drop_breaks
drop_breaks-breaks zero s = refl
drop_breaks-breaks (suc n) s = drop_breaks-breaks n s

breaks-snoc : (n : ℕ) → breaks n ++ 10 ∷ [] ≡ breaks (suc n)
breaks-snoc zero = refl
breaks-snoc (suc n) = ap (λ t. 10 ∷ t) (breaks-snoc n)

reverse-breaks : (n : ℕ) → reverse (breaks n) ≡ breaks n
reverse-breaks zero = refl
reverse-breaks (suc n) =
    reverse-append (10 ∷ []) (breaks n) ∙ ap (λ t. t ++ 10 ∷ []) (reverse-breaks n) ∙ breaks-snoc n

drop_breaks-other : (c : ℕ) (s : Text) → (c == 10) ≡ false → drop_breaks (c ∷ s) ≡ c ∷ s
unfolding drop_breaks
drop_breaks-other c s h = rw h refl

pub length-append : (p s : Text) → length (p ++ s) ≡ length p + length s
length-append [] s = omega arith
length-append (c ∷ p) s = omega (arith, length-append p s)

-- The breaks after the last byte that is none are removed.
pub trim_breaks-padded :
    (x : Text) (c n : ℕ) → (c == 10) ≡ false → trim_breaks ((x ++ c ∷ []) ++ breaks n) ≡ x ++ c ∷ []
unfolding trim_breaks
trim_breaks-padded x c n h =
    ap (λ t. reverse (drop_breaks t))
      (reverse-append (x ++ c ∷ []) (breaks n)
        ∙ ap (λ t. t ++ reverse (x ++ c ∷ [])) (reverse-breaks n))
    ∙ ap reverse (
        drop_breaks-breaks n (reverse (x ++ c ∷ []))
        ∙ ap drop_breaks (reverse-append x (c ∷ []))
        ∙ drop_breaks-other c (reverse x) h
        ∙ sym (reverse-append x (c ∷ [])))
    ∙ reverse-reverse (x ++ c ∷ [])

pub trim_breaks-breaks : (n : ℕ) → trim_breaks (breaks n) ≡ []
unfolding trim_breaks drop_breaks
trim_breaks-breaks n =
    ap (λ t. reverse (drop_breaks t)) (reverse-breaks n ∙ sym (append-nil (breaks n)))
    ∙ ap reverse (drop_breaks-breaks n [])

pub length-breaks : (n : ℕ) → length (breaks n) ≡ n
length-breaks zero = refl
length-breaks (suc n) = ap suc (length-breaks n)

pub joined-append : (ls : List Text) (a b : Text) → joined ls (a ++ b) ≡ joined ls a ++ b
joined-append [] a b = refl
joined-append (l ∷ ls) a b =
    ap (λ t. l ++ 10 ∷ t) (joined-append ls a b) ∙ sym (append_assoc l (10 ∷ joined ls a) b)

pub has_break-snoc :
    (s : Text) (c : ℕ) → has_break s ≡ false → (c == 10) ≡ false → has_break (s ++ c ∷ []) ≡ false
unfolding has_break
has_break-snoc [] c h k = ground arith
has_break-snoc (d ∷ s) c h k = ground (arith, has_break-snoc s c)
