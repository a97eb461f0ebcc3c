-- ===== src/Store/Counts.antt =====
-- The map that `ServerCountsByOwner` fills against the count of one owner's rows.
use overworld_ops.Base.{
  List, [], ◌∷◌, Text, count_where, ◌≡◌, ◌+◌, one_if, arith, text_eq, refl, text_eq_iff, ◌≤◌, ℕ,
  Bool, Bool-cases, inl, inr, if◌then◌else◌, false, ◌∙◌,
}
use overworld_ops.Store.Users.{count_of, tally, group_by_owner, Counts, set_count, fill_counts}
use overworld_ops.Models.{Server}
use overworld_ops.Store.Sql.{has_owner}

count_of-tally :
    (k j : Text) (m : Counts) → count_of k (tally j m) ≡ count_of k m + one_if (text_eq j k)
unfolding count_of tally
count_of-tally k j [] = ground arith
count_of-tally k j ((i, n) ∷ m) =
    ground (arith, count_of-tally k j m, text_eq_iff i j, text_eq_iff i k, text_eq_iff j k)

-- For every owner, the row of the grouped query is the number of servers with that owner, and
-- zero if there is none.
count_of-group_by_owner :
    (k : Text) (l : List Server) → count_of k (group_by_owner l) ≡ count_where (has_owner k) l
unfolding group_by_owner count_of count_where
count_of-group_by_owner k [] = refl
count_of-group_by_owner k (v ∷ l) =
    omega (arith, count_of-tally k v.owner_id (group_by_owner l), count_of-group_by_owner k l)

-- A row or an entry of that owner.
abbrev has_key : Text → Text × ℕ → Bool
has_key k row = text_eq row.0 k

tally_other :
    (k j : Text) (m : Counts)
    → text_eq j k ≡ false
    → count_where (has_key k) (tally j m) ≡ count_where (has_key k) m
unfolding tally count_where
tally_other k j [] differ = ground arith
tally_other k j ((i, n) ∷ m) differ = ground (arith, tally_other k j m differ)

tally_once :
    (k j : Text) (m : Counts)
    → count_where (has_key k) m ≤ 1
    → count_where (has_key k) (tally j m) ≤ 1
unfolding tally count_where
tally_once k j [] once = ground arith
tally_once k j ((i, n) ∷ m) once = ground (
  arith,
  once,
  tally_once k j m,
  tally_other k j m,
  text_eq_iff i j,
  text_eq_iff i k,
  text_eq_iff j k,
)

group_by_owner_once : (k : Text) (l : List Server) → count_where (has_key k) (group_by_owner l) ≤ 1
unfolding group_by_owner count_where
group_by_owner_once k [] = omega arith
group_by_owner_once k (v ∷ l) = tally_once k v.owner_id (group_by_owner l) (group_by_owner_once k l)

count_of-set_count :
    (k j : Text) (n : ℕ) (m : Counts)
    → count_of k (set_count j n m) ≡ (if text_eq j k then n else count_of k m)
unfolding count_of set_count
count_of-set_count k j n [] = refl
count_of-set_count k j n ((i, c) ∷ m) =
    ground (arith, count_of-set_count k j n m, text_eq_iff i j, text_eq_iff i k, text_eq_iff j k)

-- The loop leaves an entry alone that no row is about, and sets it to the one row that is.
fill_counts_absent :
    (k : Text) (rows counts : Counts)
    → count_where (has_key k) rows ≡ 0
    → count_of k (fill_counts rows counts) ≡ count_of k counts
unfolding fill_counts count_where
fill_counts_absent k [] counts h = refl
fill_counts_absent k ((j, n) ∷ rows) counts h =
    ground
      (arith, h, count_of-set_count k j n counts, fill_counts_absent k rows (set_count j n counts))

fill_counts_once :
    (k : Text) (rows counts : Counts)
    → count_where (has_key k) rows ≤ 1
    → count_of k counts ≡ 0
    → count_of k (fill_counts rows counts) ≡ count_of k rows
unfolding fill_counts count_where count_of
fill_counts_once k [] counts once fresh = fresh
fill_counts_once k ((j, n) ∷ rows) counts once fresh =
    let set = count_of-set_count k j n counts in
    elim (Bool-cases (text_eq j k)) [
      | inl here ↦
          rw here
            (fill_counts_absent k rows (set_count j n counts) (ground arith) ∙ (rw here at set))
      | inr away ↦
          rw away (
            fill_counts_once k rows (set_count j n counts) (ground arith)
              ((rw away at set) ∙ fresh))
    ]

-- The map that the loop fills from the rows of the query has for each owner the number of its servers.
pub count_of-fill_counts :
    (k : Text) (l : List Server)
    → count_of k (fill_counts (group_by_owner l) []) ≡ count_where (has_owner k) l
unfolding count_of
count_of-fill_counts k l =
    fill_counts_once k (group_by_owner l) [] (group_by_owner_once k l) refl
    ∙ count_of-group_by_owner k l
