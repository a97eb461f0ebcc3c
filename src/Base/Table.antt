-- ===== src/Base/Table.antt =====
-- A table is the list of its rows, and a `WHERE` clause is a test of a row.
use Prim.Native.Nat.{ℕ, ◌+◌, ◌≤◌, ◌<◌}
use mathlib.Core.Path.{◌≡◌, refl, ap}
use mathlib.Core.Logic.{inl, inr}
use mathlib.Core.Bool.{Bool, true, false}
use mathlib.Core.Option.{Option, none, some}
use mathlib.Core.List.{List, [], ◌∷◌, ◌++◌}
use native.Mathlib.Omega.{arith}
use overworld_ops.Base.Tests.{if◌then◌else◌, one_if, Bool-cases}

module _ {ℓ} {A : Type ℓ} where
  -- `SELECT COUNT(*) … WHERE p`, and the rows that a write with that clause affects
  unfoldable pub count_where : (A → Bool) → List A → ℕ
  count_where p [] = 0
  count_where p (x ∷ xs) = one_if (p x) + count_where p xs

  -- `SELECT … WHERE p`, read by `QueryRow`: the first row, if there is one
  unfoldable pub first_where : (A → Bool) → List A → Option A
  first_where p [] = none
  first_where p (x ∷ xs) = if p x then some x else first_where p xs

  -- `SELECT … WHERE p`
  unfoldable pub select_where : (A → Bool) → List A → List A
  select_where p [] = []
  select_where p (x ∷ xs) = let rest = select_where p xs in if p x then x ∷ rest else rest

  -- `UPDATE … SET f WHERE p`
  unfoldable pub update_where : (A → Bool) → (A → A) → List A → List A
  update_where p f [] = []
  update_where p f (x ∷ xs) = (if p x then f x else x) ∷ update_where p f xs

  -- `DELETE … WHERE p`
  unfoldable pub delete_where : (A → Bool) → List A → List A
  delete_where p [] = []
  delete_where p (x ∷ xs) = let rest = delete_where p xs in if p x then rest else x ∷ rest

module _ {ℓ} {A : Type ℓ} where
  pub count-append :
      (p : A → Bool) (xs ys : List A)
      → count_where p (xs ++ ys) ≡ count_where p xs + count_where p ys
  unfolding count_where
  count-append p [] ys = omega arith
  count-append p (x ∷ xs) ys = omega (arith, count-append p xs ys)

  pub count-append_one :
      (p : A → Bool) (xs : List A) (y : A)
      → count_where p (xs ++ y ∷ []) ≡ count_where p xs + one_if (p y)
  unfolding count_where
  count-append_one p [] y = omega arith
  count-append_one p (x ∷ xs) y = omega (arith, count-append_one p xs y)

  -- A write that leaves alone what `p` reads changes no count.
  pub count-update :
      (p q : A → Bool) (f : A → A) (xs : List A)
      → ((x : A) → p (f x) ≡ p x)
      → count_where p (update_where q f xs) ≡ count_where p xs
  unfolding count_where update_where
  count-update p q f [] h = refl
  count-update p q f (x ∷ xs) h = elim (Bool-cases (q x)) [
    | inl e ↦ rw (e, h x, count-update p q f xs h)
    | inr e ↦ rw (e, count-update p q f xs h)
  ]

  -- Nor does one that only adds to what `p` holds of lower it.
  pub count-le-update :
      (p q : A → Bool) (f : A → A) (xs : List A)
      → ((x : A) → q x ≡ true → p x ≡ true → p (f x) ≡ true)
      → count_where p xs ≤ count_where p (update_where q f xs)
  unfolding count_where update_where
  count-le-update p q f [] h = omega arith
  count-le-update p q f (x ∷ xs) h = ground (arith, h x, count-le-update p q f xs h)

  -- A test that is weaker counts no less.
  pub count_mono :
      (p q : A → Bool) (xs : List A)
      → ((x : A) → p x ≡ true → q x ≡ true)
      → count_where p xs ≤ count_where q xs
  unfolding count_where
  count_mono p q [] h = omega arith
  count_mono p q (x ∷ xs) h = ground (arith, h x, count_mono p q xs h)

  pub count-delete-le :
      (p q : A → Bool) (xs : List A) → count_where p (delete_where q xs) ≤ count_where p xs
  unfolding count_where delete_where
  count-delete-le p q [] = omega arith
  count-delete-le p q (x ∷ xs) = ground (arith, count-delete-le p q xs)

  pub count-delete_self : (p : A → Bool) (xs : List A) → count_where p (delete_where p xs) ≡ 0
  unfolding count_where delete_where
  count-delete_self p [] = refl
  count-delete_self p (x ∷ xs) = ground (arith, count-delete_self p xs)

  -- Rows that the deletion does not touch are still counted.
  pub count-delete_disjoint :
      (p q : A → Bool) (xs : List A)
      → ((x : A) → p x ≡ true → q x ≡ false)
      → count_where p (delete_where q xs) ≡ count_where p xs
  unfolding count_where delete_where
  count-delete_disjoint p q [] h = refl
  count-delete_disjoint p q (x ∷ xs) h = ground (arith, h x, count-delete_disjoint p q xs h)

  count-pos_at :
      (p q : A → Bool) (x : A) (xs : List A)
      → first_where p xs ≡ some x
      → q x ≡ true
      → 0 < count_where q xs
  unfolding count_where first_where
  count-pos_at p q x [] h meets = absurd cc
  count-pos_at p q x (y ∷ ys) h meets = ground (arith, count-pos_at p q x ys)

  pub count-pos_of_first :
      (p : A → Bool) (x : A) (xs : List A)
      → first_where p xs ≡ some x
      → (0 < count_where p xs) × (p x ≡ true)
  unfolding count_where first_where
  count-pos_of_first p x [] h = cc
  count-pos_of_first p x (y ∷ ys) h = ground (arith, count-pos_of_first p x ys)

  -- Where one element at most meets a test, an element that another test finds is the one.
  pub first_where_unique :
      (p q : A → Bool) (x : A) (xs : List A)
      → first_where p xs ≡ some x
      → q x ≡ true
      → count_where q xs ≤ 1
      → first_where q xs ≡ some x
  unfolding count_where first_where
  first_where_unique p q x [] h meets once = absurd cc
  first_where_unique p q x (y ∷ ys) h meets once = elim (Bool-cases (p y)) [
    | inl here ↦
        let found : some y ≡ some x = rw here at h in
        let same : y ≡ x = cc in rw same (rw meets refl)
    | inr there ↦
        let found : first_where p ys ≡ some x = rw there at h in
        ground (arith, count-pos_at p q x ys found meets, first_where_unique p q x ys found meets)
  ]

  -- No row meets a test that the update of its rows makes false.
  pub count_after_update :
      (p : A → Bool) (f : A → A) (xs : List A)
      → ((x : A) → p (f x) ≡ false)
      → count_where p (update_where p f xs) ≡ 0
  unfolding count_where update_where
  count_after_update p f [] h = refl
  count_after_update p f (x ∷ xs) h = ground (arith, h x, count_after_update p f xs h)

  -- A deletion that meets no row.
  pub delete_where_none :
      (p : A → Bool) (xs : List A) → count_where p xs ≡ 0 → delete_where p xs ≡ xs
  unfolding count_where delete_where
  delete_where_none p [] h = refl
  delete_where_none p (x ∷ xs) h = elim (Bool-cases (p x)) [
    | inl e ↦ let more : one_if (p x) ≡ 0 = omega arith in absurd (ground (arith, e, more))
    | inr e ↦ rw e (ap (λ l. x ∷ l) (delete_where_none p xs (omega arith)))
  ]

  -- What is found stays the first of its kind where other rows are written or deleted, or where a
  -- row is added at the end.
  pub first_where_update :
      (p q : A → Bool) (f : A → A) (xs : List A)
      → ((x : A) → q x ≡ true → p x ≡ false)
      → ((x : A) → p (f x) ≡ p x)
      → first_where p (update_where q f xs) ≡ first_where p xs
  unfolding first_where update_where
  first_where_update p q f [] apart same = refl
  first_where_update p q f (x ∷ xs) apart same = elim (Bool-cases (q x)) [
    | inl here ↦ rw (here, same x, apart x here, first_where_update p q f xs apart same) refl
    | inr away ↦ rw (away, first_where_update p q f xs apart same) refl
  ]

  pub first_where_delete :
      (p q : A → Bool) (xs : List A)
      → ((x : A) → q x ≡ true → p x ≡ false)
      → first_where p (delete_where q xs) ≡ first_where p xs
  unfolding first_where delete_where
  first_where_delete p q [] apart = refl
  first_where_delete p q (x ∷ xs) apart = elim (Bool-cases (q x)) [
    | inl here ↦ rw (here, apart x here, first_where_delete p q xs apart) refl
    | inr away ↦ rw (away, first_where_delete p q xs apart) refl
  ]

  pub first_where_append :
      (p : A → Bool) (xs : List A) (y x : A)
      → first_where p xs ≡ some x
      → first_where p (xs ++ y ∷ []) ≡ some x
  unfolding first_where
  first_where_append p [] y x h = absurd cc
  first_where_append p (z ∷ zs) y x h = elim (Bool-cases (p z)) [
    | inl here ↦ rw here (rw here at h)
    | inr away ↦ rw away (first_where_append p zs y x (rw away at h))
  ]
