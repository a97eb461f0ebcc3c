-- ===== src/Store/Valid.antt =====
-- The well-formedness of the registry; the children prove that no statement breaks it.
pub mod Users
pub mod Servers
pub mod Invariant
use overworld_ops.Base.{
  ℕ, ◌≤◌, ◌<◌, ◌==◌, ==_iff, ◌≡◌, refl, inl, inr, true, false, List, [], ◌∷◌, ◌++◌, arith, Text,
  text_eq, eq_of_text_eq, Bool-cases, ltb, ap, delete_where, count_where, count-append_one,
  count-update, count-delete-le, count-delete_self, count-delete_disjoint, update_where, ◌&&◌, ◌+◌,
  one_if,
}
use overworld_ops.Models.{User, Server}
use overworld_ops.System.{World, sent}
use overworld_ops.System.Keeps.{OfTables}
use overworld_ops.Store.Sql.{
  has_user_id, has_username, has_id, has_port, has_owner, insert_user, update_user, insert_server,
  update_server_row, delete_server_row, delete_user_row, set_owner,
}
use overworld_ops.Store.Keeps.{Preserves, Settles-if, TableInvariant, FullInvariant}

pub record IsValid (s : World) : Type 0 where
  pub user_ids : (k : Text) → count_where (has_user_id k) s.users ≤ 1
  pub usernames : (k : Text) → count_where (has_username k) s.users ≤ 1
  pub server_ids : (k : Text) → count_where (has_id k) s.servers ≤ 1
  pub ports : (p : ℕ) → count_where (has_port p) s.servers ≤ 1
  -- the foreign key
  pub owners :
      (k : Text) → 0 < count_where (has_owner k) s.servers → 0 < count_where (has_user_id k) s.users

pub IsValid-OfTables : OfTables IsValid
unfolding sent
IsValid-OfTables = record {
  ticked_ok = λ s h. record {
    user_ids = h.user_ids;
    usernames = h.usernames;
    server_ids = h.server_ids;
    ports = h.ports;
    owners = h.owners;
  };
  sent_ok = λ c s _ h. record {
    user_ids = h.user_ids;
    usernames = h.usernames;
    server_ids = h.server_ids;
    ports = h.ports;
    owners = h.owners;
  };
}

pub unique_append :
    {A : Type 0} (f : A → Text) (y : A) (xs : List A)
    → count_where (λ x. text_eq (f x) (f y)) xs ≡ 0
    → ((k : Text) → count_where (λ x. text_eq (f x) k) xs ≤ 1)
    → (k : Text) → count_where (λ x. text_eq (f x) k) (xs ++ y ∷ []) ≤ 1
unique_append f y xs none_yet unique k = elim (Bool-cases (text_eq (f y) k)) [
  | inl same ↦
      let e : count_where (λ x. text_eq (f x) k) xs ≡ 0 =
        rw (← eq_of_text_eq (f y) k same) none_yet in
      rw (count-append_one, same) (omega arith)
  | inr other ↦ rw (count-append_one, other) (omega (arith, unique k))
]

pub unique_append_port :
    (v : Server) (l : List Server)
    → count_where (has_port v.port) l ≡ 0
    → ((p : ℕ) → count_where (has_port p) l ≤ 1)
    → (p : ℕ) → count_where (has_port p) (l ++ v ∷ []) ≤ 1
unique_append_port v l none_yet unique p = elim (Bool-cases (v.port == p)) [
  | inl same ↦
      let e : count_where (has_port p) l ≡ 0 = rw (← (==_iff v.port p).0 same) none_yet in
      rw (count-append_one, same) (omega arith)
  | inr other ↦ rw (count-append_one, other) (omega (arith, unique p))
]

pub not-pos : (n : ℕ) → ltb 0 n ≡ false → n ≡ 0
not-pos n h = ground arith

pub not-zero : (n : ℕ) → (n == 0) ≡ false → 0 < n
not-zero n h = ground arith
