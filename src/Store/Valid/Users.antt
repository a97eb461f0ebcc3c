-- ===== src/Store/Valid/Users.antt =====
-- The statements on accounts keep the registry well formed.
use overworld_ops.Base.{
  ◌<◌, ◌≡◌, inl, inr, true, false, List, [], ◌∷◌, ◌++◌, arith, Text, text_eq, eq_of_text_eq,
  Bool-cases, ltb, delete_where, count_where, count-append_one, count-update, count-delete-le,
  count-delete_self, count-delete_disjoint,
}
use overworld_ops.Models.{User, Server}
use overworld_ops.System.{World}
use overworld_ops.Store.Sql.{
  has_user_id, has_username, has_id, has_port, has_owner, insert_user, update_user, delete_user_row,
}
use overworld_ops.Store.Keeps.{Preserves, Settles-if}
use overworld_ops.Store.Valid.{IsValid, unique_append, not-pos}

append_user-IsValid :
    (u : User) (s : World)
    → IsValid s
    → ltb 0 (count_where (has_user_id u.id) s.users) ≡ false
    → ltb 0 (count_where (has_username u.username) s.users) ≡ false
    → IsValid (record s { users = s.users ++ u ∷ [] })
append_user-IsValid u s h new_id new_name = record {
  user_ids = unique_append (λ x. x.id) u s.users (not-pos _ new_id) h.user_ids;
  usernames = unique_append (λ x. x.username) u s.users (not-pos _ new_name) h.usernames;
  server_ids = h.server_ids;
  ports = h.ports;
  owners = λ k owned. omega (arith, h.owners k, count-append_one (has_user_id k) s.users u);
}

pub insert_user-IsValid : (u : User) → Preserves IsValid (insert_user u)
unfolding insert_user
insert_user-IsValid u = record {
  at = λ s h.
      Settles-if {A = Unit} IsValid _ _ _ (λ _. tt)
        (λ new_id.
          Settles-if {A = Unit} IsValid _ _ _ (λ _. tt)
            (λ new_name. append_user-IsValid u s h new_id new_name));
}

-- An update that sets no key.
pub update_user-IsValid :
    (id : Text) (f : User → User)
    → ((u : User) → (f u).id ≡ u.id)
    → ((u : User) → (f u).username ≡ u.username)
    → Preserves IsValid (update_user id f)
unfolding update_user
update_user-IsValid id f same_id same_name = record {
  at = λ s h. record {
    user_ids = λ k. omega (
      arith,
      h.user_ids k,
      count-update (has_user_id k) (has_user_id id) f s.users (λ u. rw same_id),
    );
    usernames = λ k. omega (
      arith,
      h.usernames k,
      count-update (has_username k) (has_user_id id) f s.users (λ u. rw same_name),
    );
    server_ids = h.server_ids;
    ports = h.ports;
    owners = λ k owned. omega (
      arith,
      h.owners k owned,
      count-update (has_user_id k) (has_user_id id) f s.users (λ u. rw same_id),
    );
  };
}

-- A text that is `k` is not another one.
only_one_key : (t k id : Text) → text_eq t k ≡ true → text_eq id k ≡ false → text_eq t id ≡ false
only_one_key t k id e other = elim (Bool-cases (text_eq t id)) [
  | inl same ↦ let q : text_eq id k ≡ true = rw (eq_of_text_eq t id same) at e in cc
  | inr differ ↦ differ
]

deleted_owns_nothing :
    (id k : Text) (l : List Server)
    → text_eq id k ≡ true
    → ¬ (0 < count_where (has_owner k) (delete_where (has_owner id) l))
deleted_owns_nothing id k l same owned =
    let e : count_where (has_owner k) (delete_where (has_owner id) l) ≡ 0 =
      rw (eq_of_text_eq id k same) (count-delete_self (has_owner k) l) in
    omega arith

-- Every server that a deleted account owned goes with it.
pub delete_user_row-IsValid : (id : Text) → Preserves IsValid (delete_user_row id)
unfolding delete_user_row
delete_user_row-IsValid id = record {
  at = λ s h. record {
    user_ids =
        λ k. omega (arith, h.user_ids k, count-delete-le (has_user_id k) (has_user_id id) s.users);
    usernames = λ k.
        omega (arith, h.usernames k, count-delete-le (has_username k) (has_user_id id) s.users);
    server_ids =
        λ k. omega (arith, h.server_ids k, count-delete-le (has_id k) (has_owner id) s.servers);
    ports = λ p. omega (arith, h.ports p, count-delete-le (has_port p) (has_owner id) s.servers);
    owners = λ k owned. elim (Bool-cases (text_eq id k)) [
      | inl same ↦ absurd (deleted_owns_nothing id k s.servers same owned)
      | inr other ↦ omega (
        arith,
        h.owners k,
        count-delete-le (has_owner k) (has_owner id) s.servers,
        owned,
        count-delete_disjoint (has_user_id k) (has_user_id id) s.users
            (λ u e. only_one_key u.id k id e other),
      )
    ];
  };
}
