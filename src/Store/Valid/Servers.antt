-- ===== src/Store/Valid/Servers.antt =====
-- The statements on servers keep the registry well formed.
use overworld_ops.Base.{
  ℕ, ◌≤◌, ◌==◌, ◌≡◌, refl, inl, inr, false, List, [], ◌∷◌, ◌++◌, arith, Text, text_eq,
  eq_of_text_eq, Bool-cases, ltb, ap, count_where, count-append_one, count-update, count-delete-le,
  update_where, ◌&&◌, ◌+◌, one_if,
}
use overworld_ops.Models.{Server}
use overworld_ops.System.{World}
use overworld_ops.Store.Sql.{
  has_user_id, has_id, has_port, has_owner, insert_server, update_server_row, delete_server_row,
  set_owner,
}
use overworld_ops.Store.Keeps.{Preserves, Settles-if}
use overworld_ops.Store.Valid.{IsValid, unique_append, not-pos, unique_append_port, not-zero}

pub delete_server_row-IsValid : (id : Text) → Preserves IsValid (delete_server_row id)
unfolding delete_server_row
delete_server_row-IsValid id = record {
  at = λ s h. record {
    user_ids = h.user_ids;
    usernames = h.usernames;
    server_ids =
        λ k. omega (arith, h.server_ids k, count-delete-le (has_id k) (has_id id) s.servers);
    ports = λ p. omega (arith, h.ports p, count-delete-le (has_port p) (has_id id) s.servers);
    owners =
        λ k owned. h.owners k (omega (arith, count-delete-le (has_owner k) (has_id id) s.servers));
  };
}

pub update_server_row-IsValid :
    (id : Text) (f : Server → Server)
    → ((v : Server) → (f v).id ≡ v.id)
    → ((v : Server) → (f v).port ≡ v.port)
    → ((v : Server) → (f v).owner_id ≡ v.owner_id)
    → Preserves IsValid (update_server_row id f)
unfolding update_server_row
update_server_row-IsValid id f same_id same_port same_owner = record {
  at = λ s h. record {
    user_ids = h.user_ids;
    usernames = h.usernames;
    server_ids = λ k.
        omega (
          arith,
          h.server_ids k,
          count-update (has_id k) (has_id id) f s.servers (λ v. rw same_id),
        );
    ports = λ p.
        omega
          (arith, h.ports p, count-update (has_port p) (has_id id) f s.servers (λ v. rw same_port));
    owners = λ k owned.
        h.owners k
          (omega (arith, count-update (has_owner k) (has_id id) f s.servers (λ v. rw same_owner)));
  };
}

append_server-IsValid :
    (v : Server) (s : World)
    → IsValid s
    → ltb 0 (count_where (has_id v.id) s.servers) ≡ false
    → ltb 0 (count_where (has_port v.port) s.servers) ≡ false
    → (count_where (has_user_id v.owner_id) s.users == 0) ≡ false
    → IsValid (record s { servers = s.servers ++ v ∷ [] })
append_server-IsValid v s h new_id new_port owner = record {
  user_ids = h.user_ids;
  usernames = h.usernames;
  server_ids = unique_append (λ x. x.id) v s.servers (not-pos _ new_id) h.server_ids;
  ports = unique_append_port v s.servers (not-pos _ new_port) h.ports;
  owners = λ k owned. elim (Bool-cases (text_eq v.owner_id k)) [
    | inl same ↦ rw (eq_of_text_eq v.owner_id k same) at (not-zero _ owner)
    | inr other ↦
        h.owners k (omega (arith, count-append_one (has_owner k) s.servers v, ap one_if other))
  ];
}

pub insert_server-IsValid : (v : Server) → Preserves IsValid (insert_server v)
unfolding insert_server
insert_server-IsValid v = record {
  at = λ s h.
      Settles-if {A = Unit} IsValid _ _ _ (λ _. tt)
        (λ new_id.
          Settles-if {A = Unit} IsValid _ _ _ (λ _. tt)
            (λ new_port.
              Settles-if {A = Unit} IsValid _ _ _ (λ _. tt)
                (λ owner. append_server-IsValid v s h new_id new_port owner)));
}

abbrev handed_to : Text → ℕ → Server → Server
handed_to to now v = record v { owner_id = to; updated_at = now }

module _ (from to : Text) (now : ℕ) where
  -- A new owner gets at most what the old one had.
  count-handed-le :
      (k : Text) (l : List Server)
      → count_where (has_owner k) (update_where (has_owner from) (handed_to to now) l)
        ≤ count_where (has_owner k) l + count_where (has_owner from) l
  unfolding count_where update_where
  count-handed-le k [] = omega arith
  count-handed-le k (v ∷ l) = elim (Bool-cases (text_eq v.owner_id from)) [
    | inl same ↦ rw same (ground (arith, count-handed-le k l))
    | inr other ↦ rw other (omega (arith, count-handed-le k l))
  ]

  -- Nobody else gets any.
  count-handed_other :
      (k : Text) (l : List Server)
      → text_eq to k ≡ false
      → count_where (has_owner k) (update_where (has_owner from) (handed_to to now) l)
        ≤ count_where (has_owner k) l
  unfolding count_where update_where
  count-handed_other k [] h = omega arith
  count-handed_other k (v ∷ l) h = elim (Bool-cases (text_eq v.owner_id from)) [
    | inl same ↦ rw (same, h) (omega (arith, count-handed_other k l h))
    | inr other ↦ rw other (omega (arith, count-handed_other k l h))
  ]

  hand_over-IsValid :
      (s : World)
      → IsValid s
      → (ltb 0 (count_where (has_owner from) s.servers)
          && (count_where (has_user_id to) s.users == 0))
        ≡ false
      → IsValid (record s { servers = update_where (has_owner from) (handed_to to now) s.servers })
  hand_over-IsValid s h owner = record {
    user_ids = h.user_ids;
    usernames = h.usernames;
    server_ids = λ k. omega (
      arith,
      h.server_ids k,
      count-update (has_id k) (has_owner from) (handed_to to now) s.servers (λ v. refl),
    );
    ports = λ p. omega (
      arith,
      h.ports p,
      count-update (has_port p) (has_owner from) (handed_to to now) s.servers (λ v. refl),
    );
    owners = λ k owned. elim (Bool-cases (text_eq to k)) [
      | inl same ↦
          let e : to ≡ k = eq_of_text_eq to k same in
          let owner' : (ltb 0 (count_where (has_owner from) s.servers)
                && (count_where (has_user_id k) s.users == 0))
              ≡ false =
            rw e at owner in
          ground (arith, h.owners k, count-handed-le k s.servers, owned)
      | inr other ↦ h.owners k (omega (arith, count-handed_other k s.servers other))
    ];
  }

pub set_owner-IsValid : (from to : Text) (now : ℕ) → Preserves IsValid (set_owner from to now)
unfolding set_owner
set_owner-IsValid from to now = record {
  at = λ s h.
      Settles-if {A = ℕ} IsValid _ _ _ (λ _. tt) (λ owner. hand_over-IsValid from to now s h owner);
}
