-- ===== src/Store/Keeps.antt =====
-- Invariants of the methods of `Store`: a method keeps what its statement keeps.
use overworld_ops.System.Keeps.{Keeps, OfTables, keeps_rules, Keeps-ask, Erases}
use overworld_ops.System.{World, Result, ok, err}
use overworld_ops.Store.Sql.{
  Statement, exec, query, time_now, new_uuid, require_row, SqlError, settled, exec_with,
  insert_user, update_user, delete_user_row, insert_server, update_server_row, set_owner,
  delete_server_row, has_owner, has_user_id, has_id, has_username, has_port,
}
use overworld_ops.Base.{
  Bool, Option, Text, ℕ, ◌≡◌, true, some, false, if◌then◌else◌, refl, none, ◌++◌, update_where, ◌∷◌,
  [], Bool-cases, ltb, count_where, ◌&&◌, ◌==◌, inl, inr,
}
use overworld_ops.Models.{Server, User}
use overworld_ops.System.Leads.{Leads}

-- What holds of the tables once a statement has succeeded.
abbrev pub Settles : {A : Type 0} → (World → Type 0) → Result SqlError (A × World) → Type 0
Settles P (ok (_, t)) = P t
Settles P (err _) = Unit

-- A statement that succeeds leads from `P` to `P`.
pub record Preserves {A : Type 0} (P : World → Type 0) (statement : Statement A) : Type 0 where
  pub at : (s : World) → P s → Settles P (statement s)

pub Settles-if :
    {A : Type 0} (P : World → Type 0) (b : Bool) (x y : Result SqlError (A × World))
    → (b ≡ true → Settles P x)
    → (b ≡ false → Settles P y)
    → Settles P (if b then x else y)
Settles-if P true x y hx hy = hx refl
Settles-if P false x y hx hy = hy refl

module _ {P : World → Type 0} (t : OfTables P) where
  settled-Keeps :
      {A : Type 0} (r : Result SqlError (A × World)) (s : World)
      → P s
      → Settles P r
      → P (settled r s).1
  settled-Keeps (ok (a, u)) s h k = t.ticked_ok u k
  settled-Keeps (err x) s h k = t.ticked_ok s h

  exec_with-Keeps :
      {A : Type 0} (fault : Option Text) (r : Result SqlError (A × World)) (s : World)
      → P s
      → Settles P r
      → P (exec_with fault r s).1
  exec_with-Keeps (some message) r s h k = t.ticked_ok s h
  exec_with-Keeps none r s h k = settled-Keeps r s h k

  pub Keeps-exec : {A : Type 0} (f : Statement A) → Preserves P f → Keeps P (exec f)
  unfolding exec
  Keeps-exec f k = record {
    at = λ e s h. exec_with-Keeps (e.driver_fault s.ticks) (f s) s h (k.at s h);
  }

  -- A statement that spends what `Q` has to spare.
  pub Leads-exec :
      {A : Type 0} (Q : World → Type 0) (f : Statement A)
      → ((s : World) → Q s → P s)
      → ((s : World) → Q s → Settles P (f s))
      → Leads Q P (exec f)
  unfolding exec
  Leads-exec Q f weaken spent = record {
    at = λ e s h. exec_with-Keeps (e.driver_fault s.ticks) (f s) s (weaken s h) (spent s h);
  }

  query-Keeps : {A : Type 0} (f : World → A) → Preserves P (query f)
  unfolding query
  query-Keeps f = record { at = λ s h. h }

  pub Keeps-query : {A : Type 0} (f : World → A) → Keeps P (exec (query f))
  Keeps-query f = Keeps-exec (query f) (query-Keeps f)

  pub Keeps-time_now : {E : Type 0} → Keeps P (time_now {E = E})
  unfolding time_now
  Keeps-time_now = Keeps-ask (λ e n. e.clock n) t

  pub Keeps-new_uuid : {E : Type 0} → Keeps P (new_uuid {E = E})
  unfolding new_uuid
  Keeps-new_uuid = Keeps-ask (λ e n. e.uuid n) t

module _ {P : World → Type 0} where
  pub Keeps-require_row : (n : ℕ) → Keeps P (require_row n)
  unfolding require_row
  Keeps-require_row n = search keeps_rules

-- An invariant of the tables, statement by statement: those that neither change a role, nor delete
-- an account, nor insert a server.
pub record TableInvariant (P : World → Type 0) : Type 0 where
  pub of_tables : OfTables P
  pub insert_user_ok : (u : User) → Preserves P (insert_user u)
  pub update_user_ok :
      (id : Text) (f : User → User)
      → ((u : User) → (f u).id ≡ u.id)
      → ((u : User) → (f u).username ≡ u.username)
      → ((u : User) → (f u).is_admin ≡ u.is_admin)
      → Preserves P (update_user id f)
  pub update_server_ok :
      (id : Text) (f : Server → Server)
      → ((v : Server) → (f v).id ≡ v.id)
      → ((v : Server) → (f v).port ≡ v.port)
      → ((v : Server) → (f v).owner_id ≡ v.owner_id)
      → Preserves P (update_server_row id f)
  pub set_owner_ok : (from to : Text) (now : ℕ) → Preserves P (set_owner from to now)
  pub delete_server_ok : (id : Text) → Preserves P (delete_server_row id)

-- An invariant that the updates of the rows of one server keep.
pub record RowInvariant (P : World → Type 0) (id : Text) : Type 0 where
  pub update_ok :
      (f : Server → Server)
      → ((v : Server) → (f v).id ≡ v.id)
      → ((v : Server) → (f v).port ≡ v.port)
      → ((v : Server) → (f v).owner_id ≡ v.owner_id)
      → Preserves P (update_server_row id f)

pub row_of : {P : World → Type 0} → TableInvariant P → (id : Text) → RowInvariant P id
row_of inv id = record { update_ok = inv.update_server_ok id }

-- The statements on accounts that can take the last administrator away.
pub record RoleInvariant (P : World → Type 0) : Type 0 where
  pub set_role_ok :
      (id : Text) (b : Bool)
      → Preserves P (update_user id (λ (u : User). record u { is_admin = b }))
  pub delete_user_ok : (id : Text) → Preserves P (delete_user_row id)

-- An invariant that every statement and every request keeps; an insertion into `servers` keeps it
-- for a record that is `Fresh`.
pub record FullInvariant (P : World → Type 0) (Fresh : Server → Type 0) : Type 0 where
  pub tables : TableInvariant P
  pub roles : RoleInvariant P
  pub insert_server_ok : (v : Server) → Fresh v → Preserves P (insert_server v)
  pub erase_ok : (name : Text) → Erases P name

pub Settles-insert_server :
    (P : World → Type 0) (v : Server) (s : World)
    → P (record s { servers = s.servers ++ v ∷ [] })
    → Settles P (insert_server v s)
unfolding insert_server
Settles-insert_server P v s h = elim (Bool-cases (ltb 0 (count_where (has_id v.id) s.servers))) [
  | inl e ↦ rw e tt
  | inr e ↦ elim (Bool-cases (ltb 0 (count_where (has_port v.port) s.servers))) [
    | inl k ↦ rw (e, k) tt
    | inr k ↦ elim (Bool-cases (count_where (has_user_id v.owner_id) s.users == 0)) [
      | inl o ↦ rw (e, k, o) tt
      | inr o ↦ rw (e, k, o) h
    ]
  ]
]

-- What a statement does when its constraints are met is enough to look at.
module _ {P : World → Type 0} where
  pub Preserves-insert_user :
      (u : User)
      → ((s : World) → P s → P (record s { users = s.users ++ u ∷ [] }))
      → Preserves P (insert_user u)
  unfolding insert_user
  Preserves-insert_user u kept = record {
    at = λ s h. elim (Bool-cases (ltb 0 (count_where (has_user_id u.id) s.users))) [
      | inl e ↦ rw e tt
      | inr e ↦ elim (Bool-cases (ltb 0 (count_where (has_username u.username) s.users))) [
        | inl k ↦ rw (e, k) tt
        | inr k ↦ rw (e, k) (kept s h)
      ]
    ];
  }

  pub Preserves-insert_server :
      (v : Server)
      → ((s : World) → P s → P (record s { servers = s.servers ++ v ∷ [] }))
      → Preserves P (insert_server v)
  Preserves-insert_server v kept = record { at = λ s h. Settles-insert_server P v s (kept s h) }

  pub Preserves-set_owner :
      (from to : Text) (now : ℕ)
      → ((s : World)
          → P s
          → P (record s {
            servers =
                update_where
                  (has_owner from)
                  (λ v. record v { owner_id = to; updated_at = now })
                  s.servers;
          }))
      → Preserves P (set_owner from to now)
  unfolding set_owner
  Preserves-set_owner from to now kept = record {
    at = λ s h.
        elim (Bool-cases (
          ltb 0 (count_where (has_owner from) s.servers)
          && (count_where (has_user_id to) s.users == 0))) [
            | inl e ↦ rw e tt
            | inr e ↦ rw e (kept s h)
          ];
  }
