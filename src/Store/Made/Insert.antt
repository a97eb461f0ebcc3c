-- ===== src/Store/Made/Insert.antt =====
-- An insertion adds a record at the end of the table, or leaves the table as it is.
use overworld_ops.Base.{
  List, Text, ℕ, ◌≡◌, refl, count_where, Bool-cases, inl, inr, arith, ltb, ◌==◌, none, Option, some,
}
use overworld_ops.Models.{Server}
use overworld_ops.System.{World, Env, sent}
use overworld_ops.System.Keeps.{OfTables}
use overworld_ops.System.Ends.{Ends, Ends-bind, Ends-ask, Ends-pure, Outcome, Ends-map_err, Ends-if}
use overworld_ops.Store.Sql.{
  has_id, has_port, has_user_id, insert_server, exec, exec_with, time_now, new_uuid,
}
use overworld_ops.Store.Servers.{assigned_id, create_server}
use overworld_ops.Store.Made.{IsSpecOf, IsSpecOf-refl, Made}

agrees :
    (x : Server) (id : Text) (now : ℕ)
    → IsSpecOf (record x { id = id }) (record x { id = id; created_at = now; updated_at = now })
agrees x id now = record {
  id = refl;
  name = refl;
  owner_id = refl;
  server_type = refl;
  version = refl;
  modpack_provider = refl;
  modpack_id = refl;
  port = refl;
  memory = refl;
  cpu_limit = refl;
}

-- Where an insertion succeeds, it has added the record at the end, and its ID is a new one.
module _ (l : List Server) where
  inserted :
      (v : Server) (s : World)
      → s.servers ≡ l
      → Outcome
          (λ _ t. (count_where (has_id v.id) l ≡ 0) × Made l v t)
          (λ _ t. t.servers ≡ l)
          (exec_with none (insert_server v s) s).0
          (exec_with none (insert_server v s) s).1
  unfolding insert_server
  inserted v s h = elim (Bool-cases (ltb 0 (count_where (has_id v.id) s.servers))) [
    | inl e ↦ rw e h
    | inr e ↦ elim (Bool-cases (ltb 0 (count_where (has_port v.port) s.servers))) [
      | inl k ↦ rw (e, k) h
      | inr k ↦ elim (Bool-cases (count_where (has_user_id v.owner_id) s.users == 0)) [
        | inl o ↦ rw (e, k, o) h
        | inr o ↦
            let fresh : count_where (has_id v.id) s.servers ≡ 0 = ground arith in
            rw (e, k, o) (rw h at fresh, (v, rw h refl, IsSpecOf-refl v))
      ]
    ]
  ]

  -- The table is still `l`.
  abbrev pub Same : World → Type 0
  Same t = t.servers ≡ l

  pub Same-OfTables : OfTables Same
  unfolding sent
  Same-OfTables = record { ticked_ok = λ s h. h; sent_ok = λ c s _ h. h }

  -- The record `v` was added for `x`, with an ID that was not there.
  abbrev pub Added : Server → Server → World → Type 0
  Added x v t = (count_where (has_id v.id) l ≡ 0) × Made l v t × IsSpecOf (record x { id = v.id }) v

  inserted_with :
      (v : Server) (fault : Option Text) (s : World)
      → s.servers ≡ l
      → Outcome
          (λ _ t. (count_where (has_id v.id) l ≡ 0) × Made l v t)
          (λ _ t. t.servers ≡ l)
          (exec_with fault (insert_server v s) s).0
          (exec_with fault (insert_server v s) s).1
  inserted_with v none s h = inserted v s h
  inserted_with v (some message) s h = h

  insert_server-Ends :
      (e : Env) (v : Server)
      → Ends e Same
          (λ _ t. (count_where (has_id v.id) l ≡ 0) × Made l v t)
          (λ _. Same)
          (exec (insert_server v))
  unfolding exec
  insert_server-Ends e v = record { at = λ s h. inserted_with v (e.driver_fault s.ticks) s h }

  assigned_id-Ends : (e : Env) (id : Text) → Ends e Same (λ _. Same) (λ _. Same) (assigned_id id)
  unfolding assigned_id new_uuid
  assigned_id-Ends e id = Ends-if _ _ _ (Ends-ask _ Same-OfTables) (Ends-pure id (λ s h. h))

  pub create_server-Ends :
      (e : Env) (x : Server) → Ends e Same (Added x) (λ _. Same) (create_server x)
  unfolding create_server time_now
  create_server-Ends e x =
      Ends-bind (λ _. Same) _ _ (Ends-ask _ Same-OfTables)
        (λ now.
          Ends-bind (λ _. Same) _ _ (assigned_id-Ends e x.id)
            (λ id.
              let v : Server = record x { id = id; created_at = now; updated_at = now } in
              Ends-bind (λ _ t. (count_where (has_id id) l ≡ 0) × Made l v t) _ _
                (Ends-map_err _ _ (insert_server-Ends e v))
                (λ _. Ends-pure v (λ t (fresh, made). (fresh, made, agrees x id now)))))
