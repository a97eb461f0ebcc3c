-- ===== src/Api/Admin/Deletion.antt =====
-- The servers of an account that `handleDeleteUser` deletes.
use overworld_ops.Base.{
  refl, Bool, ℕ, ◌≡◌, Text, count_where, count-update, ap, ◌∙◌, delete_where_none, Option, some,
  none, text_eq, false, Bool-cases, ltb, ◌&&◌, inl, ◌==◌, sym, inr, count_after_update, arith,
  text_eq_iff, [],
}
use overworld_ops.Models.{User}
use overworld_ops.System.{World, sent, Env, act_when, ok, map_err, err, pure}
use overworld_ops.System.Keeps.{
  OfTables, Keeps, keeps_rules, Keeps-map_err, Keeps-stop_if, Keeps-guarded, Keeps-bind, Keeps-pure,
}
use overworld_ops.System.Leads.{
  Leads, Leads-map_err, Leads-then, Keeps-Leads, Leads-bind-Post, Leads-Keeps,
}
use overworld_ops.Store.Keeps.{
  Keeps-query, Keeps-exec, Preserves-set_owner, Keeps-time_now, Leads-exec, Keeps-require_row,
  Preserves,
}
use overworld_ops.Store.Sql.{
  has_id, has_owner, delete_user_row, failed, set_owner, exec, exec_with, has_user_id,
}
use overworld_ops.Store.Users.{
  reassign_servers, delete_user, count_admins, user_by_id, scan_user, server_counts_by_owner,
  Counts, count_of, group_by_owner, fill_counts,
}
use overworld_ops.Api.Admin.{
  ensure_another_admin, release_servers, lookup_user, Option, some, server_counts_by_owner,
  act_when, text_eq, Response, Counts, false, count_of, map_err, ltb, delete_target,
  handle_delete_user, pure,
}
use overworld_ops.Api.Http.{Request, Response}
use overworld_ops.System.Post.{Post, Post-bind, Post-map_err, Post-Keeps, Post-pure}
use overworld_ops.Store.Reads.{query-ok}
use overworld_ops.Store.Counts.{count_of-fill_counts}
use overworld_ops.System.Binds.{bind-ok, ok-injective}

SameServers-OfTables : (s0 : World) → OfTables (λ t. t.servers ≡ s0.servers)
unfolding sent
SameServers-OfTables s0 = record { ticked_ok = λ s h. h; sent_ok = λ c s _ h. h }

nothing : (m : ℕ) → ltb 0 m ≡ false → m ≡ 0
nothing m h = ground arith

-- A transfer to another owner that has succeeded leaves the first one nothing.
moved_away :
    (from to : Text) (now : ℕ) (fault : Option Text) (s : World) (m : ℕ)
    → text_eq from to ≡ false
    → (exec_with fault (set_owner from to now s) s).0 ≡ ok m
    → count_where (has_owner from) (exec_with fault (set_owner from to now s) s).1.servers ≡ 0
unfolding set_owner
moved_away from to now (some x) s m differ returned = absurd cc
moved_away from to now none s m differ returned =
    elim (Bool-cases (
      ltb 0 (count_where (has_owner from) s.servers)
      && (count_where (has_user_id to) s.users == 0))) [
        | inl refused ↦ let q : err _ ≡ ok m = rw refused at returned in absurd cc
        | inr fine ↦ rw fine (
            count_after_update (has_owner from) (λ v. record v { owner_id = to; updated_at = now })
              s.servers (λ v. ground (arith, text_eq_iff from to, text_eq_iff to from, differ)))
      ]

module _ (k : Text) (n : ℕ) where
  abbrev Has : World → Type 0
  Has s = count_where (has_id k) s.servers ≡ n

  Has-OfTables : OfTables Has
  unfolding sent
  Has-OfTables = record { ticked_ok = λ s h. h; sent_ok = λ c s _ h. h }

  scan_user-Has : (row : Option User) → Keeps Has (scan_user row)
  unfolding scan_user
  scan_user-Has none = search keeps_rules
  scan_user-Has (some u) = search keeps_rules

  lookup_user-Has : (req : Request) → Keeps Has (lookup_user req)
  unfolding lookup_user user_by_id
  lookup_user-Has req = search (keeps_rules, Keeps-query, Has-OfTables, scan_user-Has) depth 10

  ensure_another_admin-Has : (target : User) → Keeps Has (ensure_another_admin target)
  unfolding ensure_another_admin count_admins
  ensure_another_admin-Has target = search (keeps_rules, Keeps-query, Has-OfTables) depth 10

  set_owner-Has : (from to : Text) (now : ℕ) → Preserves Has (set_owner from to now)
  set_owner-Has from to now =
      Preserves-set_owner from to now
        (λ s h. count-update (has_id k) (has_owner from) _ s.servers (λ v. refl) ∙ h)

  reassign_servers-Has : (from to : Text) → Keeps Has (reassign_servers from to)
  unfolding reassign_servers
  reassign_servers-Has from to =
      search (keeps_rules, Keeps-time_now, Keeps-exec, Has-OfTables, set_owner-Has) depth 12

  release_servers-Has :
      (actor target : User) (owned : ℕ) (reassign : Bool)
      → Keeps Has (release_servers actor target owned reassign)
  unfolding release_servers
  release_servers-Has actor target owned reassign =
      search (keeps_rules, reassign_servers-Has) depth 12

  abbrev Owns : Text → ℕ → World → Type 0
  Owns owner m s = Has s × (count_where (has_owner owner) s.servers ≡ m)

  -- A target that owns no server goes alone.
  delete_user-Has : (id : Text) → Leads (Owns id 0) Has (delete_user id)
  unfolding delete_user delete_user_row
  delete_user-Has id =
      Leads-then _ _
        (Leads-map_err (failed "delete user") _ (
          Leads-exec Has-OfTables (Owns id 0) (delete_user_row id) (λ s h. h.0)
            (λ s (h, none_owned).
              ap (count_where (has_id k)) (delete_where_none (has_owner id) s.servers none_owned)
              ∙ h)))
        (λ m. Keeps-require_row m)

  counts-Has : (r : Response) → Keeps Has (map_err (λ _. r) server_counts_by_owner)
  unfolding server_counts_by_owner
  counts-Has r = search (keeps_rules, Keeps-query, Has-OfTables) depth 8

  -- What the grouped query says of the target.
  counts_Owns :
      (e : Env) (r : Response) (owner : Text)
      → Post e Has
          (λ counts. Owns owner (count_of owner counts))
          (map_err (λ _. r) server_counts_by_owner)
  unfolding server_counts_by_owner
  counts_Owns e r owner =
      Post-map_err (λ _. r) _
        (record {
          at = λ s counts h returned.
              let (rows, read, last) = bind-ok _ _ e s counts returned in
              let grouped =
                query-ok "count servers by owner" (λ t. group_by_owner t.servers) e s rows read in
              let filled = ok-injective (fill_counts rows []) counts last in
              let kept =
                (Keeps-bind _ (λ (rows : Counts). pure (fill_counts rows []))
                    (Keeps-map_err (failed "count servers by owner") _
                      (Keeps-query (SameServers-OfTables s) (λ t. group_by_owner t.servers)))
                    (λ rows. Keeps-pure (fill_counts rows []))).at
                  e s refl in
              (
                rw kept h,
                rw (kept, ← filled, ← grouped) (sym (count_of-fill_counts owner s.servers)),
              );
        })

  set_owner_none :
      (from to : Text) (now : ℕ) (e : Env) (s : World) (m : ℕ)
      → text_eq from to ≡ false
      → (exec (set_owner from to now) e s).0 ≡ ok m
      → count_where (has_owner from) (exec (set_owner from to now) e s).1.servers ≡ 0
  unfolding exec
  set_owner_none from to now e s m differ returned =
      moved_away from to now (e.driver_fault s.ticks) s m differ returned

  reassigned :
      (e : Env) (from to : Text) (m : ℕ)
      → text_eq from to ≡ false
      → Post e (Owns from m) (λ _. Owns from 0) (reassign_servers from to)
  unfolding reassign_servers
  reassigned e from to m differ =
      Post-bind (λ _. Has) _ _
        (record { at = λ s now h returned. (Keeps-time_now Has-OfTables).at e s (h.0) })
        (λ now. Post-map_err (failed "reassign servers") _ (record {
          at = λ s moved h returned. (
            (Keeps-exec Has-OfTables (set_owner from to now) (set_owner-Has from to now)).at e s h,
            set_owner_none from to now e s moved differ returned,
          );
        }))

  released :
      (e : Env) (actor target : User) (reassign : Bool) (counts : Counts)
      → text_eq target.id actor.id ≡ false
      → Post e
          (Owns target.id (count_of target.id counts))
          (λ _. Owns target.id 0)
          (release_servers actor target (count_of target.id counts) reassign)
  unfolding release_servers act_when
  released e actor target reassign counts other =
      elim (Bool-cases (ltb 0 (count_of target.id counts))) [
        | inl some_owned ↦ rw some_owned (
            Post-bind (λ _. Owns target.id (count_of target.id counts)) _ _
              (Post-Keeps _ (Keeps-stop_if _ _))
              (λ _.
                Post-bind (λ _. Owns target.id 0) _ _
                  (Post-map_err _ _
                    (reassigned e target.id actor.id (count_of target.id counts) other))
                  (λ _. Post-pure _ _ (λ t h. h))))
        | inr none_owned ↦ rw none_owned (
            Post-pure _ _
              (λ t (h, owned). (h, owned ∙ nothing (count_of target.id counts) none_owned)))
      ]

  delete_target-Has :
      (actor : User) (req : Request) (target : User) → Keeps Has (delete_target actor req target)
  unfolding delete_target
  delete_target-Has actor req target = Keeps-guarded (text_eq target.id actor.id) _ _ (λ other.
      Keeps-bind _ _ (search (keeps_rules, ensure_another_admin-Has)) (λ _. Keeps-Leads _ (
        Leads-bind-Post (λ counts. Owns target.id (count_of target.id counts)) _ _
          (Leads-Keeps _ (counts-Has _)) (λ e. counts_Owns e _ target.id)
          (λ counts.
            Leads-bind-Post (λ _. Owns target.id 0) _ _
              (record {
                at = λ e s h.
                    (release_servers-Has actor target (count_of target.id counts) _).at e s (h.0);
              })
              (λ e. released e actor target _ counts other)
              (λ _.
                Leads-then _ _ (Leads-map_err _ _ (delete_user-Has target.id))
                  (λ _. Keeps-pure _))))))

  handle_delete_user-Has : (actor : User) (req : Request) → Keeps Has (handle_delete_user actor req)
  unfolding handle_delete_user
  handle_delete_user-Has actor req =
      Keeps-bind _ _ (lookup_user-Has req) (delete_target-Has actor req)

-- A request to delete an account keeps every server record, whatever it answers and whatever fails:
-- there are as many records with each ID after it as before.
pub handle_delete_user-servers :
    (actor : User) (req : Request) (e : Env) (s : World) (k : Text)
    → count_where (has_id k) (handle_delete_user actor req e s).1.servers
      ≡ count_where (has_id k) s.servers
handle_delete_user-servers actor req e s k =
    (handle_delete_user-Has k (count_where (has_id k) s.servers) actor req).at e s refl
