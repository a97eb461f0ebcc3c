-- ===== src/Api/Registry/Capacity.antt =====
-- The cap on the number of servers.
use overworld_ops.Base.{
  refl, true, ℕ, ◌+◌, count_where, arith, ◌≤◌, Text, count-delete-le, count-append_one,
  count-update, ◌≡◌, Option, List, leb,
}
use overworld_ops.System.{World, sent, ◌>>=◌, stop_if, map_err, Env, ok}
use overworld_ops.Store.Sql.{
  update_user, insert_server, update_server_row, delete_user_row, delete_server_row, has_owner,
  has_id, exec, time_now, Error,
}
use overworld_ops.Models.{Server, User, CreateServerInput}
use overworld_ops.Store.Keeps.{
  RoleInvariant, TableInvariant, Preserves-insert_user, Preserves-set_owner, Leads-exec,
  Settles-insert_server, Keeps-new_uuid, Keeps-time_now, row_of,
}
use overworld_ops.System.Keeps.{Erases, Keeps, keeps_rules, Keeps-pure}
use overworld_ops.System.Leads.{
  Leads, Leads-bind, Leads-then, Leads-map_err, Establishes, Keeps-established,
}
use overworld_ops.Store.Servers.{assigned_id, create_server, insert_error, count_servers}
use overworld_ops.Api.Servers.{
  insert_made, ask_port, create_error, new_server, admit, handle_create_server,
}
use overworld_ops.Config.{Config}
use overworld_ops.Ports.Keeps.{allocate-Keeps}
use overworld_ops.Docker.Keeps.{docker_keeps}
use overworld_ops.Api.Servers.Rows.{finish_create-Keeps, admit-Keeps, validated-Keeps}
use overworld_ops.Api.Keeps.Servers.{handle_delete_server-Keeps}
use overworld_ops.Api.Http.{Request, Response, fails}
use overworld_ops.Api.Gate.Quiet.{Unchanged-refl, Unchanged, query-Unchanged}
use overworld_ops.Api.Routes.{Payload, HttpRequest, serve_all}
use overworld_ops.Api.Keeps.Endpoints.{
  Special, as_admin-Keeps, serve_all-Keeps, all_special, request_of,
}
use overworld_ops.Store.Reads.{query-ok}
use overworld_ops.Api.Keeps.{shared_keeps}
use overworld_ops.Api.Keeps.Accounts.{handle_update_user-Keeps, handle_delete_user-Keeps}
use overworld_ops.System.Binds.{or_else-eq-ok, bind-ok, stop_if-ok}

abbrev pub server_count : World → ℕ
server_count s = count_where (λ v. true) s.servers

-- There is room for `k` servers more.
abbrev pub HasRoom : ℕ → ℕ → World → Type 0
HasRoom max k s = k + server_count s ≤ max

module _ (max k : ℕ) where
  pub HasRoom-invariant : TableInvariant (HasRoom max k)
  unfolding update_user update_server_row delete_server_row sent
  HasRoom-invariant = record {
    of_tables = record { ticked_ok = λ s h. h; sent_ok = λ c s _ h. h };
    insert_user_ok = λ u. Preserves-insert_user u (λ s h. h);
    update_user_ok = λ id f _ _ _. record { at = λ s h. h };
    update_server_ok = λ id f _ _ _. record {
      at = λ s h. omega (arith, count-update (λ v. true) (has_id id) f s.servers (λ v. refl));
    };
    set_owner_ok = λ from to now. Preserves-set_owner from to now (λ s h. omega (
      arith,
      count-update (λ v. true) (has_owner from)
          (λ (v : Server). record v { owner_id = to; updated_at = now }) s.servers (λ v. refl),
    ));
    delete_server_ok = λ id. record {
      at = λ s h. omega (arith, count-delete-le (λ v. true) (has_id id) s.servers);
    };
  }

  HasRoom-roles : RoleInvariant (HasRoom max k)
  unfolding update_user delete_user_row
  HasRoom-roles = record {
    set_role_ok = λ id b. record { at = λ s h. h };
    delete_user_ok = λ id. record {
      at = λ s h. omega (arith, count-delete-le (λ v. true) (has_owner id) s.servers);
    };
  }

  HasRoom-Erases : (name : Text) → Erases (HasRoom max k) name
  unfolding sent
  HasRoom-Erases name s h = h

module _ (max : ℕ) where
  no_more_room : (s : World) → HasRoom max 1 s → HasRoom max 0 s
  no_more_room s h = omega arith

  insert_server-takes :
      (v : Server) → Leads (HasRoom max 1) (HasRoom max 0) (exec (insert_server v))
  insert_server-takes v =
      Leads-exec (HasRoom-invariant max 0).of_tables (HasRoom max 1) (insert_server v) no_more_room
        (λ s h.
          Settles-insert_server (HasRoom max 0) v s
            (omega (arith, count-append_one (λ (x : Server). true) s.servers v)))

  assigned_id-HasRoom : (k : ℕ) (id : Text) → Keeps (HasRoom max k) (assigned_id id)
  unfolding assigned_id
  assigned_id-HasRoom k id =
      search (keeps_rules, Keeps-new_uuid, (HasRoom-invariant max k).of_tables)

  create_server-takes : (v : Server) → Leads (HasRoom max 1) (HasRoom max 0) (create_server v)
  unfolding create_server
  create_server-takes v =
      Leads-bind time_now _ no_more_room (Keeps-time_now (HasRoom-invariant max 1).of_tables)
        (λ now. Leads-bind (assigned_id v.id) _ no_more_room (assigned_id-HasRoom 1 v.id) (λ id.
          Leads-then _ _ (Leads-map_err insert_error _ (insert_server-takes _))
            (λ _. Keeps-pure _)))

  insert_made-takes :
      (cfg : Config) (u : User) (r : CreateServerInput) (port : ℕ)
      → Leads (HasRoom max 1) (HasRoom max 0) (insert_made cfg u r port)
  unfolding insert_made
  insert_made-takes cfg u r port =
      let room = HasRoom-invariant max 0 in
      Leads-then _ _ (Leads-map_err create_error _ (create_server-takes (new_server cfg u r port)))
        (λ v.
          search (keeps_rules, docker_keeps, finish_create-Keeps, room.of_tables, row_of room) depth
            8)

  ask_port-HasRoom : (cfg : Config) (k : ℕ) → Keeps (HasRoom max k) (ask_port cfg)
  unfolding ask_port
  ask_port-HasRoom cfg k = search (keeps_rules, allocate-Keeps, (HasRoom-invariant max k).of_tables)

  ported-takes :
      (cfg : Config) (u : User) (r : CreateServerInput)
      → Leads (HasRoom max 1) (HasRoom max 0) (ask_port cfg >>= insert_made cfg u r)
  ported-takes cfg u r =
      Leads-bind (ask_port cfg) _ no_more_room (ask_port-HasRoom cfg 1) (insert_made-takes cfg u r)

count_servers-ok :
    (f : Error → Response) (e : Env) (s : World) (n : ℕ)
    → (map_err f count_servers e s).0 ≡ ok n
    → server_count s ≡ n
unfolding map_err
count_servers-ok f e s n h =
    unfold count_servers in query-ok _ _ e s n (or_else-eq-ok f (count_servers e s).0 n h)

admit-Unchanged :
    (s : World) (cfg : Config) (r : CreateServerInput) → Keeps (Unchanged s) (admit cfg r)
unfolding admit count_servers
admit-Unchanged s cfg r = search (keeps_rules, query-Unchanged) depth 12

room_found :
    (cfg : Config) (r : CreateServerInput) (e : Env) (s : World) (a : Unit {0})
    → (admit cfg r e s).0 ≡ ok a
    → 1 + server_count s ≤ cfg.max_servers
unfolding admit
room_found cfg r e s a h =
    let (n, counted, rest) =
      bind-ok (map_err (λ _. fails 500 "could not create server") count_servers) _ e s a h in
    let (_, passed, _) =
      bind-ok (stop_if (leb cfg.max_servers n) (fails 409 "server limit reached")) _ e _ a rest in
    let free = stop_if-ok (leb cfg.max_servers n) _ e _ _ passed in
    let known = count_servers-ok _ e s n counted in ground arith

-- Once the checks have passed, there is room for one more.
admit-HasRoom :
    (cfg : Config) (r : CreateServerInput) → Establishes (HasRoom cfg.max_servers 1) (admit cfg r)
admit-HasRoom cfg r = record {
  at = λ e s a h.
      let quiet = (admit-Unchanged s cfg r).at e s (Unchanged-refl s) in
      rw quiet.servers (room_found cfg r e s a h);
}

handle_create_server-HasRoom :
    (cfg : Config) (u : User) (input : Option CreateServerInput)
    → Keeps (HasRoom cfg.max_servers 0) (handle_create_server cfg u input)
unfolding handle_create_server
handle_create_server-HasRoom cfg u input =
    let room = HasRoom-invariant cfg.max_servers 0 in
    let made = λ (r : CreateServerInput).
      Keeps-established (admit cfg r) (λ _. ask_port cfg >>= insert_made cfg u r)
        (admit-Keeps cfg room.of_tables r) (admit-HasRoom cfg r)
        (λ _. ported-takes cfg.max_servers cfg u r) in
    search (keeps_rules, shared_keeps, validated-Keeps) depth 8

pub capacity-Special :
    (cfg : Config) (req : Request) (payload : Payload)
    → Special (HasRoom cfg.max_servers 0) cfg req payload
capacity-Special cfg req payload =
    let room = HasRoom-invariant cfg.max_servers 0 in
    record {
      create_ok = λ u. handle_create_server-HasRoom cfg u payload.new_server;
      delete_ok =
          λ u. handle_delete_server-Keeps room u req (λ _. HasRoom-Erases cfg.max_servers 0);
      update_user_ok = as_admin-Keeps room cfg req _ (λ u.
          handle_update_user-Keeps room u req payload.user_change
            (λ id b _. (HasRoom-roles cfg.max_servers 0).set_role_ok id b));
      delete_user_ok = as_admin-Keeps room cfg req _ (λ u.
          handle_delete_user-Keeps room u req
            (λ id _. (HasRoom-roles cfg.max_servers 0).delete_user_ok id));
    }

-- Requests that are answered one after the other never take the number of servers above the
-- configured cap, whatever fails, if it was not above before.
pub serve_all-server_count :
    (cfg : Config) (e : Env) (rs : List HttpRequest) (s : World)
    → server_count s ≤ cfg.max_servers
    → server_count (serve_all cfg e rs s) ≤ cfg.max_servers
serve_all-server_count cfg e rs s h =
    let kept =
      serve_all-Keeps (HasRoom-invariant cfg.max_servers 0) cfg e rs s
        (all_special (λ r value. capacity-Special cfg (request_of r value) r.payload) rs)
        (omega arith) in
    omega arith
