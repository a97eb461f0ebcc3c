-- ===== src/Store/Methods.antt =====
-- Every method of `Store` keeps an invariant that its statements keep.
use overworld_ops.Base.{none, some, ℕ, Bool, Text, refl, Option}
use overworld_ops.Models.{User, Server, Status}
use overworld_ops.System.Keeps.{Keeps, keeps_rules, OfTables}
use overworld_ops.Store.Keeps.{
  TableInvariant, Keeps-exec, Keeps-query, Keeps-time_now, Keeps-new_uuid, Keeps-require_row,
  Preserves, RowInvariant,
}
use overworld_ops.System.{World}
use overworld_ops.Store.Users.{
  scan_user, any_user_exists, list_users, count_admins, create_user, set_user_admin,
  set_user_password, delete_user, reassign_servers, server_counts_by_owner, user_by_username,
  user_by_id,
}
use overworld_ops.Store.Servers.{
  create_server, scan_server, server_by_id, list_servers, count_servers, save_server, update_server,
  set_status, set_container_id, touch_activity, delete_server, set_mutable, used_ports,
}
use overworld_ops.Store.Sql.{update_user, delete_user_row, insert_server, delete_server_row}

ruleset store_rules =
    (keeps_rules, Keeps-query, Keeps-time_now, Keeps-new_uuid, Keeps-require_row, Keeps-exec)

module _ {P : World → Type 0} (inv : TableInvariant P) where
  tables : OfTables P
  tables = inv.of_tables

  pub scan_user-Keeps : (row : Option User) → Keeps P (scan_user row)
  unfolding scan_user
  scan_user-Keeps none = search store_rules
  scan_user-Keeps (some u) = search store_rules

  pub user_by_username-Keeps : (username : Text) → Keeps P (user_by_username username)
  unfolding user_by_username
  user_by_username-Keeps username = search (store_rules, tables, scan_user-Keeps) depth 12

  pub user_by_id-Keeps : (id : Text) → Keeps P (user_by_id id)
  unfolding user_by_id
  user_by_id-Keeps id = search (store_rules, tables, scan_user-Keeps) depth 12

  pub any_user_exists-Keeps : Keeps P (any_user_exists)
  unfolding any_user_exists
  any_user_exists-Keeps = search (store_rules, tables) depth 12

  pub list_users-Keeps : Keeps P (list_users)
  unfolding list_users
  list_users-Keeps = search (store_rules, tables) depth 12

  pub count_admins-Keeps : Keeps P (count_admins)
  unfolding count_admins
  count_admins-Keeps = search (store_rules, tables) depth 12

  pub create_user-Keeps :
      (username hash : Text) (admin : Bool) → Keeps P (create_user username hash admin)
  unfolding create_user
  create_user-Keeps username hash admin = search (store_rules, tables, inv.insert_user_ok) depth 12

  pub set_user_password-Keeps : (id hash : Text) → Keeps P (set_user_password id hash)
  unfolding set_user_password
  set_user_password-Keeps id hash =
      let kept =
        inv.update_user_ok id (λ (u : User). record u { password_hash = hash }) (λ u. refl)
          (λ u. refl) (λ u. refl) in
      search (store_rules, tables) depth 12

  pub reassign_servers-Keeps : (from to : Text) → Keeps P (reassign_servers from to)
  unfolding reassign_servers
  reassign_servers-Keeps from to = search (store_rules, tables, inv.set_owner_ok) depth 12

  pub server_counts_by_owner-Keeps : Keeps P (server_counts_by_owner)
  unfolding server_counts_by_owner
  server_counts_by_owner-Keeps = search (store_rules, tables) depth 12

  pub scan_server-Keeps : (row : Option Server) → Keeps P (scan_server row)
  unfolding scan_server
  scan_server-Keeps none = search store_rules
  scan_server-Keeps (some u) = search store_rules

  pub server_by_id-Keeps : (id : Text) → Keeps P (server_by_id id)
  unfolding server_by_id
  server_by_id-Keeps id = search (store_rules, tables, scan_server-Keeps) depth 12

  pub list_servers-Keeps : (owner : Text) → Keeps P (list_servers owner)
  unfolding list_servers
  list_servers-Keeps owner = search (store_rules, tables) depth 12

  pub count_servers-Keeps : Keeps P (count_servers)
  unfolding count_servers
  count_servers-Keeps = search (store_rules, tables) depth 12

  pub used_ports-Keeps : Keeps P (used_ports)
  unfolding used_ports
  used_ports-Keeps = search (store_rules, tables) depth 12

-- The methods whose statement has to be looked at by itself.
module _ {P : World → Type 0} (tables : OfTables P) where
  pub set_user_admin-Keeps :
      (id : Text) (b : Bool)
      → Preserves P (update_user id (λ (u : User). record u { is_admin = b }))
      → Keeps P (set_user_admin id b)
  unfolding set_user_admin
  set_user_admin-Keeps id b kept = search (store_rules, tables) depth 12

  pub delete_user-Keeps : (id : Text) → Preserves P (delete_user_row id) → Keeps P (delete_user id)
  unfolding delete_user
  delete_user-Keeps id kept = search (store_rules, tables) depth 12

  pub create_server-Keeps :
      (v : Server)
      → ((id : Text) (now : ℕ)
          → Preserves P (insert_server (record v { id = id; created_at = now; updated_at = now })))
      → Keeps P (create_server v)
  unfolding create_server
  create_server-Keeps v kept = search (store_rules, tables, kept) depth 12

-- The methods on the rows of one server.
module _ {P : World → Type 0} (tables : OfTables P) where
  pub save_server-Keeps : (v : Server) → RowInvariant P v.id → Keeps P (save_server v)
  unfolding save_server set_mutable
  save_server-Keeps v row =
      let kept = row.update_ok (set_mutable v) (λ w. refl) (λ w. refl) (λ w. refl) in
      search (store_rules, tables) depth 12

  pub update_server-Keeps :
      {E : Type 0} (v : Server) → RowInvariant P v.id → Keeps P (update_server {E = E} v)
  unfolding update_server
  update_server-Keeps v row = search (store_rules, tables, save_server-Keeps) depth 12

  pub set_status-Keeps :
      (id : Text) (status : Status) (message : Text)
      → RowInvariant P id
      → Keeps P (set_status id status message)
  unfolding set_status
  set_status-Keeps id status message row =
      let kept = λ (now : ℕ).
        row.update_ok
          (λ (v : Server). record v { status = status; status_message = message; updated_at = now })
          (λ v. refl) (λ v. refl) (λ v. refl) in
      search (store_rules, tables) depth 12

  pub set_container_id-Keeps :
      (id container_id : Text) → RowInvariant P id → Keeps P (set_container_id id container_id)
  unfolding set_container_id
  set_container_id-Keeps id container_id row =
      let kept = λ (now : ℕ).
        row.update_ok (λ (v : Server). record v { container_id = container_id; updated_at = now })
          (λ v. refl) (λ v. refl) (λ v. refl) in
      search (store_rules, tables) depth 12

  pub touch_activity-Keeps : (id : Text) → RowInvariant P id → Keeps P (touch_activity id)
  unfolding touch_activity
  touch_activity-Keeps id row =
      let kept = λ (now : ℕ).
        row.update_ok (λ (v : Server). record v { last_active_at = some now }) (λ v. refl)
          (λ v. refl) (λ v. refl) in
      search (store_rules, tables) depth 12

  pub delete_server-Keeps :
      (id : Text) → Preserves P (delete_server_row id) → Keeps P (delete_server id)
  unfolding delete_server
  delete_server-Keeps id kept = search (store_rules, tables) depth 12

pub ruleset row_keeps = (
  update_server-Keeps, set_status-Keeps, set_container_id-Keeps, touch_activity-Keeps,
  delete_server-Keeps,
)

pub ruleset store_keeps = (
  user_by_username-Keeps, user_by_id-Keeps, any_user_exists-Keeps, list_users-Keeps,
  count_admins-Keeps, create_user-Keeps, set_user_password-Keeps, reassign_servers-Keeps,
  server_counts_by_owner-Keeps, server_by_id-Keeps, list_servers-Keeps, count_servers-Keeps,
  used_ports-Keeps,
)
