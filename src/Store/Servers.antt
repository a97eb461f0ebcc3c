-- ===== src/Store/Servers.antt =====
-- The methods of `Store` on servers, in backend/internal/store/sqlite.go.
use overworld_ops.Base.{
  ℕ, true, List, [], ◌∷◌, Option, none, some, Text, is_empty, leb, if◌then◌else◌, count_where,
  first_where, select_where, map,
}
use overworld_ops.Models.{Server, Status}
use overworld_ops.System.{Result, Act, pure, raise, ◌>>=◌, ◌>>◌, map_err, attempt}
use overworld_ops.Store.Sql.{
  SqlError, Error, not_found, port_taken, failed, is_unique_violation, exec, query, time_now,
  new_uuid, require_row, has_id, has_owner, insert_server, update_server_row, delete_server_row,
}

unfoldable pub insert_error : SqlError → Error
insert_error x = if is_unique_violation x then port_taken else failed "insert server" x

-- The ID that the record has, or a new one.
unfoldable pub assigned_id : Text → Act Error Text
unfolding pure
assigned_id id = if is_empty id then new_uuid else pure id

unfoldable pub create_server : Server → Act Error Server
unfolding insert_error assigned_id
create_server v = do
  now ← time_now
  id ← assigned_id v.id
  let v' : Server = record v { id = id; created_at = now; updated_at = now }
  map_err insert_error (exec (insert_server v'))
  pure v'

unfoldable pub scan_server : Option Server → Act Error Server
unfolding pure raise
scan_server none = raise not_found
scan_server (some v) = pure v

unfoldable pub server_by_id : Text → Act Error Server
server_by_id id = do
  row ← map_err (failed "scan server") (exec (query (λ s. first_where (has_id id) s.servers)))
  scan_server row

-- ORDER BY created_at DESC
unfoldable pub insert_by_date : Server → List Server → List Server
insert_by_date v [] = v ∷ []
insert_by_date v (w ∷ l) =
    if leb w.created_at v.created_at then v ∷ w ∷ l else w ∷ insert_by_date v l

unfoldable pub newest_first : List Server → List Server
unfolding insert_by_date
newest_first [] = []
newest_first (v ∷ l) = insert_by_date v (newest_first l)

-- The WHERE clause is there only for an owner that is not empty.
unfoldable pub scoped : Text → List Server → List Server
scoped owner l = if is_empty owner then l else select_where (has_owner owner) l

unfoldable pub list_servers : Text → Act Error (List Server)
list_servers owner =
    map_err (failed "query servers") (exec (query (λ s. newest_first (scoped owner s.servers))))

unfoldable pub count_servers : Act Error ℕ
count_servers =
    map_err (failed "count servers") (exec (query (λ s. count_where (λ v. true) s.servers)))

-- The keys of the `map[int]bool`, each of them `true`.
unfoldable pub used_ports : Act Error (List ℕ)
used_ports = map_err (failed "query ports") (exec (query (λ s. map (λ v. v.port) s.servers)))

-- The columns of `UpdateServer`, taken from `v`.
unfoldable pub set_mutable : Server → Server → Server
set_mutable v row = record row {
  name = v.name;
  server_type = v.server_type;
  version = v.version;
  modpack_provider = v.modpack_provider;
  modpack_id = v.modpack_id;
  memory = v.memory;
  cpu_limit = v.cpu_limit;
  status = v.status;
  status_message = v.status_message;
  container_id = v.container_id;
  updated_at = v.updated_at;
  last_active_at = v.last_active_at;
}

unfoldable pub save_server : Server → Act Error (Unit {0})
unfolding set_mutable
save_server v = do
  n ← map_err (failed "update server") (exec (update_server_row v.id (set_mutable v)))
  require_row n

-- The caller's record gets the new `UpdatedAt` whether the statement fails or not.
unfoldable pub update_server : {E : Type 0} → Server → Act E (Server × Result Error (Unit {0}))
unfolding save_server
update_server v = do
  now ← time_now
  let v' : Server = record v { updated_at = now }
  r ← attempt (save_server v')
  pure (v', r)

unfoldable pub set_status : Text → Status → Text → Act Error (Unit {0})
set_status id status message = do
  now ← time_now
  n ← map_err (failed "set status") (
      exec (
        update_server_row id
          (λ v. record v { status = status; status_message = message; updated_at = now })))
  require_row n

unfoldable pub set_container_id : Text → Text → Act Error (Unit {0})
set_container_id id container_id = do
  now ← time_now
  n ← map_err (failed "set container id") (
      exec (update_server_row id (λ v. record v { container_id = container_id; updated_at = now })))
  require_row n

-- The rows affected are not looked at.
unfoldable pub touch_activity : Text → Act Error (Unit {0})
touch_activity id = do
  now ← time_now
  map_err (failed "touch activity")
      (exec (update_server_row id (λ v. record v { last_active_at = some now })))
  pure tt

unfoldable pub delete_server : Text → Act Error (Unit {0})
delete_server id = do
  n ← map_err (failed "delete server") (exec (delete_server_row id))
  require_row n
