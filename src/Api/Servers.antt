-- ===== src/Api/Servers.antt =====
-- The server handlers of backend/internal/api/servers.go.
pub mod Rests
pub mod Rows
pub mod Saved
pub mod Starts
pub mod Others
pub mod Stops
pub mod Renames
pub mod Lists
pub mod Deletes
pub mod Creates
use overworld_ops.Base.{
  ℕ, Bool, not, ◌&&◌, ◌||◌, leb, ltb, length, [], Option, none, some, Text, codes, text_eq,
  is_empty, trim_space, if◌then◌else◌, is_zero,
}
use overworld_ops.Models.{
  Server, User, CreateServerInput, creating, stopped, starting, stopping, error, volume_name,
  modpack_curseforge,
}
use overworld_ops.Models.Validate.{Validated, valid, invalid, validate}
use overworld_ops.Config.{Config, seconds_of}
use overworld_ops.Docker.Client
use overworld_ops.Docker.Client.{DockerError}
use overworld_ops.Ports.{AllocateError, pool_exhausted, read_failed, allocate}
use overworld_ops.System.{Result, ok, err, Act, pure, raise, ◌>>=◌, ◌>>◌, map_err, attempt, stop_if}
use overworld_ops.Store.Sql.{Error}
use overworld_ops.Store.Servers.{
  create_server, list_servers, count_servers, update_server, set_status, touch_activity,
  delete_server,
}
use overworld_ops.Api.Http.{Request, Response, Handler, Body, reply, write_error, fails, decoded}
use overworld_ops.Api.Views.{
  error_text, lookup, spec_for, view, views, fail_server, recreate_container,
}

unfoldable pub handle_list_servers : Config → User → Handler
handle_list_servers cfg u = do
  l ←
      map_err (λ _. fails 500 "could not list servers")
        (list_servers (if u.is_admin then [] else u.id))
  shown ← views cfg l
  pure (reply 200 (Body.servers shown))

unfoldable pub handle_get_server : Config → User → Request → Handler
handle_get_server cfg u req = do
  v ← lookup u req
  shown ← view cfg v
  pure (reply 200 (Body.server shown))

-- `if err := in.Validate(); err != nil`
unfoldable pub validated : Validated → Act Response CreateServerInput
unfolding pure raise
validated (valid r) = pure r
validated (invalid message) = raise (write_error 400 message)

unfoldable pub allocate_error : AllocateError → Response
allocate_error pool_exhausted = fails 409 "no free ports available"
allocate_error (read_failed x) = fails 500 "could not allocate a port"

unfoldable pub create_error : Error → Response
create_error Error.port_taken = fails 409 "port was just taken, please retry"
create_error other = fails 500 "could not create server"

-- The record of a new server; its ID and times are set on insertion.
unfoldable pub new_server : Config → User → CreateServerInput → ℕ → Server
new_server cfg u r port = record {
  id = [];
  name = r.name;
  owner_id = u.id;
  server_type = r.server_type;
  version = r.version;
  modpack_provider = r.modpack_provider;
  modpack_id = r.modpack_id;
  port = port;
  memory = if is_empty r.memory then cfg.default_memory else r.memory;
  cpu_limit = if is_zero r.cpu_limit then cfg.default_cpu_limit else r.cpu_limit;
  status = creating;
  status_message = [];
  container_id = [];
  created_at = 0;
  updated_at = 0;
  last_active_at = none;
}

-- The checks before a port is asked for.
unfoldable pub admit : Config → CreateServerInput → Act Response (Unit {0})
unfolding text_eq modpack_curseforge
admit cfg r = do
  count ← map_err (λ _. fails 500 "could not create server") count_servers
  stop_if (leb cfg.max_servers count) (fails 409 "server limit reached")
  stop_if (text_eq r.modpack_provider modpack_curseforge && is_empty cfg.curse_forge_api_key)
      (fails 400 "CurseForge modpacks need OWO_CURSEFORGE_API_KEY to be configured")

-- What follows the attempt to create the container of the new record.
unfoldable pub finish_create : Config → Server → Result DockerError Text → Handler
unfolding error_text
finish_create cfg v (err x) = do
  attempt (set_status v.id error (error_text x))
  shown ← view cfg (record v { status = error; status_message = error_text x })
  pure (reply 500 (Body.server shown))
finish_create cfg v (ok container_id) = do
  saved ← update_server (record v { container_id = container_id; status = stopped })
  shown ← view cfg saved.0
  pure (reply 201 (Body.server shown))

-- The insertion of the record and the creation of its container, once there is a port.
unfoldable pub insert_made : Config → User → CreateServerInput → ℕ → Handler
unfolding create_error new_server finish_create
insert_made cfg u r port = do
  v ← map_err create_error (create_server (new_server cfg u r port))
  made ← attempt (Client.create_server cfg.minecraft_image (spec_for cfg v))
  finish_create cfg v made

unfoldable pub ask_port : Config → Act Response ℕ
unfolding allocate_error
ask_port cfg =
    map_err allocate_error (allocate cfg.port_range_start cfg.port_range_end cfg.probe_host_ports)

unfoldable pub handle_create_server : Config → User → Option CreateServerInput → Handler
unfolding validated admit ask_port insert_made
handle_create_server cfg u input = do
  given ← decoded input
  r ← validated (validate given)
  admit cfg r
  port ← ask_port cfg
  insert_made cfg u r port

-- `in.Name`, where it is given
unfoldable pub renamed : Option Text → Server → Act Response Server
unfolding pure raise
renamed none v = pure v
renamed (some given) v =
    let name = trim_space given in
    if is_empty name || ltb 64 (length name)
    then raise (fails 400 "name must be 1-64 characters")
    else pure (record v { name = name })

unfoldable pub saved_or : Server → Result Error (Unit {0}) → Response → Act Response Server
unfolding pure raise
saved_or v (ok _) r = pure v
saved_or v (err _) r = raise r

unfoldable pub handle_update_server : Config → User → Request → Option (Option Text) → Handler
unfolding renamed saved_or
handle_update_server cfg u req input = do
  v ← lookup u req
  name ← decoded input
  w ← renamed name v
  saved ← update_server w
  x ← saved_or saved.0 saved.1 (fails 500 "could not update server")
  shown ← view cfg x
  pure (reply 200 (Body.server shown))

-- The record with a container: its own, or a new one.
unfoldable pub or_failed : Server → Response → Result DockerError Server → Act Response Server
unfolding pure raise
or_failed v r (ok w) = pure w
or_failed v r (err x) = do fail_server v x; raise r

unfoldable pub with_container : Config → Server → Act Response Server
unfolding or_failed
with_container cfg v = if not (is_empty v.container_id) then pure v else do
  made ← attempt (recreate_container cfg v)
  or_failed v (fails 500 "could not create container") made

-- After the recreation of a missing container: its start, or the error of the recreation.
unfoldable pub started_again :
    {E : Type 0}
    → Server
    → Result DockerError Server
    → Act E (Server × Result DockerError (Unit {0}))
unfolding pure
started_again v (err x) = pure (v, err x)
started_again v (ok w) = do
  started ← attempt (Client.start_server w.container_id)
  pure (w, started)

unfoldable pub or_rebuilt :
    {E : Type 0}
    → Config
    → Server
    → Result DockerError (Unit {0})
    → Act E (Server × Result DockerError (Unit {0}))
unfolding started_again pure
or_rebuilt cfg v (ok _) = pure (v, ok tt)
or_rebuilt cfg v (err (DockerError.failed m)) = pure (v, err (DockerError.failed m))
or_rebuilt cfg v (err DockerError.not_found) = do
  made ← attempt (recreate_container cfg v)
  started_again v made

unfoldable pub finish_start : Config → Server → Result DockerError (Unit {0}) → Handler
finish_start cfg v (err x) = do fail_server v x; raise (fails 500 "could not start server")
finish_start cfg v (ok _) = do
  attempt (set_status v.id starting [])
  attempt (touch_activity v.id)
  shown ← view cfg (record v { status = starting; status_message = [] })
  pure (reply 200 (Body.server shown))

unfoldable pub handle_start_server : Config → User → Request → Handler
unfolding with_container or_rebuilt finish_start
handle_start_server cfg u req = do
  v ← lookup u req
  w ← with_container cfg v
  started ← attempt (Client.start_server w.container_id)
  outcome ← or_rebuilt cfg w started
  finish_start cfg outcome.0 outcome.1

-- A container that is missing counts as stopped.
unfoldable pub unless_failed :
    Server → Result DockerError (Unit {0}) → Response → Act Response (Unit {0})
unfolding pure raise
unless_failed v (ok _) r = pure tt
unless_failed v (err DockerError.not_found) r = pure tt
unless_failed v (err (DockerError.failed m)) r = do fail_server v (DockerError.failed m); raise r

unfoldable pub handle_stop_server : Config → User → Request → Handler
unfolding unless_failed
handle_stop_server cfg u req = do
  v ← lookup u req
  stop_if (is_empty v.container_id) (fails 409 "server has no container")
  attempt (set_status v.id stopping [])
  gone ← attempt (Client.stop_server v.container_id (seconds_of cfg.stop_timeout))
  unless_failed v gone (fails 500 "could not stop server")
  attempt (set_status v.id stopped [])
  shown ← view cfg (record v { status = stopped; status_message = [] })
  pure (reply 200 (Body.server shown))

-- The container of a record that has one.
unfoldable pub drop_container : Server → Bool → Act Response (Unit {0})
unfolding unless_failed volume_name pure
drop_container v with_data = if is_empty v.container_id then pure tt else do
  gone ← attempt (Client.remove_server v.container_id (volume_name v) with_data)
  unless_failed v gone (fails 500 "could not remove container")

unfoldable pub handle_delete_server : User → Request → Handler
unfolding drop_container text_eq codes
handle_delete_server u req = do
  v ← lookup u req
  drop_container v (text_eq (req.query (codes "deleteData")) (codes "true"))
  map_err (λ _. fails 500 "could not delete server") (delete_server v.id)
  pure (reply 204 Body.nothing)
