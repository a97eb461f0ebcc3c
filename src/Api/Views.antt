-- ===== src/Api/Views.antt =====
-- The helpers at the end of backend/internal/api/servers.go: ownership, the Docker spec of a
-- record, the live view of a record, and the recreation of a container.
use overworld_ops.Base.{
  Bool, not, ◌||◌, List, [], ◌∷◌, Text, codes, text_eq, is_empty, if◌then◌else◌, pos, false,
}
use overworld_ops.Models.{
  Server, User, error, container_name, volume_name, modpack_modrinth, modpack_curseforge,
}
use overworld_ops.Config.{Config, public_host}
use overworld_ops.Docker.Types.{Spec, State}
use overworld_ops.Docker.Client
use overworld_ops.Docker.Client.{DockerError, not_found, failed}
use overworld_ops.System.{
  Result, ok, err, Act, pure, raise, ◌>>=◌, ◌>>◌, map_err, attempt, act_when,
}
use overworld_ops.Store.Sql.{Error}
use overworld_ops.Store.Servers.{server_by_id, set_status, set_container_id}
use overworld_ops.Api.Http.{Request, Response, ServerView, fails}

-- `err.Error()`
unfoldable pub error_text : DockerError → Text
unfolding codes
error_text Client.not_found = codes "docker: resource not found"
error_text (Client.failed message) = message

-- `ownsServer`
unfoldable pub owns_server : User → Server → Bool
unfolding text_eq
owns_server u v = u.is_admin || text_eq v.owner_id u.id

unfoldable pub lookup_error : Error → Response
lookup_error Error.not_found = fails 404 "server not found"
lookup_error other = fails 500 "could not load server"

-- `lookup`
unfoldable pub lookup : User → Request → Act Response Server
unfolding owns_server lookup_error
lookup u req = do
  v ← map_err lookup_error (server_by_id req.id)
  if owns_server u v then pure v else raise (fails 404 "server not found")

-- `specFor`
unfoldable pub spec_for : Config → Server → Spec
unfolding codes container_name volume_name text_eq modpack_modrinth modpack_curseforge
spec_for cfg v = record {
  server_id = v.id;
  owner_id = v.owner_id;
  container_name = container_name v;
  volume_name = volume_name v;
  server_type = v.server_type;
  version = v.version;
  host_port = v.port;
  memory = v.memory;
  memory_limit_bytes = pos 0;
  cpu_limit = v.cpu_limit;
  modrinth_modpack = if text_eq v.modpack_provider modpack_modrinth then v.modpack_id else [];
  curse_forge_slug = if text_eq v.modpack_provider modpack_curseforge then v.modpack_id else [];
  curse_forge_api_key =
      if text_eq v.modpack_provider modpack_curseforge then cfg.curse_forge_api_key else [];
  extra_env = (codes "MOTD", v.name) ∷ [];
}

-- The view of a record with no container, or one that Docker cannot tell about.
unfoldable pub plain_view : Config → Server → ServerView
unfolding public_host
plain_view cfg v = record {
  server = v;
  address = public_host cfg v.port;
  container_status = [];
  health = [];
}

unfoldable pub live_view : Config → Server → Result DockerError State → ServerView
unfolding plain_view
live_view cfg v (err x) = plain_view cfg v
live_view cfg v (ok st) = record (plain_view cfg v) {
  container_status = st.status;
  health = st.health;
}

-- `view`
unfoldable pub view : {E : Type 0} → Config → Server → Act E ServerView
unfolding live_view pure
view cfg v =
    if is_empty v.container_id
    then pure (plain_view cfg v)
    else do state ← attempt (Client.inspect_server v.container_id); pure (live_view cfg v state)

unfoldable pub views : {E : Type 0} → Config → List Server → Act E (List ServerView)
unfolding view pure
views cfg [] = pure []
views cfg (v ∷ l) = do first ← view cfg v; rest ← views cfg l; pure (first ∷ rest)

-- `failServer`: a status that cannot be saved is only logged.
unfoldable pub fail_server : {E : Type 0} → Server → DockerError → Act E (Unit {0})
unfolding error_text
fail_server v x = do attempt (set_status v.id error (error_text x)); pure tt

-- The stale container goes first; an error of its removal is passed over.
unfoldable pub clear_stale : Server → Act DockerError (Unit {0})
unfolding volume_name
clear_stale v =
    act_when (not (is_empty v.container_id))
      (do attempt (Client.remove_server v.container_id (volume_name v) false); pure tt)

-- `recreateContainer`, with the record as the caller finds it
unfoldable pub recreate_container : Config → Server → Act DockerError Server
unfolding clear_stale spec_for
recreate_container cfg v = do
  clear_stale v
  id ← Client.create_server cfg.minecraft_image (spec_for cfg v)
  attempt (set_container_id v.id id)
  pure (record v { container_id = id })
