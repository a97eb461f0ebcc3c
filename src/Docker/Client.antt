-- ===== src/Docker/Client.antt =====
-- The operations of `Client` in backend/internal/docker/minecraft.go and client.go.
use overworld_ops.Base.{
  String, Bool, ◌&&◌, not, Option, none, some, List, [], ◌∷◌, ◌++◌, Text, codes, is_empty,
  if◌then◌else◌, false, pos, ℤ,
}
use overworld_ops.Docker.Types.{
  Pairs, Spec, ContainerConfig, Call, ping, volume_create, container_create, container_start,
  container_stop, container_remove, volume_remove, container_inspect, container_list, ApiError,
  is_not_found, Inspection, State,
}
use overworld_ops.Docker.Build.{build_env, build_resources}
use overworld_ops.System.{Result, ok, err, Act, pure, raise, ◌>>=◌, ◌>>◌, map_err, attempt, send}

-- `ErrNotFound`, or an error with the text that it was wrapped in.
pub data DockerError : Type 0 where
  not_found : DockerError
  failed : Text → DockerError

-- `fmt.Errorf("<op> %s: %w", subject, err)`
unfoldable pub wrap : String → Text → ApiError → DockerError
unfolding codes
wrap op subject e = failed (codes op ++ (subject ++ (codes ": " ++ e.message)))

-- The same for the operations that report a missing container by `ErrNotFound`.
unfoldable pub found_or_wrap : String → Text → ApiError → DockerError
unfolding wrap
found_or_wrap op subject e = if is_not_found e then not_found else wrap op subject e

-- An error that is not there is a success.
abbrev pub answered : Option ApiError → Result ApiError (Unit {0})
answered none = ok tt
answered (some e) = err e

-- A request that answers nothing but an error.
unfoldable pub request : Call → Act ApiError (Unit {0})
request c = send c (λ e past. answered (e.engine_fault past c))

unfoldable pub labels_of : Spec → Pairs
unfolding codes
labels_of spec =
    (codes "overworld-ops.managed", codes "true")
    ∷ (codes "overworld-ops.server-id", spec.server_id)
    ∷ (codes "overworld-ops.owner-id", spec.owner_id)
    ∷ []

unfoldable pub config_of : Text → Spec → ContainerConfig
unfolding labels_of
config_of image spec = record {
  image = image;
  env = build_env spec;
  labels = labels_of spec;
  host_port = spec.host_port;
  volume = spec.volume_name;
  resources = build_resources spec;
}

-- `image` is `c.image`.
unfoldable pub create_server : Text → Spec → Act DockerError Text
unfolding wrap
create_server image spec = do
  map_err (wrap "create volume " spec.volume_name)
      (request (volume_create spec.volume_name (labels_of spec)))
  let c : Call = container_create (config_of image spec) spec.container_name
  map_err (wrap "create container " spec.container_name) (send c (λ e past. e.engine_create past c))

unfoldable pub start_server : Text → Act DockerError (Unit {0})
start_server id = map_err (found_or_wrap "start container " id) (request (container_start id))

unfoldable pub stop_server : Text → ℤ → Act DockerError (Unit {0})
stop_server id seconds =
    map_err (found_or_wrap "stop container " id) (request (container_stop id seconds))

-- `if err != nil && !isNotFound(err)`
unfoldable pub unless_missing :
    String → Text → Result ApiError (Unit {0}) → Act DockerError (Unit {0})
unfolding pure raise wrap
unless_missing op subject (ok _) = pure tt
unless_missing op subject (err e) = if is_not_found e then pure tt else raise (wrap op subject e)

unfoldable pub remove_volume : Text → Act DockerError (Unit {0})
remove_volume name = do
  gone ← attempt (request (volume_remove name))
  unless_missing "remove volume " name gone

unfoldable pub remove_server : Text → Text → Bool → Act DockerError (Unit {0})
unfolding remove_volume
remove_server id volume with_volume = do
  gone ← attempt (request (container_remove id))
  unless_missing "remove container " id gone
  if with_volume && not (is_empty volume) then remove_volume volume else pure tt

unfoldable pub state_of : Text × Option Inspection → State
state_of (id, none) = record {
  container_id = id;
  status = [];
  running = false;
  health = [];
  exit_code = pos 0;
  error = [];
}
state_of (id, some i) = record {
  container_id = id;
  status = i.status;
  running = i.running;
  health = elim i.health [ none ↦ [] | some h ↦ h ];
  exit_code = i.exit_code;
  error = i.error;
}

unfoldable pub inspect_server : Text → Act DockerError State
unfolding state_of
inspect_server id = do
  info ←
      map_err (found_or_wrap "inspect container " id)
        (send (container_inspect id) (λ e past. e.engine_inspect past id))
  pure (state_of info)

unfoldable pub first_container : List Text → Act DockerError Text
unfolding pure raise
first_container [] = raise not_found
first_container (id ∷ rest) = pure id

-- `FindByServerID`
unfoldable pub find_by_server_id : Text → Act DockerError Text
unfolding codes first_container
find_by_server_id server_id = do
  let c : Call = container_list (
      (codes "overworld-ops.managed", codes "true")
      ∷ (codes "overworld-ops.server-id", server_id)
      ∷ [])
  list ←
      map_err (λ e. failed (codes "list containers: " ++ e.message))
        (send c (λ e past. e.engine_list past c))
  first_container list

-- `Ping`
unfoldable pub ping_daemon : Act DockerError (Unit {0})
unfolding codes
ping_daemon =
    map_err (λ e. failed (codes "docker daemon unreachable: " ++ e.message)) (request ping)
