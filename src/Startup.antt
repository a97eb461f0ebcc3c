-- ===== src/Startup.antt =====
-- `run` of backend/cmd/overworld-ops/main.go, and `Open` of backend/internal/store/sqlite.go.
--
-- A `Host` answers for the file system, the driver and the Docker client library: the directory of
-- a path (`filepath.Dir`), and the error of each step, if it has one. The schema is created if it
-- is not there, which leaves the tables as they are.
pub mod Keeps
pub mod Run
pub mod Seeded
use overworld_ops.System.{
  ◌>>=◌, ◌>>◌, map_err, attempt, pure, act_when, Result, raise, Act, Env, World, ok, err,
}
use overworld_ops.Base.{none, some, Text, Option, text_eq, codes, List, is_empty, not, ◌&&◌}
use overworld_ops.Config.{ConfigError, Loaded, Config, loaded, refused}
use overworld_ops.Api.Auth.{SeedError, seed_admin}
use overworld_ops.Docker.Client.{DockerError, ping_daemon}
use overworld_ops.Api.Routes.{HttpRequest, serve_all}
use overworld_ops.Docker.Image.{ensure_image}

pub data OpenStep : Type 0 where
  make_directory open_database ping_database apply_schema : OpenStep

pub record Host : Type 0 where
  pub dir_of : Text → Text
  pub open_fault : OpenStep → Option Text
  pub client_fault : Text → Option Text

pub data OpenError : Type 0 where
  open_failed : OpenStep → Text → OpenError

-- `if err != nil { return nil, fmt.Errorf(…) }`
unfoldable pub open_step : Host → OpenStep → Act OpenError (Unit {0})
unfolding pure raise
open_step host step = elim (host.open_fault step) [
  | none ↦ pure tt
  | some message ↦ raise (open_failed step message)
]

-- `store.Open`
unfoldable pub open_store : Host → Text → Act OpenError (Unit {0})
unfolding open_step act_when text_eq codes is_empty
open_store host path = do
  act_when (not (is_empty (host.dir_of path)) && not (text_eq (host.dir_of path) (codes ".")))
      (open_step host make_directory)
  open_step host open_database
  open_step host ping_database
  open_step host apply_schema

pub data StartError : Type 0 where
  bad_config : ConfigError → StartError
  no_store : OpenError → StartError
  no_seed : SeedError → StartError
  no_client : Text → StartError
  no_daemon : DockerError → StartError

unfoldable pub configured : Loaded → Act StartError Config
unfolding pure raise
configured (loaded cfg) = pure cfg
configured (refused x) = raise (bad_config x)

-- `docker.New`
unfoldable pub new_client : Host → Text → Act StartError (Unit {0})
unfolding pure raise
new_client host docker_host = elim (host.client_fault docker_host) [
  | none ↦ pure tt
  | some message ↦ raise (no_client message)
]

-- `run`, from the opening of the database to the listener. An image that cannot be pulled is only
-- logged.
unfoldable pub prepare : Host → Config → Act StartError Config
unfolding new_client
prepare host cfg = do
  map_err no_store (open_store host cfg.database_url)
  map_err no_seed (seed_admin cfg.admin_username cfg.admin_password)
  new_client host cfg.docker_host
  map_err no_daemon ping_daemon
  attempt (ensure_image cfg.minecraft_image)
  pure cfg

unfoldable pub start : Host → Loaded → Act StartError Config
unfolding configured
start host given = do cfg ← configured given; prepare host cfg

-- What is served once the start has succeeded.
unfoldable pub served : Result StartError Config → Env → List HttpRequest → World → World
served (ok cfg) e rs s = serve_all cfg e rs s
served (err x) e rs s = s

-- The whole run: the start, then the requests that the listener hands on.
unfoldable pub run : Host → Loaded → Env → List HttpRequest → World → World
unfolding served
run host given e rs s = let (r, t) = start host given e s in served r e rs t
