-- ===== src/Tests/Startup.antt =====
-- A whole run, on a host where nothing fails and an empty database.
use overworld_ops.Base.{refl, none, [], ◌∷◌, Text, codes, is_empty, text_eq, count_where}
use overworld_ops.Config.{Config, load, raw_config, checked, env_by, loaded}
use overworld_ops.System.{World, pure, ◌>>=◌, map_err, ask, attempt, raise, act_when, send, sent}
use overworld_ops.Startup.{Host, run, start, prepare, configured, open_store, open_step, new_client}
use overworld_ops.Startup.Run.{IsSound, run-IsSound}
use overworld_ops.Startup.Seeded.{run-HasAdmin}
use overworld_ops.Api.Registry.Admins.{HasAdmin}
use overworld_ops.Api.Auth.{seed_admin, seed_first, hash_or_fail}
use overworld_ops.Store.Users.{any_user_exists, create_user}
use overworld_ops.Store.Sql.{exec, query, new_uuid, time_now, insert_user}
use overworld_ops.Docker.Client.{ping_daemon, request, wrap}
use overworld_ops.Docker.Image.{ensure_image, pull_unless, read_pull}
use overworld_ops.Tests.Samples.{calm, register_request, config}

abbrev quiet_host : Host
quiet_host = record {
  dir_of = λ path. codes ".";
  open_fault = λ step. none;
  client_fault = λ docker_host. none;
}

abbrev empty_database : World
empty_database = record { users = []; servers = []; calls = []; ticks = 0 }

abbrev unset : Text → Text
unset key = []

abbrev by_default : Config
by_default = record (raw_config unset (λ s. none) (λ s. none)) {
  port_range_start = 25565;
  port_range_end = 25665;
  max_servers = 10;
}

run-IsSound_example : IsSound by_default (
    run quiet_host (load unset (λ s. none) (λ s. none)) calm (register_request ∷ []) empty_database)
unfolding load checked env_by is_empty
run-IsSound_example =
    run-IsSound unset (λ s. none) (λ s. none) by_default quiet_host calm (register_request ∷ [])
      empty_database refl refl refl

abbrev with_root : Config
with_root = record config { admin_username = codes "root"; admin_password = codes "password" }

run-HasAdmin_example :
    HasAdmin (run quiet_host (loaded with_root) calm (register_request ∷ []) empty_database)
unfolding start configured is_empty codes ◌>>=◌ prepare map_err open_store seed_admin
    any_user_exists exec query count_where ask create_user new_uuid time_now insert_user ping_daemon
    hash_or_fail seed_first text_eq request wrap ensure_image pull_unless read_pull new_client
    open_step act_when attempt pure raise send sent
run-HasAdmin_example =
    run-HasAdmin quiet_host with_root calm (register_request ∷ []) empty_database refl refl refl
      refl
