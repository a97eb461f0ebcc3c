-- ===== src/Tests/Starting.antt =====
-- The owner of a server starts it, and stops it.
use overworld_ops.Base.{none, [], ◌∷◌, ◌⊎◌, ◌≡◌, refl, count_where}
use overworld_ops.Api.Http.{Request, serve}
use overworld_ops.Api.Servers.{handle_stop_server}
use overworld_ops.Api.Servers.Stops.{Stopped, NotStopped, handle_stop_server-Stops}
use overworld_ops.Store.Present.{is_other}
use overworld_ops.Store.Sql.{has_port}
use overworld_ops.Tests.Samples.{calm, world, config, friend}

abbrev smp_request : Request
smp_request = record { id = 7 ∷ []; query = λ k. []; cookie = none }

handle_stop_server-Stops_example :
    (Stopped friend smp_request world
        (serve (handle_stop_server config friend smp_request) calm world).0
        (serve (handle_stop_server config friend smp_request) calm world).1
      ⊎ NotStopped friend smp_request world
          (serve (handle_stop_server config friend smp_request) calm world).0
          (serve (handle_stop_server config friend smp_request) calm world).1)
    × (count_where
          (is_other smp_request.id (has_port 25565))
          (serve (handle_stop_server config friend smp_request) calm world).1.servers
        ≡ count_where (is_other smp_request.id (has_port 25565)) world.servers)
handle_stop_server-Stops_example =
    handle_stop_server-Stops config friend smp_request calm world (has_port 25565) (λ n. refl)
