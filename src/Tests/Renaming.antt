-- ===== src/Tests/Renaming.antt =====
-- The owner of a server gives it another name.
use overworld_ops.Base.{none, some, [], ◌∷◌, ◌⊎◌, codes, Option, Text}
use overworld_ops.Api.Http.{Request, serve}
use overworld_ops.Api.Answers.{Refused}
use overworld_ops.Api.Servers.{handle_update_server}
use overworld_ops.Api.Servers.Renames.{IsRenamed, handle_update_server-Renames}
use overworld_ops.Tests.Samples.{calm, world, config, friend}

abbrev smp_request : Request
smp_request = record { id = 7 ∷ []; query = λ k. []; cookie = none }

abbrev new_name : Option (Option Text)
new_name = some (some (codes " Lobby "))

handle_update_server-Renames_example :
    IsRenamed config friend smp_request new_name calm world
      (serve (handle_update_server config friend smp_request new_name) calm world).0
      (serve (handle_update_server config friend smp_request new_name) calm world).1
    ⊎ Refused world
        (serve (handle_update_server config friend smp_request new_name) calm world).0
        (serve (handle_update_server config friend smp_request new_name) calm world).1
handle_update_server-Renames_example =
    handle_update_server-Renames config friend smp_request new_name calm world
