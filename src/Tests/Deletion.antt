-- ===== src/Tests/Deletion.antt =====
-- The owner of a server deletes it.
use overworld_ops.Base.{none, [], ◌∷◌, ◌⊎◌}
use overworld_ops.Api.Http.{serve, Request}
use overworld_ops.Api.Servers.{handle_delete_server}
use overworld_ops.Api.Servers.Deletes.{IsDeletion, IsFailure, handle_delete_server-Deletes}
use overworld_ops.Tests.Samples.{calm, world, friend}

abbrev smp_request : Request
smp_request = record { id = 7 ∷ []; query = λ k. []; cookie = none }

handle_delete_server-Deletes_example :
    IsDeletion friend smp_request calm world
      (serve (handle_delete_server friend smp_request) calm world).0
      (serve (handle_delete_server friend smp_request) calm world).1
    ⊎ IsFailure friend smp_request calm world
        (serve (handle_delete_server friend smp_request) calm world).0
        (serve (handle_delete_server friend smp_request) calm world).1
handle_delete_server-Deletes_example = handle_delete_server-Deletes friend smp_request calm world
