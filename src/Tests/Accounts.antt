-- ===== src/Tests/Accounts.antt =====
-- The deletion of an account that owns a server.
use overworld_ops.Base.{none, [], ◌∷◌, codes, ◌≡◌, count_where}
use overworld_ops.Store.Sql.{has_id}
use overworld_ops.Api.Http.{Request}
use overworld_ops.Api.Admin.{handle_delete_user}
use overworld_ops.Api.Admin.Deletion.{handle_delete_user-servers}
use overworld_ops.Tests.Samples.{root, world, calm}

abbrev delete_friend : Request
delete_friend = record { id = 2 ∷ []; query = λ key. codes "true"; cookie = none }

handle_delete_user-servers_example :
    count_where (has_id (7 ∷ [])) (handle_delete_user root delete_friend calm world).1.servers
    ≡ count_where (has_id (7 ∷ [])) world.servers
handle_delete_user-servers_example =
    handle_delete_user-servers root delete_friend calm world (7 ∷ [])
