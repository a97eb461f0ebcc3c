-- ===== src/Tests/Creation.antt =====
-- A request to create a server next to another one.
use overworld_ops.Base.{some, [], codes, Option, ◌⊎◌, pos}
use overworld_ops.Models.{CreateServerInput}
use overworld_ops.Api.Http.{serve}
use overworld_ops.Api.Servers.{handle_create_server}
use overworld_ops.Api.Answers.{Refused}
use overworld_ops.Api.Servers.Creates.Answer.{IsCreation, handle_create_server-Creates}
use overworld_ops.Tests.Samples.{calm, world, config, friend}

abbrev wanted : Option CreateServerInput
wanted = some (record {
  name = codes " Lobby ";
  server_type = [];
  version = [];
  modpack_provider = [];
  modpack_id = [];
  memory = [];
  cpu_limit = pos 0;
})

handle_create_server-Creates_example :
    IsCreation config friend wanted calm world
      (serve (handle_create_server config friend wanted) calm world).0
      (serve (handle_create_server config friend wanted) calm world).1
    ⊎ Refused world
        (serve (handle_create_server config friend wanted) calm world).0
        (serve (handle_create_server config friend wanted) calm world).1
handle_create_server-Creates_example = handle_create_server-Creates config friend wanted calm world
