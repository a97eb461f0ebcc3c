-- ===== src/Tests/Listings.antt =====
-- An account asks for its servers.
use overworld_ops.Base.{◌⊎◌, refl, is_empty}
use overworld_ops.Api.Answers.{Refused}
use overworld_ops.Api.Http.{serve}
use overworld_ops.Api.Servers.{handle_list_servers}
use overworld_ops.Api.Servers.Lists.{IsListing, handle_list_servers-Lists}
use overworld_ops.Tests.Samples.{calm, world, config, friend}

handle_list_servers-Lists_example :
    IsListing config friend calm world
      (serve (handle_list_servers config friend) calm world).0
      (serve (handle_list_servers config friend) calm world).1
    ⊎ Refused world
        (serve (handle_list_servers config friend) calm world).0
        (serve (handle_list_servers config friend) calm world).1
unfolding is_empty
handle_list_servers-Lists_example = handle_list_servers-Lists config friend calm world refl
