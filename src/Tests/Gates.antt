-- ===== src/Tests/Gates.antt =====
-- The gates on a request without a cookie and on one of an ordinary account, and the lookup
-- of a server on a small registry.
use overworld_ops.Base.{
  text_eq, parse_int, first_where, refl, none, some, [], ◌∷◌, codes, Option, Text, ◌≡◌, true, ◌⊎◌,
}
use overworld_ops.Api.Auth.{require_auth, or_respond}
use overworld_ops.Api.Http.{Request, fails, serve}
use overworld_ops.Api.Session.{parse_session, token_of}
use overworld_ops.Store.Users.{user_by_id, scan_user}
use overworld_ops.Store.Sql.{time_now, exec, query, has_user_id, has_id}
use overworld_ops.System.{map_err, ◌>>=◌, attempt, raise, pure}
use overworld_ops.Tests.Samples.{calm, world, config, no_payload, friend, smp}
use overworld_ops.Api.Gate.Refusal.{IsRefused, handle-IsRefused, handle-IsForbidden}
use overworld_ops.Api.Routes.{handle, Endpoint}
use overworld_ops.Api.Session.Sound.{IsGood}
use overworld_ops.Api.Gate.Identity.{require_auth-IsGood}
use overworld_ops.Api.Views.{lookup, owns_server}
use overworld_ops.Store.Servers.{server_by_id, scan_server}
use overworld_ops.Api.Ownership.{lookup-owns_server}

abbrev request : Option Text → Request
request cookie = record { id = []; query = λ k. []; cookie = cookie }

handle-IsRefused_example :
    IsRefused
      (fails 401 "authentication required")
      world
      (serve (handle config (request none) no_payload Endpoint.create_server) calm world)
unfolding require_auth parse_session ◌>>=◌ attempt or_respond raise
handle-IsRefused_example =
    handle-IsRefused config (request none) no_payload Endpoint.create_server calm world
      (fails 401 "authentication required") refl refl

-- The cookie of the second account, good until second 100.
abbrev token : Text
token = token_of calm (codes "secret") (2 ∷ []) 100

handle-IsForbidden_example :
    IsRefused
      (fails 403 "admin access required")
      world
      (serve (handle config (request (some token)) no_payload Endpoint.delete_user) calm world)
unfolding require_auth parse_session ◌>>=◌ attempt or_respond raise token_of text_eq parse_int
    time_now user_by_id map_err exec query scan_user first_where
handle-IsForbidden_example =
    handle-IsForbidden config (request (some token)) no_payload Endpoint.delete_user calm world
      friend refl refl refl

require_auth-IsGood_example :
    (id : Text) × IsGood config calm world (some token) id
    × (first_where (has_user_id id) world.users ≡ some friend)
unfolding require_auth parse_session ◌>>=◌ attempt or_respond raise token_of text_eq parse_int
    time_now user_by_id map_err exec query scan_user first_where
require_auth-IsGood_example =
    require_auth-IsGood config (request (some token)) calm world friend refl

abbrev smp_request : Request
smp_request = record { id = 7 ∷ []; query = λ k. []; cookie = none }

lookup-owns_server_example :
    (first_where (has_id (7 ∷ [])) world.servers ≡ some smp)
    × ((friend.is_admin ≡ true) ⊎ (smp.owner_id ≡ friend.id))
unfolding lookup server_by_id ◌>>=◌ raise text_eq map_err exec query scan_server first_where pure
    owns_server
lookup-owns_server_example = lookup-owns_server friend smp_request calm world smp refl
