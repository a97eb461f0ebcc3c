-- ===== src/Tests/Isolation.antt =====
-- An ordinary account, and a server of the administrator.
use overworld_ops.Base.{text_eq, parse_int, first_where, refl, some, [], ◌∷◌, codes, ◌≡◌, false}
use overworld_ops.Models.{Server}
use overworld_ops.Api.Auth.{require_auth, or_respond}
use overworld_ops.Api.Http.{Request, fails, serve}
use overworld_ops.Api.Session.{parse_session, token_of}
use overworld_ops.Api.Views.{owns_server}
use overworld_ops.Store.Users.{user_by_id, scan_user}
use overworld_ops.Store.Sql.{time_now, exec, query, has_id}
use overworld_ops.System.{World, map_err, ◌>>=◌, attempt, raise}
use overworld_ops.Tests.Samples.{calm, world, config, no_payload, friend, smp}
use overworld_ops.Api.Gate.Refusal.{IsRefused}
use overworld_ops.Api.Gate.Hidden.{handle-IsHidden}
use overworld_ops.Api.Isolation.Endpoints.{handle-Holds}
use overworld_ops.Api.Routes.{handle, Endpoint}

-- A server of the first account.
abbrev lobby : Server
lobby = record smp { id = 6 ∷ []; owner_id = 1 ∷ []; port = 25566 }

abbrev both : World
both = record world { servers = smp ∷ lobby ∷ [] }

-- The second account asks for that server.
abbrev ask_lobby : Request
ask_lobby = record {
  id = 6 ∷ [];
  query = λ k. [];
  cookie = some (token_of calm (codes "secret") (2 ∷ []) 100);
}

handle-Holds_example :
    first_where
      (has_id (6 ∷ []))
      (handle config ask_lobby no_payload Endpoint.delete_server calm both).1.servers
    ≡ some lobby
unfolding require_auth parse_session ◌>>=◌ attempt or_respond raise token_of text_eq parse_int
    time_now user_by_id map_err exec query scan_user first_where
handle-Holds_example =
    handle-Holds config ask_lobby no_payload Endpoint.delete_server calm both friend (6 ∷ []) lobby
      refl refl refl refl refl

foreign_lobby :
    (v : Server)
    → first_where (has_id (6 ∷ [])) both.servers ≡ some v
    → owns_server friend v ≡ false
unfolding first_where text_eq owns_server
foreign_lobby v found = let same : lobby ≡ v = cc in rw (← same) refl

handle-IsHidden_example :
    IsRefused
      (fails 404 "server not found")
      both
      (serve (handle config ask_lobby no_payload Endpoint.start_server) calm both)
unfolding require_auth parse_session ◌>>=◌ attempt or_respond raise token_of text_eq parse_int
    time_now user_by_id map_err exec query scan_user first_where
handle-IsHidden_example =
    handle-IsHidden config ask_lobby no_payload Endpoint.start_server calm both friend refl
      (λ n. refl) refl foreign_lobby
