-- ===== src/Tests/Traffic.antt =====
-- What holds under traffic, on a request to delete a server and one to register.
use overworld_ops.Base.{
  refl, some, [], ◌∷◌, codes, List, count_where, text_eq, ◌≡◌, ◌≤◌, arith, false, Option, Text,
  trim_space, not, ltb, true, skip_space, space_width, space_width_back, is_space1, is_space2,
  is_space3,
}
use overworld_ops.Api.Routes.{HttpRequest, Method, serve_all}
use overworld_ops.Api.Session.{issue_session, token_of, parse_session, signed_token}
use overworld_ops.Tests.Samples.{register_request, calm, config, no_payload, world}
use overworld_ops.Api.Registry.Admins.{HasAdmin, serve_all-HasAdmin}
use overworld_ops.Api.Registry.Volumes.{removals, serve_all-removals}
use overworld_ops.Api.Registry.Capacity.{server_count, serve_all-server_count}
use overworld_ops.Api.Session.Plain.{has_bar}
use overworld_ops.System.{ok, ◌>>=◌, World, stop_if, ask, map_err, pure, raise}
use overworld_ops.Api.Session.RoundTrip.{parse_session-issue_session}
use overworld_ops.Api.Http.{Response, Request, session, Body, decoded, user_json}
use overworld_ops.Store.Sql.{time_now, exec, query, new_uuid, insert_user}
use overworld_ops.Api.Auth.{
  Credentials, require_auth, handle_register, accepted, hash_password, some_or, valid_credentials,
  validate_credentials,
}
use overworld_ops.Models.{User}
use overworld_ops.Api.Registration.SignedIn.{handle_register-require_auth}
use overworld_ops.Store.Users.{any_user_exists, create_user}

abbrev delete_request : HttpRequest
delete_request = record {
  method = Method.delete;
  path = codes "api" ∷ codes "servers" ∷ (7 ∷ []) ∷ [];
  origin = [];
  query = λ k. [];
  cookie = some (token_of calm (codes "secret") (2 ∷ []) 100);
  payload = no_payload;
}

abbrev traffic : List HttpRequest
traffic = register_request ∷ delete_request ∷ []

serve_all-HasAdmin_example : HasAdmin (serve_all config calm traffic world)
unfolding count_where
serve_all-HasAdmin_example = serve_all-HasAdmin config calm traffic world (omega arith)

serve_all-removals_example : removals (serve_all config calm traffic world) ≡ removals world
unfolding text_eq codes
serve_all-removals_example = serve_all-removals config calm traffic world (refl, (refl, tt))

serve_all-server_count_example : server_count (serve_all config calm traffic world) ≤ 2
unfolding count_where
serve_all-server_count_example = serve_all-server_count config calm traffic world (omega arith)

parse_session-issue_session_example :
    (parse_session config (some (token_of calm (codes "secret") (2 ∷ []) 2592000)) calm world).0
    ≡ ok (2 ∷ [])
unfolding issue_session has_bar ◌>>=◌ time_now signed_token
parse_session-issue_session_example =
    parse_session-issue_session {E = Response} config calm (2 ∷ []) world world
      (token_of calm (codes "secret") (2 ∷ []) 2592000) 2592000 false refl (omega arith) refl
      (λ key message. omega arith) (omega arith) (omega arith)

abbrev new_account : Option Credentials
new_account = some (record { username = codes " steve "; password = codes "password" })

abbrev with_cookie : Text → Request
with_cookie token = record { id = []; query = λ k. []; cookie = some token }

-- No account and no server.
abbrev empty : World
empty = record { users = []; servers = []; calls = []; ticks = 0 }

abbrev steve_token : Text
steve_token = token_of calm (codes "secret") (2 ∷ 9 ∷ []) 2592000

abbrev registered : Response
registered = record {
  status = 201;
  body =
      Body.user
        (record { id = 2 ∷ 9 ∷ []; username = codes "steve"; is_admin = true; created_at = 3 });
  cookie = some (session steve_token 2592000 false);
}

handle_register-require_auth_example :
    (given : Credentials) × (u : User) × (new_account ≡ some given)
    × ((require_auth config
          (with_cookie steve_token)
          calm
          (handle_register config new_account calm empty).1).0
        ≡ ok u)
    × (u.username ≡ trim_space given.username)
    × (u.is_admin ≡ not (ltb 0 (count_where (λ (u : User). true) empty.users)))
unfolding handle_register ◌>>=◌ stop_if decoded trim_space codes ask map_err any_user_exists exec
    query create_user new_uuid time_now insert_user count_where issue_session accepted hash_password
    some_or valid_credentials validate_credentials user_json signed_token skip_space space_width
    space_width_back is_space1 is_space2 is_space3 text_eq pure raise has_bar
handle_register-require_auth_example =
    handle_register-require_auth config new_account calm empty
      (handle_register config new_account calm empty).1 (with_cookie steve_token) registered
      steve_token 2592000 false refl refl refl refl (λ n. refl) (λ n. (omega arith, ground arith))
      (λ k m. omega arith) (omega arith) (omega arith)
