-- ===== src/Api/Shape/Dispatch.antt =====
-- Every answer has a fitting body.
use overworld_ops.Base.{leb, List, Text, Bool-cases, inl, inr, Option, refl, true, ◌≡◌}
use overworld_ops.Models.{Server, User, CreateServerInput}
use overworld_ops.Config.{Config}
use overworld_ops.Docker.Client.{DockerError}
use overworld_ops.System.{Result, ok, err, Env, World, pure}
use overworld_ops.System.Raises.{Replies, BothMeet, replies_rules}
use overworld_ops.Api.Http.{Request, Response, serve, final}
use overworld_ops.Api.Auth.{handle_register, handle_login, handle_logout, handle_me, matches}
use overworld_ops.Api.Admin.{
  handle_list_users, handle_create_user, handle_update_user, handle_delete_user, delete_target,
}
use overworld_ops.Api.Servers.{
  handle_list_servers, handle_get_server, handle_create_server, handle_update_server,
  handle_delete_server, handle_start_server, handle_stop_server, insert_made, finish_create,
  finish_start,
}
use overworld_ops.Api.Console.{handle_server_logs}
use overworld_ops.Api.Routes.{
  Endpoint, Payload, handle, handle_health, health_reply, HttpRequest, Routed, found, no_path,
  moved, is_options, wrong_method, respond, dispatch,
}
use overworld_ops.Api.Shape.{Fits, fits_body}
use overworld_ops.Api.Shape.Steps.{step_raises, require_auth-Raises, require_admin-Raises}

health_reply-Fits : {E A : Type 0} (r : Result E A) → Fits (health_reply r)
unfolding health_reply
health_reply-Fits (ok a) = refl
health_reply-Fits (err x) = refl

handle_health-Replies : Replies Fits handle_health
unfolding handle_health
handle_health-Replies = search (replies_rules, health_reply-Fits)

finish_create-Replies :
    (cfg : Config) (v : Server) (made : Result DockerError Text)
    → Replies Fits (finish_create cfg v made)
unfolding finish_create
finish_create-Replies cfg v (ok id) = search (replies_rules, step_raises)
finish_create-Replies cfg v (err x) = search (replies_rules, step_raises)

finish_start-Replies :
    (cfg : Config) (v : Server) (r : Result DockerError (Unit {0}))
    → Replies Fits (finish_start cfg v r)
unfolding finish_start
finish_start-Replies cfg v (ok _) = search (replies_rules, step_raises) depth 8
finish_start-Replies cfg v (err x) = search (replies_rules, step_raises)

handle_create_server-Replies :
    (cfg : Config) (u : User) (input : Option CreateServerInput)
    → Replies Fits (handle_create_server cfg u input)
unfolding handle_create_server insert_made
handle_create_server-Replies cfg u input =
    search (replies_rules, step_raises, finish_create-Replies) depth 12

module _ (cfg : Config) (req : Request) (payload : Payload) where
  handle-Replies : (p : Endpoint) → Replies Fits (handle cfg req payload p)
  unfolding handle handle_list_servers handle_get_server handle_update_server handle_delete_server
      handle_start_server handle_stop_server handle_server_logs handle_register handle_login
      handle_logout handle_me handle_list_users handle_create_user handle_update_user
      handle_delete_user delete_target matches
  handle-Replies Endpoint.health = handle_health-Replies
  handle-Replies Endpoint.register = search (replies_rules, step_raises) depth 12
  handle-Replies Endpoint.login = search (replies_rules, step_raises) depth 12
  handle-Replies Endpoint.logout = search replies_rules
  handle-Replies Endpoint.me = search (replies_rules, require_auth-Raises)
  handle-Replies Endpoint.list_servers =
      search (replies_rules, step_raises, require_auth-Raises) depth 12
  handle-Replies Endpoint.create_server =
      search (replies_rules, require_auth-Raises, handle_create_server-Replies)
  handle-Replies Endpoint.get_server =
      search (replies_rules, step_raises, require_auth-Raises) depth 12
  handle-Replies Endpoint.update_server =
      search (replies_rules, step_raises, require_auth-Raises) depth 14
  handle-Replies Endpoint.delete_server =
      search (replies_rules, step_raises, require_auth-Raises) depth 12
  handle-Replies Endpoint.start_server =
      search (replies_rules, step_raises, require_auth-Raises, finish_start-Replies) depth 12
  handle-Replies Endpoint.stop_server =
      search (replies_rules, step_raises, require_auth-Raises) depth 14
  handle-Replies Endpoint.server_logs =
      search (replies_rules, step_raises, require_auth-Raises) depth 12
  handle-Replies Endpoint.list_users =
      search (replies_rules, step_raises, require_admin-Raises) depth 12
  handle-Replies Endpoint.create_user =
      search (replies_rules, step_raises, require_admin-Raises) depth 12
  handle-Replies Endpoint.update_user =
      search (replies_rules, step_raises, require_admin-Raises) depth 12
  handle-Replies Endpoint.delete_user =
      search (replies_rules, step_raises, require_admin-Raises) depth 14

-- The status of a redirect is 300 or above.
abbrev pub IsRedirecting : Env → Type 0
IsRedirecting e = (path : List Text) → leb 300 (e.redirect_status path) ≡ true

module _ (cfg : Config) (r : HttpRequest) (e : Env) (s : World) (redirects : IsRedirecting e) where
  respond-BothMeet : (at : Routed) → BothMeet Fits (respond cfg r at e s).0
  unfolding respond pure
  respond-BothMeet (found p value) = (handle-Replies cfg _ _ p).at e s
  respond-BothMeet no_path = refl
  respond-BothMeet wrong_method = refl
  respond-BothMeet moved = redirects r.path

  dispatch-BothMeet : BothMeet Fits (dispatch cfg r e s).0
  unfolding dispatch pure
  dispatch-BothMeet = elim (Bool-cases (is_options r.method)) [
    | inl preflight ↦ rw preflight refl
    | inr other ↦ rw other (respond-BothMeet _)
  ]

final-Fits : (r : Result Response Response) → BothMeet Fits r → Fits (final r)
final-Fits (ok r) h = h
final-Fits (err r) h = h

-- Whatever the request is and whatever fails, the body that is written fits the status, if the mux
-- redirects with a status of 300 or above: an error has a status of 400 or above, a server one below
-- 300 or 500, the health 200 or 503, what the mux answers by itself 300 or above, and any other body
-- one below 300; of the answers that the program writes, the 204 and no other comes without a body.
pub dispatch-Fits :
    (cfg : Config) (r : HttpRequest) (e : Env) (s : World)
    → IsRedirecting e
    → fits_body (serve (dispatch cfg r) e s).0.body (serve (dispatch cfg r) e s).0.status ≡ true
unfolding serve
dispatch-Fits cfg r e s redirects = final-Fits _ (dispatch-BothMeet cfg r e s redirects)
