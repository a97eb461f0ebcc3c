-- ===== src/Api/Routes.antt =====
-- `Server.Routes` of backend/internal/api/server.go: the table of endpoints, the gate in front of
-- each, and the handler behind it.
--
-- A path is the list of its segments, and the `{id}` of a pattern is one segment that is not
-- empty. `net/http` answers 404 to a path that no pattern has and 405 to a path that one has under
-- another method, with a text of its own; HEAD is served by a GET pattern. A path that is not clean
-- is redirected whatever the method is, but for CONNECT, which is left out here.
use overworld_ops.Base.{
  Bool, true, false, List, [], ◌∷◌, Option, none, some, Text, codes, text_eq, is_empty,
  if◌then◌else◌, not, ◌&&◌,
}
use overworld_ops.Api.Paths.{is_clean}
use overworld_ops.Models.{User, CreateServerInput}
use overworld_ops.Config.{Config}
use overworld_ops.Docker.Client.{ping_daemon}
use overworld_ops.System.{Result, ok, err, pure, ◌>>=◌, attempt, Env, World}
use overworld_ops.Api.Http.{Request, Response, Handler, Body, reply}
use overworld_ops.Api.Servers.{
  handle_list_servers, handle_get_server, handle_create_server, handle_update_server,
  handle_delete_server, handle_start_server, handle_stop_server,
}
use overworld_ops.Api.Console.{handle_server_logs}
use overworld_ops.Api.Auth.{
  Credentials, require_auth, require_admin, handle_register, handle_login, handle_logout, handle_me,
}
use overworld_ops.Api.Admin.{
  CreateUserInput, UpdateUserInput, handle_list_users, handle_create_user, handle_update_user,
  handle_delete_user,
}

pub data Method : Type 0 where
  get head post patch delete options other : Method

pub data Endpoint : Type 0 where
  health register login logout me : Endpoint
  list_servers create_server get_server update_server delete_server : Endpoint
  start_server stop_server server_logs : Endpoint
  list_users create_user update_user delete_user : Endpoint

pub data Segment : Type 0 where
  literal : Text → Segment
  id : Segment

pub record Route : Type 0 where
  pub method : Method
  pub pattern : List Segment
  pub endpoint : Endpoint

abbrev auth_path : Text → List Segment
auth_path last = literal (codes "api") ∷ literal (codes "auth") ∷ literal last ∷ []

abbrev servers_path : List Segment → List Segment
servers_path rest = literal (codes "api") ∷ literal (codes "servers") ∷ rest

abbrev users_path : List Segment → List Segment
users_path rest = literal (codes "api") ∷ literal (codes "admin") ∷ literal (codes "users") ∷ rest

abbrev route : Method → List Segment → Endpoint → Route
route m p e = record { method = m; pattern = p; endpoint = e }

-- The `mux.HandleFunc` lines, in their order.
unfoldable pub routes : List Route
unfolding codes
routes =
    route get (literal (codes "api") ∷ literal (codes "health") ∷ []) health
    ∷ route post (auth_path (codes "register")) register
    ∷ route post (auth_path (codes "login")) login
    ∷ route post (auth_path (codes "logout")) logout
    ∷ route get (auth_path (codes "me")) me
    ∷ route get (servers_path []) list_servers
    ∷ route post (servers_path []) create_server
    ∷ route get (servers_path (id ∷ [])) get_server
    ∷ route patch (servers_path (id ∷ [])) update_server
    ∷ route delete (servers_path (id ∷ [])) delete_server
    ∷ route post (servers_path (id ∷ literal (codes "start") ∷ [])) start_server
    ∷ route post (servers_path (id ∷ literal (codes "stop") ∷ [])) stop_server
    ∷ route get (servers_path (id ∷ literal (codes "logs") ∷ [])) server_logs
    ∷ route get (users_path []) list_users
    ∷ route post (users_path []) create_user
    ∷ route patch (users_path (id ∷ [])) update_user
    ∷ route delete (users_path (id ∷ [])) delete_user
    ∷ []

-- The value of `{id}`, empty if the pattern has none; `none` if the path does not fit.
unfoldable pub match : List Segment → List Text → Option Text
unfolding text_eq
match [] [] = some []
match [] (s ∷ path) = none
match (g ∷ pattern) [] = none
match (literal l ∷ pattern) (s ∷ path) =
    let rest = match pattern path in if text_eq l s then rest else none
match (id ∷ pattern) (s ∷ path) = elim (match pattern path) [
  | none ↦ none
  | some _ ↦ if is_empty s then none else some s
]

-- Whether a pattern of method `m` serves a request of method `r`.
unfoldable pub serves : Method → Method → Bool
serves get get = true
serves get head = true
serves post post = true
serves patch patch = true
serves delete delete = true
serves _ _ = false

pub data Routed : Type 0 where
  found : Endpoint → Text → Routed
  no_path wrong_method moved : Routed

unfoldable pub find_route : List Route → Method → List Text → Bool → Routed
unfolding match serves
find_route [] m path known = if known then wrong_method else no_path
find_route (r ∷ rest) m path known = elim (match r.pattern path) [
  | none ↦ find_route rest m path known
  | some value ↦ elim (serves r.method m) [
    | true ↦ found r.endpoint value
    | false ↦ find_route rest m path true
  ]
]

-- The decoded body of a request, for each endpoint that reads one.
pub record Payload : Type 0 where
  pub credentials : Option Credentials
  pub new_server : Option CreateServerInput
  pub rename : Option (Option Text)
  pub new_user : Option CreateUserInput
  pub user_change : Option UpdateUserInput

unfoldable pub health_reply : {E A : Type 0} → Result E A → Response
health_reply (ok a) = reply 200 (Body.health true)
health_reply (err x) = reply 503 (Body.health false)

-- `handleHealth`
unfoldable pub handle_health : Handler
unfolding health_reply
handle_health = do pinged ← attempt ping_daemon; pure (health_reply pinged)

module _ (cfg : Config) (req : Request) (payload : Payload) where
  -- `s.requireAuth(next)` and `s.requireAdmin(next)`
  abbrev authenticated : (User → Handler) → Handler
  authenticated next = do u ← require_auth cfg req; next u

  abbrev as_admin : (User → Handler) → Handler
  as_admin next = do u ← require_admin cfg req; next u

  unfoldable pub handle : Endpoint → Handler
  handle health = handle_health
  handle register = handle_register cfg payload.credentials
  handle login = handle_login cfg payload.credentials
  handle logout = handle_logout cfg
  handle me = authenticated handle_me
  handle list_servers = authenticated (handle_list_servers cfg)
  handle create_server = authenticated (λ u. handle_create_server cfg u payload.new_server)
  handle get_server = authenticated (λ u. handle_get_server cfg u req)
  handle update_server = authenticated (λ u. handle_update_server cfg u req payload.rename)
  handle delete_server = authenticated (λ u. handle_delete_server u req)
  handle start_server = authenticated (λ u. handle_start_server cfg u req)
  handle stop_server = authenticated (λ u. handle_stop_server cfg u req)
  handle server_logs = authenticated (λ u. handle_server_logs u req)
  handle list_users = as_admin (λ _. handle_list_users)
  handle create_user = as_admin (λ _. handle_create_user payload.new_user)
  handle update_user = as_admin (λ u. handle_update_user u req payload.user_change)
  handle delete_user = as_admin (λ u. handle_delete_user u req)

pub record HttpRequest : Type 0 where
  pub method : Method
  pub path : List Text
  pub origin : Text
  pub query : Text → Text
  pub cookie : Option Text
  pub payload : Payload

-- Whether `withCORS` sets its headers.
unfoldable pub cors_allowed : Config → HttpRequest → Bool
unfolding text_eq is_empty
cors_allowed cfg r = not (is_empty cfg.cors_origin) && text_eq r.origin cfg.cors_origin

unfoldable pub is_options : Method → Bool
is_options options = true
is_options _ = false

unfoldable pub respond : Config → HttpRequest → Routed → Handler
unfolding pure
respond cfg r (found endpoint value) =
    handle cfg (record { id = value; query = r.query; cookie = r.cookie }) r.payload endpoint
respond cfg r no_path = pure (reply 404 Body.plain)
respond cfg r wrong_method = pure (reply 405 Body.plain)
respond cfg r moved = λ e s. (ok (reply (e.redirect_status r.path) Body.plain), s)

-- `withCORS` and the mux: a preflight is answered before the routes are looked at.
unfoldable pub dispatch : Config → HttpRequest → Handler
unfolding is_options is_clean find_route routes respond pure
dispatch cfg r =
    if is_options r.method
    then pure (reply 204 Body.nothing)
    else respond cfg r (if is_clean r.path then find_route routes r.method r.path false else moved)

-- The state after a list of requests, one after the other.
unfoldable pub serve_all : Config → Env → List HttpRequest → World → World
serve_all cfg e [] s = s
serve_all cfg e (r ∷ rest) s = serve_all cfg e rest (dispatch cfg r e s).1
