-- ===== src/Api/Keeps/Endpoints.antt =====
-- Every request keeps an invariant of the tables.
use overworld_ops.Base.{[], List, ◌∷◌, Text}
use overworld_ops.Docker.Keeps.{docker_keeps}
use overworld_ops.System.{World, Env, ◌>>=◌}
use overworld_ops.System.Keeps.{Keeps, keeps_rules, Keeps-bind}
use overworld_ops.Store.Keeps.{TableInvariant, FullInvariant}
use overworld_ops.Ports.Keeps.{IsInRange}
use overworld_ops.Api.Http.{Request, Handler}
use overworld_ops.Api.Routes.{
  Endpoint, Payload, HttpRequest, Routed, handle, respond, dispatch, serve_all, handle_health,
}
use overworld_ops.Api.Keeps.{shared_keeps, Server, Config, User, List, ◌∷◌, Text}
use overworld_ops.Models.{Server, User}
use overworld_ops.Config.{Config}
use overworld_ops.Api.Console.{handle_server_logs}
use overworld_ops.Api.Keeps.Accounts.{
  handle_register-Keeps, handle_login-Keeps, handle_logout-Keeps, handle_me-Keeps,
  require_auth-Keeps, require_admin-Keeps, handle_list_users-Keeps, handle_create_user-Keeps,
  handle_update_user-Keeps, handle_delete_user-Keeps,
}
use overworld_ops.Api.Auth.{require_auth, require_admin, handle_me}
use overworld_ops.Api.Keeps.Servers.{
  handle_list_servers-Keeps, handle_create_server-Keeps, handle_get_server-Keeps,
  handle_update_server-Keeps, handle_delete_server-Keeps, handle_start_server-Keeps,
  handle_stop_server-Keeps,
}
use overworld_ops.Api.Servers.{handle_create_server, handle_delete_server}
use overworld_ops.Api.Admin.{handle_update_user, handle_delete_user}

-- What has to be known of the endpoints whose writes an invariant may not survive.
pub record Special (P : World → Type 0) (cfg : Config) (req : Request) (payload : Payload)
    : Type 0 where
  pub create_ok : (u : User) → Keeps P (handle_create_server cfg u payload.new_server)
  pub delete_ok : (u : User) → Keeps P (handle_delete_server u req)
  pub update_user_ok :
      Keeps P (require_admin cfg req >>= λ u. handle_update_user u req payload.user_change)
  pub delete_user_ok : Keeps P (require_admin cfg req >>= λ u. handle_delete_user u req)

-- The request that a handler gets, for a value of `{id}`.
abbrev pub request_of : HttpRequest → Text → Request
request_of r value = record { id = value; query = r.query; cookie = r.cookie }

abbrev pub AllSpecial : (World → Type 0) → Config → List HttpRequest → Type 0
AllSpecial P cfg [] = Unit
AllSpecial P cfg (r ∷ rs) =
    ((value : Text) → Special P cfg (request_of r value) r.payload) × AllSpecial P cfg rs

module _ {P : World → Type 0} (inv : TableInvariant P) (cfg : Config) where
  handle_server_logs-Keeps : (u : User) (req : Request) → Keeps P (handle_server_logs u req)
  unfolding handle_server_logs
  handle_server_logs-Keeps u req =
      search (keeps_rules, docker_keeps, shared_keeps, inv, inv.of_tables) depth 8

  handle_health-Keeps : Keeps P handle_health
  unfolding handle_health
  handle_health-Keeps = search (keeps_rules, docker_keeps, inv.of_tables) depth 8

  authenticated-Keeps :
      (req : Request) (next : User → Handler)
      → ((u : User) → Keeps P (next u))
      → Keeps P (require_auth cfg req >>= next)
  authenticated-Keeps req next k = Keeps-bind _ next (require_auth-Keeps inv cfg req) k

  pub as_admin-Keeps :
      (req : Request) (next : User → Handler)
      → ((u : User) → Keeps P (next u))
      → Keeps P (require_admin cfg req >>= next)
  as_admin-Keeps req next k = Keeps-bind _ next (require_admin-Keeps inv cfg req) k

  handle-Keeps :
      (req : Request) (payload : Payload) (p : Endpoint)
      → Special P cfg req payload
      → Keeps P (handle cfg req payload p)
  unfolding handle
  handle-Keeps req payload Endpoint.health special = handle_health-Keeps
  handle-Keeps req payload Endpoint.register special =
      handle_register-Keeps inv cfg payload.credentials
  handle-Keeps req payload Endpoint.login special = handle_login-Keeps inv cfg payload.credentials
  handle-Keeps req payload Endpoint.logout special = handle_logout-Keeps inv cfg
  handle-Keeps req payload Endpoint.me special =
      authenticated-Keeps req handle_me (handle_me-Keeps inv)
  handle-Keeps req payload Endpoint.list_servers special =
      authenticated-Keeps req _ (handle_list_servers-Keeps inv cfg)
  handle-Keeps req payload Endpoint.create_server special =
      authenticated-Keeps req _ special.create_ok
  handle-Keeps req payload Endpoint.get_server special =
      authenticated-Keeps req _ (λ u. handle_get_server-Keeps inv cfg u req)
  handle-Keeps req payload Endpoint.update_server special =
      authenticated-Keeps req _ (λ u. handle_update_server-Keeps inv cfg u req payload.rename)
  handle-Keeps req payload Endpoint.delete_server special =
      authenticated-Keeps req _ special.delete_ok
  handle-Keeps req payload Endpoint.start_server special =
      authenticated-Keeps req _ (λ u. handle_start_server-Keeps inv cfg u req)
  handle-Keeps req payload Endpoint.stop_server special =
      authenticated-Keeps req _ (λ u. handle_stop_server-Keeps inv cfg u req)
  handle-Keeps req payload Endpoint.server_logs special =
      authenticated-Keeps req _ (λ u. handle_server_logs-Keeps u req)
  handle-Keeps req payload Endpoint.list_users special =
      as_admin-Keeps req _ (λ _. handle_list_users-Keeps inv)
  handle-Keeps req payload Endpoint.create_user special =
      as_admin-Keeps req _ (λ _. handle_create_user-Keeps inv payload.new_user)
  handle-Keeps req payload Endpoint.update_user special = special.update_user_ok
  handle-Keeps req payload Endpoint.delete_user special = special.delete_user_ok

  respond-Keeps :
      (r : HttpRequest) (d : Routed)
      → ((value : Text) → Special P cfg (request_of r value) r.payload)
      → Keeps P (respond cfg r d)
  unfolding respond
  respond-Keeps r (Routed.found p value) special = handle-Keeps _ r.payload p (special value)
  respond-Keeps r Routed.no_path special = search keeps_rules
  respond-Keeps r Routed.wrong_method special = search keeps_rules
  respond-Keeps r Routed.moved special = record { at = λ e s h. h }

  pub dispatch-Keeps :
      (r : HttpRequest)
      → ((value : Text) → Special P cfg (request_of r value) r.payload)
      → Keeps P (dispatch cfg r)
  unfolding dispatch
  dispatch-Keeps r special = search (keeps_rules, respond-Keeps)

  pub serve_all-Keeps :
      (e : Env) (rs : List HttpRequest) (s : World)
      → AllSpecial P cfg rs
      → P s
      → P (serve_all cfg e rs s)
  unfolding serve_all
  serve_all-Keeps e [] s special h = h
  serve_all-Keeps e (r ∷ rs) s (first, rest) h =
      serve_all-Keeps e rs (dispatch cfg r e s).1 rest ((dispatch-Keeps r first).at e s h)

pub all_special :
    {P : World → Type 0} {cfg : Config}
    → ((r : HttpRequest) (value : Text) → Special P cfg (request_of r value) r.payload)
    → (rs : List HttpRequest) → AllSpecial P cfg rs
all_special k [] = tt
all_special k (r ∷ rs) = (λ value. k r value, all_special k rs)

-- An invariant that every statement keeps is kept by all endpoints.
module _ {P : World → Type 0} {Fresh : Server → Type 0} (inv : FullInvariant P Fresh) (cfg : Config)
    (fresh : (v : Server)
      → IsInRange cfg.port_range_start cfg.port_range_end v.port
      → Fresh v) where
  pub full-Special : (req : Request) (payload : Payload) → Special P cfg req payload
  full-Special req payload = record {
    create_ok = λ u.
        handle_create_server-Keeps inv.tables cfg (λ v h. inv.insert_server_ok v (fresh v h)) u
          payload.new_server;
    delete_ok = λ u. handle_delete_server-Keeps inv.tables u req (λ _. inv.erase_ok);
    update_user_ok = as_admin-Keeps inv.tables cfg req _ (λ u.
        handle_update_user-Keeps inv.tables u req payload.user_change
          (λ id b _. inv.roles.set_role_ok id b));
    delete_user_ok =
        as_admin-Keeps inv.tables cfg req _
          (λ u. handle_delete_user-Keeps inv.tables u req (λ id _. inv.roles.delete_user_ok id));
  }

  pub serve_all-FullInvariant :
      (e : Env) (rs : List HttpRequest) (s : World) → P s → P (serve_all cfg e rs s)
  serve_all-FullInvariant e rs s h =
      serve_all-Keeps inv.tables cfg e rs s
        (all_special (λ r value. full-Special (request_of r value) r.payload) rs) h
