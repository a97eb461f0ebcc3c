-- ===== src/Api/Keeps.antt =====
-- The steps that the handlers share keep an invariant of the tables.
pub mod Servers
pub mod Accounts
pub mod Endpoints
use overworld_ops.Base.{[], Bool, List, Text, none, some, Option, ◌∷◌, ℤ}
use overworld_ops.Models.{Server, User}
use overworld_ops.Config.{Config}
use overworld_ops.Docker.Keeps.{docker_keeps}
use overworld_ops.Docker.Client.{DockerError}
use overworld_ops.System.{Result, ok, err, World}
use overworld_ops.System.Keeps.{Keeps, OfTables, Keeps-ask, keeps_rules}
use overworld_ops.Store.Keeps.{TableInvariant, Keeps-time_now, RowInvariant}
use overworld_ops.Store.Methods.{store_keeps, row_keeps}
use overworld_ops.Api.Http.{Request, Response, decoded}
use overworld_ops.Api.Session.{
  parse_session, verified, unexpired, decoded_cookie, issue_session, split_bar, signed_token,
}
use overworld_ops.Api.Views.{lookup, view, views, fail_server, clear_stale, recreate_container}
use overworld_ops.Api.Base64.{decode}

module _ {P : World → Type 0} where
  pub decoded-Keeps : {A : Type 0} (o : Option A) → Keeps P (decoded o)
  unfolding decoded
  decoded-Keeps none = search keeps_rules
  decoded-Keeps (some a) = search keeps_rules

module _ {P : World → Type 0} (inv : TableInvariant P) where
  tables : OfTables P
  tables = inv.of_tables

  pub lookup-Keeps : (u : User) (req : Request) → Keeps P (lookup u req)
  unfolding lookup
  lookup-Keeps u req = search (keeps_rules, store_keeps, inv) depth 8

  unexpired-Keeps : (id : Text) (o : Option ℤ) → Keeps P (unexpired id o)
  unfolding unexpired
  unexpired-Keeps id none = search keeps_rules
  unexpired-Keeps id (some n) = search (keeps_rules, Keeps-time_now, tables) depth 8

  verified-Keeps : (cfg : Config) (parts : List Text) → Keeps P (verified cfg parts)
  unfolding verified
  verified-Keeps cfg (a ∷ b ∷ c ∷ []) =
      search (keeps_rules, unexpired-Keeps, Keeps-ask, tables) depth 8
  verified-Keeps cfg [] = search keeps_rules
  verified-Keeps cfg (a ∷ []) = search keeps_rules
  verified-Keeps cfg (a ∷ b ∷ []) = search keeps_rules
  verified-Keeps cfg (a ∷ b ∷ c ∷ d ∷ l) = search keeps_rules

  decoded_cookie-Keeps : (cfg : Config) (raw : Option Text) → Keeps P (decoded_cookie cfg raw)
  unfolding decoded_cookie
  decoded_cookie-Keeps cfg none = search keeps_rules
  decoded_cookie-Keeps cfg (some raw) = verified-Keeps cfg (split_bar raw)

  pub parse_session-Keeps : (cfg : Config) (value : Option Text) → Keeps P (parse_session cfg value)
  unfolding parse_session
  parse_session-Keeps cfg none = search keeps_rules
  parse_session-Keeps cfg (some value) = decoded_cookie-Keeps cfg (decode value)

  pub issue_session-Keeps :
      {E : Type 0} (cfg : Config) (id : Text) → Keeps P (issue_session {E = E} cfg id)
  unfolding issue_session signed_token
  issue_session-Keeps cfg id = search (keeps_rules, Keeps-time_now, Keeps-ask, tables) depth 10

-- The steps on one record.
module _ {P : World → Type 0} (tables : OfTables P) where
  pub view-Keeps : {E : Type 0} (cfg : Config) (v : Server) → Keeps P (view {E = E} cfg v)
  unfolding view
  view-Keeps cfg v = search (keeps_rules, docker_keeps, tables) depth 8

  pub views-Keeps : {E : Type 0} (cfg : Config) (l : List Server) → Keeps P (views {E = E} cfg l)
  unfolding views
  views-Keeps cfg [] = search keeps_rules
  views-Keeps cfg (v ∷ l) =
      let rest = λ (E : Type 0). views-Keeps {E = E} cfg l in
      search (keeps_rules, view-Keeps) depth 8

  pub fail_server-Keeps :
      {E : Type 0} (v : Server) (x : DockerError)
      → RowInvariant P v.id
      → Keeps P (fail_server {E = E} v x)
  unfolding fail_server
  fail_server-Keeps v x row = search (keeps_rules, row_keeps, tables) depth 8

  pub clear_stale-Keeps : (v : Server) → Keeps P (clear_stale v)
  unfolding clear_stale
  clear_stale-Keeps v = search (keeps_rules, docker_keeps, tables) depth 8

  pub recreate_container-Keeps :
      (cfg : Config) (v : Server) → RowInvariant P v.id → Keeps P (recreate_container cfg v)
  unfolding recreate_container
  recreate_container-Keeps cfg v row =
      search (keeps_rules, clear_stale-Keeps, docker_keeps, tables, row_keeps) depth 12

pub ruleset shared_keeps = (
  decoded-Keeps, lookup-Keeps, view-Keeps, views-Keeps, fail_server-Keeps, recreate_container-Keeps,
  parse_session-Keeps, issue_session-Keeps,
)
