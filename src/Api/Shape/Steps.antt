-- ===== src/Api/Shape/Steps.antt =====
-- Every early return of a handler has a fitting body.
use overworld_ops.Base.{none, some, Option, refl, List, [], ◌∷◌, ℕ, Text, Bool}
use overworld_ops.Models.{Server, User, CreateServerInput}
use overworld_ops.Models.Validate.{Validated, valid, invalid, Message}
use overworld_ops.Config.{Config}
use overworld_ops.Docker.Client.{DockerError}
use overworld_ops.System.{Result, ok, err}
use overworld_ops.System.Raises.{Raises, raises_rules}
use overworld_ops.Store.Sql.{Error, time_now}
use overworld_ops.Store.Servers.{update_server}
use overworld_ops.Ports.{AllocateError, pool_exhausted, read_failed}
use overworld_ops.Api.Http.{Request, Response, decoded}
use overworld_ops.Api.Session.{issue_session, signed_token}
use overworld_ops.Api.Views.{lookup, lookup_error, view, views, fail_server}
use overworld_ops.Api.Auth.{
  Credentials, require_auth, require_admin, or_respond, accepted, valid_credentials, hash_password,
  some_or, known_user, matches,
}
use overworld_ops.Api.Admin.{
  lookup_user, lookup_user_error, ensure_another_admin, set_role, change_role, change_password,
  release_servers,
}
use overworld_ops.Api.Servers.{
  validated, admit, ask_port, allocate_error, create_error, renamed, saved_or, or_failed,
  with_container, started_again, or_rebuilt, unless_failed, drop_container,
}
use overworld_ops.Api.Console.{logs_error}
use overworld_ops.Api.Shape.{Fits}

pub decoded-Raises : {A : Type 0} (o : Option A) → Raises Fits (decoded o)
unfolding decoded
decoded-Raises none = search raises_rules
decoded-Raises (some a) = search raises_rules

lookup_error-Fits : (x : Error) → Fits (lookup_error x)
unfolding lookup_error
lookup_error-Fits Error.not_found = refl
lookup_error-Fits Error.port_taken = refl
lookup_error-Fits (Error.failed m x) = refl

pub lookup-Raises : (u : User) (req : Request) → Raises Fits (lookup u req)
unfolding lookup
lookup-Raises u req = search (raises_rules, lookup_error-Fits) depth 8

pub view-Raises : {E : Type 0} {B : E → Type 0} (cfg : Config) (v : Server) → Raises B (view cfg v)
unfolding view
view-Raises cfg v = search raises_rules

pub views-Raises :
    {E : Type 0} {B : E → Type 0} (cfg : Config) (l : List Server) → Raises B (views cfg l)
unfolding views
views-Raises cfg [] = search raises_rules
views-Raises {E = E} {B = B} cfg (v ∷ l) =
    let rest = views-Raises {E = E} {B = B} cfg l in search (raises_rules, view-Raises)

pub validated-Raises : (r : Validated) → Raises Fits (validated r)
unfolding validated
validated-Raises (valid q) = search raises_rules
validated-Raises (invalid m) = search raises_rules

pub admit-Raises : (cfg : Config) (r : CreateServerInput) → Raises Fits (admit cfg r)
unfolding admit
admit-Raises cfg r = search raises_rules depth 8

allocate_error-Fits : (x : AllocateError) → Fits (allocate_error x)
unfolding allocate_error
allocate_error-Fits pool_exhausted = refl
allocate_error-Fits (read_failed x) = refl

pub ask_port-Raises : (cfg : Config) → Raises Fits (ask_port cfg)
unfolding ask_port
ask_port-Raises cfg = search (raises_rules, allocate_error-Fits)

pub create_error-Fits : (x : Error) → Fits (create_error x)
unfolding create_error
create_error-Fits Error.not_found = refl
create_error-Fits Error.port_taken = refl
create_error-Fits (Error.failed m x) = refl

pub renamed-Raises : (name : Option Text) (v : Server) → Raises Fits (renamed name v)
unfolding renamed
renamed-Raises none v = search raises_rules
renamed-Raises (some name) v = search raises_rules

module _ {B : Response → Type 0} where
  pub update_server-Raises : (v : Server) → Raises B (update_server v)
  unfolding update_server time_now
  update_server-Raises v = search raises_rules depth 8

  pub saved_or-Raises :
      (v : Server) (r : Result Error (Unit {0})) (x : Response) → B x → Raises B (saved_or v r x)
  unfolding saved_or
  saved_or-Raises v (ok _) x h = search raises_rules
  saved_or-Raises v (err _) x h = search raises_rules

  pub fail_server-Raises : (v : Server) (x : DockerError) → Raises B (fail_server v x)
  unfolding fail_server
  fail_server-Raises v x = search raises_rules

  or_failed-Raises :
      (v : Server) (x : Response) (r : Result DockerError Server) → B x → Raises B (or_failed v x r)
  unfolding or_failed
  or_failed-Raises v x (ok w) h = search raises_rules
  or_failed-Raises v x (err y) h = search (raises_rules, fail_server-Raises)

  started_again-Raises : (v : Server) (r : Result DockerError Server) → Raises B (started_again v r)
  unfolding started_again
  started_again-Raises v (ok w) = search raises_rules
  started_again-Raises v (err x) = search raises_rules

  pub or_rebuilt-Raises :
      (cfg : Config) (v : Server) (r : Result DockerError (Unit {0}))
      → Raises B (or_rebuilt cfg v r)
  unfolding or_rebuilt
  or_rebuilt-Raises cfg v (ok _) = search raises_rules
  or_rebuilt-Raises cfg v (err (DockerError.failed m)) = search raises_rules
  or_rebuilt-Raises cfg v (err DockerError.not_found) = search (raises_rules, started_again-Raises)

  pub unless_failed-Raises :
      (v : Server) (r : Result DockerError (Unit {0})) (x : Response)
      → B x
      → Raises B (unless_failed v r x)
  unfolding unless_failed
  unless_failed-Raises v (ok _) x h = search raises_rules
  unless_failed-Raises v (err DockerError.not_found) x h = search raises_rules
  unless_failed-Raises v (err (DockerError.failed m)) x h =
      search (raises_rules, fail_server-Raises)

  some_or-Raises : {A : Type 0} (x : Response) (o : Option A) → B x → Raises B (some_or x o)
  unfolding some_or
  some_or-Raises x none h = search raises_rules
  some_or-Raises x (some a) h = search raises_rules

  pub hash_password-Raises :
      (password : Text) (x : Response) → B x → Raises B (hash_password password x)
  unfolding hash_password
  hash_password-Raises password x h = search (raises_rules, some_or-Raises)

  or_respond-Raises :
      {E A : Type 0} (x : Response) (r : Result E A) → B x → Raises B (or_respond x r)
  unfolding or_respond
  or_respond-Raises x (ok a) h = search raises_rules
  or_respond-Raises x (err y) h = search raises_rules

  pub issue_session-Raises : (cfg : Config) (id : Text) → Raises B (issue_session cfg id)
  unfolding issue_session signed_token time_now
  issue_session-Raises cfg id = search raises_rules depth 8

pub with_container-Raises : (cfg : Config) (v : Server) → Raises Fits (with_container cfg v)
unfolding with_container
with_container-Raises cfg v = search (raises_rules, or_failed-Raises)

pub drop_container-Raises : (v : Server) (b : Bool) → Raises Fits (drop_container v b)
unfolding drop_container
drop_container-Raises v b = search (raises_rules, unless_failed-Raises)

pub require_auth-Raises : (cfg : Config) (req : Request) → Raises Fits (require_auth cfg req)
unfolding require_auth
require_auth-Raises cfg req = search (raises_rules, or_respond-Raises) depth 8

pub require_admin-Raises : (cfg : Config) (req : Request) → Raises Fits (require_admin cfg req)
unfolding require_admin
require_admin-Raises cfg req = search (raises_rules, require_auth-Raises) depth 8

accepted-Raises : (c : Credentials) (o : Option Message) → Raises Fits (accepted c o)
unfolding accepted
accepted-Raises c none = search raises_rules
accepted-Raises c (some m) = search raises_rules

pub valid_credentials-Raises : (c : Credentials) → Raises Fits (valid_credentials c)
unfolding valid_credentials
valid_credentials-Raises c = search accepted-Raises

pub known_user-Raises :
    (password : Text) (r : Result Error User) → Raises Fits (known_user password r)
unfolding known_user matches
known_user-Raises password (ok u) = search raises_rules
known_user-Raises password (err x) = search raises_rules

lookup_user_error-Fits : (x : Error) → Fits (lookup_user_error x)
unfolding lookup_user_error
lookup_user_error-Fits Error.not_found = refl
lookup_user_error-Fits Error.port_taken = refl
lookup_user_error-Fits (Error.failed m x) = refl

pub lookup_user-Raises : (req : Request) → Raises Fits (lookup_user req)
unfolding lookup_user
lookup_user-Raises req = search (raises_rules, lookup_user_error-Fits)

pub ensure_another_admin-Raises : (u : User) → Raises Fits (ensure_another_admin u)
unfolding ensure_another_admin
ensure_another_admin-Raises u = search raises_rules depth 8

set_role-Raises : (actor u : User) (b : Bool) → Raises Fits (set_role actor u b)
unfolding set_role
set_role-Raises actor u b = search (raises_rules, ensure_another_admin-Raises) depth 10

pub change_role-Raises : (actor u : User) (b : Option Bool) → Raises Fits (change_role actor u b)
unfolding change_role
change_role-Raises actor u none = search raises_rules
change_role-Raises actor u (some b) = search (raises_rules, set_role-Raises)

pub change_password-Raises : (u : User) (o : Option Text) → Raises Fits (change_password u o)
unfolding change_password
change_password-Raises u none = search raises_rules
change_password-Raises u (some password) =
    search (raises_rules, valid_credentials-Raises, hash_password-Raises) depth 8

pub release_servers-Raises :
    (actor u : User) (n : ℕ) (b : Bool) → Raises Fits (release_servers actor u n b)
unfolding release_servers
release_servers-Raises actor u n b = search raises_rules depth 8

pub logs_error-Fits : (x : DockerError) → Fits (logs_error x)
unfolding logs_error
logs_error-Fits DockerError.not_found = refl
logs_error-Fits (DockerError.failed m) = refl

pub ruleset step_raises = (
  decoded-Raises, lookup-Raises, view-Raises, views-Raises, validated-Raises, admit-Raises,
  ask_port-Raises, create_error-Fits, renamed-Raises, update_server-Raises, saved_or-Raises,
  fail_server-Raises, or_rebuilt-Raises, unless_failed-Raises, hash_password-Raises,
  issue_session-Raises, with_container-Raises, drop_container-Raises, valid_credentials-Raises,
  known_user-Raises, lookup_user-Raises, ensure_another_admin-Raises, change_role-Raises,
  change_password-Raises, release_servers-Raises, logs_error-Fits,
)
