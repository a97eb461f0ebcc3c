-- ===== src/Api/Servers/Rests.antt =====
-- What the handlers do with the record that `lookup` has found, and that the records which they
-- hand on keep its ID.
use overworld_ops.System.{Result, ok, err, pure, stop_if, map_err, attempt, ◌>>=◌, ◌>>◌}
use overworld_ops.Models.{Server, stopped, stopping}
use overworld_ops.Config.{Config, seconds_of}
use overworld_ops.Docker.Client.{DockerError}
use overworld_ops.Docker.Client
use overworld_ops.Api.Http.{Response, Handler, decoded, fails, reply, Body}
use overworld_ops.Api.Views.{view, recreate_container}
use overworld_ops.Store.Servers.{update_server, set_status, delete_server}
use overworld_ops.Api.Servers.{
  renamed, saved_or, with_container, or_rebuilt, finish_start, unless_failed, drop_container,
  or_failed, started_again, [],
}
use overworld_ops.System.Keeps.{
  Returns, Returns-bind, Returns-bind_result, Returns-pure, Returns-raise, Returns-if,
  Returns-attempt, OkMeets,
}
use overworld_ops.Base.{none, some, Option, Bool, Text, ◌≡◌, refl, is_empty, []}

-- `handleUpdateServer`, `handleStartServer`, `handleStopServer` and `handleDeleteServer` from there
abbrev pub updated : Config → Option (Option Text) → Server → Handler
updated cfg input v = do
  name ← decoded input
  w ← renamed name v
  saved ← update_server w
  x ← saved_or saved.0 saved.1 (fails 500 "could not update server")
  shown ← view cfg x
  pure (reply 200 (Body.server shown))

abbrev pub started : Config → Server → Handler
started cfg v = do
  w ← with_container cfg v
  started ← attempt (Client.start_server w.container_id)
  outcome ← or_rebuilt cfg w started
  finish_start cfg outcome.0 outcome.1

abbrev pub stopped_now : Config → Server → Handler
stopped_now cfg v = do
  stop_if (is_empty v.container_id) (fails 409 "server has no container")
  attempt (set_status v.id stopping [])
  gone ← attempt (Client.stop_server v.container_id (seconds_of cfg.stop_timeout))
  unless_failed v gone (fails 500 "could not stop server")
  attempt (set_status v.id stopped [])
  shown ← view cfg (record v { status = stopped; status_message = [] })
  pure (reply 200 (Body.server shown))

abbrev pub deleted : Bool → Server → Handler
deleted with_data v = do
  drop_container v with_data
  map_err (λ _. fails 500 "could not delete server") (delete_server v.id)
  pure (reply 204 Body.nothing)

pub renamed-Returns :
    (name : Option Text) (v : Server) → Returns (λ w. w.id ≡ v.id) (renamed name v)
unfolding renamed
renamed-Returns none v = Returns-pure v refl
renamed-Returns (some name) v = Returns-if _ _ _ (Returns-raise _) (Returns-pure _ refl)

recreate_container-Returns :
    (cfg : Config) (v : Server) → Returns (λ w. w.id ≡ v.id) (recreate_container cfg v)
unfolding recreate_container
recreate_container-Returns cfg v =
    Returns-bind _ _ (λ _. Returns-bind _ _ (λ id. Returns-bind _ _ (λ _. Returns-pure _ refl)))

or_failed-Returns :
    (k : Text) (v : Server) (x : Response) (r : Result DockerError Server)
    → OkMeets (λ w. w.id ≡ k) r
    → Returns (λ w. w.id ≡ k) (or_failed v x r)
unfolding or_failed
or_failed-Returns k v x (ok w) h = Returns-pure w h
or_failed-Returns k v x (err y) h = Returns-bind _ _ (λ _. Returns-raise x)

pub with_container-Returns :
    (cfg : Config) (v : Server) → Returns (λ w. w.id ≡ v.id) (with_container cfg v)
unfolding with_container
with_container-Returns cfg v = Returns-if _ _ _ (Returns-pure v refl) (
    Returns-bind_result (OkMeets (λ w. w.id ≡ v.id)) _ _
      (Returns-attempt _ (recreate_container-Returns cfg v)) (λ r. or_failed-Returns v.id v _ r))

started_again-Returns :
    {E : Type 0} (v : Server) (r : Result DockerError Server)
    → OkMeets (λ w. w.id ≡ v.id) r
    → Returns (λ o. o.0.id ≡ v.id) (started_again {E = E} v r)
unfolding started_again
started_again-Returns v (err x) h = Returns-pure _ refl
started_again-Returns v (ok w) h = Returns-bind _ _ (λ _. Returns-pure _ h)

pub or_rebuilt-Returns :
    {E : Type 0} (cfg : Config) (v : Server) (r : Result DockerError (Unit {0}))
    → Returns (λ o. o.0.id ≡ v.id) (or_rebuilt {E = E} cfg v r)
unfolding or_rebuilt
or_rebuilt-Returns cfg v (ok _) = Returns-pure _ refl
or_rebuilt-Returns cfg v (err (DockerError.failed m)) = Returns-pure _ refl
or_rebuilt-Returns cfg v (err DockerError.not_found) =
    Returns-bind_result (OkMeets (λ w. w.id ≡ v.id)) _ _
      (Returns-attempt _ (recreate_container-Returns cfg v)) (started_again-Returns v)
