-- ===== src/Api/Gate/Hidden.antt =====
-- A server that the account may not see, and one that is not there.
use overworld_ops.Base.{
  refl, some, none, true, false, Bool, ℕ, ◌≡◌, first_where, Option-cases, inl, inr,
}
use overworld_ops.Models.{Server, User}
use overworld_ops.Config.{Config}
use overworld_ops.System.{World, Env, ok, err, ticked, ◌>>=◌}
use overworld_ops.Store.Sql.{has_id}
use overworld_ops.Api.Http.{Request, Handler, serve, fails}
use overworld_ops.Api.Auth.{require_auth}
use overworld_ops.Api.Routes.{Endpoint, Payload, handle}
use overworld_ops.Api.Servers.{
  handle_get_server, handle_update_server, handle_delete_server, handle_start_server,
  handle_stop_server,
}
use overworld_ops.Api.Console.{handle_server_logs}
use overworld_ops.Api.Views.{lookup, owns_server}
use overworld_ops.Api.Gate.Quiet.{require_auth-Unchanged, Unchanged-refl}
use overworld_ops.Api.Lookup.{lookup_missing, lookup_foreign}
use overworld_ops.Api.Gate.Refusal.{IsRefused}

-- The endpoints under /api/servers/{id}
abbrev pub on_server : Endpoint → Bool
on_server Endpoint.get_server = true
on_server Endpoint.update_server = true
on_server Endpoint.delete_server = true
on_server Endpoint.start_server = true
on_server Endpoint.stop_server = true
on_server Endpoint.server_logs = true
on_server _ = false

lookup_hidden :
    (u : User) (req : Request) (e : Env) (s : World)
    → e.driver_fault s.ticks ≡ none
    → ((v : Server) → first_where (has_id req.id) s.servers ≡ some v → owns_server u v ≡ false)
    → lookup u req e s ≡ (err (fails 404 "server not found"), ticked s)
lookup_hidden u req e s calm foreign = elim (Option-cases (first_where (has_id req.id) s.servers)) [
  | inl missing ↦ lookup_missing u req e s calm missing
  | inr (v, found) ↦ lookup_foreign u req e s v calm found (foreign v found)
]

module _ (cfg : Config) (req : Request) (e : Env) (s : World) (u : User)
    (calm : (n : ℕ) → e.driver_fault n ≡ none) (known : (require_auth cfg req e s).0 ≡ ok u)
    (foreign : (v : Server)
      → first_where (has_id req.id) s.servers ≡ some v
      → owns_server u v ≡ false) where
  hidden-IsRefused :
      (next : Server → Handler)
      → IsRefused
          (fails 404 "server not found")
          s
          (serve (require_auth cfg req >>= λ w. lookup w req >>= next) e s)
  unfolding serve ◌>>=◌
  hidden-IsRefused next =
      let t : World = (require_auth cfg req e s).1 in
      let quiet = (require_auth-Unchanged s cfg req).at e s (Unchanged-refl s) in
      rw known (
        rw
          (lookup_hidden u req e t (calm t.ticks)
            (λ v found. foreign v (rw quiet.servers at found)))
          (record {
            response = refl;
            quiet = record { users = quiet.users; servers = quiet.servers; calls = quiet.calls };
          }))

-- An endpoint under /api/servers/{id} answers a request for a server of another account exactly as
-- one for a server that is not there: with 404, without writing a table or sending anything to the
-- Docker Engine, while the database does not fail.
pub handle-IsHidden :
    (cfg : Config) (req : Request) (payload : Payload) (p : Endpoint) (e : Env) (s : World)
    (u : User)
    → on_server p ≡ true
    → ((n : ℕ) → e.driver_fault n ≡ none)
    → (require_auth cfg req e s).0 ≡ ok u
    → ((v : Server) → first_where (has_id req.id) s.servers ≡ some v → owns_server u v ≡ false)
    → IsRefused (fails 404 "server not found") s (serve (handle cfg req payload p) e s)
unfolding handle handle_get_server handle_update_server handle_delete_server handle_start_server
    handle_stop_server handle_server_logs
handle-IsHidden cfg req payload Endpoint.get_server e s u gated calm known foreign =
    hidden-IsRefused cfg req e s u calm known foreign _
handle-IsHidden cfg req payload Endpoint.update_server e s u gated calm known foreign =
    hidden-IsRefused cfg req e s u calm known foreign _
handle-IsHidden cfg req payload Endpoint.delete_server e s u gated calm known foreign =
    hidden-IsRefused cfg req e s u calm known foreign _
handle-IsHidden cfg req payload Endpoint.start_server e s u gated calm known foreign =
    hidden-IsRefused cfg req e s u calm known foreign _
handle-IsHidden cfg req payload Endpoint.stop_server e s u gated calm known foreign =
    hidden-IsRefused cfg req e s u calm known foreign _
handle-IsHidden cfg req payload Endpoint.server_logs e s u gated calm known foreign =
    hidden-IsRefused cfg req e s u calm known foreign _
handle-IsHidden cfg req payload Endpoint.health e s u gated calm known foreign = absurd cc
handle-IsHidden cfg req payload Endpoint.register e s u gated calm known foreign = absurd cc
handle-IsHidden cfg req payload Endpoint.login e s u gated calm known foreign = absurd cc
handle-IsHidden cfg req payload Endpoint.logout e s u gated calm known foreign = absurd cc
handle-IsHidden cfg req payload Endpoint.me e s u gated calm known foreign = absurd cc
handle-IsHidden cfg req payload Endpoint.list_servers e s u gated calm known foreign = absurd cc
handle-IsHidden cfg req payload Endpoint.create_server e s u gated calm known foreign = absurd cc
handle-IsHidden cfg req payload Endpoint.list_users e s u gated calm known foreign = absurd cc
handle-IsHidden cfg req payload Endpoint.create_user e s u gated calm known foreign = absurd cc
handle-IsHidden cfg req payload Endpoint.update_user e s u gated calm known foreign = absurd cc
handle-IsHidden cfg req payload Endpoint.delete_user e s u gated calm known foreign = absurd cc
