-- ===== src/Api/Isolation/Endpoints.antt =====
-- Every endpoint behind a gate, for an account that is no administrator.
use overworld_ops.Base.{refl, some, true, false, Text, ◌≡◌, text_eq, first_where}
use overworld_ops.Models.{Server, User}
use overworld_ops.Config.{Config}
use overworld_ops.System.{World, Env, ok, ◌>>=◌}
use overworld_ops.System.Keeps.{Keeps, keeps_rules}
use overworld_ops.System.Binds.{bind-eq-ok}
use overworld_ops.Store.Sql.{has_id}
use overworld_ops.Store.Present.{Holds}
use overworld_ops.Api.Http.{Request, Handler, serve}
use overworld_ops.Api.Auth.{require_auth, handle_me}
use overworld_ops.Api.Routes.{Endpoint, Payload, handle}
use overworld_ops.Api.Gate.Quiet.{require_auth-Unchanged, Unchanged-refl}
use overworld_ops.Api.Gate.Refusal.{needs_session, handle-IsForbidden, needs_admin}
use overworld_ops.Api.Isolation.{
  listed-Kept, logs_shown-Kept, handle_create_server-Kept, shown-Kept, updated-Kept, started-Kept,
  stopped-Kept, deleted-Kept,
}

me-Holds : (j : Text) (v : Server) (u : User) → Keeps (Holds j (some v)) (handle_me u)
unfolding handle_me
me-Holds j v u = search keeps_rules

module _ (cfg : Config) (req : Request) (payload : Payload) (e : Env) (s : World) (u : User)
    (j : Text) (v : Server) (known : (require_auth cfg req e s).0 ≡ ok u)
    (ordinary : u.is_admin ≡ false) (stored : first_where (has_id j) s.servers ≡ some v)
    (foreign : text_eq v.owner_id u.id ≡ false) where
  authenticated-Holds :
      (next : User → Handler)
      → Keeps (Holds j (some v)) (next u)
      → Holds j (some v) ((require_auth cfg req >>= next) e s).1
  authenticated-Holds next k =
      let quiet = (require_auth-Unchanged s cfg req).at e s (Unchanged-refl s) in
      rw (bind-eq-ok (require_auth cfg req) next e s u known)
        (k.at e (require_auth cfg req e s).1 (rw quiet.servers stored))

  forbidden-Holds :
      (p : Endpoint) → needs_admin p ≡ true → Holds j (some v) (handle cfg req payload p e s).1
  unfolding serve
  forbidden-Holds p gated =
      rw (handle-IsForbidden cfg req payload p e s u gated known ordinary).quiet.servers stored

-- A request of an account that is no administrator, to any endpoint behind a gate and whatever
-- fails, leaves the record of a server that another account owns exactly as it was.
pub handle-Holds :
    (cfg : Config) (req : Request) (payload : Payload) (p : Endpoint) (e : Env) (s : World)
    (u : User) (j : Text) (v : Server)
    → needs_session p ≡ true
    → (require_auth cfg req e s).0 ≡ ok u
    → u.is_admin ≡ false
    → first_where (has_id j) s.servers ≡ some v
    → text_eq v.owner_id u.id ≡ false
    → first_where (has_id j) (handle cfg req payload p e s).1.servers ≡ some v
unfolding handle
handle-Holds cfg req payload Endpoint.health e s u j v gated known ordinary stored foreign =
    absurd cc
handle-Holds cfg req payload Endpoint.register e s u j v gated known ordinary stored foreign =
    absurd cc
handle-Holds cfg req payload Endpoint.login e s u j v gated known ordinary stored foreign =
    absurd cc
handle-Holds cfg req payload Endpoint.logout e s u j v gated known ordinary stored foreign =
    absurd cc
handle-Holds cfg req payload Endpoint.me e s u j v gated known ordinary stored foreign =
    authenticated-Holds cfg req payload e s u j v known ordinary stored foreign handle_me
      (me-Holds j v u)
handle-Holds cfg req payload Endpoint.list_servers e s u j v gated known ordinary stored foreign =
    authenticated-Holds cfg req payload e s u j v known ordinary stored foreign _
      (listed-Kept j v u ordinary foreign cfg)
handle-Holds cfg req payload Endpoint.create_server e s u j v gated known ordinary stored foreign =
    authenticated-Holds cfg req payload e s u j v known ordinary stored foreign _
      (handle_create_server-Kept j v u ordinary foreign cfg payload.new_server)
handle-Holds cfg req payload Endpoint.get_server e s u j v gated known ordinary stored foreign =
    authenticated-Holds cfg req payload e s u j v known ordinary stored foreign _
      (shown-Kept j v u ordinary foreign cfg req)
handle-Holds cfg req payload Endpoint.update_server e s u j v gated known ordinary stored foreign =
    authenticated-Holds cfg req payload e s u j v known ordinary stored foreign _
      (updated-Kept j v u ordinary foreign cfg req payload.rename)
handle-Holds cfg req payload Endpoint.delete_server e s u j v gated known ordinary stored foreign =
    authenticated-Holds cfg req payload e s u j v known ordinary stored foreign _
      (deleted-Kept j v u ordinary foreign req)
handle-Holds cfg req payload Endpoint.start_server e s u j v gated known ordinary stored foreign =
    authenticated-Holds cfg req payload e s u j v known ordinary stored foreign _
      (started-Kept j v u ordinary foreign cfg req)
handle-Holds cfg req payload Endpoint.stop_server e s u j v gated known ordinary stored foreign =
    authenticated-Holds cfg req payload e s u j v known ordinary stored foreign _
      (stopped-Kept j v u ordinary foreign cfg req)
handle-Holds cfg req payload Endpoint.server_logs e s u j v gated known ordinary stored foreign =
    authenticated-Holds cfg req payload e s u j v known ordinary stored foreign _
      (logs_shown-Kept j v u ordinary foreign req)
handle-Holds cfg req payload Endpoint.list_users e s u j v gated known ordinary stored foreign =
    forbidden-Holds cfg req payload e s u j v known ordinary stored foreign Endpoint.list_users refl
handle-Holds cfg req payload Endpoint.create_user e s u j v gated known ordinary stored foreign =
    forbidden-Holds cfg req payload e s u j v known ordinary stored foreign Endpoint.create_user
      refl
handle-Holds cfg req payload Endpoint.update_user e s u j v gated known ordinary stored foreign =
    forbidden-Holds cfg req payload e s u j v known ordinary stored foreign Endpoint.update_user
      refl
handle-Holds cfg req payload Endpoint.delete_user e s u j v gated known ordinary stored foreign =
    forbidden-Holds cfg req payload e s u j v known ordinary stored foreign Endpoint.delete_user
      refl
