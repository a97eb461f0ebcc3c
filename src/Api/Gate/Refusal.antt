-- ===== src/Api/Gate/Refusal.antt =====
-- What a request gets that the gate of its endpoint refuses.
use overworld_ops.System.{◌>>=◌, World, Env, err, ok, stop_if, raise}
use overworld_ops.Api.Http.{Response, Request, serve, Handler, fails}
use overworld_ops.Api.Routes.{Endpoint, handle, Payload}
use overworld_ops.Config.{Config}
use overworld_ops.Base.{refl, Bool, ◌≡◌, true, false}
use overworld_ops.Api.Gate.Quiet.{Unchanged, require_auth-Unchanged, Unchanged-refl}
use overworld_ops.Api.Auth.{require_auth, require_admin}
use overworld_ops.Models.{User}
use overworld_ops.System.Binds.{bind-eq-err}

-- The answer is `r`, and nothing was written or sent.
pub record IsRefused (r : Response) (s : World) (answer : Response × World) : Type 0 where
  pub response : answer.0 ≡ r
  pub quiet : Unchanged s answer.1

-- The endpoints behind `requireAuth` or `requireAdmin`, and those behind the latter.
abbrev pub needs_admin : Endpoint → Bool
needs_admin Endpoint.list_users = true
needs_admin Endpoint.create_user = true
needs_admin Endpoint.update_user = true
needs_admin Endpoint.delete_user = true
needs_admin _ = false

abbrev pub needs_session : Endpoint → Bool
needs_session Endpoint.health = false
needs_session Endpoint.register = false
needs_session Endpoint.login = false
needs_session Endpoint.logout = false
needs_session _ = true

module _ (cfg : Config) (req : Request) (e : Env) (s : World) where
  require_auth-quiet : Unchanged s (require_auth cfg req e s).1
  require_auth-quiet = (require_auth-Unchanged s cfg req).at e s (Unchanged-refl s)

  module _ (r : Response) (refused : (require_auth cfg req e s).0 ≡ err r) where
    authenticated-IsRefused :
        (next : User → Handler) → IsRefused r s (serve (require_auth cfg req >>= next) e s)
    unfolding serve
    authenticated-IsRefused next =
        rw (bind-eq-err (require_auth cfg req) next e s r refused)
          (record { response = refl; quiet = require_auth-quiet })

    require_admin-eq-err : require_admin cfg req e s ≡ (err r, (require_auth cfg req e s).1)
    unfolding require_admin
    require_admin-eq-err = bind-eq-err (require_auth cfg req) _ e s r refused

    as_admin-IsRefused :
        (next : User → Handler) → IsRefused r s (serve (require_admin cfg req >>= next) e s)
    unfolding serve ◌>>=◌
    as_admin-IsRefused next =
        rw require_admin-eq-err (record { response = refl; quiet = require_auth-quiet })

  module _ (u : User) (known : (require_auth cfg req e s).0 ≡ ok u)
      (ordinary : u.is_admin ≡ false) where
    require_admin-eq-forbidden :
        require_admin cfg req e s
        ≡ (err (fails 403 "admin access required"), (require_auth cfg req e s).1)
    unfolding require_admin stop_if ◌>>=◌ raise
    require_admin-eq-forbidden = rw known (rw ordinary refl)

    forbidden-IsRefused :
        (next : User → Handler)
        → IsRefused
            (fails 403 "admin access required")
            s
            (serve (require_admin cfg req >>= next) e s)
    unfolding serve ◌>>=◌
    forbidden-IsRefused next =
        rw require_admin-eq-forbidden (record { response = refl; quiet = require_auth-quiet })

-- An endpoint behind a gate answers a request whose session or account `requireAuth` refuses with
-- that refusal, writes no table and sends nothing to the Docker Engine.
pub handle-IsRefused :
    (cfg : Config) (req : Request) (payload : Payload) (p : Endpoint) (e : Env) (s : World)
    (r : Response)
    → needs_session p ≡ true
    → (require_auth cfg req e s).0 ≡ err r
    → IsRefused r s (serve (handle cfg req payload p) e s)
unfolding handle
handle-IsRefused cfg req payload Endpoint.health e s r gated refused = absurd cc
handle-IsRefused cfg req payload Endpoint.register e s r gated refused = absurd cc
handle-IsRefused cfg req payload Endpoint.login e s r gated refused = absurd cc
handle-IsRefused cfg req payload Endpoint.logout e s r gated refused = absurd cc
handle-IsRefused cfg req payload Endpoint.me e s r gated refused =
    authenticated-IsRefused cfg req e s r refused _
handle-IsRefused cfg req payload Endpoint.list_servers e s r gated refused =
    authenticated-IsRefused cfg req e s r refused _
handle-IsRefused cfg req payload Endpoint.create_server e s r gated refused =
    authenticated-IsRefused cfg req e s r refused _
handle-IsRefused cfg req payload Endpoint.get_server e s r gated refused =
    authenticated-IsRefused cfg req e s r refused _
handle-IsRefused cfg req payload Endpoint.update_server e s r gated refused =
    authenticated-IsRefused cfg req e s r refused _
handle-IsRefused cfg req payload Endpoint.delete_server e s r gated refused =
    authenticated-IsRefused cfg req e s r refused _
handle-IsRefused cfg req payload Endpoint.start_server e s r gated refused =
    authenticated-IsRefused cfg req e s r refused _
handle-IsRefused cfg req payload Endpoint.stop_server e s r gated refused =
    authenticated-IsRefused cfg req e s r refused _
handle-IsRefused cfg req payload Endpoint.server_logs e s r gated refused =
    authenticated-IsRefused cfg req e s r refused _
handle-IsRefused cfg req payload Endpoint.list_users e s r gated refused =
    as_admin-IsRefused cfg req e s r refused _
handle-IsRefused cfg req payload Endpoint.create_user e s r gated refused =
    as_admin-IsRefused cfg req e s r refused _
handle-IsRefused cfg req payload Endpoint.update_user e s r gated refused =
    as_admin-IsRefused cfg req e s r refused _
handle-IsRefused cfg req payload Endpoint.delete_user e s r gated refused =
    as_admin-IsRefused cfg req e s r refused _

-- An endpoint of the administration answers the request of an account that is not an administrator
-- with 403, writes no table and sends nothing to the Docker Engine.
pub handle-IsForbidden :
    (cfg : Config) (req : Request) (payload : Payload) (p : Endpoint) (e : Env) (s : World)
    (u : User)
    → needs_admin p ≡ true
    → (require_auth cfg req e s).0 ≡ ok u
    → u.is_admin ≡ false
    → IsRefused (fails 403 "admin access required") s (serve (handle cfg req payload p) e s)
unfolding handle
handle-IsForbidden cfg req payload Endpoint.list_users e s u gated known ordinary =
    forbidden-IsRefused cfg req e s u known ordinary _
handle-IsForbidden cfg req payload Endpoint.create_user e s u gated known ordinary =
    forbidden-IsRefused cfg req e s u known ordinary _
handle-IsForbidden cfg req payload Endpoint.update_user e s u gated known ordinary =
    forbidden-IsRefused cfg req e s u known ordinary _
handle-IsForbidden cfg req payload Endpoint.delete_user e s u gated known ordinary =
    forbidden-IsRefused cfg req e s u known ordinary _
handle-IsForbidden cfg req payload Endpoint.health e s u gated known ordinary = absurd cc
handle-IsForbidden cfg req payload Endpoint.register e s u gated known ordinary = absurd cc
handle-IsForbidden cfg req payload Endpoint.login e s u gated known ordinary = absurd cc
handle-IsForbidden cfg req payload Endpoint.logout e s u gated known ordinary = absurd cc
handle-IsForbidden cfg req payload Endpoint.me e s u gated known ordinary = absurd cc
handle-IsForbidden cfg req payload Endpoint.list_servers e s u gated known ordinary = absurd cc
handle-IsForbidden cfg req payload Endpoint.create_server e s u gated known ordinary = absurd cc
handle-IsForbidden cfg req payload Endpoint.get_server e s u gated known ordinary = absurd cc
handle-IsForbidden cfg req payload Endpoint.update_server e s u gated known ordinary = absurd cc
handle-IsForbidden cfg req payload Endpoint.delete_server e s u gated known ordinary = absurd cc
handle-IsForbidden cfg req payload Endpoint.start_server e s u gated known ordinary = absurd cc
handle-IsForbidden cfg req payload Endpoint.stop_server e s u gated known ordinary = absurd cc
handle-IsForbidden cfg req payload Endpoint.server_logs e s u gated known ordinary = absurd cc
