-- ===== src/Api/Gate/Passes.antt =====
-- A session that passes the gate.
use overworld_ops.Base.{refl, none, some, ◌≡◌, first_where, ℕ}
use overworld_ops.Config.{Config}
use overworld_ops.System.{Env, World, pure, ok, map_err, ◌>>=◌, attempt}
use overworld_ops.Api.Http.{Request}
use overworld_ops.Api.Auth.{require_auth, or_respond}
use overworld_ops.Store.Users.{user_by_id, scan_user}
use overworld_ops.Store.Sql.{query, has_user_id, exec}
use overworld_ops.Models.{User}
use overworld_ops.Api.Session.{parse_session}
use overworld_ops.Api.Gate.Quiet.{parse_session-Unchanged, Unchanged-refl}

-- A user that the table has under an ID, and a cookie that holds the ID, pass the gate.
pub require_auth-ok :
    (cfg : Config) (req : Request) (e : Env) (t : World) (u : User)
    → ((n : ℕ) → e.driver_fault n ≡ none)
    → (parse_session cfg req.cookie e t).0 ≡ ok u.id
    → first_where (has_user_id u.id) t.users ≡ some u
    → (require_auth cfg req e t).0 ≡ ok u
unfolding require_auth attempt ◌>>=◌ or_respond user_by_id map_err exec query scan_user pure
require_auth-ok cfg req e t u calm parsed stored =
    let t' : World = (parse_session cfg req.cookie e t).1 in
    let quiet = (parse_session-Unchanged t cfg req.cookie).at e t (Unchanged-refl t) in
    rw parsed (rw (calm t'.ticks) (rw quiet.users (rw stored refl)))
