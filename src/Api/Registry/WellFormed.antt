-- ===== src/Api/Registry/WellFormed.antt =====
-- The registry stays well formed under any traffic.
use overworld_ops.Base.{List}
use overworld_ops.System.{World, Env}
use overworld_ops.Store.Valid.{IsValid}
use overworld_ops.Store.Valid.Invariant.{IsValid-invariant}
use overworld_ops.Api.Routes.{HttpRequest, serve_all}
use overworld_ops.Api.Keeps.Endpoints.{serve_all-FullInvariant}
use overworld_ops.Config.{Config}

-- Any list of requests, answered one after the other in any environment from a registry whose
-- user IDs, user names, server IDs and ports are all distinct and in which every owner exists,
-- leaves a registry of which the same holds, whatever fails on the way.
pub serve_all-IsValid :
    (cfg : Config) (e : Env) (rs : List HttpRequest) (s : World)
    → IsValid s
    → IsValid (serve_all cfg e rs s)
serve_all-IsValid cfg e rs s h = serve_all-FullInvariant IsValid-invariant cfg (λ v _. tt) e rs s h
