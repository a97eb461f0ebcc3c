-- ===== src/Tests/Sharing.antt =====
-- A request of the development server of the frontend.
use overworld_ops.Base.{codes, some, ◌≡◌, refl, text_eq}
use overworld_ops.Api.Cors.{IsShared, answer, answer-IsShared, cors_headers}
use overworld_ops.Api.Routes.{HttpRequest, cors_allowed}
use overworld_ops.Config.{Config}
use overworld_ops.Docker.Build.{lookup}
use overworld_ops.Tests.Samples.{calm, world, config, register_request}

abbrev with_frontend : Config
with_frontend = record config { cors_origin = codes "http://localhost:5173" }

abbrev from_frontend : HttpRequest
from_frontend = record register_request { origin = codes "http://localhost:5173" }

answer-IsShared_example :
    (lookup
        (codes "Access-Control-Allow-Origin")
        (answer with_frontend from_frontend calm world).0.headers
      ≡ some with_frontend.cors_origin)
    × IsShared with_frontend from_frontend with_frontend.cors_origin
unfolding answer cors_headers cors_allowed text_eq lookup codes
answer-IsShared_example =
    answer-IsShared with_frontend from_frontend calm world
      (codes "Access-Control-Allow-Credentials") (codes "true") refl
