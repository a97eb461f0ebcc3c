-- ===== src/Api/Shape.antt =====
-- Which status codes go with which body.
pub mod Steps
pub mod Dispatch
use overworld_ops.Base.{ℕ, Bool, true, false, ◌≡◌, ◌==◌, ◌||◌, leb, ltb}
use overworld_ops.Api.Http.{Response, Body}

-- An error comes with 400 or above, and all else below 300, but for a server that has no container
-- yet with 500, for an unhealthy Docker Engine with 503, and for what the mux answers by itself, with
-- 300 or above. A handler or a middleware writes no body with 204 alone.
abbrev pub fits_body : Body → ℕ → Bool
fits_body (Body.error m) status = leb 400 status
fits_body (Body.server v) status = ltb status 300 || status == 500
fits_body (Body.health true) status = status == 200
fits_body (Body.health false) status = status == 503
fits_body Body.nothing status = status == 204
fits_body Body.plain status = leb 300 status
fits_body _ status = ltb status 300

abbrev pub Fits : Response → Type 0
Fits r = fits_body r.body r.status ≡ true
