-- ===== src/Api/Cors.antt =====
-- `withCORS` of backend/internal/api/server.go: which origins a browser may share an answer with.
use overworld_ops.Base.{
  List, [], ◌∷◌, none, some, Text, codes, text_eq, is_empty, if◌then◌else◌, Bool, true, false, not,
  ◌&&◌, ◌≡◌, sym, refl, Bool-cases, inl, inr, eq_of_text_eq,
}
use overworld_ops.Config.{Config}
use overworld_ops.Docker.Build.{lookup}
use overworld_ops.System.{Env, World}
use overworld_ops.Api.Http.{Response, serve}
use overworld_ops.Api.Routes.{HttpRequest, cors_allowed, dispatch}

-- The headers are set before the routes are looked at, so that every answer has them.
unfoldable pub cors_headers : Config → HttpRequest → List (Text × Text)
unfolding codes
cors_headers cfg r =
    if cors_allowed cfg r
    then (codes "Access-Control-Allow-Origin", cfg.cors_origin)
      ∷ (codes "Access-Control-Allow-Credentials", codes "true")
      ∷ (codes "Access-Control-Allow-Methods", codes "GET, POST, PATCH, DELETE, OPTIONS")
      ∷ (codes "Access-Control-Allow-Headers", codes "Content-Type")
      ∷ (codes "Vary", codes "Origin")
      ∷ []
    else []

-- An answer of the server: the headers of `withCORS`, and the rest.
pub record Answer : Type 0 where
  pub headers : List (Text × Text)
  pub response : Response

-- `Server.Routes`, with both middlewares around the table
unfoldable pub answer : Config → HttpRequest → Env → World → Answer × World
unfolding cors_headers
answer cfg r e s =
    let (response, t) = serve (dispatch cfg r) e s in
    (record { headers = cors_headers cfg r; response = response }, t)

-- The origin is the configured one, and there is one.
pub record IsShared (cfg : Config) (r : HttpRequest) (origin : Text) : Type 0 where
  pub asked : origin ≡ r.origin
  pub configured : origin ≡ cfg.cors_origin
  pub known : is_empty origin ≡ false

cors_both : (a b : Bool) → not a && b ≡ true → (a ≡ false) × (b ≡ true)
cors_both true b h = absurd cc
cors_both false b h = (refl, h)

allowed-IsShared :
    (cfg : Config) (r : HttpRequest) → cors_allowed cfg r ≡ true → IsShared cfg r cfg.cors_origin
unfolding cors_allowed
allowed-IsShared cfg r allowed =
    let (known, same) = cors_both (is_empty cfg.cors_origin) _ allowed in
    record {
      asked = sym (eq_of_text_eq r.origin cfg.cors_origin same);
      configured = refl;
      known = known;
    }

-- An answer with any of the headers of CORS allows the configured origin, and this is not empty and
-- is the origin that the request names.
pub answer-IsShared :
    (cfg : Config) (r : HttpRequest) (e : Env) (s : World) (key value : Text)
    → lookup key (answer cfg r e s).0.headers ≡ some value
    → (lookup (codes "Access-Control-Allow-Origin") (answer cfg r e s).0.headers
        ≡ some cfg.cors_origin)
      × IsShared cfg r cfg.cors_origin
unfolding answer cors_headers lookup text_eq codes
answer-IsShared cfg r e s key value given = elim (Bool-cases (cors_allowed cfg r)) [
  | inl allowed ↦ (rw allowed refl, allowed-IsShared cfg r allowed)
  | inr refused ↦ let nothing : none ≡ some value = rw refused at given in absurd cc
]
