-- ===== src/Api/Http.antt =====
-- What a handler is given and what it answers (respond.go and the types of net/http).
--
-- The body of a request comes decoded: `none` where `decodeJSON` returns an error. The body of a
-- response is the value that `writeJSON` encodes; logging is left out.
use overworld_ops.Base.{ℕ, String, Bool, List, Option, none, some, Text}
use overworld_ops.Docker.Logs.{LogLine}
use overworld_ops.Models.{Server, User}
use overworld_ops.Models.Validate.{Message, says}
use overworld_ops.System.{Act, pure, raise, Result, Env, World, ok, err}

pub record Request : Type 0 where
  -- `r.PathValue("id")`
  pub id : Text
  -- `r.URL.Query().Get`
  pub query : Text → Text
  -- `r.Cookie(sessionCookie)`
  pub cookie : Option Text

-- `serverView`
pub record ServerView : Type 0 where
  pub server : Server
  pub address : Text
  pub container_status : Text
  pub health : Text

-- `User` as JSON: the hash has the tag `json:"-"`
pub record UserView : Type 0 where
  pub id : Text
  pub username : Text
  pub is_admin : Bool
  pub created_at : ℕ

unfoldable pub user_json : User → UserView
user_json u = record {
  id = u.id;
  username = u.username;
  is_admin = u.is_admin;
  created_at = u.created_at;
}

-- `adminUserView`
pub record AdminUserView : Type 0 where
  pub user : UserView
  pub server_count : ℕ

pub data Body : Type 0 where
  error : Message → Body
  server : ServerView → Body
  servers : List ServerView → Body
  user : UserView → Body
  admin_user : AdminUserView → Body
  admin_users : List AdminUserView → Body
  health : Bool → Body
  -- server-sent events, one for each line
  events : List LogLine → Body
  logged_out : Body
  nothing : Body
  -- what `net/http` answers by itself: a text, or no body where it redirects another method than GET
  plain : Body

-- A token with its expiry in seconds, or the cookie with `MaxAge: -1`.
pub data Cookie : Type 0 where
  session : Text → ℕ → Bool → Cookie
  cleared : Bool → Cookie

pub record Response : Type 0 where
  pub status : ℕ
  pub body : Body
  pub cookie : Option Cookie

-- `writeJSON`
abbrev pub reply : ℕ → Body → Response
reply status body = record { status = status; body = body; cookie = none }

-- `writeError`
abbrev pub write_error : ℕ → Message → Response
write_error status message = reply status (error message)

abbrev pub fails : ℕ → String → Response
fails status message = write_error status (says message)

-- A handler: `return` in the middle is `raise`, and at the end it is `pure`.
abbrev pub Handler : Type 0
Handler = Act Response Response

abbrev pub final : Result Response Response → Response
final (ok r) = r
final (err r) = r

-- The response, and the state that the request leaves.
unfoldable pub serve : Handler → Env → World → Response × World
serve h e s = let (r, t) = h e s in (final r, t)

-- `if err := decodeJSON(r, &in); err != nil`
unfoldable pub decoded : {A : Type 0} → Option A → Act Response A
unfolding pure raise
decoded none = raise (fails 400 "invalid request body")
decoded (some a) = pure a
