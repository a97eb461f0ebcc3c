-- ===== src/Api/Auth.antt =====
-- The account handlers and the gates of backend/internal/api/auth.go, and `SeedAdmin`.
use overworld_ops.Base.{
  ℕ, Bool, true, not, ◌||◌, ltb, length, Option, none, some, Text, codes, is_empty, trim_space,
  if◌then◌else◌,
}
use overworld_ops.Models.{User}
use overworld_ops.Models.Validate.{Message, says, numbers}
use overworld_ops.Config.{Config}
use overworld_ops.System.{
  Result, ok, err, Act, pure, raise, ◌>>=◌, ◌>>◌, map_err, attempt, stop_if, ask,
}
use overworld_ops.Store.Sql.{Error}
use overworld_ops.Store.Users.{create_user, user_by_username, user_by_id, any_user_exists}
use overworld_ops.Api.Http.{
  Request, Response, Handler, Body, reply, write_error, fails, decoded, user_json, Cookie,
}
use overworld_ops.Api.Session.{issue_session, clear_session, parse_session}

-- A response that sets the cookie too.
abbrev pub setting : Cookie → Response → Response
setting c r = record r { cookie = some c }

-- The errors of the first step, whatever they are.
unfoldable pub or_respond : {E A : Type 0} → Response → Result E A → Act Response A
unfolding pure raise
or_respond r (ok a) = pure a
or_respond r (err x) = raise r

-- `requireAuth`, down to the user that it hands to the handler
unfoldable pub require_auth : Config → Request → Act Response User
unfolding or_respond
require_auth cfg req = do
  session ← attempt (parse_session cfg req.cookie)
  id ← or_respond (fails 401 "authentication required") session
  found ← attempt (user_by_id id)
  or_respond (setting (clear_session cfg) (fails 401 "authentication required")) found

-- `requireAdmin` of admin.go
unfoldable pub require_admin : Config → Request → Act Response User
unfolding require_auth
require_admin cfg req = do
  u ← require_auth cfg req
  stop_if (not u.is_admin) (fails 403 "admin access required")
  pure u

pub record Credentials : Type 0 where
  pub username : Text
  pub password : Text

abbrev pub min_password_length : ℕ
min_password_length = 8

abbrev pub trimmed : Credentials → Credentials
trimmed c = record c { username = trim_space c.username }

-- `validateCredentials`, which leaves the trimmed name in its argument; `none` is `""`
unfoldable pub validate_credentials : Credentials → Option Message
validate_credentials c =
    let name = trim_space c.username in
    if ltb (length name) 3 || ltb 32 (length name)
    then some (says "username must be 3-32 characters")
    else if ltb (length c.password) min_password_length
    then some (numbers "password must be at least " min_password_length " characters")
    else none

-- `if msg := validateCredentials(&creds); msg != ""`, with the credentials after it
unfoldable pub accepted : Credentials → Option Message → Act Response Credentials
unfolding pure raise
accepted c none = pure (trimmed c)
accepted c (some message) = raise (write_error 400 message)

unfoldable pub valid_credentials : Credentials → Act Response Credentials
unfolding validate_credentials accepted
valid_credentials c = accepted c (validate_credentials c)

unfoldable pub some_or : {A : Type 0} → Response → Option A → Act Response A
unfolding pure raise
some_or r none = raise r
some_or r (some a) = pure a

-- `bcrypt.GenerateFromPassword`
unfoldable pub hash_password : Text → Response → Act Response Text
unfolding some_or
hash_password password r = do hash ← ask (λ e n. e.bcrypt_hash n password); some_or r hash

unfoldable pub handle_register : Config → Option Credentials → Handler
unfolding valid_credentials hash_password
handle_register cfg input = do
  stop_if (not cfg.allow_registration) (fails 403 "registration is disabled")
  given ← decoded input
  creds ← valid_credentials given
  hash ← hash_password creds.password (fails 500 "could not create account")
  existing ← map_err (λ _. fails 500 "could not create account") any_user_exists
  u ← map_err (λ _. fails 409 "username is taken") (create_user creds.username hash (not existing))
  cookie ← issue_session cfg u.id
  pure (setting cookie (reply 201 (Body.user (user_json u))))

-- `bcrypt.CompareHashAndPassword`
unfoldable pub matches : {E : Type 0} → Text → Text → Act E Bool
matches hash password = ask (λ e n. e.bcrypt_matches hash password)

unfoldable pub dummy_hash : Text
unfolding codes
dummy_hash = codes "$2a$10$N9qo8uLOickgx2ZMRZoMyeIjZAgcfl7p92ldGxad68LJZdL17lhWy"

-- The user, or the refusal after a comparison with the dummy hash.
unfoldable pub known_user : Text → Result Error User → Act Response User
unfolding matches dummy_hash pure raise
known_user password (ok u) = pure u
known_user password (err x) = do
  matches dummy_hash password
  raise (fails 401 "invalid username or password")

unfoldable pub handle_login : Config → Option Credentials → Handler
unfolding known_user
handle_login cfg input = do
  creds ← decoded input
  found ← attempt (user_by_username (trim_space creds.username))
  u ← known_user creds.password found
  good ← matches u.password_hash creds.password
  stop_if (not good) (fails 401 "invalid username or password")
  cookie ← issue_session cfg u.id
  pure (setting cookie (reply 200 (Body.user (user_json u))))

unfoldable pub handle_logout : Config → Handler
unfolding pure
handle_logout cfg = pure (setting (clear_session cfg) (reply 200 Body.logged_out))

unfoldable pub handle_me : User → Handler
unfolding pure
handle_me u = pure (reply 200 (Body.user (user_json u)))

pub data SeedError : Type 0 where
  store_failed : Error → SeedError
  hash_failed : SeedError

unfoldable pub hash_or_fail : Option Text → Act SeedError Text
unfolding pure raise
hash_or_fail none = raise hash_failed
hash_or_fail (some h) = pure h

unfoldable pub seed_first : Text → Text → Act SeedError (Unit {0})
unfolding hash_or_fail
seed_first username password = do
  made ← ask (λ e n. e.bcrypt_hash n password)
  hash ← hash_or_fail made
  map_err store_failed (create_user username hash true)
  pure tt

-- `SeedAdmin`
unfoldable pub seed_admin : Text → Text → Act SeedError (Unit {0})
unfolding seed_first pure
seed_admin username password = if is_empty username || is_empty password then pure tt else do
  exists ← map_err store_failed any_user_exists
  if exists then pure tt else seed_first username password
