-- ===== src/Api/Login/SignedIn.antt =====
-- The cookie of a login signs its account in.
use overworld_ops.Base.{
  none, some, true, false, ◌≡◌, Text, first_where, trim_space, ℕ, ◌<◌, ◌^◌, suc, ◌≤◌, text_eq_refl,
  first_where_unique,
}
use overworld_ops.Config.{Config}
use overworld_ops.System.{Env, World, ok, ticked}
use overworld_ops.Api.Http.{Response, Request, reply, Body, user_json}
use overworld_ops.Api.Auth.{Credentials, handle_login, require_auth, setting}
use overworld_ops.Api.Login.{
  right_password, token_of, login_expiry, login_cookie, login_cookie_issued,
}
use overworld_ops.Models.{User}
use overworld_ops.Store.Sql.{has_user_id, has_username}
use overworld_ops.Store.Valid.{IsValid}
use overworld_ops.Api.Session.{unix, token_of}
use overworld_ops.Api.Base64.RoundTrip.{IsBytes}
use overworld_ops.Api.Session.Plain.{has_bar}
use overworld_ops.Api.Session.RoundTrip.{parse_session-issue_session}
use overworld_ops.Api.Gate.Passes.{require_auth-ok}

-- A login with the name of a stored account and its password succeeds in a well formed registry
-- while the database does not fail, and its cookie signs the account in, until the clock has passed
-- the expiry, in any state in which the accounts are still those of the login. The ID of the account
-- is made of bytes and has no bar, the HMAC is made of bytes, and the expiry fits an int64.
pub handle_login-require_auth :
    (cfg : Config) (creds : Credentials) (e : Env) (s t : World) (u : User) (req : Request)
    → IsValid s
    → ((n : ℕ) → e.driver_fault n ≡ none)
    → first_where (has_username (trim_space creds.username)) s.users ≡ some u
    → e.bcrypt_matches u.password_hash creds.password ≡ true
    → IsBytes u.id
    → has_bar u.id ≡ false
    → ((key message : Text) → IsBytes (e.hmac_sha256 key message))
    → req.cookie ≡ some (token_of e cfg.session_secret u.id (login_expiry e s))
    → t.users ≡ s.users
    → login_expiry e s < 2 ^ 63
    → unix (e.clock (suc t.ticks)) ≤ login_expiry e s
    → ((handle_login cfg (some creds) e s).0
        ≡ ok (setting (login_cookie cfg e s u) (reply 200 (Body.user (user_json u)))))
      × ((require_auth cfg req e t).0 ≡ ok u)
handle_login-require_auth cfg creds e s t u req valid calm found good bytes plain mac sent_back
      same_users small early =
    (
      right_password cfg creds e s u (calm s.ticks, found) good,
      require_auth-ok cfg req e t u calm
          (rw sent_back (
            parse_session-issue_session {E = Response} cfg e u.id (ticked (ticked s)) t
              (token_of e cfg.session_secret u.id (login_expiry e s)) (login_expiry e s)
              cfg.secure_cookies (login_cookie_issued cfg e s u) bytes plain mac small early))
          (rw same_users (
            first_where_unique (has_username (trim_space creds.username)) (has_user_id u.id) u
              s.users found (text_eq_refl u.id) (valid.user_ids u.id))),
    )
