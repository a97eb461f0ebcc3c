-- ===== src/Api/Login.antt =====
-- `handleLogin` of backend/internal/api/auth.go on both outcomes.
pub mod SignedIn
use overworld_ops.Base.{
  none, some, Text, ◌≡◌, first_where, trim_space, true, false, refl, inl, inr, Option-cases, ℕ,
  Bool, suc, ◌+◌,
}
use overworld_ops.Api.Auth.{handle_login, known_user, matches, Credentials, setting}
use overworld_ops.Api.Http.{Response, fails, reply, Body, user_json, Cookie, decoded, session}
use overworld_ops.Api.Session.{issue_session, signed_token, unix, token_of, session_ttl}
use overworld_ops.Config.{Config}
use overworld_ops.Models.{User}
use overworld_ops.Store.Sql.{has_username, exec, query, time_now}
use overworld_ops.Store.Users.{user_by_username, scan_user}
use overworld_ops.System.{
  Env, World, ok, err, ticked, map_err, attempt, ask, stop_if, pure, raise, ◌>>=◌,
}

-- The stored account that a login names, while the database answers.
abbrev pub Names : Credentials → Env → World → User → Type 0
Names creds e s u =
    (e.driver_fault s.ticks ≡ none)
    × (first_where (has_username (trim_space creds.username)) s.users ≡ some u)

wrong_password :
    (cfg : Config) (creds : Credentials) (e : Env) (s : World) (u : User)
    → Names creds e s u
    → e.bcrypt_matches u.password_hash creds.password ≡ false
    → handle_login cfg (some creds) e s
      ≡ (err (fails 401 "invalid username or password"), ticked (ticked s))
unfolding handle_login decoded attempt ◌>>=◌ user_by_username map_err exec query scan_user pure
    known_user matches ask stop_if raise
wrong_password cfg creds e s u (calm, found) bad = rw calm (rw found (rw bad refl))

unknown_name :
    (cfg : Config) (creds : Credentials) (e : Env) (s : World)
    → first_where (has_username (trim_space creds.username)) s.users ≡ none
    → e.driver_fault s.ticks ≡ none
    → handle_login cfg (some creds) e s
      ≡ (err (fails 401 "invalid username or password"), ticked (ticked s))
unfolding handle_login decoded attempt ◌>>=◌ user_by_username map_err exec query scan_user pure
    known_user matches ask stop_if raise
unknown_name cfg creds e s missing calm = rw calm (rw missing refl)

failed_read :
    (cfg : Config) (creds : Credentials) (e : Env) (s : World) (message : Text)
    → e.driver_fault s.ticks ≡ some message
    → handle_login cfg (some creds) e s
      ≡ (err (fails 401 "invalid username or password"), ticked (ticked s))
unfolding handle_login decoded attempt ◌>>=◌ user_by_username map_err exec query scan_user pure
    known_user matches ask stop_if raise
failed_read cfg creds e s message fault = rw fault refl

-- A login that names no stored account whose password it has is always refused in the same way,
-- whether the name is unknown, the password is wrong or the database fails: with the same answer,
-- after one statement and one password comparison, and without any change to the tables or request
-- to the Docker Engine.
pub handle_login-refusal :
    (cfg : Config) (creds : Credentials) (e : Env) (s : World)
    → ((u : User) → Names creds e s u → e.bcrypt_matches u.password_hash creds.password ≡ false)
    → handle_login cfg (some creds) e s
      ≡ (err (fails 401 "invalid username or password"), ticked (ticked s))
handle_login-refusal cfg creds e s no_match = elim (Option-cases (e.driver_fault s.ticks)) [
  | inl calm ↦
      elim (Option-cases (first_where (has_username (trim_space creds.username)) s.users)) [
        | inl missing ↦ unknown_name cfg creds e s missing calm
        | inr (u, found) ↦ wrong_password cfg creds e s u (calm, found) (no_match u (calm, found))
      ]
  | inr (m, fault) ↦ failed_read cfg creds e s m fault
]

-- The cookie that answers a login with the right password.
abbrev pub login_expiry : Env → World → ℕ
login_expiry e s = unix (e.clock (suc (suc s.ticks)) + session_ttl)

abbrev pub login_cookie : Config → Env → World → User → Cookie
login_cookie cfg e s u =
    session (token_of e cfg.session_secret u.id (login_expiry e s)) (login_expiry e s)
      cfg.secure_cookies

pub login_cookie_issued :
    (cfg : Config) (e : Env) (s : World) (u : User)
    → (issue_session {E = Response} cfg u.id e (ticked (ticked s))).0 ≡ ok (login_cookie cfg e s u)
unfolding issue_session signed_token time_now ask pure ◌>>=◌
login_cookie_issued cfg e s u = refl

pub right_password :
    (cfg : Config) (creds : Credentials) (e : Env) (s : World) (u : User)
    → Names creds e s u
    → e.bcrypt_matches u.password_hash creds.password ≡ true
    → (handle_login cfg (some creds) e s).0
      ≡ ok (setting (login_cookie cfg e s u) (reply 200 (Body.user (user_json u))))
unfolding handle_login decoded attempt ◌>>=◌ user_by_username map_err exec query scan_user pure
    known_user matches ask stop_if raise issue_session signed_token time_now
right_password cfg creds e s u (calm, found) good = rw calm (rw found (rw good refl))
