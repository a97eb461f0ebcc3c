-- ===== src/Tests/Login.antt =====
-- A login with the right password, and one with a wrong one.
use overworld_ops.Base.{
  refl, some, [], ◌∷◌, codes, ◌≡◌, text_eq, arith, first_where, trim_space, skip_space, space_width,
  space_width_back, is_space1, is_space2, is_space3, Text,
}
use overworld_ops.System.{Env, ok, err, ticked}
use overworld_ops.Api.Http.{Request, Body, fails, reply, user_json}
use overworld_ops.Api.Auth.{Credentials, handle_login, require_auth, setting}
use overworld_ops.Api.Login.{handle_login-refusal, login_cookie, login_expiry}
use overworld_ops.Api.Login.SignedIn.{handle_login-require_auth}
use overworld_ops.Api.Session.{token_of}
use overworld_ops.Api.Session.Plain.{has_bar}
use overworld_ops.Tests.Registry.{world-IsValid}
use overworld_ops.Tests.Samples.{friend, world, calm, config}

-- A password is its own hash.
abbrev with_passwords : Env
with_passwords = record calm { bcrypt_matches = λ hash password. text_eq hash password }

abbrev right : Credentials
right = record { username = codes " friend "; password = 8 ∷ [] }

abbrev wrong : Credentials
wrong = record { username = codes " friend "; password = 7 ∷ [] }

abbrev friend_token : Text
friend_token =
    token_of with_passwords config.session_secret friend.id (login_expiry with_passwords world)

abbrev as_friend : Request
as_friend = record { id = []; query = λ k. []; cookie = some friend_token }

handle_login-require_auth_example :
    ((handle_login config (some right) with_passwords world).0
      ≡ ok (
          setting
            (login_cookie config with_passwords world friend)
            (reply 200 (Body.user (user_json friend)))))
    × ((require_auth config as_friend with_passwords world).0 ≡ ok friend)
unfolding first_where trim_space codes skip_space space_width space_width_back is_space1 is_space2
    is_space3 text_eq has_bar
handle_login-require_auth_example =
    handle_login-require_auth config right with_passwords world world friend as_friend world-IsValid
      (λ n. refl) refl refl (omega arith) refl (λ k m. omega arith) refl refl (omega arith)
      (omega arith)

handle_login-refusal_example :
    handle_login config (some wrong) calm world
    ≡ (err (fails 401 "invalid username or password"), ticked (ticked world))
handle_login-refusal_example = handle_login-refusal config wrong calm world (λ u named. refl)
