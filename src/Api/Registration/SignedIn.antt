-- ===== src/Api/Registration/SignedIn.antt =====
-- The cookie of a registration signs its account in.
use overworld_ops.Base.{
  refl, none, some, true, false, ◌≡◌, ltb, Option, count_where, ap, Text, trim_space, ◌∙◌, not,
  Bool, ℕ, ◌<◌, ◌^◌, suc, ◌≤◌,
}
use overworld_ops.Config.{Config}
use overworld_ops.System.{Env, World, ok}
use overworld_ops.Api.Http.{Response, Cookie, Request, session}
use overworld_ops.Api.Auth.{Credentials, handle_register, require_auth}
use overworld_ops.Models.{User}
use overworld_ops.Api.Session.{parse_session, unix}
use overworld_ops.Api.Base64.RoundTrip.{IsBytes}
use overworld_ops.Api.Session.Plain.{has_bar}
use overworld_ops.Api.Session.RoundTrip.{parse_session-issue_session}
use overworld_ops.Api.Gate.Passes.{require_auth-ok}
use overworld_ops.Api.Registration.Steps.{handle_register-Post}

one_value : (o : Option Cookie) (a b : Cookie) → o ≡ some a → o ≡ some b → a ≡ b
one_value o a b h k = cc

-- After a registration that succeeded, its cookie signs the new account in, while the database
-- does not fail and the clock has not passed the expiry, in any state in which the accounts are
-- still those that the registration left. The account has the name that was given, with the blanks
-- around it removed, and it is an administrator exactly if there was no account before. UUIDs are
-- made of bytes and have no bar, the HMAC is made of bytes, and the expiry fits an int64.
pub handle_register-require_auth :
    (cfg : Config) (input : Option Credentials) (e : Env) (s t : World) (req : Request)
    (r : Response) (token : Text) (expiry : ℕ) (secure : Bool)
    → (handle_register cfg input e s).0 ≡ ok r
    → r.cookie ≡ some (session token expiry secure)
    → req.cookie ≡ some token
    → t.users ≡ (handle_register cfg input e s).1.users
    → ((n : ℕ) → e.driver_fault n ≡ none)
    → ((n : ℕ) → IsBytes (e.uuid n) × (has_bar (e.uuid n) ≡ false))
    → ((key message : Text) → IsBytes (e.hmac_sha256 key message))
    → expiry < 2 ^ 63
    → unix (e.clock (suc t.ticks)) ≤ expiry
    → (given : Credentials) × (u : User) × (input ≡ some given)
      × ((require_auth cfg req e t).0 ≡ ok u)
      × (u.username ≡ trim_space given.username)
      × (u.is_admin ≡ not (ltb 0 (count_where (λ u. true) s.users)))
handle_register-require_auth cfg input e s t req r token expiry secure done sets sent_back
      same_users calm uuids mac small early =
    let registered = (handle_register-Post cfg e s input).at s r refl done in
    let u : User = registered.account in
    let stored = registered.stored in
    let accepted : (parse_session cfg req.cookie e t).0 ≡ ok u.id = rw sent_back (
      parse_session-issue_session {E = Response} cfg e u.id registered.moment t token expiry secure
        (registered.issued ∙ ap ok (one_value r.cookie registered.cookie _ registered.set sets))
        (rw stored.id ((uuids stored.moment).0)) (rw stored.id ((uuids stored.moment).1)) mac small
        early) in
    (
      registered.given,
      u,
      registered.read,
      require_auth-ok cfg req e t u calm accepted (rw same_users stored.found),
      stored.username,
      stored.is_admin,
    )
