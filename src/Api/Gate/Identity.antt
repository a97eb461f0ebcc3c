-- ===== src/Api/Gate/Identity.antt =====
-- Which account `requireAuth` hands to a handler.
use overworld_ops.Base.{none, some, Text, ◌≡◌, Option, first_where, ◌∙◌, ap, sym}
use overworld_ops.Store.Reads.{query-ok}
use overworld_ops.Api.Auth.{or_respond, require_auth, setting}
use overworld_ops.Store.Users.{scan_user, user_by_id}
use overworld_ops.System.{World, pure, attempt, raise, ok, Env, Result, err, Act}
use overworld_ops.Store.Sql.{has_user_id}
use overworld_ops.Config.{Config}
use overworld_ops.Api.Http.{Response, Request, fails}
use overworld_ops.Models.{User}
use overworld_ops.Api.Session.Sound.{IsGood, parse_session_sound}
use overworld_ops.Api.Session.{parse_session, SessionError, clear_session}
use overworld_ops.Api.Gate.Quiet.{or_respond-Unchanged, parse_session-Unchanged, Unchanged-refl}
use overworld_ops.System.Binds.{bind-ok, attempt-ok}

or_respond-ok :
    {E A : Type 0} (r : Response) (o : Result E A) (e : Env) (s : World) (a : A)
    → (or_respond r o e s).0 ≡ ok a
    → o ≡ ok a
unfolding or_respond pure raise
or_respond-ok r (ok b) e s a h = cc
or_respond-ok r (err x) e s a h = absurd cc

scan_user-ok :
    (row : Option User) (e : Env) (s : World) (u : User)
    → (scan_user row e s).0 ≡ ok u
    → row ≡ some u
unfolding scan_user pure raise
scan_user-ok none e s u h = absurd cc
scan_user-ok (some v) e s u h = cc

user_by_id-ok :
    (id : Text) (e : Env) (s : World) (u : User)
    → (user_by_id id e s).0 ≡ ok u
    → first_where (has_user_id id) s.users ≡ some u
unfolding user_by_id
user_by_id-ok id e s u h =
    let (row, read, found) = bind-ok _ scan_user e s u h in
    query-ok _ _ e s row read ∙ scan_user-ok row e _ u found

-- An account that `requireAuth` hands to a handler is the stored account of the ID in the cookie,
-- and the cookie holds that ID, an expiry that was not over by the clock as the gate read it, and the
-- signature of both under the server's secret.
pub require_auth-IsGood :
    (cfg : Config) (req : Request) (e : Env) (s : World) (u : User)
    → (require_auth cfg req e s).0 ≡ ok u
    → (id : Text) × IsGood cfg e s req.cookie id × (first_where (has_user_id id) s.users ≡ some u)
unfolding require_auth attempt
require_auth-IsGood cfg req e s u h =
    let parse : Act SessionError Text = parse_session cfg req.cookie in
    let refusal : Response = fails 401 "authentication required" in
    let (session, parsed, rest) = bind-ok (attempt parse) _ e s u h in
    let after : World = (parse e s).1 in
    let (id, named, rest2) = bind-ok (or_respond refusal session) _ e after u rest in
    let later : World = (or_respond refusal session e after).1 in
    let (row, found, last) = bind-ok (attempt (user_by_id id)) _ e later u rest2 in
    let read =
      (or_respond-Unchanged s refusal session).at e after
        ((parse_session-Unchanged s cfg req.cookie).at e s (Unchanged-refl s)) in
    (
      id,
      parse_session_sound cfg req.cookie e s id
          (attempt-ok parse e s session parsed ∙ or_respond-ok refusal session e after id named),
      ap (λ l. first_where (has_user_id id) l) (sym read.users)
          ∙ user_by_id-ok id e later u (
              attempt-ok (user_by_id id) e later row found
              ∙ or_respond-ok (setting (clear_session cfg) refusal) row e (user_by_id id e later).1
                  u last),
    )
