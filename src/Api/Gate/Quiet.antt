-- ===== src/Api/Gate/Quiet.antt =====
-- The gates only read: neither the tables nor the Docker Engine see a write from them.
use overworld_ops.Base.{List, [], ◌∷◌, Option, none, some, Text, ◌≡◌, refl, ℕ, ℤ}
use overworld_ops.System.{World, Env, ok, ask, Result, err}
use overworld_ops.System.Keeps.{Keeps, keeps_rules}
use overworld_ops.Store.Sql.{exec, query, exec_with, time_now}
use overworld_ops.Api.Session.{unexpired, verified, decoded_cookie, parse_session, split_bar}
use overworld_ops.Store.Users.{scan_user, user_by_id}
use overworld_ops.Api.Auth.{or_respond, require_auth, require_admin}
use overworld_ops.Config.{Config}
use overworld_ops.Models.{User}
use overworld_ops.Api.Http.{Response, Request}
use overworld_ops.Api.Base64.{decode}

-- The tables are what they were, and the Docker Engine was sent nothing.
pub record Unchanged (s t : World) : Type 0 where
  pub users : t.users ≡ s.users
  pub servers : t.servers ≡ s.servers
  pub calls : t.calls ≡ s.calls

module _ (s0 : World) where
  read-Unchanged :
      {A : Type 0} (fault : Option Text) (a : A) (s : World)
      → Unchanged s0 s
      → Unchanged s0 (exec_with fault (ok (a, s)) s).1
  read-Unchanged none a s h = record { users = h.users; servers = h.servers; calls = h.calls }
  read-Unchanged (some m) a s h = record { users = h.users; servers = h.servers; calls = h.calls }

  pub query-Unchanged : {A : Type 0} (f : World → A) → Keeps (Unchanged s0) (exec (query f))
  unfolding exec query
  query-Unchanged f = record { at = λ e s h. read-Unchanged (e.driver_fault s.ticks) (f s) s h }

  ask-Unchanged : {E A : Type 0} (f : Env → ℕ → A) → Keeps (Unchanged s0) (ask {E = E} f)
  unfolding ask
  ask-Unchanged f = record {
    at = λ e s h. record { users = h.users; servers = h.servers; calls = h.calls };
  }

  time_now-Unchanged : {E : Type 0} → Keeps (Unchanged s0) (time_now {E = E})
  unfolding time_now
  time_now-Unchanged = ask-Unchanged (λ e n. e.clock n)

  ruleset quiet = (keeps_rules, query-Unchanged, ask-Unchanged, time_now-Unchanged)

  unexpired-Unchanged : (id : Text) (expiry : Option ℤ) → Keeps (Unchanged s0) (unexpired id expiry)
  unfolding unexpired
  unexpired-Unchanged id none = search quiet
  unexpired-Unchanged id (some n) = search quiet depth 8

  verified-Unchanged :
      (cfg : Config) (parts : List Text) → Keeps (Unchanged s0) (verified cfg parts)
  unfolding verified
  verified-Unchanged cfg (a ∷ b ∷ c ∷ []) = search (quiet, unexpired-Unchanged) depth 8
  verified-Unchanged cfg [] = search quiet
  verified-Unchanged cfg (a ∷ []) = search quiet
  verified-Unchanged cfg (a ∷ b ∷ []) = search quiet
  verified-Unchanged cfg (a ∷ b ∷ c ∷ d ∷ l) = search quiet

  decoded_cookie-Unchanged :
      (cfg : Config) (raw : Option Text) → Keeps (Unchanged s0) (decoded_cookie cfg raw)
  unfolding decoded_cookie
  decoded_cookie-Unchanged cfg none = search quiet
  decoded_cookie-Unchanged cfg (some raw) = verified-Unchanged cfg (split_bar raw)

  pub parse_session-Unchanged :
      (cfg : Config) (value : Option Text) → Keeps (Unchanged s0) (parse_session cfg value)
  unfolding parse_session
  parse_session-Unchanged cfg none = search quiet
  parse_session-Unchanged cfg (some value) = decoded_cookie-Unchanged cfg (decode value)

  scan_user-Unchanged : (row : Option User) → Keeps (Unchanged s0) (scan_user row)
  unfolding scan_user
  scan_user-Unchanged none = search quiet
  scan_user-Unchanged (some u) = search quiet

  user_by_id-Unchanged : (id : Text) → Keeps (Unchanged s0) (user_by_id id)
  unfolding user_by_id
  user_by_id-Unchanged id = search (quiet, scan_user-Unchanged) depth 12

  pub or_respond-Unchanged :
      {E A : Type 0} (r : Response) (a : Result E A) → Keeps (Unchanged s0) (or_respond r a)
  unfolding or_respond
  or_respond-Unchanged r (ok a) = search quiet
  or_respond-Unchanged r (err x) = search quiet

  pub require_auth-Unchanged :
      (cfg : Config) (req : Request) → Keeps (Unchanged s0) (require_auth cfg req)
  unfolding require_auth
  require_auth-Unchanged cfg req =
      search (quiet, parse_session-Unchanged, user_by_id-Unchanged, or_respond-Unchanged) depth 12

  pub require_admin-Unchanged :
      (cfg : Config) (req : Request) → Keeps (Unchanged s0) (require_admin cfg req)
  unfolding require_admin
  require_admin-Unchanged cfg req = search (quiet, require_auth-Unchanged) depth 8

pub Unchanged-refl : (s : World) → Unchanged s s
Unchanged-refl s = record { users = refl; servers = refl; calls = refl }
