-- ===== src/Api/Registration/Steps.antt =====
-- What each step of `handleRegister` establishes where it goes on.
use overworld_ops.Base.{
  refl, none, some, true, ◌≡◌, ltb, Option, count_where, ap, sym, Text, trim_space, ◌∙◌, not, Bool,
  first_where,
}
use overworld_ops.Config.{Config}
use overworld_ops.System.{Env, World, sent, pure, raise, ask, ok, map_err, ◌>>=◌}
use overworld_ops.Api.Http.{decoded, Response, fails, Cookie, Handler, reply, Body, user_json}
use overworld_ops.Api.Auth.{
  accepted, Credentials, trimmed, some_or, hash_password, handle_register, valid_credentials,
  setting, validate_credentials,
}
use overworld_ops.Store.Users.{any_user_exists, create_user}
use overworld_ops.System.Keeps.{
  OfTables, Keeps-map_err, Keeps, keeps_rules, Keeps-bind, Keeps-stop_if, Keeps-ask,
}
use overworld_ops.System.Post.{Post, Post-bind, Post-Keeps, Post-pure, Post-known, Post-map_err}
use overworld_ops.Models.Validate.{Message}
use overworld_ops.System.Binds.{ok-injective}
use overworld_ops.Store.Sql.{failed, has_user_id}
use overworld_ops.Models.{User}
use overworld_ops.Store.Keeps.{Keeps-query, Keeps-time_now}
use overworld_ops.Api.Registration.Stored.{IsStored, create_user-IsStored}
use overworld_ops.Store.Reads.{query-ok}
use overworld_ops.Api.Session.{issue_session, signed_token}

-- The end of `handleRegister`.
abbrev signed_in : Config → User → Handler
signed_in cfg u = do
  cookie ← issue_session cfg u.id
  pure (setting cookie (reply 201 (Body.user (user_json u))))

module _ (cfg : Config) (e : Env) (s0 : World) where
  -- The accounts are those of the start.
  abbrev pub SameUsers : World → Type 0
  SameUsers t = t.users ≡ s0.users

  pub SameUsers-OfTables : OfTables SameUsers
  unfolding sent
  SameUsers-OfTables = record { ticked_ok = λ s h. h; sent_ok = λ c s _ h. h }

  decoded-Post :
      {A : Type 0} (input : Option A)
      → Post e SameUsers (λ a t. SameUsers t × (input ≡ some a)) (decoded input)
  unfolding decoded pure raise
  decoded-Post none = record { at = λ s a h returned. absurd cc }
  decoded-Post (some b) = record { at = λ s a h returned. (h, ap some (ok-injective b a returned)) }

  accepted-Post :
      (given : Credentials) (o : Option Message)
      → Post e SameUsers (λ c t. SameUsers t × (c ≡ trimmed given)) (accepted given o)
  unfolding accepted pure raise
  accepted-Post given none = record {
    at = λ s a h returned. (h, sym (ok-injective (trimmed given) a returned));
  }
  accepted-Post given (some m) = record { at = λ s a h returned. absurd cc }

  pub any_user_exists-Post :
      Post e SameUsers
        (λ b t. SameUsers t × (b ≡ ltb 0 (count_where (λ u. true) s0.users)))
        any_user_exists
  unfolding any_user_exists
  any_user_exists-Post =
      Post-bind (λ n t. SameUsers t × (n ≡ count_where (λ u. true) s0.users)) _ _
        record {
          at = λ s n h returned. (
            (Keeps-map_err (failed "count users") _ (Keeps-query SameUsers-OfTables _)).at e s h,
            sym (
                  query-ok "count users" (λ t. count_where (λ (u : User). true) t.users) e s n
                    returned)
                ∙ ap (λ l. count_where (λ (u : User). true) l) h,
          );
        }
        (λ n. Post-pure _ _ (λ t (same, counted). (same, rw counted refl)))

  some_or-SameUsers : {A : Type 0} (r : Response) (o : Option A) → Keeps SameUsers (some_or r o)
  unfolding some_or
  some_or-SameUsers r none = search keeps_rules
  some_or-SameUsers r (some a) = search keeps_rules

  hash_password-SameUsers :
      (password : Text) (r : Response) → Keeps SameUsers (hash_password password r)
  unfolding hash_password
  hash_password-SameUsers password r =
      Keeps-bind (ask (λ e n. e.bcrypt_hash n password)) (some_or r)
        (Keeps-ask (λ e n. e.bcrypt_hash n password) SameUsers-OfTables) (some_or-SameUsers r)

  -- What a registration leaves: a stored account with the given name, which is an administrator
  -- exactly if it is the first, and its cookie.
  pub record IsRegistered (input : Option Credentials) (r : Response) (t : World) : Type 0 where
    pub given : Credentials
    pub read : input ≡ some given
    pub account : User
    pub stored :
        IsStored account
          (trim_space given.username)
          (not (ltb 0 (count_where (λ u. true) s0.users)))
          e
          t
    pub cookie : Cookie
    pub set : r.cookie ≡ some cookie
    pub moment : World
    pub issued : (issue_session {E = Response} cfg account.id e moment).0 ≡ ok cookie

  issue_session-found :
      (u : User)
      → Keeps
          (λ t. first_where (has_user_id u.id) t.users ≡ some u)
          (issue_session {E = Response} cfg u.id)
  unfolding issue_session signed_token sent
  issue_session-found u =
      let tables : OfTables (λ t. first_where (has_user_id u.id) t.users ≡ some u) = record {
        ticked_ok = λ s h. h;
        sent_ok = λ c s _ h. h;
      } in
      search (keeps_rules, Keeps-time_now, Keeps-ask, tables) depth 10

  issue_session-Post :
      (u : User) (name : Text) (role : Bool)
      → Post e
          (IsStored u name role e)
          (λ c t.
            IsStored u name role e t
            × ((m : World) × ((issue_session {E = Response} cfg u.id e m).0 ≡ ok c)))
          (issue_session {E = Response} cfg u.id)
  issue_session-Post u name role = record {
    at = λ s c h returned. (
      record {
        username = h.username;
        is_admin = h.is_admin;
        moment = h.moment;
        id = h.id;
        found = (issue_session-found u).at e s h.found;
      },
      (s, returned),
    );
  }

  -- The last steps, once the credentials have been checked.
  created-Post :
      (input : Option Credentials) (given : Credentials) (hash : Text) (existing : Bool)
      → input ≡ some given
      → existing ≡ ltb 0 (count_where (λ u. true) s0.users)
      → Post e SameUsers (IsRegistered input) (
          map_err
            (λ _. fails 409 "username is taken")
            (create_user (trim_space given.username) hash (not existing))
          >>= signed_in cfg)
  created-Post input given hash existing was_read counted =
      Post-bind (λ u. IsStored u (trim_space given.username) (not existing) e) _ _
        (Post-map_err _ _ (record {
          at = λ s u _ returned.
              create_user-IsStored (trim_space given.username) hash (not existing) e s u returned;
        }))
        (λ u.
          Post-bind _ _ _ (issue_session-Post u (trim_space given.username) (not existing)) (λ c.
            Post-pure _ _ (λ t (stored, (m, issued)). record {
              given = given;
              read = was_read;
              account = u;
              stored = rw (← counted) stored;
              cookie = c;
              set = refl;
              moment = m;
              issued = issued;
            })))

  checked-Post :
      (input : Option Credentials) (given : Credentials)
      → input ≡ some given
      → Post e SameUsers (IsRegistered input) (do
        hash ← hash_password given.password (fails 500 "could not create account")
        existing ← map_err (λ _. fails 500 "could not create account") any_user_exists
        u ←
            map_err
              (λ _. fails 409 "username is taken")
              (create_user (trim_space given.username) hash (not existing))
        signed_in cfg u)
  checked-Post input given was_read =
      Post-bind (λ _. SameUsers) _ _ (Post-Keeps _ (hash_password-SameUsers _ _))
        (λ hash.
          Post-bind (λ b t. SameUsers t × (b ≡ ltb 0 (count_where (λ (u : User). true) s0.users))) _
            _ (Post-map_err _ _ any_user_exists-Post)
            (λ existing.
              Post-known _ (λ counted. created-Post input given hash existing was_read counted)))

  pub handle_register-Post :
      (input : Option Credentials)
      → Post e SameUsers (IsRegistered input) (handle_register cfg input)
  unfolding handle_register valid_credentials
  handle_register-Post input =
      Post-bind (λ _. SameUsers) _ _ (Post-Keeps _ (Keeps-stop_if _ _))
        (λ _.
          Post-bind (λ given t. SameUsers t × (input ≡ some given)) _ _ (decoded-Post input)
            (λ given. Post-known _ (λ was_read.
              Post-bind (λ c t. SameUsers t × (c ≡ trimmed given)) _ _
                (accepted-Post given (validate_credentials given))
                (λ creds. Post-known _ (λ clean. rw clean (checked-Post input given was_read))))))
