-- ===== src/Api/Servers/Renames.antt =====
-- What a request to rename a server does to the table.
use overworld_ops.Base.{
  none, some, Option, ℕ, Text, false, ◌≡◌, ◌||◌, inl, inr, refl, first_where, is_empty, ltb, length,
  trim_space, Bool-cases, update_where, ◌∙◌, ap, ◌⊎◌,
}
use overworld_ops.Models.{Server, User}
use overworld_ops.Config.{Config}
use overworld_ops.System.{World, Env, sent, Result, ◌>>=◌, pure, ok, err}
use overworld_ops.System.Ends.{
  Ends, Ends-pure, Ends-raise, Outcome, Ends-bind, Ends-ask, Ends-attempted, Ends-known, Ends-some,
}
use overworld_ops.Store.Sql.{has_id, time_now, Error}
use overworld_ops.Store.Made.Insert.{Same, Same-OfTables}
use overworld_ops.Api.Answers.{
  Found, Refused, Found-id, IsError, view-Ends, lookup-Ends, decoded-Ends, either,
}
use overworld_ops.Api.Http.{Response, Request, Body, ServerView, reply, fails, serve}
use overworld_ops.Api.Servers.{
  renamed, saved_or, update_server, view, Result, Error, pure, ok, err, handle_update_server,
}
use overworld_ops.Store.Writes.{Updated, save_server-Ends}
use overworld_ops.Store.Servers.{update_server, set_mutable}
use overworld_ops.Api.Views.{view}
use overworld_ops.System.Keeps.{OfTables}
use overworld_ops.Store.Calm.{first_where_updated}
use overworld_ops.Docker.Keeps.{docker_keeps}

-- The name that a record gets: the given one without the blanks around it, of 1 to 64 bytes, or
-- its own.
abbrev pub IsNamed : Option Text → Server → Text → Type 0
IsNamed none v name = name ≡ v.name
IsNamed (some given) v name =
    (name ≡ trim_space given) × ((is_empty name || ltb 64 (length name)) ≡ false)

module _ (cfg : Config) (u : User) (req : Request) (input : Option (Option Text)) (e : Env)
    (s : World) where
  -- The answer shows the record that was found, with its new name, and it is stored like this.
  pub record IsRenamed (r : Response) (t : World) : Type 0 where
    pub before : Server
    pub given : Option Text
    pub name : Text
    pub now : ℕ
    pub shown : ServerView
    pub found : Found u req s before
    pub read : input ≡ some given
    pub named : IsNamed given before name
    pub status : r.status ≡ 200
    pub answer : r.body ≡ Body.server shown
    pub server : shown.server ≡ record before { name = name; updated_at = now }
    pub stored : first_where (has_id req.id) t.servers ≡ some shown.server
    pub table : t.servers ≡ update_where (has_id req.id) (set_mutable shown.server) s.servers

  renamed-Ends :
      (v : Server) (given : Option Text)
      → Ends e
          (Same s.servers)
          (λ w t.
            Same s.servers t
            × ((name : Text) × IsNamed given v name × (w ≡ record v { name = name })))
          (Refused s)
          (renamed given v)
  unfolding renamed
  renamed-Ends v none = Ends-pure v (λ t h. (h, (v.name, refl, refl)))
  renamed-Ends v (some given) =
      elim (Bool-cases (is_empty (trim_space given) || ltb 64 (length (trim_space given)))) [
        | inl bad ↦ rw bad (Ends-raise _ (λ t h. (h, (_, refl))))
        | inr good ↦ rw good (Ends-pure _ (λ t h. (h, (trim_space given, (refl, good), refl))))
      ]

  saved_or-Ends :
      {A : World → Type 0} (v : Server) (r : Result Error (Unit {0})) (x : Response)
      → IsError x
      → Ends e
          (Outcome (λ _. A) (λ _. Same s.servers) r)
          (λ w t. A t × (w ≡ v))
          (Refused s)
          (saved_or v r x)
  unfolding saved_or
  saved_or-Ends v (ok _) x answer = Ends-pure v (λ t h. (h, refl))
  saved_or-Ends v (err _) x answer = Ends-raise x (λ t h. (h, answer))

  module _ (v : Server) (given : Option Text) (name : Text) (found : Found u req s v)
      (read : input ≡ some given) (named : IsNamed given v name) where
    abbrev later : ℕ → Server
    later now = record v { name = name; updated_at = now }

    Stored : ℕ → World → Type 0
    Stored now = Updated s.servers v.id (set_mutable (later now))

    Stored-OfTables : (now : ℕ) → OfTables (Stored now)
    unfolding Stored sent
    Stored-OfTables now = record { ticked_ok = λ t h. h; sent_ok = λ c t _ h. h }

    update_server-Ends :
        {X : Response → World → Type 0}
        → Ends e
            (Same s.servers)
            (λ saved t.
              (now : ℕ) × ((Outcome (λ _. Stored now) (λ _. Same s.servers) saved.1 t)
                × (saved.0 ≡ later now)))
            X
            (update_server (record v { name = name }))
    unfolding update_server time_now Stored
    update_server-Ends =
        Ends-bind (λ _. Same s.servers) _ _ (Ends-ask _ (Same-OfTables s.servers))
          (λ now.
            Ends-bind _ _ _ (Ends-attempted _ (save_server-Ends s.servers e (later now)))
              (λ r. Ends-pure _ (λ t h. (now, (h, refl)))))

    Stored-table :
        (now : ℕ) (t : World)
        → Stored now t
        → t.servers ≡ update_where (has_id req.id) (set_mutable (later now)) s.servers
    unfolding Stored
    Stored-table now t h =
        h
        ∙ ap (λ id. update_where (has_id id) (set_mutable (later now)) s.servers)
            (Found-id u req s v found)

    first-Stored :
        (now : ℕ) (t : World)
        → Stored now t
        → first_where (has_id req.id) t.servers ≡ some (later now)
    unfolding set_mutable
    first-Stored now t h = rw (Stored-table now t h) (
        first_where_updated (has_id req.id) (set_mutable (later now)) s.servers v (λ w. refl)
          found.0)

    IsRenamed-view :
        (now : ℕ)
        → Ends e
            (Stored now)
            IsRenamed
            (Refused s)
            (view cfg (later now) >>= λ shown. pure (reply 200 (Body.server shown)))
    IsRenamed-view now =
        Ends-bind _ _ _ (view-Ends cfg _ (search (docker_keeps, Stored-OfTables))) (λ shown.
          Ends-pure _ (λ t (h, same). record {
            before = v;
            given = given;
            name = name;
            now = now;
            shown = shown;
            found = found;
            read = read;
            named = named;
            status = refl;
            answer = refl;
            server = same;
            stored = rw same (first-Stored now t h);
            table = rw same (Stored-table now t h);
          }))

    saved-Ends :
        (w : Server)
        → w ≡ record v { name = name }
        → Ends e (Same s.servers) IsRenamed (Refused s) (
            update_server w >>= λ saved.
            saved_or saved.0 saved.1 (fails 500 "could not update server") >>= λ x.
            view cfg x >>= λ shown. pure (reply 200 (Body.server shown)))
    saved-Ends w same = rw same (
        Ends-bind _ _ _ update_server-Ends (λ saved. Ends-some (λ now. Ends-known (λ done. rw done (
          Ends-bind _ _ _ (saved_or-Ends (later now) saved.1 _ (_, refl))
            (λ x. Ends-known (λ shown. rw shown (IsRenamed-view now))))))))

  handle_update_server-Ends :
      Ends e (Same s.servers) IsRenamed (Refused s) (handle_update_server cfg u req input)
  unfolding handle_update_server
  handle_update_server-Ends = Ends-bind _ _ _ (lookup-Ends e s u req) (λ v. Ends-known (λ found.
      Ends-bind _ _ _ (decoded-Ends input) (λ given. Ends-known (λ read.
        Ends-bind _ _ _ (renamed-Ends v given) (λ w.
          Ends-known (λ (name, named, same). saved-Ends v given name found read named w same))))))

-- A request to rename a server, whatever fails on the way, either answers 200 with the server, and
-- the stored record of the ID in the path, which the account owns or may change as an administrator,
-- is the one that is shown: as it was, but for the time of the update and for the name, which is the
-- given one without the blanks around it, of 1 to 64 bytes, where one is given; no record with
-- another ID has changed, and the order is as it was. Or it answers with an error and leaves the
-- table as it was.
pub handle_update_server-Renames :
    (cfg : Config) (u : User) (req : Request) (input : Option (Option Text)) (e : Env) (s : World)
    → IsRenamed cfg u req input e s
        (serve (handle_update_server cfg u req input) e s).0
        (serve (handle_update_server cfg u req input) e s).1
      ⊎ Refused s
          (serve (handle_update_server cfg u req input) e s).0
          (serve (handle_update_server cfg u req input) e s).1
unfolding serve
handle_update_server-Renames cfg u req input e s =
    either (IsRenamed cfg u req input e s) (Refused s) _ _
      ((handle_update_server-Ends cfg u req input e s).at s refl)
