-- ===== src/Api/Servers/Saved.antt =====
-- What a request that changes the status of a server leaves, while the database does not fail.
use overworld_ops.Base.{none, ℕ, Text, ◌≡◌, refl, first_where, some, []}
use overworld_ops.Models.{Server, Status, error}
use overworld_ops.Config.{Config}
use overworld_ops.Docker.Client.{DockerError}
use overworld_ops.Docker.Keeps.{docker_keeps}
use overworld_ops.System.{World, Env, attempt, ◌>>=◌, pure}
use overworld_ops.System.Ends.{Ends, Ends-pure, Ends-bind, Ends-attempt_both}
use overworld_ops.Store.Calm.{HasRow, HasRow-OfTables, set_status-calm}
use overworld_ops.Store.Sql.{has_id}
use overworld_ops.Store.Servers.{set_status}
use overworld_ops.Api.Views.{fail_server, error_text, view}
use overworld_ops.Api.Http.{Response, ServerView, Body, reply}
use overworld_ops.Api.Answers.{IsError, view-Ends}

module _ (k : Text) where
  -- The record has the container of `v`.
  abbrev pub Runs : Server → World → Type 0
  Runs v = HasRow k (λ w. w.container_id ≡ v.container_id)

  abbrev pub Failed : World → Type 0
  Failed = HasRow k (λ w. w.status ≡ error)

  -- The answer is 500 with an error, and the record is marked as failed.
  pub record IsBroken (x : Response) (t : World) : Type 0 where
    pub status : x.status ≡ 500
    pub answer : IsError x
    pub failed : Failed t

  -- The answer shows the record as it is stored: with that status and no message.
  pub record IsSaved (now : Status) (r : Response) (t : World) : Type 0 where
    pub shown : ServerView
    pub stored : Server
    pub status : r.status ≡ 200
    pub answer : r.body ≡ Body.server shown
    pub found : first_where (has_id k) t.servers ≡ some stored
    pub stored_status : stored.status ≡ now
    pub no_message : stored.status_message ≡ []
    pub shown_status : shown.server.status ≡ now
    pub container_id : stored.container_id ≡ shown.server.container_id

  -- The record has that status, no message, and the container of `v`.
  abbrev pub Marks : Status → Server → World → Type 0
  Marks now v =
      HasRow k (λ w. (w.status ≡ now) × (w.status_message ≡ []) × (w.container_id ≡ v.container_id))

module _ (cfg : Config) (e : Env) (calm : (n : ℕ) → e.driver_fault n ≡ none) (k : Text) where
  pub fail_server-calm :
      {Q : Server → Type 0} {E : Type 0} {X : E → World → Type 0} (v : Server) (x : DockerError)
      → v.id ≡ k
      → Ends e (HasRow k Q) (λ _. Failed k) X (fail_server v x)
  unfolding fail_server
  fail_server-calm v x here = rw here (
      Ends-bind _ _ _
        (Ends-attempt_both _ (set_status-calm e calm k error (error_text x) (λ w now q. refl)))
        (λ _. Ends-pure tt (λ t h. h)))

  pub set_status-Marks :
      {E : Type 0} {X : E → World → Type 0} (v : Server) (now : Status)
      → v.id ≡ k
      → Ends e
          (HasRow k (λ w. w.container_id ≡ v.container_id))
          (λ _. Marks k now v)
          X
          (attempt (set_status v.id now []))
  set_status-Marks v now here =
      rw here (Ends-attempt_both _ (set_status-calm e calm k now [] (λ w n q. (refl, refl, q))))

  pub view-IsSaved :
      {X : Response → World → Type 0} (v : Server) (now : Status)
      → Ends e (Marks k now v) (IsSaved k now) X (
          view cfg (record v { status = now; status_message = [] }) >>= λ shown.
          pure (reply 200 (Body.server shown)))
  view-IsSaved v now =
      Ends-bind _ _ _ (view-Ends cfg _ (search (docker_keeps, HasRow-OfTables))) (λ shown.
        Ends-pure _ (λ t ((w, found, (status, message, container)), same). record {
          shown = shown;
          stored = w;
          status = refl;
          answer = refl;
          found = found;
          stored_status = status;
          no_message = message;
          shown_status = rw same refl;
          container_id = rw same container;
        }))
