-- ===== src/Api/Servers/Stops.antt =====
-- What a request to stop a server leaves, while the database does not fail.
use overworld_ops.Base.{
  [], none, ℕ, Text, ◌≡◌, refl, inl, inr, ◌⊎◌, Bool, false, true, first_where, count_where,
  is_empty, some,
}
use overworld_ops.Models.{Server, User, stopped, stopping}
use overworld_ops.Config.{Config, seconds_of}
use overworld_ops.Docker.Client.{DockerError}
use overworld_ops.Docker.Client
use overworld_ops.Docker.Keeps.{docker_keeps}
use overworld_ops.System.{World, Env, Result, ok, err, attempt, pure, ◌>>=◌, ◌>>◌}
use overworld_ops.System.Ends.{
  Ends, Ends-pure, Ends-raise, Ends-bind, Ends-attempt, Ends-weaken, Ends-known, Ends-from,
  Ends-guard,
}
use overworld_ops.Store.Calm.{HasRow-OfTables}
use overworld_ops.Store.Servers.{set_status}
use overworld_ops.Store.Made.Insert.{Same}
use overworld_ops.Api.Answers.{IsError, Found-id, either, Found}
use overworld_ops.Api.Lookup.{IsMissing, IsVisible, Found-IsVisible, lookup-calm}
use overworld_ops.Api.Servers.Others.{handle_stop_server-Others}
use overworld_ops.Store.Present.{is_other}
use overworld_ops.Api.Http.{Response, Request, serve, fails, reply, Body, Handler}
use overworld_ops.Api.Views.{view}
use overworld_ops.Api.Servers.{unless_failed, handle_stop_server, Bool, is_empty, some}
use overworld_ops.Api.Servers.Saved.{
  Runs, Marks, IsBroken, IsSaved, fail_server-calm, set_status-Marks, view-IsSaved,
}
use overworld_ops.Store.Sql.{has_id}

module _ (cfg : Config) (e : Env) (calm : (n : ℕ) → e.driver_fault n ≡ none) (k : Text) where
  Runs-Marks : (v : Server) (t : World) → Marks k stopping v t → Runs k v t
  Runs-Marks v t (w, found, (_, _, container)) = (w, found, container)

  unless_failed-calm :
      (v : Server) (r : Result DockerError (Unit {0})) (x : Response)
      → v.id ≡ k
      → IsError x
      → x.status ≡ 500
      → Ends e (Marks k stopping v) (λ _. Runs k v) (IsBroken k) (unless_failed v r x)
  unfolding unless_failed
  unless_failed-calm v (ok _) x here answer five = Ends-pure tt (Runs-Marks v)
  unless_failed-calm v (err DockerError.not_found) x here answer five = Ends-pure tt (Runs-Marks v)
  unless_failed-calm v (err (DockerError.failed m)) x here answer five =
      Ends-bind _ _ _ (fail_server-calm cfg e calm k v (DockerError.failed m) here)
        (λ _. Ends-raise x (λ t h. record { status = five; answer = answer; failed = h }))

  -- The handler from the request to the Docker Engine on.
  abbrev stopping_now : Server → Handler
  stopping_now v = do
    attempt (set_status v.id stopping [])
    gone ← attempt (Client.stop_server v.container_id (seconds_of cfg.stop_timeout))
    unless_failed v gone (fails 500 "could not stop server")
    attempt (set_status v.id stopped [])
    shown ← view cfg (record v { status = stopped; status_message = [] })
    pure (reply 200 (Body.server shown))

  stopping_now-calm :
      (v : Server) → v.id ≡ k → Ends e (Runs k v) (IsSaved k stopped) (IsBroken k) (stopping_now v)
  stopping_now-calm v here = Ends-bind _ _ _ (set_status-Marks cfg e calm k v stopping here) (λ _.
      Ends-bind (λ _. Marks k stopping v) _ _
        (Ends-attempt _ (search (docker_keeps, HasRow-OfTables)))
        (λ gone. Ends-bind _ _ _ (unless_failed-calm v gone _ here (_, refl) refl) (λ _.
          Ends-bind _ _ _ (set_status-Marks cfg e calm k v stopped here)
            (λ _. view-IsSaved cfg e calm k v stopped))))

module _ (u : User) (req : Request) (s : World) where
  -- The server is there for the account, and whether its record is without a container.
  pub record IsKnown (without : Bool) : Type 0 where
    pub visible : IsVisible u req s
    pub before : Server
    pub found : first_where (has_id req.id) s.servers ≡ some before
    pub container : is_empty before.container_id ≡ without

  -- It was stopped.
  abbrev pub Stopped : Response → World → Type 0
  Stopped r t = IsKnown false × IsSaved req.id stopped r t

  -- It was not there for the account, it has no container, or its record is marked as failed.
  abbrev pub NotStopped : Response → World → Type 0
  NotStopped r t =
      IsMissing u req s r t
      ⊎ (IsKnown true × (r ≡ fails 409 "server has no container") × (t.servers ≡ s.servers))
      ⊎ (IsKnown false × IsBroken req.id r t)

  Found-IsKnown :
      (v : Server) (b : Bool) → Found u req s v → is_empty v.container_id ≡ b → IsKnown b
  Found-IsKnown v b found known = record {
    visible = Found-IsVisible u req s v found;
    before = v;
    found = found.0;
    container = known;
  }

module _ (cfg : Config) (u : User) (req : Request) (e : Env) (s : World)
    (calm : (n : ℕ) → e.driver_fault n ≡ none) where
  handle_stop_server-calm :
      Ends e (Same s.servers) (Stopped u req s) (NotStopped u req s) (handle_stop_server cfg u req)
  unfolding handle_stop_server
  handle_stop_server-calm =
      Ends-bind _ _ _ (Ends-weaken (λ _ t h. h) (λ _ t h. inl h) (lookup-calm u req e s calm)) (λ v.
        Ends-known (λ found.
          Ends-bind _ _ _
            (Ends-weaken (λ _ t h. h)
              (λ _ t (same, idle, answer).
                inr (inl (Found-IsKnown u req s v true found idle, answer, same)))
              (Ends-guard _ _))
            (λ _. Ends-known (λ busy.
              let before = Found-IsKnown u req s v false found busy in
              Ends-weaken (λ _ t h. (before, h)) (λ _ t h. inr (inr (before, h)))
                (Ends-from {P = Runs req.id v}
                  (λ t same. ((v, rw same found.0, refl), Found-id u req s v found))
                  (λ here. stopping_now-calm cfg e calm req.id v here))))))

-- While the database does not fail, a request to stop a server, whatever the Docker Engine answers,
-- has one of four ends. If there is no server of the ID in the path that the account owns or may have
-- as an administrator, it answers 404, and if the record has no container, 409; both leave the table
-- as it was. Otherwise it answers 200 with the server, and the stored record has the status `stopped`
-- without a message and the container that the answer shows; or it answers 500 with an error, and the
-- stored record has the status `error`. The records of other IDs are the
-- same ones as before.
pub handle_stop_server-Stops :
    (cfg : Config) (u : User) (req : Request) (e : Env) (s : World) (p : Server → Bool)
    (calm : (n : ℕ) → e.driver_fault n ≡ none)
    → (Stopped u req s
          (serve (handle_stop_server cfg u req) e s).0
          (serve (handle_stop_server cfg u req) e s).1
        ⊎ NotStopped u req s
            (serve (handle_stop_server cfg u req) e s).0
            (serve (handle_stop_server cfg u req) e s).1)
      × (count_where (is_other req.id p) (serve (handle_stop_server cfg u req) e s).1.servers
          ≡ count_where (is_other req.id p) s.servers)
unfolding serve
handle_stop_server-Stops cfg u req e s p calm = (
  either (Stopped u req s) (NotStopped u req s) _ _
      ((handle_stop_server-calm cfg u req e s calm).at s refl),
  (handle_stop_server-Others u req s.servers cfg).at e s (λ q. refl) p,
)
