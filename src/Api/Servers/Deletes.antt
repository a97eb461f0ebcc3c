-- ===== src/Api/Servers/Deletes.antt =====
-- What a request to delete a server does to the table.
use overworld_ops.Base.{Bool, Text, ◌≡◌, ◌⊎◌, inl, refl, codes}
use overworld_ops.Models.{Server, User, error, volume_name}
use overworld_ops.Docker.Client.{DockerError}
use overworld_ops.Docker.Keeps.{remove_server-Keeps}
use overworld_ops.System.{sent, World, Env, Result, ok, err}
use overworld_ops.System.Ends.{
  Ends, Ends-pure, Ends-raise, Ends-if, Ends-bind, Ends-map_err, Ends-attempt, Ends-attempt_both,
  Ends-weaken, Ends-known,
}
use overworld_ops.Store.Made.Insert.{Same, Same-OfTables}
use overworld_ops.Store.Writes.{Deleted, Marked, set_status-Ends, delete_server-Ends}
use overworld_ops.Api.Answers.{Found-id, IsError, Refused, Found, lookup-Ends, either}
use overworld_ops.Api.Http.{Request, Response, Body, serve}
use overworld_ops.Api.Views.{fail_server, error_text}
use overworld_ops.Api.Servers.{handle_delete_server, unless_failed, drop_container}
use overworld_ops.Api.Servers.Rests.{deleted}

module _ (u : User) (req : Request) (e : Env) (s : World) where
  -- The answer is 204, and the table is without the record, which the account might delete.
  pub record IsDeletion (r : Response) (t : World) : Type 0 where
    pub status : r.status ≡ 204
    pub body : r.body ≡ Body.nothing
    pub gone : Server
    pub found : Found u req s gone
    pub table : Deleted s.servers req.id t

  -- The answer is an error, and at most the status of the record was set.
  pub record IsFailure (r : Response) (t : World) : Type 0 where
    pub answer : IsError r
    pub message : Text
    pub table : Marked s.servers req.id error message t

  Refused-IsFailure : (x : Response) (t : World) → Refused s x t → IsFailure x t
  Refused-IsFailure x t (same, answer) = record {
    answer = answer;
    message = codes "";
    table = inl same;
  }

  module _ (v : Server) (here : v.id ≡ req.id) where
    fail_server-Ends :
        {E : Type 0} {X : E → World → Type 0} (x : DockerError)
        → Ends e
            (Same s.servers)
            (λ _. Marked s.servers req.id error (error_text x))
            X
            (fail_server v x)
    unfolding fail_server
    fail_server-Ends x = rw here (
        Ends-bind _ _ _
          (Ends-attempt_both _ (set_status-Ends s.servers e req.id error (error_text x)))
          (λ _. Ends-pure tt (λ t h. h)))

    unless_failed-Ends :
        (gone : Result DockerError (Unit {0})) (x : Response)
        → IsError x
        → Ends e (Same s.servers) (λ _. Same s.servers) IsFailure (unless_failed v gone x)
    unfolding unless_failed
    unless_failed-Ends (ok _) x answer = Ends-pure tt (λ t h. h)
    unless_failed-Ends (err DockerError.not_found) x answer = Ends-pure tt (λ t h. h)
    unless_failed-Ends (err (DockerError.failed m)) x answer =
        Ends-bind _ _ _ (fail_server-Ends (DockerError.failed m)) (λ _. Ends-raise x (λ t h.
          record { answer = answer; message = error_text (DockerError.failed m); table = h }))

    drop_container-Ends :
        (b : Bool) → Ends e (Same s.servers) (λ _. Same s.servers) IsFailure (drop_container v b)
    unfolding drop_container sent
    drop_container-Ends b = Ends-if _ _ _ (Ends-pure tt (λ t h. h)) (
        Ends-bind (λ _. Same s.servers) _ _
          (Ends-attempt _ (
            remove_server-Keeps (Same-OfTables s.servers) v.container_id (volume_name v) b
              (λ _ t h. h)))
          (λ gone. unless_failed-Ends gone _ (_, refl)))

    deleted-Ends :
        (b : Bool) → Found u req s v → Ends e (Same s.servers) IsDeletion IsFailure (deleted b v)
    deleted-Ends b found = Ends-bind _ _ _ (drop_container-Ends b) (λ _.
        Ends-bind _ _ _
          (Ends-map_err _ _ (
            Ends-weaken (λ _ t h. h) (λ x t h. Refused-IsFailure _ t (h, (_, refl)))
              (rw here (delete_server-Ends s.servers e req.id))))
          (λ _.
            Ends-pure _
              (λ t h. record { status = refl; body = refl; gone = v; found = found; table = h })))

  handle_delete_server-Ends :
      Ends e (Same s.servers) IsDeletion IsFailure (handle_delete_server u req)
  unfolding handle_delete_server
  handle_delete_server-Ends =
      Ends-bind _ _ _ (Ends-weaken (λ _ t h. h) Refused-IsFailure (lookup-Ends e s u req))
        (λ v. Ends-known (λ found. deleted-Ends v (Found-id u req s v found) _ found))

-- A request to delete a server, whatever fails on the way, either answers 204 and has deleted the
-- record of the ID in the path, which the account owns or may delete as an administrator, and no
-- other; or it answers with an error and leaves the table as it was, but that the record of that ID
-- may have got the status `error` with a message.
pub handle_delete_server-Deletes :
    (u : User) (req : Request) (e : Env) (s : World)
    → IsDeletion u req e s
        (serve (handle_delete_server u req) e s).0
        (serve (handle_delete_server u req) e s).1
      ⊎ IsFailure u req e s
          (serve (handle_delete_server u req) e s).0
          (serve (handle_delete_server u req) e s).1
unfolding serve
handle_delete_server-Deletes u req e s =
    either (IsDeletion u req e s) (IsFailure u req e s) _ _
      ((handle_delete_server-Ends u req e s).at s refl)
