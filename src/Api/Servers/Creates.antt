-- ===== src/Api/Servers/Creates.antt =====
-- What a request to create a server does to the table.
pub mod Answer
use overworld_ops.Api.Answers.{IsError, Refused, decoded-Ends, view-Ends}
use overworld_ops.Base.{
  ℕ, [], ◌∷◌, ◌++◌, List, some, none, Option, ◌≡◌, ◌⊎◌, inl, inr, refl, count_where, Text,
}
use overworld_ops.Models.{Server, User, CreateServerInput, error, stopped, Status}
use overworld_ops.Models.Validate.{Validated, valid, invalid, validate, Message}
use overworld_ops.Config.{Config}
use overworld_ops.Docker.Types.{State}
use overworld_ops.Docker.Client
use overworld_ops.Docker.Client.{DockerError}
use overworld_ops.Docker.Keeps.{docker_keeps}
use overworld_ops.Ports.{AllocateError, pool_exhausted, read_failed}
use overworld_ops.Ports.Allocate.{Allocates, allocate-Allocates}
use overworld_ops.Ports.Keeps.{allocate-Keeps}
use overworld_ops.System.{◌>>=◌, World, Env, Result, ok, err, attempt}
use overworld_ops.System.Keeps.{Keeps-map_err, Keeps}
use overworld_ops.System.Ends.{
  Ends, Ends-known, Ends-from, Ends-weaken, Outcome, Ends-pure, Ends-raise, Ends-if, Ends-bind,
  Ends-map_err, Ends-attempt, Ends-Keeps, Ends-stop_if,
}
use overworld_ops.Store.Sql.{has_id, Error}
use overworld_ops.Store.Keeps.{Keeps-query}
use overworld_ops.Store.Servers.{count_servers}
use overworld_ops.Store.Made.Insert.{Same, Same-OfTables, Added, create_server-Ends}
use overworld_ops.Store.Made.{
  IsSpecOf, IsSpecOf-changed, IsSpecOf-refl, IsSpecOf-meet, IsSpecOf-given, Made, Made-OfTables,
  set_status-Made, update_server-Made,
}
use overworld_ops.Api.Http.{Response, Body, ServerView, serve, final, decoded, fails}
use overworld_ops.Api.Views.{view, live_view, plain_view, spec_for, error_text}
use overworld_ops.Api.Servers.{
  handle_create_server, validated, admit, ask_port, allocate_error, create_error, insert_made,
  new_server, finish_create,
}

module _ (cfg : Config) (e : Env) (l : List Server) (v : Server) where
  -- The table is `l` with one record more, and the answer shows it.
  abbrev Shown : Response → World → Type 0
  Shown r t =
      Made l v t
      × ((r.status ≡ 201) ⊎ (r.status ≡ 500))
      × ((shown : ServerView) × (r.body ≡ Body.server shown) × IsSpecOf v shown.server)

  changed :
      (status : Status) (message container : Text)
      → IsSpecOf v
          (record v { status = status; status_message = message; container_id = container })
  changed status message container =
      IsSpecOf-changed v v status message container v.updated_at (IsSpecOf-refl v)

  module _ {X : Response → World → Type 0} where
    view-Made :
        (w : Server) → Ends e (Made l v) (λ shown t. Made l v t × (shown.server ≡ w)) X (view cfg w)
    view-Made w = view-Ends cfg w (search (docker_keeps, Made-OfTables))

    pub finish_create-Ends :
        (made : Result DockerError Text)
        → count_where (has_id v.id) l ≡ 0
        → Ends e (Made l v) Shown X (finish_create cfg v made)
    unfolding finish_create
    finish_create-Ends (err x) apart =
        Ends-bind (λ _. Made l v) _ _
          (Ends-attempt _ (set_status-Made l v apart error (error_text x)))
          (λ _. Ends-bind _ _ _ (view-Made _) (λ shown. Ends-pure _ (λ t (made, one).
            (made, inr refl, (shown, refl, rw one (changed error (error_text x) v.container_id))))))
    finish_create-Ends (ok id) apart =
        Ends-bind _ _ _ (update_server-Made l v apart e _ (changed stopped v.status_message id))
          (λ saved. Ends-known (λ same.
            Ends-bind _ _ _ (view-Made saved.0) (λ shown.
              Ends-pure _ (λ t (made, one). (made, inl refl, (shown, refl, rw one same))))))

allocate_error-IsError : (x : AllocateError) → IsError (allocate_error x)
unfolding allocate_error
allocate_error-IsError pool_exhausted = (_, refl)
allocate_error-IsError (read_failed x) = (_, refl)

create_error-IsError : (x : Error) → IsError (create_error x)
unfolding create_error
create_error-IsError Error.not_found = (_, refl)
create_error-IsError Error.port_taken = (_, refl)
create_error-IsError (Error.failed m x) = (_, refl)

module _ (cfg : Config) (e : Env) (s : World) where
  -- The port is the lowest free one of the range, by the table before.
  abbrev pub IsLowest : ℕ → Type 0
  IsLowest p = Allocates e s cfg.probe_host_ports cfg.port_range_start cfg.port_range_end (ok p)

  abbrev Kept : World → Type 0
  Kept = Same s.servers

  validated-Ends :
      (r : Validated) → Ends e Kept (λ q t. Kept t × (r ≡ valid q)) (Refused s) (validated r)
  unfolding validated
  validated-Ends (valid q) = Ends-pure q (λ t h. (h, refl))
  validated-Ends (invalid m) = Ends-raise _ (λ t h. (h, (m, refl)))

  admit-Ends : (q : CreateServerInput) → Ends e Kept (λ _. Kept) (Refused s) (admit cfg q)
  unfolding admit count_servers
  admit-Ends q =
      Ends-bind (λ _. Kept) _ _
        (Ends-map_err _ _ (
          Ends-Keeps (λ _. IsError (fails 500 "could not create server")) _ (λ _. (_, refl))
            (Keeps-map_err _ _ (Keeps-query (Same-OfTables s.servers) _))))
        (λ count.
          Ends-bind (λ _. Kept) _ _ (Ends-stop_if IsError _ _ (_, refl))
            (λ _. Ends-stop_if IsError _ _ (_, refl)))

  IsLowest-Outcome :
      (t t' : World) (r : Result AllocateError ℕ)
      → Kept t
      → Kept t'
      → Allocates e t cfg.probe_host_ports cfg.port_range_start cfg.port_range_end r
      → Outcome (λ p w. Kept w × IsLowest p) (λ x w. Refused s (allocate_error x) w) r t'
  IsLowest-Outcome t t' (ok p) h h' found = (h', rw h at found)
  IsLowest-Outcome t t' (err x) h h' found = (h', allocate_error-IsError x)

  ask_port-Ends : Ends e Kept (λ p t. Kept t × IsLowest p) (Refused s) (ask_port cfg)
  unfolding ask_port
  ask_port-Ends = Ends-map_err _ _ (record {
    at = λ t h.
        IsLowest-Outcome t _ _ h
          ((allocate-Keeps (Same-OfTables s.servers) cfg.port_range_start cfg.port_range_end
              cfg.probe_host_ports).at
            e t h)
          (allocate-Allocates cfg.port_range_start cfg.port_range_end cfg.probe_host_ports e t);
  })
