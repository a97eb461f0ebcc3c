-- ===== src/Api/Answers.antt =====
-- How the steps that the handlers share end: the body of a request, the lookup of a server and its
-- view.
use overworld_ops.Base.{
  eq_of_text_eq, count-pos_of_first, some, none, Option, ◌≡◌, ◌⊎◌, inl, inr, refl, Text,
  first_where, true,
}
use overworld_ops.Models.{Server, User}
use overworld_ops.Models.Validate.{Message}
use overworld_ops.Config.{Config}
use overworld_ops.Docker.Types.{State}
use overworld_ops.Docker.Client
use overworld_ops.Docker.Client.{DockerError}
use overworld_ops.System.{World, Env, Result, ok, err}
use overworld_ops.System.Keeps.{Keeps-map_err, Keeps}
use overworld_ops.System.Ends.{
  Ends-kept, Ends, Ends-weaken, Outcome, Ends-pure, Ends-raise, Ends-if, Ends-bind, Ends-map_err,
  Ends-attempt, Ends-also,
}
use overworld_ops.Store.Sql.{has_id, Error}
use overworld_ops.Store.Keeps.{Keeps-query}
use overworld_ops.Store.Made.Insert.{Same, Same-OfTables}
use overworld_ops.Api.Http.{final, Response, Body, decoded, Request}
use overworld_ops.Api.Views.{view, live_view, plain_view, lookup, lookup_error}
use overworld_ops.Api.Ownership.{lookup-owns_server}
use overworld_ops.Store.Servers.{server_by_id, scan_server}

-- A response with the one shape of `writeError`.
abbrev pub IsError : Response → Type 0
IsError r = (m : Message) × (r.body ≡ Body.error m)

live_view-server :
    (cfg : Config) (v : Server) (r : Result DockerError State) → (live_view cfg v r).server ≡ v
unfolding live_view plain_view
live_view-server cfg v (ok st) = refl
live_view-server cfg v (err x) = refl

module _ {e : Env} {P : World → Type 0} where
  -- The view of a record raises nothing and is one of that record.
  pub view-Ends :
      {E : Type 0} {X : E → World → Type 0} (cfg : Config) (v : Server)
      → Keeps P (Client.inspect_server v.container_id)
      → Ends e P (λ shown t. P t × (shown.server ≡ v)) X (view cfg v)
  unfolding view plain_view
  view-Ends cfg v k = Ends-if _ _ _ (Ends-pure _ (λ t h. (h, refl))) (
      Ends-bind (λ _. P) _ _ (Ends-attempt _ k)
        (λ r. Ends-pure _ (λ t h. (h, live_view-server cfg v r))))

-- The answer is an error, and the table is as it was.
abbrev pub Refused : World → Response → World → Type 0
Refused s r t = (t.servers ≡ s.servers) × IsError r

-- A handler that ends one way or the other.
pub either :
    (Done Failed : Response → World → Type 0) (r : Result Response Response) (t : World)
    → Outcome Done Failed r t
    → Done (final r) t ⊎ Failed (final r) t
either Done Failed (ok r) t h = inl h
either Done Failed (err r) t h = inr h

pub decoded-Ends :
    {A : Type 0} {e : Env} {P : World → Type 0} (o : Option A)
    → Ends e P (λ a t. P t × (o ≡ some a)) (λ r t. P t × IsError r) (decoded o)
unfolding decoded
decoded-Ends none = Ends-raise _ (λ t h. (h, (_, refl)))
decoded-Ends (some a) = Ends-pure a (λ t h. (h, refl))

lookup_error-IsError : (x : Error) → IsError (lookup_error x)
unfolding lookup_error
lookup_error-IsError Error.not_found = (_, refl)
lookup_error-IsError Error.port_taken = (_, refl)
lookup_error-IsError (Error.failed m x) = (_, refl)

-- The record of the ID in the path, which the account owns or may change as an administrator.
abbrev pub Found : User → Request → World → Server → Type 0
Found u req s v =
    (first_where (has_id req.id) s.servers ≡ some v) × ((u.is_admin ≡ true) ⊎ (v.owner_id ≡ u.id))

pub Found-id : (u : User) (req : Request) (s : World) (v : Server) → Found u req s v → v.id ≡ req.id
Found-id u req s v (stored, _) =
    eq_of_text_eq v.id req.id ((count-pos_of_first (has_id req.id) v s.servers stored).1)

module _ (e : Env) (s : World) where
  scan_server-Ends :
      (row : Option Server)
      → Ends e (Same s.servers) (λ _. Same s.servers) (λ _. Same s.servers) (scan_server row)
  unfolding scan_server
  scan_server-Ends none = Ends-raise _ (λ t h. h)
  scan_server-Ends (some v) = Ends-pure v (λ t h. h)

  server_by_id-Ends :
      (id : Text)
      → Ends e (Same s.servers) (λ _. Same s.servers) (λ _. Same s.servers) (server_by_id id)
  unfolding server_by_id
  server_by_id-Ends id =
      Ends-bind (λ _. Same s.servers) _ _
        (Ends-kept _ (Keeps-map_err _ _ (Keeps-query (Same-OfTables s.servers) _))) scan_server-Ends

  pub lookup-Ends :
      (u : User) (req : Request)
      → Ends e
          (Same s.servers)
          (λ v t. Same s.servers t × Found u req s v)
          (Refused s)
          (lookup u req)
  unfolding lookup
  lookup-Ends u req =
      Ends-also {P = Same s.servers} (Found u req s)
        (λ t v h returned. rw h at (lookup-owns_server u req e t v returned))
        (Ends-bind (λ _. Same s.servers) _ _
          (Ends-map_err _ _ (
            Ends-weaken (λ v t h. h) (λ x t h. (h, lookup_error-IsError x))
              (server_by_id-Ends req.id)))
          (λ v. Ends-if _ _ _ (Ends-pure v (λ t h. h)) (Ends-raise _ (λ t h. (h, (_, refl))))))
