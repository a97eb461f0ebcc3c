-- ===== src/Api/Servers/Others.antt =====
-- The handlers of one server leave the records of the others as they are.
use overworld_ops.Base.{List, ◌≡◌}
use overworld_ops.Models.{Server, User}
use overworld_ops.Config.{Config}
use overworld_ops.System.{◌>>=◌}
use overworld_ops.System.Keeps.{Keeps, Returns, Keeps-bind_result}
use overworld_ops.Store.Keeps.{RowInvariant}
use overworld_ops.Store.Present.{Others, Others-OfTables, Others-row}
use overworld_ops.Api.Http.{Request, Handler}
use overworld_ops.Api.Answers.{Found-id}
use overworld_ops.Api.Gate.Quiet.{Unchanged-refl}
use overworld_ops.Api.Isolation.{lookup-Unchanged}
use overworld_ops.Api.Ownership.{lookup-owns_server}
use overworld_ops.Api.Servers.{handle_start_server, handle_stop_server}
use overworld_ops.Api.Servers.Rows.{started-Keeps, stopped-Keeps}
use overworld_ops.Api.Views.{lookup}

module _ (u : User) (req : Request) (l : List Server) where
  lookup-Others : Keeps (Others req.id l) (lookup u req)
  lookup-Others = record {
    at = λ e s h. rw ((lookup-Unchanged s u req).at e s (Unchanged-refl s)).servers h;
  }

  lookup-Returns : Returns (λ v. v.id ≡ req.id) (lookup u req)
  lookup-Returns = record {
    at = λ e s v returned. Found-id u req s v (lookup-owns_server u req e s v returned);
  }

  found-Others :
      (f : Server → Handler)
      → ((v : Server) → RowInvariant (Others req.id l) v.id → Keeps (Others req.id l) (f v))
      → Keeps (Others req.id l) (lookup u req >>= f)
  found-Others f k =
      Keeps-bind_result (λ v. v.id ≡ req.id) (lookup u req) f lookup-Others lookup-Returns
        (λ v same. k v (rw same (Others-row req.id l)))

  pub handle_start_server-Others :
      (cfg : Config) → Keeps (Others req.id l) (handle_start_server cfg u req)
  unfolding handle_start_server
  handle_start_server-Others cfg = found-Others _ (started-Keeps cfg (Others-OfTables req.id l))

  pub handle_stop_server-Others :
      (cfg : Config) → Keeps (Others req.id l) (handle_stop_server cfg u req)
  unfolding handle_stop_server
  handle_stop_server-Others cfg = found-Others _ (stopped-Keeps cfg (Others-OfTables req.id l))
