-- ===== src/Api/Ownership.antt =====
-- Which server `lookup` hands to a handler.
use overworld_ops.Base.{
  refl, none, some, Text, ◌≡◌, inl, inr, Option, Bool, if◌then◌else◌, first_where, true, ◌⊎◌, false,
  ◌∙◌, ap, Bool-cases, sym, text_eq, eq_of_text_eq,
}
use overworld_ops.Store.Servers.{scan_server, server_by_id}
use overworld_ops.System.{pure, raise, Env, map_err, World, ok, Act}
use overworld_ops.Api.Views.{lookup, owns_server, lookup_error}
use overworld_ops.Models.{Server, User}
use overworld_ops.Api.Http.{Response, Request}
use overworld_ops.Store.Sql.{has_id}
use overworld_ops.Store.Reads.{query-ok}
use overworld_ops.System.Binds.{bind-ok, or_else-eq-ok}

scan_server-ok :
    (row : Option Server) (e : Env) (s : World) (v : Server)
    → (scan_server row e s).0 ≡ ok v
    → row ≡ some v
unfolding scan_server pure raise
scan_server-ok none e s v h = absurd cc
scan_server-ok (some w) e s v h = cc

server_by_id-ok :
    (id : Text) (e : Env) (s : World) (v : Server)
    → (server_by_id id e s).0 ≡ ok v
    → first_where (has_id id) s.servers ≡ some v
unfolding server_by_id
server_by_id-ok id e s v h =
    let (row, read, found) = bind-ok _ scan_server e s v h in
    query-ok _ _ e s row read ∙ scan_server-ok row e _ v found

allowed-ok :
    (b : Bool) (w v : Server) (r : Response) (e : Env) (s : World)
    → ((if b then pure w else raise r) e s).0 ≡ ok v
    → (b ≡ true) × (w ≡ v)
unfolding pure raise
allowed-ok true w v r e s h = (refl, cc)
allowed-ok false w v r e s h = absurd cc

admin_or_owner :
    (u : User) (v : Server) → owns_server u v ≡ true → (u.is_admin ≡ true) ⊎ (v.owner_id ≡ u.id)
unfolding owns_server
admin_or_owner u v h = elim (Bool-cases u.is_admin) [
  | inl admin ↦ inl admin
  | inr ordinary ↦
      let own : text_eq v.owner_id u.id ≡ true = rw ordinary at h in
      inr (eq_of_text_eq v.owner_id u.id own)
]

-- A server that `lookup` hands to a handler is the stored record of the ID in the path, and the
-- account owns it or is an administrator.
pub lookup-owns_server :
    (u : User) (req : Request) (e : Env) (s : World) (v : Server)
    → (lookup u req e s).0 ≡ ok v
    → (first_where (has_id req.id) s.servers ≡ some v) × ((u.is_admin ≡ true) ⊎ (v.owner_id ≡ u.id))
unfolding lookup map_err owns_server
lookup-owns_server u req e s v h =
    let read : Act Response Server = map_err lookup_error (server_by_id req.id) in
    let (w, found, last) = bind-ok read _ e s v h in
    let (owned, same) = allowed-ok (owns_server u w) w v _ e (read e s).1 last in
    (
      server_by_id-ok req.id e s w (or_else-eq-ok lookup_error (server_by_id req.id e s).0 w found)
          ∙ ap some same,
      admin_or_owner u v (ap (owns_server u) (sym same) ∙ owned),
    )
