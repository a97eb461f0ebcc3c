-- ===== src/Api/Keeps/Servers.antt =====
-- The server handlers keep an invariant of the tables.
use overworld_ops.Base.{Option, Bool, Text, ℕ, ◌≡◌, text_eq, codes, true}
use overworld_ops.Docker.Keeps.{docker_keeps}
use overworld_ops.System.{World, ◌>>=◌}
use overworld_ops.System.Keeps.{
  Keeps, OfTables, keeps_rules, Keeps-bind, Returns, Returns-map_err, Keeps-bind_result, Erases,
}
use overworld_ops.Store.Keeps.{TableInvariant, Preserves, row_of}
use overworld_ops.Api.Servers.Rows.{
  finish_create-Keeps, validated-Keeps, admit-Keeps, ask_port-Keeps, updated-Keeps, started-Keeps,
  stopped-Keeps, deleted-Keeps,
}
use overworld_ops.Api.Keeps.{lookup-Keeps, shared_keeps, Server, Config, Option, Bool, User, Text}
use overworld_ops.Store.Methods.{store_keeps}
use overworld_ops.Store.Methods
use overworld_ops.Store.Sql.{insert_server}
use overworld_ops.Api.Http.{Request}
use overworld_ops.Models.{Server, User, CreateServerInput}
use overworld_ops.Api.Servers.{
  handle_list_servers, handle_get_server, handle_update_server, handle_start_server,
  handle_stop_server, handle_delete_server, insert_made, ask_port, handle_create_server, new_server,
  allocate_error,
}
use overworld_ops.Config.{Config}
use overworld_ops.Ports.Keeps.{IsInRange, allocate-Returns}

-- `?deleteData=true`
abbrev pub asks_erasure : (Text → Text) → Bool
asks_erasure query = text_eq (query (codes "deleteData")) (codes "true")

module _ {P : World → Type 0} (inv : TableInvariant P) where
  tables : OfTables P
  tables = inv.of_tables

  pub handle_list_servers-Keeps : (cfg : Config) (u : User) → Keeps P (handle_list_servers cfg u)
  unfolding handle_list_servers
  handle_list_servers-Keeps cfg u =
      search (keeps_rules, store_keeps, shared_keeps, tables, inv) depth 12

  pub handle_get_server-Keeps :
      (cfg : Config) (u : User) (req : Request) → Keeps P (handle_get_server cfg u req)
  unfolding handle_get_server
  handle_get_server-Keeps cfg u req = search (keeps_rules, shared_keeps, tables, inv) depth 12

  pub handle_update_server-Keeps :
      (cfg : Config) (u : User) (req : Request) (input : Option (Option Text))
      → Keeps P (handle_update_server cfg u req input)
  unfolding handle_update_server
  handle_update_server-Keeps cfg u req input =
      Keeps-bind _ _ (lookup-Keeps inv u req)
        (λ v. updated-Keeps cfg tables v input (row_of inv v.id))

  pub handle_start_server-Keeps :
      (cfg : Config) (u : User) (req : Request) → Keeps P (handle_start_server cfg u req)
  unfolding handle_start_server
  handle_start_server-Keeps cfg u req =
      Keeps-bind _ _ (lookup-Keeps inv u req) (λ v. started-Keeps cfg tables v (row_of inv v.id))

  pub handle_stop_server-Keeps :
      (cfg : Config) (u : User) (req : Request) → Keeps P (handle_stop_server cfg u req)
  unfolding handle_stop_server
  handle_stop_server-Keeps cfg u req =
      Keeps-bind _ _ (lookup-Keeps inv u req) (λ v. stopped-Keeps cfg tables v (row_of inv v.id))

  -- The volume goes only if the request asks for it.
  pub handle_delete_server-Keeps :
      (u : User) (req : Request)
      → (asks_erasure req.query ≡ true → (name : Text) → Erases P name)
      → Keeps P (handle_delete_server u req)
  unfolding handle_delete_server
  handle_delete_server-Keeps u req erases = Keeps-bind _ _ (lookup-Keeps inv u req) (λ v.
      deleted-Keeps tables v (asks_erasure req.query) erases (row_of inv v.id)
        (inv.delete_server_ok v.id))

-- A record that `handleCreateServer` inserts has a port of the configured range.
module _ {P : World → Type 0} (inv : TableInvariant P) (cfg : Config)
    (insert_ok : (v : Server)
      → IsInRange cfg.port_range_start cfg.port_range_end v.port
      → Preserves P (insert_server v)) where
  insert_made-Keeps :
      (u : User) (r : CreateServerInput) (port : ℕ)
      → IsInRange cfg.port_range_start cfg.port_range_end port
      → Keeps P (insert_made cfg u r port)
  unfolding insert_made
  insert_made-Keeps u r port h =
      let made =
        Methods.create_server-Keeps inv.of_tables (new_server cfg u r port)
          (λ id now. insert_ok _ h) in
      search (keeps_rules, docker_keeps, finish_create-Keeps, inv.of_tables, row_of inv) depth 8

  ask_port-Returns : Returns (IsInRange cfg.port_range_start cfg.port_range_end) (ask_port cfg)
  unfolding ask_port
  ask_port-Returns =
      Returns-map_err allocate_error _
        (allocate-Returns cfg.port_range_start cfg.port_range_end cfg.probe_host_ports)

  ported-Keeps : (u : User) (r : CreateServerInput) → Keeps P (ask_port cfg >>= insert_made cfg u r)
  ported-Keeps u r =
      Keeps-bind_result (IsInRange cfg.port_range_start cfg.port_range_end) (ask_port cfg)
        (insert_made cfg u r) (ask_port-Keeps cfg inv.of_tables) ask_port-Returns
        (insert_made-Keeps u r)

  pub handle_create_server-Keeps :
      (u : User) (input : Option CreateServerInput) → Keeps P (handle_create_server cfg u input)
  unfolding handle_create_server
  handle_create_server-Keeps u input =
      search (keeps_rules, shared_keeps, validated-Keeps, admit-Keeps, ported-Keeps, inv.of_tables)
        depth 12
