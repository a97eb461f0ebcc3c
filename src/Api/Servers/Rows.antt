-- ===== src/Api/Servers/Rows.antt =====
-- What follows the lookup of a server writes to the rows of that server alone.
use overworld_ops.Models.{CreateServerInput, Server, volume_name}
use overworld_ops.Models.Validate.{Validated, valid, invalid}
use overworld_ops.Store.Servers.{count_servers}
use overworld_ops.Store.Keeps.{Keeps-query, Preserves, RowInvariant}
use overworld_ops.Ports.Keeps.{allocate-Keeps}
use overworld_ops.Api.Servers.{
  validated, admit, ask_port, renamed, saved_or, with_container, or_rebuilt, finish_start,
  unless_failed, drop_container, or_failed, started_again, finish_create,
}
use overworld_ops.System.{World, Result, ok, err}
use overworld_ops.Config.{Config}
use overworld_ops.Docker.Client.{DockerError}
use overworld_ops.Api.Http.{Response}
use overworld_ops.Api.Keeps.{decoded-Keeps, view-Keeps, fail_server-Keeps, recreate_container-Keeps}
use overworld_ops.Store.Methods.{row_keeps}
use overworld_ops.Store.Sql.{Error, delete_server_row}
use overworld_ops.Docker.Keeps.{docker_keeps, remove_server-Keeps}
use overworld_ops.Api.Servers.Rests.{
  updated, started, stopped_now, deleted, renamed-Returns, with_container-Returns,
  or_rebuilt-Returns,
}
use overworld_ops.System.Keeps.{Keeps, OfTables, Erases, keeps_rules, Keeps-bind, Keeps-bind_result}
use overworld_ops.Base.{none, some, Option, Bool, Text, ◌≡◌, true}

module _ {P : World → Type 0} where
  pub validated-Keeps : (r : Validated) → Keeps P (validated r)
  unfolding validated
  validated-Keeps (valid r) = search keeps_rules
  validated-Keeps (invalid m) = search keeps_rules

  renamed-Keeps : (name : Option Text) (v : Server) → Keeps P (renamed name v)
  unfolding renamed
  renamed-Keeps none v = search keeps_rules
  renamed-Keeps (some name) v = search keeps_rules

  saved_or-Keeps :
      (v : Server) (r : Result Error (Unit {0})) (x : Response) → Keeps P (saved_or v r x)
  unfolding saved_or
  saved_or-Keeps v (ok _) x = search keeps_rules
  saved_or-Keeps v (err _) x = search keeps_rules

  row_at : (v w : Server) → w.id ≡ v.id → RowInvariant P v.id → RowInvariant P w.id
  row_at v w same row = rw same row

module _ {P : World → Type 0} (tables : OfTables P) where
  or_failed-Keeps :
      (v : Server) (x : Response) (r : Result DockerError Server)
      → RowInvariant P v.id
      → Keeps P (or_failed v x r)
  unfolding or_failed
  or_failed-Keeps v x (ok w) row = search keeps_rules
  or_failed-Keeps v x (err y) row = search (keeps_rules, fail_server-Keeps, tables)

  started_again-Keeps :
      {E : Type 0} (v : Server) (r : Result DockerError Server)
      → Keeps P (started_again {E = E} v r)
  unfolding started_again
  started_again-Keeps v (ok w) = search (keeps_rules, docker_keeps, tables) depth 8
  started_again-Keeps v (err x) = search keeps_rules

  unless_failed-Keeps :
      (v : Server) (r : Result DockerError (Unit {0})) (x : Response)
      → RowInvariant P v.id
      → Keeps P (unless_failed v r x)
  unfolding unless_failed
  unless_failed-Keeps v (ok _) x row = search keeps_rules
  unless_failed-Keeps v (err DockerError.not_found) x row = search keeps_rules
  unless_failed-Keeps v (err (DockerError.failed m)) x row =
      search (keeps_rules, fail_server-Keeps, tables) depth 8

  drop_container-Keeps :
      (v : Server) (b : Bool)
      → (b ≡ true → (name : Text) → Erases P name)
      → RowInvariant P v.id
      → Keeps P (drop_container v b)
  unfolding drop_container
  drop_container-Keeps v b erases row =
      let removed =
        remove_server-Keeps tables v.container_id (volume_name v) b
          (λ asked. erases asked (volume_name v)) in
      search (keeps_rules, unless_failed-Keeps) depth 8

  pub deleted-Keeps :
      (v : Server) (b : Bool)
      → (b ≡ true → (name : Text) → Erases P name)
      → RowInvariant P v.id
      → Preserves P (delete_server_row v.id)
      → Keeps P (deleted b v)
  deleted-Keeps v b erases row gone =
      let dropped = drop_container-Keeps v b erases row in
      search (keeps_rules, row_keeps, tables) depth 12

module _ {P : World → Type 0} (cfg : Config) (tables : OfTables P) where
  pub admit-Keeps : (r : CreateServerInput) → Keeps P (admit cfg r)
  unfolding admit count_servers
  admit-Keeps r = search (keeps_rules, Keeps-query, tables) depth 12

  pub ask_port-Keeps : Keeps P (ask_port cfg)
  unfolding ask_port
  ask_port-Keeps = search (keeps_rules, allocate-Keeps, tables)

  pub finish_create-Keeps :
      (v : Server) (made : Result DockerError Text)
      → RowInvariant P v.id
      → Keeps P (finish_create cfg v made)
  unfolding finish_create
  finish_create-Keeps v (ok id) row = search (keeps_rules, row_keeps, view-Keeps, tables) depth 12
  finish_create-Keeps v (err x) row = search (keeps_rules, row_keeps, view-Keeps, tables) depth 12

  with_container-Keeps : (v : Server) → RowInvariant P v.id → Keeps P (with_container cfg v)
  unfolding with_container
  with_container-Keeps v row =
      search (keeps_rules, recreate_container-Keeps, or_failed-Keeps, tables) depth 8

  or_rebuilt-Keeps :
      {E : Type 0} (v : Server) (r : Result DockerError (Unit {0}))
      → RowInvariant P v.id
      → Keeps P (or_rebuilt {E = E} cfg v r)
  unfolding or_rebuilt
  or_rebuilt-Keeps v (ok _) row = search keeps_rules
  or_rebuilt-Keeps v (err (DockerError.failed m)) row = search keeps_rules
  or_rebuilt-Keeps v (err DockerError.not_found) row =
      search (keeps_rules, recreate_container-Keeps, started_again-Keeps, tables) depth 8

  finish_start-Keeps :
      (v : Server) (r : Result DockerError (Unit {0}))
      → RowInvariant P v.id
      → Keeps P (finish_start cfg v r)
  unfolding finish_start
  finish_start-Keeps v (ok _) row = search (keeps_rules, row_keeps, view-Keeps, tables) depth 12
  finish_start-Keeps v (err x) row = search (keeps_rules, fail_server-Keeps, tables) depth 8

  pub updated-Keeps :
      (v : Server) (input : Option (Option Text))
      → RowInvariant P v.id
      → Keeps P (updated cfg input v)
  updated-Keeps v input row = Keeps-bind _ _ (decoded-Keeps input) (λ name.
      Keeps-bind_result (λ w. w.id ≡ v.id) (renamed name v) _ (renamed-Keeps name v)
        (renamed-Returns name v)
        (λ w same.
          let row' = row_at v w same row in
          search (keeps_rules, row_keeps, saved_or-Keeps, view-Keeps, tables) depth 12))

  pub started-Keeps : (v : Server) → RowInvariant P v.id → Keeps P (started cfg v)
  started-Keeps v row =
      Keeps-bind_result (λ w. w.id ≡ v.id) (with_container cfg v) _ (with_container-Keeps v row)
        (with_container-Returns cfg v)
        (λ w same.
          let row' = row_at v w same row in
          Keeps-bind _ _ (search (keeps_rules, docker_keeps, tables) depth 8) (λ outcome.
            Keeps-bind_result (λ o. o.0.id ≡ w.id) (or_rebuilt cfg w outcome) _
              (or_rebuilt-Keeps w outcome row') (or_rebuilt-Returns cfg w outcome)
              (λ o same'. finish_start-Keeps o.0 o.1 (row_at w o.0 same' row'))))

  pub stopped-Keeps : (v : Server) → RowInvariant P v.id → Keeps P (stopped_now cfg v)
  stopped-Keeps v row =
      search (keeps_rules, docker_keeps, row_keeps, view-Keeps, unless_failed-Keeps, tables) depth
        14
