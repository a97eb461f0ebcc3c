-- ===== src/Docker/Keeps.antt =====
-- The operations of the Docker wrapper leave the tables alone.
use overworld_ops.Base.{Bool, ℤ, Text, String, ◌≡◌, false, true, refl}
use overworld_ops.Docker.Types.{Spec, Call, ApiError, volume_remove}
use overworld_ops.Docker.Client.{
  create_server, start_server, stop_server, remove_server, request, unless_missing, inspect_server,
  ping_daemon, answered, remove_volume,
}
use overworld_ops.System.{World, Result, ok, err}
use overworld_ops.System.Keeps.{
  Keeps, OfTables, Keeps-send, keeps_rules, removes_volume, Erases, Keeps-send_remove,
}
use overworld_ops.Docker.Logs.{logs}

module _ {P : World → Type 0} (t : OfTables P) where
  pub request-Keeps : (c : Call) → removes_volume c ≡ false → Keeps P (request c)
  unfolding request
  request-Keeps c harmless = Keeps-send c (λ e past. answered (e.engine_fault past c)) t harmless

  remove_request-Keeps : (name : Text) → Erases P name → Keeps P (request (volume_remove name))
  unfolding request
  remove_request-Keeps name erases = Keeps-send_remove name _ erases

  pub create_server-Keeps : (image : Text) (spec : Spec) → Keeps P (create_server image spec)
  unfolding create_server
  create_server-Keeps image spec = search (keeps_rules, request-Keeps, Keeps-send, t) depth 12

  pub start_server-Keeps : (id : Text) → Keeps P (start_server id)
  unfolding start_server
  start_server-Keeps id = search (keeps_rules, request-Keeps) depth 8

  pub stop_server-Keeps : (id : Text) (seconds : ℤ) → Keeps P (stop_server id seconds)
  unfolding stop_server
  stop_server-Keeps id seconds = search (keeps_rules, request-Keeps) depth 8

  unless_missing-Keeps :
      (op : String) (subject : Text) (r : Result ApiError (Unit {0}))
      → Keeps P (unless_missing op subject r)
  unfolding unless_missing
  unless_missing-Keeps op subject (ok _) = search keeps_rules
  unless_missing-Keeps op subject (err e) = search keeps_rules

  remove_volume-Keeps : (name : Text) → Erases P name → Keeps P (remove_volume name)
  unfolding remove_volume
  remove_volume-Keeps name erases =
      search (keeps_rules, remove_request-Keeps, unless_missing-Keeps) depth 8

  -- The container alone.
  pub remove_container-Keeps : (id volume : Text) → Keeps P (remove_server id volume false)
  unfolding remove_server
  remove_container-Keeps id volume =
      search (keeps_rules, request-Keeps, unless_missing-Keeps) depth 12

  pub remove_server-Keeps :
      (id volume : Text) (with_volume : Bool)
      → (with_volume ≡ true → Erases P volume)
      → Keeps P (remove_server id volume with_volume)
  unfolding remove_server
  remove_server-Keeps id volume true erases =
      let gone = remove_volume-Keeps volume (erases refl) in
      search (keeps_rules, request-Keeps, unless_missing-Keeps) depth 12
  remove_server-Keeps id volume false erases = remove_container-Keeps id volume

  pub inspect_server-Keeps : (id : Text) → Keeps P (inspect_server id)
  unfolding inspect_server
  inspect_server-Keeps id = search (keeps_rules, Keeps-send, t) depth 12

  pub ping_daemon-Keeps : Keeps P ping_daemon
  unfolding ping_daemon
  ping_daemon-Keeps = search (keeps_rules, request-Keeps) depth 8

  pub logs-Keeps : (id tail : Text) → Keeps P (logs id tail)
  unfolding logs
  logs-Keeps id tail = search (keeps_rules, Keeps-send, t) depth 12

pub ruleset docker_keeps = (
  create_server-Keeps, start_server-Keeps, stop_server-Keeps, remove_container-Keeps,
  inspect_server-Keeps, ping_daemon-Keeps, logs-Keeps,
)
