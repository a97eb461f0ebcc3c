-- ===== src/Api/Console.antt =====
-- `handleServerLogs` of backend/internal/api/logs.go: the events of a console that is read to its
-- end. The keep-alive comments, which carry no data, are left out.
use overworld_ops.Base.{Text, codes, is_empty, if◌then◌else◌}
use overworld_ops.Models.{User}
use overworld_ops.Docker.Client.{DockerError}
use overworld_ops.Docker.Logs.{demux_logs, logs}
use overworld_ops.System.{pure, ◌>>=◌, ◌>>◌, map_err, stop_if}
use overworld_ops.Api.Http.{Request, Response, Handler, Body, reply, fails}
use overworld_ops.Api.Views.{lookup}

unfoldable pub logs_error : DockerError → Response
logs_error DockerError.not_found = fails 404 "container not found"
logs_error (DockerError.failed m) = fails 500 "could not open log stream"

-- `tail`, or "200"
unfoldable pub tail_of : Request → Text
unfolding codes
tail_of req = let tail = req.query (codes "tail") in if is_empty tail then codes "200" else tail

unfoldable pub handle_server_logs : User → Request → Handler
unfolding logs_error tail_of
handle_server_logs u req = do
  v ← lookup u req
  stop_if (is_empty v.container_id) (fails 409 "server has no container yet")
  stream ← map_err logs_error (logs v.container_id (tail_of req))
  pure (reply 200 (Body.events (demux_logs stream)))
