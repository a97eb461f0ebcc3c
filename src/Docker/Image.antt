-- ===== src/Docker/Image.antt =====
-- `EnsureImage` of backend/internal/docker/client.go.
use overworld_ops.System.{◌>>=◌, map_err, attempt, send, pure, raise, Act, Result, ok, err}
use overworld_ops.Base.{[], ◌∷◌, ◌++◌, List, Text, codes, if◌then◌else◌, is_empty}
use overworld_ops.Docker.Client.{wrap, DockerError, failed, request}
use overworld_ops.Docker.Types.{PullMessage, ApiError, progress, broken, image_pull, image_inspect}
use overworld_ops.Store.Sql.{failed}

-- The loop over the progress stream; the end of the list is `io.EOF`.
unfoldable pub read_pull : Text → List PullMessage → Act DockerError (Unit {0})
unfolding pure raise codes
read_pull image [] = pure tt
read_pull image (progress message ∷ rest) =
    let next = read_pull image rest in
    if is_empty message
    then next
    else raise (failed (codes "pull image " ++ (image ++ (codes ": " ++ message))))
read_pull image (broken message ∷ rest) = raise (failed (codes "read pull progress: " ++ message))

-- The pull is made only if the inspection failed.
unfoldable pub pull_unless : Text → Result ApiError (Unit {0}) → Act DockerError (Unit {0})
unfolding pure read_pull wrap
pull_unless image (ok _) = pure tt
pull_unless image (err _) = do
  messages ←
      map_err (wrap "pull image " image)
        (send (image_pull image) (λ e past. e.engine_pull past image))
  read_pull image messages

unfoldable pub ensure_image : Text → Act DockerError (Unit {0})
unfolding pull_unless
ensure_image image = do here ← attempt (request (image_inspect image)); pull_unless image here
