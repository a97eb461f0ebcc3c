-- ===== src/Docker/Types.antt =====
-- What the wrapper hands to the Docker Engine and gets back from it: the arguments that
-- backend/internal/docker passes to its client library, with `Spec` and `State` of minecraft.go.
use overworld_ops.Base.{ℕ, Bool, ◌||◌, List, Option, Text, codes, contains, ℤ}

-- An environment variable, or a label, with its value.
abbrev pub Pairs : Type 0
Pairs = List (Text × Text)

pub record Spec : Type 0 where
  pub server_id : Text
  pub owner_id : Text
  pub container_name : Text
  pub volume_name : Text
  pub server_type : Text
  pub version : Text
  pub host_port : ℕ
  pub memory : Text
  pub memory_limit_bytes : ℤ
  pub cpu_limit : ℤ
  pub modrinth_modpack : Text
  pub curse_forge_slug : Text
  pub curse_forge_api_key : Text
  pub extra_env : Pairs

-- `container.Resources`
pub record Resources : Type 0 where
  pub nano_cpus : ℤ
  pub memory : ℤ

-- The parts of `container.Config` and `container.HostConfig` that `CreateServer` computes.
pub record ContainerConfig : Type 0 where
  pub image : Text
  pub env : List Text
  pub labels : Pairs
  pub host_port : ℕ
  pub volume : Text
  pub resources : Resources

-- One request to the Docker Engine.
pub data Call : Type 0 where
  ping : Call
  volume_create : Text → Pairs → Call
  container_create : ContainerConfig → Text → Call
  container_start : Text → Call
  container_stop : Text → ℤ → Call
  container_remove : Text → Call
  volume_remove : Text → Call
  container_inspect : Text → Call
  container_list : Pairs → Call
  container_logs : Text → Text → Call
  image_inspect : Text → Call
  image_pull : Text → Call

-- One value that the decoder of the pull's progress finds, by its field `error`; or an error of
-- the decoder other than the end of the stream.
pub data PullMessage : Type 0 where
  progress : Text → PullMessage
  broken : Text → PullMessage

-- An error of the client library: whether `client.IsErrNotFound` holds of it, and its text.
pub record ApiError : Type 0 where
  pub is_404 : Bool
  pub message : Text

-- `isNotFound`, on an error that is not nil
unfoldable pub is_not_found : ApiError → Bool
unfolding contains codes
is_not_found e = e.is_404 || contains e.message (codes "No such container")

-- The state that the engine reports, `info.State`
pub record Inspection : Type 0 where
  pub status : Text
  pub running : Bool
  pub exit_code : ℤ
  pub error : Text
  pub health : Option Text

pub record State : Type 0 where
  pub container_id : Text
  pub status : Text
  pub running : Bool
  pub health : Text
  pub exit_code : ℤ
  pub error : Text
