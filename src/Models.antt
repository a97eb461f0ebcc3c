-- ===== src/Models.antt =====
-- The records of backend/internal/store/models.go.
--
-- A `float64` CPU limit is an integer number of billionths of a core, the unit that Docker is
-- given, so a limit finer than that is not representable here. A time is a number of
-- nanoseconds. `ServerType` and `ModpackProvider` are string types in Go, and stay texts.
pub mod Validate
pub mod Accepted
use overworld_ops.Base.{ℕ, String, Bool, true, ◌||◌, Option, Text, codes, text_eq, ℤ, ◌++◌}

unfoldable pub type_vanilla : Text
unfolding codes
type_vanilla = codes "VANILLA"

unfoldable pub type_forge : Text
unfolding codes
type_forge = codes "FORGE"

unfoldable pub type_fabric : Text
unfolding codes
type_fabric = codes "FABRIC"

unfoldable pub type_neoforge : Text
unfolding codes
type_neoforge = codes "NEOFORGE"

-- `ServerType.Valid`
unfoldable pub valid_type : Text → Bool
unfolding text_eq type_vanilla type_forge type_fabric type_neoforge
valid_type t =
    text_eq t type_vanilla
    || text_eq t type_forge
    || text_eq t type_fabric
    || text_eq t type_neoforge

pub data Status : Type 0 where
  creating stopped starting running stopping error : Status

unfoldable pub modpack_none : Text
unfolding codes
modpack_none = codes ""

unfoldable pub modpack_curseforge : Text
unfolding codes
modpack_curseforge = codes "curseforge"

unfoldable pub modpack_modrinth : Text
unfolding codes
modpack_modrinth = codes "modrinth"

pub record Server : Type 0 where
  pub id : Text
  pub name : Text
  pub owner_id : Text
  pub server_type : Text
  pub version : Text
  pub modpack_provider : Text
  pub modpack_id : Text
  pub port : ℕ
  pub memory : Text
  pub cpu_limit : ℤ
  pub status : Status
  pub status_message : Text
  pub container_id : Text
  pub created_at : ℕ
  pub updated_at : ℕ
  pub last_active_at : Option ℕ

unfoldable pub container_name : Server → Text
unfolding codes
container_name s = codes "owo-mc-" ++ s.id

unfoldable pub volume_name : Server → Text
unfolding codes
volume_name s = codes "owo-data-" ++ s.id

pub record User : Type 0 where
  pub id : Text
  pub username : Text
  pub password_hash : Text
  pub is_admin : Bool
  pub created_at : ℕ

pub record CreateServerInput : Type 0 where
  pub name : Text
  pub server_type : Text
  pub version : Text
  pub modpack_provider : Text
  pub modpack_id : Text
  pub memory : Text
  pub cpu_limit : ℤ
