-- ===== src/Models/Validate.antt =====
-- `CreateServerInput.Validate` of backend/internal/store/models.go.
use overworld_ops.Base.{
  ℕ, String, Bool, not, ◌&&◌, ◌||◌, Text, length, codes, text_eq, is_empty, trim_space, ltb,
  is_negative, if◌then◌else◌,
}
use overworld_ops.Models.{
  CreateServerInput, type_vanilla, valid_type, modpack_none, modpack_curseforge, modpack_modrinth,
}

-- The text of an error that a client is shown: as it stands, with a value quoted after it (`%q`),
-- or with a number inside.
pub data Message : Type 0 where
  says : String → Message
  quotes : String → Text → Message
  numbers : String → ℕ → String → Message

pub data Validated : Type 0 where
  valid : CreateServerInput → Validated
  invalid : Message → Validated

unfoldable pub valid_provider : Text → Bool
unfolding text_eq modpack_none modpack_curseforge modpack_modrinth
valid_provider p =
    text_eq p modpack_none || text_eq p modpack_curseforge || text_eq p modpack_modrinth

-- `in.Name`, `in.Type` and `in.Version` as they are after the assignments.
unfoldable pub normalize : CreateServerInput → CreateServerInput
unfolding codes type_vanilla
normalize r = record r {
  name = trim_space r.name;
  server_type = if is_empty r.server_type then type_vanilla else r.server_type;
  version = if is_empty (trim_space r.version) then codes "LATEST" else r.version;
}

unfoldable pub check : CreateServerInput → Validated
unfolding valid_provider
check r =
    if is_empty r.name
    then invalid (says "name is required")
    else if ltb 64 (length r.name)
    then invalid (says "name must be 64 characters or fewer")
    else if not (valid_type r.server_type)
    then invalid (quotes "unsupported server type" r.server_type)
    else if not (valid_provider r.modpack_provider)
    then invalid (quotes "unsupported modpack provider" r.modpack_provider)
    else if not (text_eq r.modpack_provider modpack_none) && is_empty (trim_space r.modpack_id)
    then invalid (says "modpackId is required when modpackProvider is set")
    else if is_negative r.cpu_limit
    then invalid (says "cpuLimit must not be negative")
    else valid r

unfoldable pub validate : CreateServerInput → Validated
unfolding normalize check
validate r = check (normalize r)
