-- ===== src/Docker/Build.antt =====
-- `buildEnv` and `buildResources` of backend/internal/docker/minecraft.go.
--
-- A Go map is a list of pairs with one entry for each key. Go ranges over a map in no fixed order,
-- and this model in the order of the list.
pub mod Table
use overworld_ops.Base.{
  not, Option, none, some, List, [], ◌∷◌, ◌++◌, Text, codes, text_eq, is_empty, if◌then◌else◌, pos,
  is_zero, is_positive,
}
use overworld_ops.Docker.Types.{Pairs, Spec, Resources}
use overworld_ops.Docker.Size.{derive_memory_limit}

-- `env[k]`
unfoldable pub lookup : Text → Pairs → Option Text
lookup k [] = none
lookup k ((j, v) ∷ m) = if text_eq j k then some v else lookup k m

-- `env[k] = v`
unfoldable pub insert : Text → Text → Pairs → Pairs
insert k v [] = (k, v) ∷ []
insert k v ((j, w) ∷ m) = if text_eq j k then (k, v) ∷ m else (j, w) ∷ insert k v m

-- `delete(env, k)`
unfoldable pub erase : Text → Pairs → Pairs
erase k [] = []
erase k ((j, w) ∷ m) = let rest = erase k m in if text_eq j k then rest else (j, w) ∷ rest

-- The literal at the head of `buildEnv`.
unfoldable pub base_env : Spec → Pairs
unfolding codes
base_env spec =
    (codes "EULA", codes "TRUE")
    ∷ (codes "TYPE", spec.server_type)
    ∷ (codes "VERSION", spec.version)
    ∷ (codes "MEMORY", spec.memory)
    ∷ (codes "ENABLE_RCON", codes "false")
    ∷ []

unfoldable pub modrinth_env : Text → Pairs → Pairs
unfolding insert erase codes
modrinth_env pack env =
    erase (codes "VERSION")
      (insert (codes "MODRINTH_MODPACK") pack (insert (codes "TYPE") (codes "MODRINTH") env))

unfoldable pub curse_forge_env : Text → Text → Pairs → Pairs
unfolding insert erase codes
curse_forge_env slug key env = erase (codes "VERSION") (
    insert (codes "CF_API_KEY") key
      (insert (codes "CF_SLUG") slug (insert (codes "TYPE") (codes "AUTO_CURSEFORGE") env)))

-- The `switch` on the modpack.
unfoldable pub pack_env : Spec → Pairs → Pairs
unfolding modrinth_env curse_forge_env
pack_env spec env =
    if not (is_empty spec.modrinth_modpack)
    then modrinth_env spec.modrinth_modpack env
    else if not (is_empty spec.curse_forge_slug)
    then curse_forge_env spec.curse_forge_slug spec.curse_forge_api_key env
    else env

-- `for k, v := range spec.ExtraEnv { env[k] = v }`
unfoldable pub merge : Pairs → Pairs → Pairs
unfolding insert
merge [] env = env
merge ((k, v) ∷ extra) env = merge extra (insert k v env)

unfoldable pub env_map : Spec → Pairs
unfolding base_env pack_env merge
env_map spec = merge spec.extra_env (pack_env spec (base_env spec))

-- The entries that have a value, as `k=v`.
unfoldable pub env_lines : Pairs → List Text
unfolding codes
env_lines [] = []
env_lines ((k, v) ∷ m) =
    let rest = env_lines m in if is_empty v then rest else (k ++ (codes "=" ++ v)) ∷ rest

unfoldable pub build_env : Spec → List Text
unfolding env_map env_lines
build_env spec = env_lines (env_map spec)

unfoldable pub build_resources : Spec → Resources
unfolding derive_memory_limit
build_resources spec = record {
  nano_cpus = if is_positive spec.cpu_limit then spec.cpu_limit else pos 0;
  memory =
      if is_zero spec.memory_limit_bytes
      then derive_memory_limit spec.memory
      else spec.memory_limit_bytes;
}
