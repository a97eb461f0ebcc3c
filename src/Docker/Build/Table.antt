-- ===== src/Docker/Build/Table.antt =====
-- The environment of a server's container, variable by variable.
use overworld_ops.Api.Views.{spec_for}
use overworld_ops.Base.{
  Text, [], ◌∷◌, ◌++◌, List, refl, ap, Bool, Bool-cases, inl, inr, ◌≡◌, ◌∙◌, codes, text_eq,
  is_empty, not, ◌&&◌, if◌then◌else◌, count_where,
}
use overworld_ops.Config.{Config}
use overworld_ops.Models.{Server, modpack_modrinth, modpack_curseforge}
use overworld_ops.Docker.Build.{
  base_env, pack_env, modrinth_env, curse_forge_env, insert, erase, env_map, merge, env_lines,
  build_env,
}
use overworld_ops.Docker.Types.{Pairs}

-- A variable without a value is not set.
abbrev pub set_line : Text → Text → List Text
set_line k v = if is_empty v then [] else (k ++ (codes "=" ++ v)) ∷ []

abbrev pub set_lines : Pairs → List Text
set_lines [] = []
set_lines ((k, v) ∷ m) = set_line k v ++ set_lines m

-- Whether the record has a pack of that provider.
abbrev pub is_modrinth : Server → Bool
is_modrinth v = text_eq v.modpack_provider (codes "modrinth") && not (is_empty v.modpack_id)

abbrev pub is_curse_forge : Server → Bool
is_curse_forge v = text_eq v.modpack_provider (codes "curseforge") && not (is_empty v.modpack_id)

-- What itzg/minecraft-server is told. A modpack decides on the type and on the version.
abbrev pub variables : Config → Server → Pairs
variables cfg v =
    (codes "EULA", codes "TRUE")
    ∷ (
      codes "TYPE",
      if is_modrinth v
          then codes "MODRINTH"
          else if is_curse_forge v
          then codes "AUTO_CURSEFORGE"
          else v.server_type,
    )
    ∷ (codes "VERSION", if is_modrinth v then [] else if is_curse_forge v then [] else v.version)
    ∷ (codes "MEMORY", v.memory)
    ∷ (codes "ENABLE_RCON", codes "false")
    ∷ (codes "MODRINTH_MODPACK", if is_modrinth v then v.modpack_id else [])
    ∷ (codes "CF_SLUG", if is_modrinth v then [] else if is_curse_forge v then v.modpack_id else [])
    ∷ (
      codes "CF_API_KEY",
      if is_modrinth v then [] else if is_curse_forge v then cfg.curse_forge_api_key else [],
    )
    ∷ (codes "MOTD", v.name)
    ∷ []

env_lines-set_lines : (m : Pairs) → env_lines m ≡ set_lines m
unfolding env_lines
env_lines-set_lines [] = refl
env_lines-set_lines ((k, v) ∷ m) = elim (Bool-cases (is_empty v)) [
  | inl none_given ↦ rw none_given (env_lines-set_lines m)
  | inr given ↦ rw given (ap (λ l. (k ++ (codes "=" ++ v)) ∷ l) (env_lines-set_lines m))
]

env_map-variables :
    (cfg : Config) (v : Server) → set_lines (env_map (spec_for cfg v)) ≡ set_lines (variables cfg v)
unfolding spec_for env_map merge pack_env base_env modrinth_env curse_forge_env insert erase codes
    text_eq modpack_modrinth modpack_curseforge is_empty
env_map-variables cfg v = elim (Bool-cases (text_eq v.modpack_provider (codes "modrinth"))) [
  | inl a ↦ elim (Bool-cases (is_empty v.modpack_id)) [
    | inl c ↦ elim (Bool-cases (text_eq v.modpack_provider (codes "curseforge"))) [
      | inl b ↦ rw (a, b, c) refl
      | inr b ↦ rw (a, b, c) refl
    ]
    | inr c ↦ rw (a, c) refl
  ]
  | inr a ↦ elim (Bool-cases (text_eq v.modpack_provider (codes "curseforge"))) [
    | inl b ↦ elim (Bool-cases (is_empty v.modpack_id)) [
      | inl c ↦ rw (a, b, c) refl
      | inr c ↦ rw (a, b, c) refl
    ]
    | inr b ↦ rw (a, b) refl
  ]
]

-- The environment that is built for the container of a record has, in some order, exactly the
-- variables of this table that have a value: the EULA is accepted, RCON is off, the memory is that
-- of the record, and the message is its name. With a modpack, the type is that of the pack's
-- provider, no version is set, and the variables of the provider, and of no other, are set; without
-- one, the type and the version are those of the record.
pub build_env-variables :
    (cfg : Config) (v : Server) (p : Text → Bool)
    → count_where p (build_env (spec_for cfg v)) ≡ count_where p (set_lines (variables cfg v))
unfolding build_env
build_env-variables cfg v p =
    ap (count_where p) (env_lines-set_lines (env_map (spec_for cfg v)) ∙ env_map-variables cfg v)
