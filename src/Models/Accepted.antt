-- ===== src/Models/Accepted.antt =====
-- Which inputs `Validate` accepts, and what it makes of them.
use overworld_ops.Base.{
  ◌≡◌, is_empty, ◌↔◌, false, length, arith, ◌≤◌, true, text_eq, ◌⊎◌, trim_space, is_negative, ◌∷◌,
  [], Text, codes, if◌then◌else◌, text_eq_iff, ℕ, ℤ, pos, negsuc, refl, inl, inr,
}
use overworld_ops.Models.{
  CreateServerInput, modpack_none, modpack_curseforge, modpack_modrinth, valid_type, type_vanilla,
  type_forge, type_fabric, type_neoforge,
}
use overworld_ops.Models.Validate.{check, valid, valid_provider, normalize, validate}

-- The input `q` is what `given` is stored as: trimmed, filled in, and within the bounds.
pub record IsAcceptable (given q : CreateServerInput) : Type 0 where
  pub name : q.name ≡ trim_space given.name
  pub server_type :
      q.server_type ≡ (if is_empty given.server_type then codes "VANILLA" else given.server_type)
  pub version :
      q.version ≡ (if is_empty (trim_space given.version) then codes "LATEST" else given.version)
  pub modpack_provider : q.modpack_provider ≡ given.modpack_provider
  pub modpack_id : q.modpack_id ≡ given.modpack_id
  pub memory : q.memory ≡ given.memory
  pub cpu_limit : q.cpu_limit ≡ given.cpu_limit
  pub named : 1 ≤ length q.name
  pub short : length q.name ≤ 64
  pub known_type :
      (q.server_type ≡ codes "VANILLA")
      ⊎ (q.server_type ≡ codes "FORGE")
      ⊎ (q.server_type ≡ codes "FABRIC")
      ⊎ (q.server_type ≡ codes "NEOFORGE")
  pub known_provider :
      (q.modpack_provider ≡ codes "")
      ⊎ (q.modpack_provider ≡ codes "curseforge")
      ⊎ (q.modpack_provider ≡ codes "modrinth")
  pub pack_given : (q.modpack_provider ≡ codes "") ⊎ (1 ≤ length (trim_space q.modpack_id))
  pub not_negative : (n : ℕ) × (q.cpu_limit ≡ pos n)

-- The same by the tests of the code.
record IsChecked (r : CreateServerInput) : Type 0 where
  named : is_empty r.name ≡ false
  short : length r.name ≤ 64
  known_type : valid_type r.server_type ≡ true
  known_provider : valid_provider r.modpack_provider ≡ true
  pack_given :
      (text_eq r.modpack_provider modpack_none ≡ true)
      ⊎ (is_empty (trim_space r.modpack_id) ≡ false)
  not_negative : is_negative r.cpu_limit ≡ false

check_iff : (r v : CreateServerInput) → (check r ≡ valid v) ↔ (IsChecked r × (v ≡ r))
unfolding check
check_iff r v = (λ h. ground arith, λ (a, e). ground arith)

is_empty_iff : (t : Text) → (is_empty t ≡ false) ↔ (1 ≤ length t)
unfolding is_empty
is_empty_iff [] = (λ h. absurd cc, λ h. absurd (omega arith))
is_empty_iff (c ∷ t) = (λ h. omega arith, λ h. refl)

is_negative_iff : (i : ℤ) → (is_negative i ≡ false) ↔ ((n : ℕ) × (i ≡ pos n))
is_negative_iff (pos n) = (λ h. (n, refl), λ h. refl)
is_negative_iff (negsuc n) = (λ h. absurd cc, λ (m, h). absurd cc)

valid_type_iff :
    (t : Text)
    → (valid_type t ≡ true) ↔ (
        (t ≡ codes "VANILLA") ⊎ (t ≡ codes "FORGE") ⊎ (t ≡ codes "FABRIC") ⊎ (t ≡ codes "NEOFORGE"))
unfolding valid_type type_vanilla type_forge type_fabric type_neoforge
valid_type_iff t =
    let a = text_eq_iff t (codes "VANILLA") in
    let b = text_eq_iff t (codes "FORGE") in
    let c = text_eq_iff t (codes "FABRIC") in
    let d = text_eq_iff t (codes "NEOFORGE") in
    (λ h. ground (arith, a, b, c, d), λ h. ground (arith, a, b, c, d))

valid_provider_iff :
    (t : Text)
    → (valid_provider t ≡ true)
      ↔ ((t ≡ codes "") ⊎ (t ≡ codes "curseforge") ⊎ (t ≡ codes "modrinth"))
unfolding valid_provider modpack_none modpack_curseforge modpack_modrinth
valid_provider_iff t =
    let a = text_eq_iff t (codes "") in
    let b = text_eq_iff t (codes "curseforge") in
    let c = text_eq_iff t (codes "modrinth") in
    (λ h. ground (arith, a, b, c), λ h. ground (arith, a, b, c))

normal : (given q : CreateServerInput) → IsAcceptable given q → q ≡ normalize given
unfolding normalize type_vanilla
normal given q h = λ i. record {
  name = h.name i;
  server_type = h.server_type i;
  version = h.version i;
  modpack_provider = h.modpack_provider i;
  modpack_id = h.modpack_id i;
  memory = h.memory i;
  cpu_limit = h.cpu_limit i;
}

IsAcceptable-checked :
    (given : CreateServerInput) → IsChecked (normalize given) → IsAcceptable given (normalize given)
unfolding normalize type_vanilla modpack_none
IsAcceptable-checked given h =
    let q = normalize given in
    record {
      name = refl;
      server_type = refl;
      version = refl;
      modpack_provider = refl;
      modpack_id = refl;
      memory = refl;
      cpu_limit = refl;
      named = (is_empty_iff q.name).0 h.named;
      short = h.short;
      known_type = (valid_type_iff q.server_type).0 h.known_type;
      known_provider = (valid_provider_iff q.modpack_provider).0 h.known_provider;
      pack_given = elim h.pack_given [
        | inl none_asked ↦ inl ((text_eq_iff q.modpack_provider (codes "")).0 none_asked)
        | inr named ↦ inr ((is_empty_iff (trim_space q.modpack_id)).0 named)
      ];
      not_negative = (is_negative_iff q.cpu_limit).0 h.not_negative;
    }

IsChecked-accepted : (given q : CreateServerInput) → IsAcceptable given q → IsChecked q
unfolding modpack_none
IsChecked-accepted given q h = record {
  named = (is_empty_iff q.name).1 h.named;
  short = h.short;
  known_type = (valid_type_iff q.server_type).1 h.known_type;
  known_provider = (valid_provider_iff q.modpack_provider).1 h.known_provider;
  pack_given = elim h.pack_given [
    | inl none_asked ↦ inl ((text_eq_iff q.modpack_provider (codes "")).1 none_asked)
    | inr named ↦ inr ((is_empty_iff (trim_space q.modpack_id)).1 named)
  ];
  not_negative = (is_negative_iff q.cpu_limit).1 h.not_negative;
}

-- `Validate` accepts an input and leaves `q` in its place exactly if `q` is the input with its name
-- trimmed, VANILLA for no type and LATEST for no version, and this has a name of 1 to 64 bytes, one
-- of the four types, one of the three modpack providers, a modpack ID that is not blank where there
-- is a provider, and no negative CPU limit.
pub validate-IsAcceptable :
    (given q : CreateServerInput) → (validate given ≡ valid q) ↔ IsAcceptable given q
unfolding validate
validate-IsAcceptable given q = (
  λ h.
      let (checks, same) = (check_iff (normalize given) q).0 h in
      rw same (IsAcceptable-checked given checks),
  λ h.
      let same = normal given q h in
      (check_iff (normalize given) q).1 (rw (← same) (IsChecked-accepted given q h), same),
)
