-- ===== src/Store/Made.antt =====
-- The table after one record was added at its end, while only the rows of that record are written.
pub mod Insert
use overworld_ops.Base.{
  ◌∙◌, sym, [], ◌∷◌, ◌++◌, List, Text, ℕ, ◌≡◌, refl, ap, count_where, update_where, Bool-cases, inl,
  inr, one_if, text_eq_refl, arith, ltb, ◌==◌, none, Option, some,
}
use overworld_ops.Models.{Server, Status}
use overworld_ops.System.{World, Env, sent}
use overworld_ops.System.Keeps.{OfTables, Keeps, keeps_rules}
use overworld_ops.System.Ends.{
  Ends, Ends-bind, Ends-ask, Ends-pure, Ends-attempt, Outcome, Ends-map_err, Ends-if,
}
use overworld_ops.Store.Sql.{
  has_id, has_port, has_user_id, update_server_row, insert_server, exec, exec_with, time_now,
  new_uuid,
}
use overworld_ops.Store.Keeps.{Preserves, Keeps-exec, Keeps-time_now, Keeps-require_row}
use overworld_ops.Store.Servers.{
  update_server, save_server, set_status, set_mutable, assigned_id, create_server,
}

-- The columns that a record has from its creation on agree.
pub record IsSpecOf (v w : Server) : Type 0 where
  pub id : w.id ≡ v.id
  pub name : w.name ≡ v.name
  pub owner_id : w.owner_id ≡ v.owner_id
  pub server_type : w.server_type ≡ v.server_type
  pub version : w.version ≡ v.version
  pub modpack_provider : w.modpack_provider ≡ v.modpack_provider
  pub modpack_id : w.modpack_id ≡ v.modpack_id
  pub port : w.port ≡ v.port
  pub memory : w.memory ≡ v.memory
  pub cpu_limit : w.cpu_limit ≡ v.cpu_limit

pub IsSpecOf-refl : (v : Server) → IsSpecOf v v
IsSpecOf-refl v = record {
  id = refl;
  name = refl;
  owner_id = refl;
  server_type = refl;
  version = refl;
  modpack_provider = refl;
  modpack_id = refl;
  port = refl;
  memory = refl;
  cpu_limit = refl;
}

-- Two records that agree with the same one agree, and so does what that one was made for.
pub IsSpecOf-meet : (v w x : Server) → IsSpecOf v w → IsSpecOf v x → IsSpecOf w x
IsSpecOf-meet v w x a b = record {
  id = b.id ∙ sym a.id;
  name = b.name ∙ sym a.name;
  owner_id = b.owner_id ∙ sym a.owner_id;
  server_type = b.server_type ∙ sym a.server_type;
  version = b.version ∙ sym a.version;
  modpack_provider = b.modpack_provider ∙ sym a.modpack_provider;
  modpack_id = b.modpack_id ∙ sym a.modpack_id;
  port = b.port ∙ sym a.port;
  memory = b.memory ∙ sym a.memory;
  cpu_limit = b.cpu_limit ∙ sym a.cpu_limit;
}

pub IsSpecOf-given :
    (x v w : Server)
    → IsSpecOf (record x { id = v.id }) v
    → IsSpecOf v w
    → IsSpecOf (record x { id = w.id }) w
IsSpecOf-given x v w given same = record {
  id = refl;
  name = same.name ∙ given.name;
  owner_id = same.owner_id ∙ given.owner_id;
  server_type = same.server_type ∙ given.server_type;
  version = same.version ∙ given.version;
  modpack_provider = same.modpack_provider ∙ given.modpack_provider;
  modpack_id = same.modpack_id ∙ given.modpack_id;
  port = same.port ∙ given.port;
  memory = same.memory ∙ given.memory;
  cpu_limit = same.cpu_limit ∙ given.cpu_limit;
}

-- The other columns do not matter.
pub IsSpecOf-changed :
    (v w : Server) (status : Status) (message container : Text) (now : ℕ)
    → IsSpecOf v w
    → IsSpecOf v (record w {
      status = status;
      status_message = message;
      container_id = container;
      updated_at = now;
    })
IsSpecOf-changed v w status message container now same = record {
  id = same.id;
  name = same.name;
  owner_id = same.owner_id;
  server_type = same.server_type;
  version = same.version;
  modpack_provider = same.modpack_provider;
  modpack_id = same.modpack_id;
  port = same.port;
  memory = same.memory;
  cpu_limit = same.cpu_limit;
}

update_last :
    (k : Text) (f : Server → Server) (l : List Server) (w : Server)
    → count_where (has_id k) l ≡ 0
    → w.id ≡ k
    → update_where (has_id k) f (l ++ w ∷ []) ≡ l ++ f w ∷ []
unfolding count_where update_where
update_last k f [] w none_there here = rw (here, text_eq_refl k) refl
update_last k f (v ∷ l) w none_there here = elim (Bool-cases (has_id k v)) [
  | inl e ↦ let more : one_if (has_id k v) ≡ 0 = omega arith in absurd (ground (arith, e, more))
  | inr e ↦ rw e (ap (λ m. v ∷ m) (update_last k f l w (omega arith) here))
]

module _ (l : List Server) (v : Server) where
  -- The table is `l` and one record with the specification of `v`.
  abbrev pub Made : World → Type 0
  Made t = (w : Server) × (t.servers ≡ l ++ w ∷ []) × IsSpecOf v w

  pub Made-OfTables : OfTables Made
  unfolding sent
  Made-OfTables = record { ticked_ok = λ s h. h; sent_ok = λ c s _ h. h }

  module _ (apart : count_where (has_id v.id) l ≡ 0) where
    Made-row :
        (f : Server → Server)
        → ((w : Server) → IsSpecOf v w → IsSpecOf v (f w))
        → Preserves Made (update_server_row v.id f)
    unfolding update_server_row
    Made-row f spec = record {
      at = λ s (w, here, same). (f w, rw here (update_last v.id f l w apart same.id), spec w same);
    }

    status_row :
        (status : Status) (message : Text) (now : ℕ)
        → Keeps Made (
            exec (
              update_server_row v.id
                (λ w. record w { status = status; status_message = message; updated_at = now })))
    status_row status message now =
        Keeps-exec Made-OfTables _
          (Made-row _ (λ w. IsSpecOf-changed v w status message w.container_id now))

    pub set_status-Made :
        (status : Status) (message : Text) → Keeps Made (set_status v.id status message)
    unfolding set_status
    set_status-Made status message =
        search (keeps_rules, Keeps-time_now, Made-OfTables, status_row, Keeps-require_row) depth 10

    save_server-Made : (x : Server) → IsSpecOf v x → Keeps Made (save_server x)
    unfolding save_server set_mutable
    save_server-Made x given =
        let row : Keeps Made (exec (update_server_row x.id (set_mutable x))) = rw given.id (
          Keeps-exec Made-OfTables _ (
            Made-row (set_mutable x) (λ w same. record {
              id = same.id;
              name = given.name;
              owner_id = same.owner_id;
              server_type = given.server_type;
              version = given.version;
              modpack_provider = given.modpack_provider;
              modpack_id = given.modpack_id;
              port = same.port;
              memory = given.memory;
              cpu_limit = given.cpu_limit;
            }))) in
        search (keeps_rules, Keeps-require_row) depth 8

    pub update_server-Made :
        {E : Type 0} {X : E → World → Type 0} (e : Env) (x : Server)
        → IsSpecOf v x
        → Ends e Made (λ r t. Made t × IsSpecOf v r.0) X (update_server x)
    unfolding update_server time_now
    update_server-Made e x given =
        Ends-bind (λ _. Made) _ _ (Ends-ask _ Made-OfTables)
          (λ now.
            let later = IsSpecOf-changed v x x.status x.status_message x.container_id now given in
            Ends-bind (λ _. Made) _ _ (Ends-attempt _ (save_server-Made _ later))
              (λ r. Ends-pure _ (λ t h. (h, later))))
