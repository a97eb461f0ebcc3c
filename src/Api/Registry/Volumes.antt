-- ===== src/Api/Registry/Volumes.antt =====
-- World data is removed on request only.
use overworld_ops.Base.{refl, false, ℕ, List, ◌≡◌, count_where, ◌∷◌, [], arith, ap, one_if}
use overworld_ops.System.{World, sent, Env}
use overworld_ops.Config.{Config}
use overworld_ops.Store.Sql.{update_user, update_server_row, delete_user_row, delete_server_row}
use overworld_ops.Api.Routes.{HttpRequest, serve_all, Payload}
use overworld_ops.System.Keeps.{removes_volume}
use overworld_ops.Docker.Types.{Call}
use overworld_ops.Api.Keeps.Endpoints.{
  AllSpecial, request_of, serve_all-Keeps, Special, as_admin-Keeps,
}
use overworld_ops.Api.Http.{Request}
use overworld_ops.Api.Keeps.Servers.{
  asks_erasure, handle_create_server-Keeps, handle_delete_server-Keeps,
}
use overworld_ops.Store.Keeps.{
  TableInvariant, Preserves-insert_user, Preserves-set_owner, Preserves-insert_server,
}
use overworld_ops.Api.Keeps.Accounts.{handle_update_user-Keeps, handle_delete_user-Keeps}

-- The requests so far to remove a volume.
abbrev pub removals : World → ℕ
removals s = count_where removes_volume s.calls

module _ (n : ℕ) where
  abbrev Removed : World → Type 0
  Removed s = removals s ≡ n

  sent-Removed : (c : Call) (s : World) → removes_volume c ≡ false → Removed s → Removed (sent c s)
  unfolding sent count_where
  sent-Removed c s harmless h = omega (arith, ap one_if harmless)

  Removed-invariant : TableInvariant Removed
  unfolding update_user update_server_row delete_server_row
  Removed-invariant = record {
    of_tables = record { ticked_ok = λ s h. h; sent_ok = sent-Removed };
    insert_user_ok = λ u. Preserves-insert_user u (λ s h. h);
    update_user_ok = λ id f _ _ _. record { at = λ s h. h };
    update_server_ok = λ id f _ _ _. record { at = λ s h. h };
    set_owner_ok = λ from to now. Preserves-set_owner from to now (λ s h. h);
    delete_server_ok = λ id. record { at = λ s h. h };
  }

  special :
      (cfg : Config) (req : Request) (payload : Payload)
      → asks_erasure req.query ≡ false
      → Special Removed cfg req payload
  unfolding update_user delete_user_row
  special cfg req payload keeps_data = record {
    create_ok = λ u.
        handle_create_server-Keeps Removed-invariant cfg
          (λ v _. Preserves-insert_server v (λ s h. h)) u payload.new_server;
    delete_ok = λ u. handle_delete_server-Keeps Removed-invariant u req (λ asked. absurd cc);
    update_user_ok = as_admin-Keeps Removed-invariant cfg req _ (λ u.
        handle_update_user-Keeps Removed-invariant u req payload.user_change
          (λ id b _. record { at = λ s h. h }));
    delete_user_ok =
        as_admin-Keeps Removed-invariant cfg req _ (λ u.
          handle_delete_user-Keeps Removed-invariant u req (λ id _. record { at = λ s h. h }));
  }

-- No request has `?deleteData=true`.
abbrev pub KeepData : List HttpRequest → Type 0
KeepData [] = Unit
KeepData (r ∷ rs) = (asks_erasure r.query ≡ false) × KeepData rs

all_keep :
    (n : ℕ) (cfg : Config) (rs : List HttpRequest) → KeepData rs → AllSpecial (Removed n) cfg rs
all_keep n cfg [] h = tt
all_keep n cfg (r ∷ rs) (first, rest) =
    (λ value. special n cfg (request_of r value) r.payload first, all_keep n cfg rs rest)

-- Requests of which none has `?deleteData=true` never make the program ask the Docker Engine to
-- remove a volume, whatever fails; deleted servers and deleted accounts leave theirs.
pub serve_all-removals :
    (cfg : Config) (e : Env) (rs : List HttpRequest) (s : World)
    → KeepData rs
    → removals (serve_all cfg e rs s) ≡ removals s
serve_all-removals cfg e rs s h =
    serve_all-Keeps (Removed-invariant (removals s)) cfg e rs s (all_keep (removals s) cfg rs h)
      refl
