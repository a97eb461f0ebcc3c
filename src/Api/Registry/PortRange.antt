-- ===== src/Api/Registry/PortRange.antt =====
-- The ports of the records stay in the configured range.
use overworld_ops.Base.{
  List, ℕ, count_where, ◌≡◌, Bool, not, false, count-update, leb, arith, ◌&&◌, ◌∙◌,
  count-append_one, ap, count-delete-le, refl, one_if,
}
use overworld_ops.System.{World, Env, sent}
use overworld_ops.Store.Keeps.{
  Preserves-insert_user, Preserves-insert_server, Preserves-set_owner, FullInvariant,
}
use overworld_ops.Ports.Keeps.{IsInRange}
use overworld_ops.Api.Routes.{HttpRequest, serve_all}
use overworld_ops.Api.Keeps.Endpoints.{serve_all-FullInvariant}
use overworld_ops.Config.{Config}
use overworld_ops.Models.{Server}
use overworld_ops.Store.Sql.{
  update_user, delete_user_row, update_server_row, has_owner, delete_server_row, has_id,
}

module _ (start end : ℕ) where
  abbrev pub is_outside : Server → Bool
  is_outside v = not (leb start v.port && leb v.port end)

  -- No record has a port outside.
  abbrev pub PortsInRange : World → Type 0
  PortsInRange s = count_where is_outside s.servers ≡ 0

  abbrev Fits : Server → Type 0
  Fits v = IsInRange start end v.port

  Fits-inside : (v : Server) → Fits v → is_outside v ≡ false
  Fits-inside v h = ground arith

  pub PortsInRange-invariant : FullInvariant PortsInRange Fits
  unfolding update_user delete_user_row update_server_row delete_server_row sent
  PortsInRange-invariant = record {
    tables = record {
      of_tables = record { ticked_ok = λ s h. h; sent_ok = λ c s _ h. h };
      insert_user_ok = λ u. Preserves-insert_user u (λ s h. h);
      update_user_ok = λ id f _ _ _. record { at = λ s h. h };
      update_server_ok = λ id f _ same_port _. record {
        at = λ s h. count-update is_outside (has_id id) f s.servers (λ v. rw (same_port v)) ∙ h;
      };
      set_owner_ok = λ from to now.
          Preserves-set_owner from to now
            (λ s h. count-update is_outside (has_owner from) _ s.servers (λ v. refl) ∙ h);
      delete_server_ok = λ id. record {
        at = λ s h. omega (arith, count-delete-le is_outside (has_id id) s.servers);
      };
    };
    roles = record {
      set_role_ok = λ id b. record { at = λ s h. h };
      delete_user_ok = λ id. record {
        at = λ s h. omega (arith, count-delete-le is_outside (has_owner id) s.servers);
      };
    };
    insert_server_ok = λ v fits. Preserves-insert_server v (λ s h.
        omega (arith, count-append_one is_outside s.servers v, ap one_if (Fits-inside v fits)));
    erase_ok = λ name s h. h;
  }

-- Under any traffic, whatever fails, no server record ever has a port outside of the configured
-- range, if none had one before.
pub serve_all-PortsInRange :
    (cfg : Config) (e : Env) (rs : List HttpRequest) (s : World)
    → PortsInRange cfg.port_range_start cfg.port_range_end s
    → PortsInRange cfg.port_range_start cfg.port_range_end (serve_all cfg e rs s)
serve_all-PortsInRange cfg e rs s h =
    serve_all-FullInvariant (PortsInRange-invariant cfg.port_range_start cfg.port_range_end) cfg
      (λ v inside. inside) e rs s h
