-- ===== src/Api/Isolation.antt =====
-- The server of another account.
pub mod Endpoints
use overworld_ops.Config.{Config}
use overworld_ops.Models.{CreateServerInput, Server, User}
use overworld_ops.System.{attempt, sent, World, Env, ok, ◌>>=◌}
use overworld_ops.System.Keeps.{Keeps-map_err, Keeps, OfTables, keeps_rules}
use overworld_ops.System.Post.{Post-map_err, Post}
use overworld_ops.Docker.Client
use overworld_ops.Docker.Keeps.{docker_keeps}
use overworld_ops.Store.Methods
use overworld_ops.Store.Present.{
  Holds-row, Holds-insert, create_server-apart, Holds-delete, Holds, Holds-OfTables,
}
use overworld_ops.Store.Keeps.{RowInvariant, Keeps-query}
use overworld_ops.Store.Servers.{list_servers, scan_server, server_by_id}
use overworld_ops.Api.Console.{handle_server_logs}
use overworld_ops.Api.Views.{spec_for, lookup}
use overworld_ops.Api.Keeps.{decoded-Keeps, view-Keeps, views-Keeps}
use overworld_ops.Api.Keeps.Servers.{asks_erasure}
use overworld_ops.Api.Servers.Rows.{
  updated-Keeps, started-Keeps, stopped-Keeps, deleted-Keeps, finish_create-Keeps, validated-Keeps,
  admit-Keeps, ask_port-Keeps,
}
use overworld_ops.Api.Servers.{
  insert_made, create_error, new_server, handle_create_server, handle_list_servers,
  handle_get_server, handle_update_server, handle_start_server, handle_stop_server,
  handle_delete_server, finish_create,
}
use overworld_ops.Base.{
  some, none, true, false, Text, Option, ◌≡◌, ◌∙◌, sym, text_eq, text_eq_refl, first_where,
  Bool-cases, inl, inr, eq_of_text_eq, count-pos_of_first, ℕ,
}
use overworld_ops.System.Leads.{Leads, Keeps-Leads, Leads-Keeps, Leads-bind-Post}
use overworld_ops.Store.Sql.{has_id}
use overworld_ops.Api.Gate.Quiet.{Unchanged, Unchanged-refl, query-Unchanged}
use overworld_ops.Api.Ownership.{lookup-owns_server}
use overworld_ops.Api.Http.{Request, Handler}

scan_server-Unchanged : (s0 : World) (row : Option Server) → Keeps (Unchanged s0) (scan_server row)
unfolding scan_server
scan_server-Unchanged s0 none = search keeps_rules
scan_server-Unchanged s0 (some u) = search keeps_rules

pub lookup-Unchanged : (s0 : World) (u : User) (req : Request) → Keeps (Unchanged s0) (lookup u req)
unfolding lookup server_by_id
lookup-Unchanged s0 u req = search (keeps_rules, query-Unchanged, scan_server-Unchanged) depth 12

-- A record that another account owns, and the account of the request, which is no administrator.
module _ (j : Text) (v : Server) (u : User) (ordinary : u.is_admin ≡ false)
    (foreign : text_eq v.owner_id u.id ≡ false) where
  abbrev Kept : World → Type 0
  Kept = Holds j (some v)

  tables : OfTables Kept
  tables = Holds-OfTables j (some v)

  found_apart :
      (req : Request) (e : Env) (s : World) (w : Server)
      → Kept s
      → (lookup u req e s).0 ≡ ok w
      → text_eq w.id j ≡ false
  found_apart req e s w h returned = elim (Bool-cases (text_eq w.id j)) [
    | inr differ ↦ differ
    | inl same ↦
        let (stored, allowed) = lookup-owns_server u req e s w returned in
        let at_req =
          eq_of_text_eq w.id req.id ((count-pos_of_first (has_id req.id) w s.servers stored).1) in
        let here : req.id ≡ j = sym at_req ∙ eq_of_text_eq w.id j same in
        let stored' : first_where (has_id j) s.servers ≡ some w = rw here at stored in
        let q : some w ≡ some v = sym stored' ∙ h in
        let one : w ≡ v = cc in
        elim allowed [
          | inl admin ↦ let no : true ≡ false = sym admin ∙ ordinary in absurd cc
          | inr own ↦
              let yes : text_eq v.owner_id u.id ≡ true = rw (← one, own) (text_eq_refl u.id) in
              let no : true ≡ false = sym yes ∙ foreign in absurd cc
        ]
  ]

  lookup-apart :
      (req : Request) (e : Env)
      → Post e Kept (λ w t. Kept t × (text_eq w.id j ≡ false)) (lookup u req)
  lookup-apart req e = record {
    at = λ s w h returned. (
      rw ((lookup-Unchanged s u req).at e s (Unchanged-refl s)).servers h,
      found_apart req e s w h returned,
    );
  }

  lookup-Kept : (req : Request) → Keeps Kept (lookup u req)
  lookup-Kept req = record {
    at = λ e s h. rw ((lookup-Unchanged s u req).at e s (Unchanged-refl s)).servers h;
  }

  apart :
      (f : Server → Handler) (w : Server)
      → (text_eq w.id j ≡ false → Keeps Kept (f w))
      → Leads (λ t. Kept t × (text_eq w.id j ≡ false)) Kept (f w)
  apart f w k = record { at = λ e s (h, differ). (k differ).at e s h }

  -- What the rest of a handler does to a record that `lookup` has found, it does to another one.
  looked_up :
      (req : Request) (f : Server → Handler)
      → ((w : Server) → text_eq w.id j ≡ false → Keeps Kept (f w))
      → Keeps Kept (lookup u req >>= f)
  looked_up req f k = Keeps-Leads _ (
      Leads-bind-Post _ (lookup u req) f (Leads-Keeps _ (lookup-Kept req)) (lookup-apart req)
        (λ w. apart f w (k w)))

  made_apart :
      (cfg : Config) (w : Server)
      → text_eq w.id j ≡ false
      → Keeps Kept (
          attempt (Client.create_server cfg.minecraft_image (spec_for cfg w))
          >>= finish_create cfg w)
  made_apart cfg w differ =
      let row = Holds-row j (some v) w.id differ in
      search (keeps_rules, docker_keeps, finish_create-Keeps, tables) depth 8

  insert_made-Kept :
      (cfg : Config) (r : CreateServerInput) (port : ℕ) → Keeps Kept (insert_made cfg u r port)
  unfolding insert_made
  insert_made-Kept cfg r port =
      let new = new_server cfg u r port in
      Keeps-Leads _ (
        Leads-bind-Post (λ w t. Kept t × (text_eq w.id j ≡ false)) _ _
          (Leads-Keeps _ (
            Keeps-map_err _ _
              (Methods.create_server-Keeps tables new (λ id now. Holds-insert j v _))))
          (λ e. Post-map_err create_error _ (create_server-apart j v e new))
          (λ w. record { at = λ e s (h, differ). (made_apart cfg w differ).at e s h }))

  pub handle_create_server-Kept :
      (cfg : Config) (input : Option CreateServerInput)
      → Keeps Kept (handle_create_server cfg u input)
  unfolding handle_create_server
  handle_create_server-Kept cfg input =
      search
        (
          keeps_rules, decoded-Keeps, validated-Keeps, admit-Keeps, ask_port-Keeps,
          insert_made-Kept, tables,
        )
        depth 12

  pub logs_shown-Kept : (req : Request) → Keeps Kept (handle_server_logs u req)
  unfolding handle_server_logs
  logs_shown-Kept req = search (keeps_rules, docker_keeps, lookup-Kept, tables) depth 8

  pub listed-Kept : (cfg : Config) → Keeps Kept (handle_list_servers cfg u)
  unfolding handle_list_servers list_servers
  listed-Kept cfg = search (keeps_rules, Keeps-query, views-Keeps, tables) depth 12

  pub shown-Kept : (cfg : Config) (req : Request) → Keeps Kept (handle_get_server cfg u req)
  unfolding handle_get_server
  shown-Kept cfg req = search (keeps_rules, lookup-Kept, view-Keeps, tables) depth 12

  row : (w : Server) → text_eq w.id j ≡ false → RowInvariant Kept w.id
  row w differ = Holds-row j (some v) w.id differ

  pub updated-Kept :
      (cfg : Config) (req : Request) (input : Option (Option Text))
      → Keeps Kept (handle_update_server cfg u req input)
  unfolding handle_update_server
  updated-Kept cfg req input =
      looked_up req _ (λ w differ. updated-Keeps cfg tables w input (row w differ))

  pub started-Kept : (cfg : Config) (req : Request) → Keeps Kept (handle_start_server cfg u req)
  unfolding handle_start_server
  started-Kept cfg req = looked_up req _ (λ w differ. started-Keeps cfg tables w (row w differ))

  pub stopped-Kept : (cfg : Config) (req : Request) → Keeps Kept (handle_stop_server cfg u req)
  unfolding handle_stop_server
  stopped-Kept cfg req = looked_up req _ (λ w differ. stopped-Keeps cfg tables w (row w differ))

  pub deleted-Kept : (req : Request) → Keeps Kept (handle_delete_server u req)
  unfolding handle_delete_server sent
  deleted-Kept req = looked_up req _ (λ w differ.
      deleted-Keeps tables w (asks_erasure req.query) (λ _ name s h. h) (row w differ)
        (Holds-delete j (some v) w.id differ))
