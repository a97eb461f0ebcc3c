-- ===== src/Startup/Keeps.antt =====
-- What a start preserves, and the run after it.
use overworld_ops.Base.{[], ◌∷◌, Text, List, Option-cases, inl, inr}
use overworld_ops.System.{World, Result, ok, err}
use overworld_ops.Store.Keeps.{TableInvariant}
use overworld_ops.Docker.Image.{read_pull, pull_unless, ensure_image}
use overworld_ops.Startup.{
  new_client, prepare, start, Host, configured, open_step, open_store, OpenStep, Result, Config,
  Loaded, ok, err,
}
use overworld_ops.System.Keeps.{Keeps, keeps_rules, Keeps-send}
use overworld_ops.Config.{Config, Loaded, loaded, refused}
use overworld_ops.Docker.Types.{PullMessage, ApiError, progress, broken}
use overworld_ops.Docker.Keeps.{request-Keeps, docker_keeps}
use overworld_ops.Api.Keeps.Accounts.{seed_admin-Keeps}

module _ {P : World → Type 0} where
  open_step-Keeps : (host : Host) (step : OpenStep) → Keeps P (open_step host step)
  unfolding open_step
  open_step-Keeps host step = elim (Option-cases (host.open_fault step)) [
    | inl fine ↦ rw (open_step, fine) (search keeps_rules)
    | inr (m, fault) ↦ rw (open_step, fault) (search keeps_rules)
  ]

  pub open_store-Keeps : (host : Host) (path : Text) → Keeps P (open_store host path)
  unfolding open_store
  open_store-Keeps host path = search (keeps_rules, open_step-Keeps) depth 12

  pub new_client-Keeps : (host : Host) (docker_host : Text) → Keeps P (new_client host docker_host)
  unfolding new_client
  new_client-Keeps host docker_host = elim (Option-cases (host.client_fault docker_host)) [
    | inl fine ↦ rw (new_client, fine) (search keeps_rules)
    | inr (m, fault) ↦ rw (new_client, fault) (search keeps_rules)
  ]

module _ {P : World → Type 0} (inv : TableInvariant P) where
  read_pull-Keeps : (image : Text) (l : List PullMessage) → Keeps P (read_pull image l)
  unfolding read_pull
  read_pull-Keeps image [] = search keeps_rules
  read_pull-Keeps image (progress m ∷ l) = let rest = read_pull-Keeps image l in search keeps_rules
  read_pull-Keeps image (broken m ∷ l) = search keeps_rules

  pull_unless-Keeps :
      (image : Text) (r : Result ApiError (Unit {0})) → Keeps P (pull_unless image r)
  unfolding pull_unless
  pull_unless-Keeps image (ok _) = search keeps_rules
  pull_unless-Keeps image (err x) =
      search (keeps_rules, read_pull-Keeps, Keeps-send, inv.of_tables) depth 8

  pub ensure_image-Keeps : (image : Text) → Keeps P (ensure_image image)
  unfolding ensure_image
  ensure_image-Keeps image =
      search (keeps_rules, request-Keeps, pull_unless-Keeps, inv.of_tables) depth 8

  -- The start after the configuration has been read.
  pub prepare-Keeps : (host : Host) (cfg : Config) → Keeps P (prepare host cfg)
  unfolding prepare
  prepare-Keeps host cfg =
      search
        (
          keeps_rules, docker_keeps, open_store-Keeps, new_client-Keeps, ensure_image-Keeps,
          seed_admin-Keeps, inv, inv.of_tables,
        )
        depth 14

  pub start-Keeps : (host : Host) (given : Loaded) → Keeps P (start host given)
  unfolding start configured
  start-Keeps host (loaded cfg) = search (keeps_rules, prepare-Keeps) depth 8
  start-Keeps host (refused x) = search (keeps_rules, prepare-Keeps) depth 8
