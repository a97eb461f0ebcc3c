-- ===== src/Startup/Seeded.antt =====
-- The administrator that a start on an empty table of accounts creates.
use overworld_ops.Base.{
  refl, none, some, [], false, ◌≡◌, Text, is_empty, ltb, count_where, true, ◌∙◌, Option, List,
}
use overworld_ops.Config.{Config, loaded}
use overworld_ops.System.{Env, World, ok, ◌>>=◌, pure}
use overworld_ops.Api.Auth.{seed_first, seed_admin, store_failed, hash_or_fail}
use overworld_ops.Api.Routes.{HttpRequest}
use overworld_ops.Startup.{Host, prepare, start, configured, run, served, no_seed, pure}
use overworld_ops.Startup.Keeps.{open_store-Keeps, new_client-Keeps, ensure_image-Keeps}
use overworld_ops.Docker.Keeps.{docker_keeps}
use overworld_ops.System.Post.{Post, Post-bind, Post-Keeps, Post-map_err, Post-known, Post-pure}
use overworld_ops.Api.Registration.Stored.{create_user-IsStored}
use overworld_ops.Api.Registration.Steps.{SameUsers, SameUsers-OfTables, any_user_exists-Post}
use overworld_ops.Api.Registry.Admins.{
  HasAdmin, StillAdmin-HasAdmin, first-StillAdmin, HasAdmin-invariant, serve_all-HasAdmin,
}
use overworld_ops.System.Keeps.{Keeps-ask, Keeps, keeps_rules}
use overworld_ops.Models.{User}
use overworld_ops.Store.Users.{create_user}

hash_or_fail-Returns : {P : World → Type 0} (made : Option Text) → Keeps P (hash_or_fail made)
unfolding hash_or_fail
hash_or_fail-Returns none = search keeps_rules
hash_or_fail-Returns (some h) = search keeps_rules

none_stored : (l : List User) → l ≡ [] → ltb 0 (count_where (λ (u : User). true) l) ≡ false
unfolding count_where
none_stored l empty = rw empty refl

module _ (cfg : Config) (e : Env) (s0 : World) (empty : s0.users ≡ []) where
  seed_first-HasAdmin :
      (username password : Text)
      → Post e (SameUsers cfg e s0) (λ _. HasAdmin) (seed_first username password)
  unfolding seed_first
  seed_first-HasAdmin username password =
      Post-bind (λ _. SameUsers cfg e s0) _ _
        (Post-Keeps _ (Keeps-ask _ (SameUsers-OfTables cfg e s0)))
        (λ made.
          Post-bind (λ _. SameUsers cfg e s0) _ _ (Post-Keeps _ (hash_or_fail-Returns made))
            (λ hash.
              Post-bind (λ _. HasAdmin) _ _
                (Post-map_err store_failed _ (record {
                  at = λ s u _ returned.
                      let stored = create_user-IsStored username hash true e s u returned in
                      StillAdmin-HasAdmin u.id (create_user username hash true e s).1
                        (first-StillAdmin u.id u _ stored.found stored.is_admin);
                }))
                (λ _. Post-pure _ _ (λ t h. h))))

  seed_admin-HasAdmin :
      (username password : Text)
      → is_empty username ≡ false
      → is_empty password ≡ false
      → Post e (SameUsers cfg e s0) (λ _. HasAdmin) (seed_admin username password)
  unfolding seed_admin
  seed_admin-HasAdmin username password named secret =
      rw (named, secret)
        (Post-bind
          (λ b t. SameUsers cfg e s0 t × (b ≡ ltb 0 (count_where (λ (u : User). true) s0.users))) _
          _ (Post-map_err store_failed _ (any_user_exists-Post cfg e s0))
          (λ exists. Post-known _ (λ counted.
            rw (counted ∙ none_stored s0.users empty) (seed_first-HasAdmin username password))))

  prepare-HasAdmin :
      (host : Host)
      → is_empty cfg.admin_username ≡ false
      → is_empty cfg.admin_password ≡ false
      → Post e (SameUsers cfg e s0) (λ _. HasAdmin) (prepare host cfg)
  unfolding prepare
  prepare-HasAdmin host named secret =
      Post-bind (λ _. SameUsers cfg e s0) _ _
        (Post-Keeps _ (search (keeps_rules, open_store-Keeps)))
        (λ _.
          Post-bind (λ _. HasAdmin) _ _
            (Post-map_err no_seed _
              (seed_admin-HasAdmin cfg.admin_username cfg.admin_password named secret))
            (λ _. Post-Keeps _ (
              search
                (
                  keeps_rules, docker_keeps, new_client-Keeps, ensure_image-Keeps,
                  HasAdmin-invariant, HasAdmin-invariant.of_tables,
                )
                depth 12)))

-- A run from a table without accounts leaves an administrator, where the configuration names one
-- and has a password for it, and the start succeeds: whatever the requests, and whatever fails
-- after the start.
pub run-HasAdmin :
    (host : Host) (cfg : Config) (e : Env) (rs : List HttpRequest) (s : World)
    → s.users ≡ []
    → is_empty cfg.admin_username ≡ false
    → is_empty cfg.admin_password ≡ false
    → (start host (loaded cfg) e s).0 ≡ ok cfg
    → HasAdmin (run host (loaded cfg) e rs s)
unfolding run start configured ◌>>=◌ pure served
run-HasAdmin host cfg e rs s empty named secret started = rw started (
    serve_all-HasAdmin cfg e rs (prepare host cfg e s).1
      ((prepare-HasAdmin cfg e s empty host named secret).at s cfg refl started))
