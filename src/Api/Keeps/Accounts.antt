-- ===== src/Api/Keeps/Accounts.antt =====
-- The account handlers keep an invariant of the tables.
use overworld_ops.Base.{none, some, Option, Text, ℕ, Bool, text_eq, ◌&&◌, ◌≡◌, not, false}
use overworld_ops.System.{Result, ok, err, World}
use overworld_ops.System.Keeps.{Keeps, OfTables, Keeps-ask, keeps_rules, Keeps-guarded}
use overworld_ops.Store.Keeps.{TableInvariant, Preserves}
use overworld_ops.Store.Methods.{store_keeps, delete_user-Keeps, set_user_admin-Keeps}
use overworld_ops.Store.Sql.{Error, update_user, delete_user_row}
use overworld_ops.Api.Http.{Request, Response}
use overworld_ops.Api.Admin.{
  change_role, handle_list_users, handle_create_user, lookup_user, ensure_another_admin,
  change_password, handle_update_user, release_servers, handle_delete_user, CreateUserInput,
  UpdateUserInput, set_role, delete_target,
}
use overworld_ops.Api.Keeps.{shared_keeps, User, Config, Option, Text, Bool}
use overworld_ops.Models.{User}
use overworld_ops.Api.Auth.{
  or_respond, require_auth, require_admin, accepted, valid_credentials, some_or, hash_password,
  handle_register, matches, known_user, handle_login, handle_logout, handle_me, hash_or_fail,
  seed_admin, Credentials, validate_credentials,
}
use overworld_ops.Config.{Config}
use overworld_ops.Models.Validate.{Message}

-- A change of role other than the actor's own demotion keeps the invariant.
abbrev pub RoleSafe : (World → Type 0) → User → Type 0
RoleSafe P actor =
    (id : Text) (b : Bool)
    → (text_eq id actor.id && not b) ≡ false
    → Preserves P (update_user id (λ (u : User). record u { is_admin = b }))

-- So does the deletion of another account.
abbrev pub DeleteSafe : (World → Type 0) → User → Type 0
DeleteSafe P actor = (id : Text) → text_eq id actor.id ≡ false → Preserves P (delete_user_row id)

module _ {P : World → Type 0} (inv : TableInvariant P) where
  tables : OfTables P
  tables = inv.of_tables

  or_respond-Keeps : {E A : Type 0} (x : Response) (r : Result E A) → Keeps P (or_respond x r)
  unfolding or_respond
  or_respond-Keeps x (ok a) = search keeps_rules
  or_respond-Keeps x (err y) = search keeps_rules

  pub require_auth-Keeps : (cfg : Config) (req : Request) → Keeps P (require_auth cfg req)
  unfolding require_auth
  require_auth-Keeps cfg req =
      search (keeps_rules, shared_keeps, store_keeps, or_respond-Keeps, inv) depth 12

  pub require_admin-Keeps : (cfg : Config) (req : Request) → Keeps P (require_admin cfg req)
  unfolding require_admin
  require_admin-Keeps cfg req = search (keeps_rules, require_auth-Keeps) depth 8

  accepted-Keeps : (c : Credentials) (o : Option Message) → Keeps P (accepted c o)
  unfolding accepted
  accepted-Keeps c none = search keeps_rules
  accepted-Keeps c (some m) = search keeps_rules

  valid_credentials-Keeps : (c : Credentials) → Keeps P (valid_credentials c)
  unfolding valid_credentials
  valid_credentials-Keeps c = accepted-Keeps c (validate_credentials c)

  some_or-Keeps : {A : Type 0} (x : Response) (o : Option A) → Keeps P (some_or x o)
  unfolding some_or
  some_or-Keeps x none = search keeps_rules
  some_or-Keeps x (some a) = search keeps_rules

  hash_password-Keeps : (password : Text) (x : Response) → Keeps P (hash_password password x)
  unfolding hash_password
  hash_password-Keeps password x = search (keeps_rules, Keeps-ask, some_or-Keeps, tables)

  pub handle_register-Keeps :
      (cfg : Config) (input : Option Credentials) → Keeps P (handle_register cfg input)
  unfolding handle_register
  handle_register-Keeps cfg input =
      search
        (keeps_rules, shared_keeps, store_keeps, valid_credentials-Keeps, hash_password-Keeps, inv)
        depth 16

  matches-Keeps : {E : Type 0} (hash password : Text) → Keeps P (matches {E = E} hash password)
  unfolding matches
  matches-Keeps hash password = search (Keeps-ask, tables)

  known_user-Keeps : (password : Text) (r : Result Error User) → Keeps P (known_user password r)
  unfolding known_user
  known_user-Keeps password (ok u) = search keeps_rules
  known_user-Keeps password (err x) = search (keeps_rules, matches-Keeps) depth 8

  pub handle_login-Keeps :
      (cfg : Config) (input : Option Credentials) → Keeps P (handle_login cfg input)
  unfolding handle_login
  handle_login-Keeps cfg input =
      search (keeps_rules, shared_keeps, store_keeps, known_user-Keeps, matches-Keeps, inv) depth 14

  pub handle_logout-Keeps : (cfg : Config) → Keeps P (handle_logout cfg)
  unfolding handle_logout
  handle_logout-Keeps cfg = search keeps_rules

  pub handle_me-Keeps : (u : User) → Keeps P (handle_me u)
  unfolding handle_me
  handle_me-Keeps u = search keeps_rules

  hash_or_fail-Keeps : (o : Option Text) → Keeps P (hash_or_fail o)
  unfolding hash_or_fail
  hash_or_fail-Keeps none = search keeps_rules
  hash_or_fail-Keeps (some h) = search keeps_rules

  pub seed_admin-Keeps : (username password : Text) → Keeps P (seed_admin username password)
  unfolding seed_admin
  seed_admin-Keeps username password =
      search (keeps_rules, Keeps-ask, store_keeps, hash_or_fail-Keeps, tables, inv) depth 14

  pub handle_list_users-Keeps : Keeps P handle_list_users
  unfolding handle_list_users
  handle_list_users-Keeps = search (keeps_rules, store_keeps, inv) depth 12

  pub handle_create_user-Keeps :
      (input : Option CreateUserInput) → Keeps P (handle_create_user input)
  unfolding handle_create_user
  handle_create_user-Keeps input =
      search
        (keeps_rules, shared_keeps, store_keeps, valid_credentials-Keeps, hash_password-Keeps, inv)
        depth 14

  pub lookup_user-Keeps : (req : Request) → Keeps P (lookup_user req)
  unfolding lookup_user
  lookup_user-Keeps req = search (keeps_rules, store_keeps, inv) depth 8

  ensure_another_admin-Keeps : (target : User) → Keeps P (ensure_another_admin target)
  unfolding ensure_another_admin
  ensure_another_admin-Keeps target = search (keeps_rules, store_keeps, inv) depth 8

  set_role-Keeps :
      (actor target : User) (b : Bool) → RoleSafe P actor → Keeps P (set_role actor target b)
  unfolding set_role
  set_role-Keeps actor target b safe =
      Keeps-guarded (text_eq target.id actor.id && not b) _ _ (λ other.
        let write = set_user_admin-Keeps tables target.id b (safe target.id b other) in
        search (keeps_rules, ensure_another_admin-Keeps) depth 12)

  change_role-Keeps :
      (actor target : User) (given : Option Bool)
      → RoleSafe P actor
      → Keeps P (change_role actor target given)
  unfolding change_role
  change_role-Keeps actor target none safe = search keeps_rules
  change_role-Keeps actor target (some b) safe = search (keeps_rules, set_role-Keeps) depth 8

  change_password-Keeps :
      (target : User) (password : Option Text) → Keeps P (change_password target password)
  unfolding change_password
  change_password-Keeps target none = search keeps_rules
  change_password-Keeps target (some password) =
      search (keeps_rules, store_keeps, valid_credentials-Keeps, hash_password-Keeps, inv) depth 12

  pub handle_update_user-Keeps :
      (actor : User) (req : Request) (input : Option UpdateUserInput)
      → RoleSafe P actor
      → Keeps P (handle_update_user actor req input)
  unfolding handle_update_user
  handle_update_user-Keeps actor req input safe =
      let role =
        λ (target : User) (given : Option Bool). change_role-Keeps actor target given safe in
      search (keeps_rules, shared_keeps, store_keeps, lookup_user-Keeps, change_password-Keeps, inv)
        depth 14

  release_servers-Keeps :
      (actor target : User) (owned : ℕ) (reassign : Bool)
      → Keeps P (release_servers actor target owned reassign)
  unfolding release_servers
  release_servers-Keeps actor target owned reassign =
      search (keeps_rules, store_keeps, inv) depth 12

  delete_target-Keeps :
      (actor : User) (req : Request) (target : User)
      → DeleteSafe P actor
      → Keeps P (delete_target actor req target)
  unfolding delete_target
  delete_target-Keeps actor req target safe =
      Keeps-guarded (text_eq target.id actor.id) _ _ (λ other.
        let write = delete_user-Keeps tables target.id (safe target.id other) in
        search (keeps_rules, store_keeps, ensure_another_admin-Keeps, release_servers-Keeps, inv)
          depth 14)

  pub handle_delete_user-Keeps :
      (actor : User) (req : Request) → DeleteSafe P actor → Keeps P (handle_delete_user actor req)
  unfolding handle_delete_user
  handle_delete_user-Keeps actor req safe =
      search (keeps_rules, lookup_user-Keeps, delete_target-Keeps) depth 8
