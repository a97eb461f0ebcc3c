-- ===== src/Api/Admin.antt =====
-- The account management of backend/internal/api/admin.go.
pub mod Deletion
use overworld_ops.Base.{
  ℕ, Bool, true, false, not, ◌&&◌, leb, ltb, map, Option, none, some, Text, codes, text_eq,
  if◌then◌else◌,
}
use overworld_ops.Models.{User}
use overworld_ops.Models.Validate.{numbers}
use overworld_ops.System.{Act, pure, raise, ◌>>=◌, ◌>>◌, map_err, stop_if, act_when}
use overworld_ops.Store.Sql.{Error}
use overworld_ops.Store.Users.{
  create_user, user_by_id, list_users, count_admins, set_user_admin, set_user_password, delete_user,
  reassign_servers, Counts, count_of, server_counts_by_owner,
}
use overworld_ops.Api.Http.{
  Request, Response, Handler, Body, AdminUserView, reply, write_error, fails, decoded, user_json,
}
use overworld_ops.Api.Auth.{Credentials, valid_credentials, hash_password}

unfoldable pub admin_view : Counts → User → AdminUserView
unfolding count_of
admin_view counts u = record { user = user_json u; server_count = count_of u.id counts }

unfoldable pub handle_list_users : Handler
unfolding admin_view
handle_list_users = do
  l ← map_err (λ _. fails 500 "could not list users") list_users
  counts ← map_err (λ _. fails 500 "could not list users") server_counts_by_owner
  pure (reply 200 (Body.admin_users (map (admin_view counts) l)))

pub record CreateUserInput : Type 0 where
  pub credentials : Credentials
  pub is_admin : Bool

unfoldable pub handle_create_user : Option CreateUserInput → Handler
handle_create_user input = do
  given ← decoded input
  creds ← valid_credentials given.credentials
  hash ← hash_password creds.password (fails 500 "could not create account")
  u ← map_err (λ _. fails 409 "username is taken") (create_user creds.username hash given.is_admin)
  pure (reply 201 (Body.admin_user (record { user = user_json u; server_count = 0 })))

pub record UpdateUserInput : Type 0 where
  pub is_admin : Option Bool
  pub password : Option Text

unfoldable pub lookup_user_error : Error → Response
lookup_user_error Error.not_found = fails 404 "user not found"
lookup_user_error other = fails 500 "could not load user"

unfoldable pub lookup_user : Request → Act Response User
unfolding lookup_user_error
lookup_user req = map_err lookup_user_error (user_by_id req.id)

unfoldable pub ensure_another_admin : User → Act Response (Unit {0})
ensure_another_admin target = do
  admins ← map_err (λ _. fails 500 "could not verify admin count") count_admins
  stop_if (target.is_admin && leb admins 1) (fails 409 "there must be at least one admin")

-- `*in.IsAdmin != target.IsAdmin`
unfoldable pub differ : Bool → Bool → Bool
differ true b = not b
differ false b = b

-- The change of role, with the record as it is after it.
unfoldable pub set_role : User → User → Bool → Act Response User
unfolding ensure_another_admin text_eq
set_role actor target is_admin = do
  stop_if (text_eq target.id actor.id && not is_admin)
      (fails 409 "you cannot remove your own admin access")
  act_when (not is_admin) (ensure_another_admin target)
  map_err (λ _. fails 500 "could not update account") (set_user_admin target.id is_admin)
  pure (record target { is_admin = is_admin })

unfoldable pub change_role : User → User → Option Bool → Act Response User
unfolding set_role differ pure
change_role actor target none = pure target
change_role actor target (some is_admin) =
    if differ is_admin target.is_admin then set_role actor target is_admin else pure target

unfoldable pub change_password : User → Option Text → Act Response (Unit {0})
unfolding pure
change_password target none = pure tt
change_password target (some password) = do
  valid_credentials (record { username = target.username; password = password })
  hash ← hash_password password (fails 500 "could not update account")
  map_err (λ _. fails 500 "could not update account") (set_user_password target.id hash)

unfoldable pub handle_update_user : User → Request → Option UpdateUserInput → Handler
unfolding change_role change_password admin_view lookup_user
handle_update_user actor req input = do
  target ← lookup_user req
  given ← decoded input
  changed ← change_role actor target given.is_admin
  change_password changed given.password
  counts ← map_err (λ _. fails 500 "could not update account") server_counts_by_owner
  pure (reply 200 (Body.admin_user (admin_view counts changed)))

-- A target that still owns servers: refused, or relieved of them.
unfoldable pub release_servers : User → User → ℕ → Bool → Act Response (Unit {0})
unfolding raise pure
release_servers actor target owned reassign = act_when (ltb 0 owned) (do
  stop_if (not reassign) (
      write_error 409 (
        numbers "this account still owns " owned
          " server(s) — delete them first, or reassign them to yourself"))
  map_err (λ _. fails 500 "could not reassign servers") (reassign_servers target.id actor.id)
  pure tt)

-- `handleDeleteUser` once the target is known
unfoldable pub delete_target : User → Request → User → Handler
unfolding ensure_another_admin release_servers text_eq codes count_of
delete_target actor req target = do
  stop_if (text_eq target.id actor.id) (fails 409 "you cannot delete your own account")
  act_when target.is_admin (ensure_another_admin target)
  counts ← map_err (λ _. fails 500 "could not delete account") server_counts_by_owner
  release_servers actor target (count_of target.id counts)
      (text_eq (req.query (codes "reassign")) (codes "true"))
  map_err (λ _. fails 500 "could not delete account") (delete_user target.id)
  pure (reply 204 Body.nothing)

unfoldable pub handle_delete_user : User → Request → Handler
unfolding lookup_user delete_target
handle_delete_user actor req = do target ← lookup_user req; delete_target actor req target
