-- ===== src/Store/Users.antt =====
-- The methods of `Store` on accounts, in backend/internal/store/sqlite.go.
use overworld_ops.Base.{
  ℕ, ◌+◌, Bool, true, List, [], ◌∷◌, Option, none, some, Text, text_eq, ltb, leb, if◌then◌else◌,
  count_where, first_where,
}
use overworld_ops.Models.{User, Server}
use overworld_ops.System.{Act, pure, raise, ◌>>=◌, ◌>>◌, map_err}
use overworld_ops.Store.Sql.{
  Error, not_found, failed, exec, query, time_now, new_uuid, require_row, has_user_id, has_username,
  insert_user, update_user, delete_user_row, set_owner,
}

unfoldable pub create_user : Text → Text → Bool → Act Error User
create_user username password_hash is_admin = do
  id ← new_uuid
  now ← time_now
  let u : User = record {
    id = id;
    username = username;
    password_hash = password_hash;
    is_admin = is_admin;
    created_at = now;
  }
  map_err (failed "insert user") (exec (insert_user u))
  pure u

-- `scanUser` turns the absence of a row into `ErrNotFound`.
unfoldable pub scan_user : Option User → Act Error User
unfolding pure raise
scan_user none = raise not_found
scan_user (some u) = pure u

unfoldable pub user_by_username : Text → Act Error User
user_by_username username = do
  row ←
      map_err (failed "scan user") (exec (query (λ s. first_where (has_username username) s.users)))
  scan_user row

unfoldable pub user_by_id : Text → Act Error User
user_by_id id = do
  row ← map_err (failed "scan user") (exec (query (λ s. first_where (has_user_id id) s.users)))
  scan_user row

unfoldable pub any_user_exists : Act Error Bool
any_user_exists = do
  n ← map_err (failed "count users") (exec (query (λ s. count_where (λ u. true) s.users)))
  pure (ltb 0 n)

-- ORDER BY created_at; rows of one instant stay in the order of the table
unfoldable pub insert_by_age : User → List User → List User
insert_by_age u [] = u ∷ []
insert_by_age u (v ∷ l) = if leb u.created_at v.created_at then u ∷ v ∷ l else v ∷ insert_by_age u l

unfoldable pub by_age : List User → List User
unfolding insert_by_age
by_age [] = []
by_age (u ∷ l) = insert_by_age u (by_age l)

unfoldable pub list_users : Act Error (List User)
list_users = map_err (failed "query users") (exec (query (λ s. by_age s.users)))

unfoldable pub count_admins : Act Error ℕ
count_admins =
    map_err (failed "count admins") (exec (query (λ s. count_where (λ u. u.is_admin) s.users)))

unfoldable pub set_user_admin : Text → Bool → Act Error (Unit {0})
set_user_admin id is_admin = do
  n ←
      map_err (failed "set user admin")
        (exec (update_user id (λ u. record u { is_admin = is_admin })))
  require_row n

unfoldable pub set_user_password : Text → Text → Act Error (Unit {0})
set_user_password id password_hash = do
  n ←
      map_err (failed "set user password")
        (exec (update_user id (λ u. record u { password_hash = password_hash })))
  require_row n

unfoldable pub delete_user : Text → Act Error (Unit {0})
delete_user id = do n ← map_err (failed "delete user") (exec (delete_user_row id)); require_row n

unfoldable pub reassign_servers : Text → Text → Act Error ℕ
reassign_servers from to = do
  now ← time_now
  map_err (failed "reassign servers") (exec (set_owner from to now))

-- `map[string]int`
abbrev pub Counts : Type 0
Counts = List (Text × ℕ)

-- `counts[owner]`, zero for an owner who is not in the map
unfoldable pub count_of : Text → Counts → ℕ
count_of k [] = 0
count_of k ((j, n) ∷ m) = if text_eq j k then n else count_of k m

-- SELECT owner_id, COUNT(*) FROM servers GROUP BY owner_id
unfoldable pub tally : Text → Counts → Counts
tally k [] = (k, 1) ∷ []
tally k ((j, n) ∷ m) = if text_eq j k then (j, n + 1) ∷ m else (j, n) ∷ tally k m

unfoldable pub group_by_owner : List Server → Counts
unfolding tally
group_by_owner [] = []
group_by_owner (v ∷ l) = tally v.owner_id (group_by_owner l)

-- `counts[owner] = n`
unfoldable pub set_count : Text → ℕ → Counts → Counts
set_count k n [] = (k, n) ∷ []
set_count k n ((j, c) ∷ m) = if text_eq j k then (k, n) ∷ m else (j, c) ∷ set_count k n m

-- The loop over the rows of the query.
unfoldable pub fill_counts : Counts → Counts → Counts
unfolding set_count
fill_counts [] counts = counts
fill_counts ((owner, n) ∷ rows) counts = fill_counts rows (set_count owner n counts)

unfoldable pub server_counts_by_owner : Act Error Counts
unfolding group_by_owner fill_counts pure
server_counts_by_owner = do
  rows ← map_err (failed "count servers by owner") (exec (query (λ s. group_by_owner s.servers)))
  pure (fill_counts rows [])
