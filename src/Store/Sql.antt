-- ===== src/Store/Sql.antt =====
-- The schema of backend/internal/store/sqlite.go and the statements that its methods execute.
--
-- A statement that fails, for whatever reason, changes nothing, as SQLite promises. The
-- constraints are those of the schema: a primary key and UNIQUE on `users.username` and
-- `servers.port`, and the foreign key `servers.owner_id` with ON DELETE CASCADE (the connection
-- sets `foreign_keys(ON)`).
use overworld_ops.Base.{
  ℕ, String, ◌==◌, Bool, true, false, ◌&&◌, [], ◌∷◌, ◌++◌, none, some, Text, codes, text_eq,
  contains, if◌then◌else◌, ltb, count_where, update_where, delete_where, Option,
}
use overworld_ops.Models.{User, Server}
use overworld_ops.System.{Result, ok, err, World, Act, pure, raise, ask, ticked}

pub data SqlError : Type 0 where
  unique_failed : Text → SqlError
  foreign_key_failed : SqlError
  driver : Text → SqlError

-- What a method of `Store` returns: one of the two sentinels, or the error that it wraps.
pub data Error : Type 0 where
  not_found port_taken : Error
  failed : String → SqlError → Error

-- `isUniqueViolation`; the text of a `unique_failed` has the phrase in it
unfoldable pub is_unique_violation : SqlError → Bool
unfolding contains codes
is_unique_violation (unique_failed column) = true
is_unique_violation foreign_key_failed = false
is_unique_violation (driver message) = contains message (codes "UNIQUE constraint failed")

abbrev pub Statement : Type 0 → Type 0
Statement A = World → Result SqlError (A × World)

abbrev pub settled : {A : Type 0} → Result SqlError (A × World) → World → Result SqlError A × World
settled (ok (a, t)) s = (ok a, ticked t)
settled (err x) s = (err x, ticked s)

-- Runs a statement, unless the driver fails it.
abbrev pub exec_with :
    {A : Type 0} → Option Text → Result SqlError (A × World) → World → Result SqlError A × World
exec_with (some message) r s = (err (driver message), ticked s)
exec_with none r s = settled r s

unfoldable pub exec : {A : Type 0} → Statement A → Act SqlError A
exec statement e s = exec_with (e.driver_fault s.ticks) (statement s) s

-- `time.Now().UTC()` and `uuid.NewString()`
unfoldable pub time_now : {E : Type 0} → Act E ℕ
unfolding ask
time_now = ask (λ e n. e.clock n)

unfoldable pub new_uuid : {E : Type 0} → Act E Text
unfolding ask
new_uuid = ask (λ e n. e.uuid n)

-- `if n, _ := res.RowsAffected(); n == 0 { return ErrNotFound }`
unfoldable pub require_row : ℕ → Act Error (Unit {0})
unfolding pure raise
require_row n = if n == 0 then raise not_found else pure tt

abbrev pub has_user_id : Text → User → Bool
has_user_id k u = text_eq u.id k

abbrev pub has_username : Text → User → Bool
has_username k u = text_eq u.username k

abbrev pub has_id : Text → Server → Bool
has_id k s = text_eq s.id k

abbrev pub has_port : ℕ → Server → Bool
has_port p s = s.port == p

abbrev pub has_owner : Text → Server → Bool
has_owner k s = text_eq s.owner_id k

-- A read returns what it finds and changes nothing.
unfoldable pub query : {A : Type 0} → (World → A) → Statement A
query f s = ok (f s, s)

-- INSERT INTO users
unfoldable pub insert_user : User → Statement (Unit {0})
unfolding codes
insert_user u s =
    if ltb 0 (count_where (has_user_id u.id) s.users)
    then err (unique_failed (codes "users.id"))
    else if ltb 0 (count_where (has_username u.username) s.users)
    then err (unique_failed (codes "users.username"))
    else ok (tt, record s { users = s.users ++ u ∷ [] })

-- UPDATE users SET f WHERE id = ?, with the rows affected; f sets no key
unfoldable pub update_user : Text → (User → User) → Statement ℕ
update_user id f s = ok (
  count_where (has_user_id id) s.users,
  record s { users = update_where (has_user_id id) f s.users },
)

-- DELETE FROM users WHERE id = ?, and the servers that go with the rows
unfoldable pub delete_user_row : Text → Statement ℕ
delete_user_row id s = ok (
  count_where (has_user_id id) s.users,
  record s {
    users = delete_where (has_user_id id) s.users;
    servers = delete_where (has_owner id) s.servers;
  },
)

-- INSERT INTO servers
unfoldable pub insert_server : Server → Statement (Unit {0})
unfolding codes
insert_server v s =
    if ltb 0 (count_where (has_id v.id) s.servers)
    then err (unique_failed (codes "servers.id"))
    else if ltb 0 (count_where (has_port v.port) s.servers)
    then err (unique_failed (codes "servers.port"))
    else if count_where (has_user_id v.owner_id) s.users == 0
    then err foreign_key_failed
    else ok (tt, record s { servers = s.servers ++ v ∷ [] })

-- UPDATE servers SET f WHERE id = ?; f sets no key and no owner
unfoldable pub update_server_row : Text → (Server → Server) → Statement ℕ
update_server_row id f s =
    ok (
      count_where (has_id id) s.servers,
      record s { servers = update_where (has_id id) f s.servers },
    )

-- UPDATE servers SET owner_id = ?, updated_at = ? WHERE owner_id = ?
unfoldable pub set_owner : Text → Text → ℕ → Statement ℕ
set_owner from to now s =
    let moved = count_where (has_owner from) s.servers in
    if ltb 0 moved && (count_where (has_user_id to) s.users == 0)
    then err foreign_key_failed
    else ok (
      moved,
      record s {
        servers =
            update_where (has_owner from) (λ v. record v { owner_id = to; updated_at = now })
              s.servers;
      },
    )

-- DELETE FROM servers WHERE id = ?
unfoldable pub delete_server_row : Text → Statement ℕ
delete_server_row id s =
    ok
      (count_where (has_id id) s.servers, record s { servers = delete_where (has_id id) s.servers })
