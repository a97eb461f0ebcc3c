-- ===== src/Store/Valid/Invariant.antt =====
-- Every statement keeps the registry well formed.
use overworld_ops.Base.{refl}
use overworld_ops.System.{sent}
use overworld_ops.Store.Keeps.{FullInvariant}
use overworld_ops.Store.Valid.{IsValid, IsValid-OfTables}
use overworld_ops.Store.Valid.Users.{
  insert_user-IsValid, update_user-IsValid, delete_user_row-IsValid,
}
use overworld_ops.Store.Valid.Servers.{
  update_server_row-IsValid, set_owner-IsValid, delete_server_row-IsValid, insert_server-IsValid,
}

pub IsValid-invariant : FullInvariant IsValid (λ v. Unit)
unfolding sent
IsValid-invariant = record {
  tables = record {
    of_tables = IsValid-OfTables;
    insert_user_ok = insert_user-IsValid;
    update_user_ok = λ id f same_id same_name _. update_user-IsValid id f same_id same_name;
    update_server_ok = update_server_row-IsValid;
    set_owner_ok = set_owner-IsValid;
    delete_server_ok = delete_server_row-IsValid;
  };
  roles = record {
    set_role_ok = λ id b. update_user-IsValid id _ (λ u. refl) (λ u. refl);
    delete_user_ok = delete_user_row-IsValid;
  };
  insert_server_ok = λ v _. insert_server-IsValid v;
  erase_ok = λ name s h. record {
    user_ids = h.user_ids;
    usernames = h.usernames;
    server_ids = h.server_ids;
    ports = h.ports;
    owners = h.owners;
  };
}
