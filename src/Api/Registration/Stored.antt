-- ===== src/Api/Registration/Stored.antt =====
-- An account that `handleRegister` creates is in the table.
use overworld_ops.Base.{
  refl, none, some, [], ◌∷◌, ◌++◌, true, first_where, count_where, Option, Text, Bool, ◌≡◌, List,
  arith, ℕ, Bool-cases, suc, ltb, inl, inr, ap, sym, text_eq_refl,
}
use overworld_ops.Models.{User}
use overworld_ops.Store.Sql.{
  insert_user, exec, new_uuid, has_user_id, exec_with, SqlError, time_now, Error, failed,
  has_username,
}
use overworld_ops.System.{map_err, World, Env, ask, ok, ticked, Act, err, pure, ◌>>=◌}
use overworld_ops.Store.Users.{create_user}
use overworld_ops.System.Binds.{or_else-eq-ok, bind-ok, ok-injective, bind-eq-ok}

first_where-append_new :
    (p : User → Bool) (l : List User) (u : User)
    → count_where p l ≡ 0
    → p u ≡ true
    → first_where p (l ++ u ∷ []) ≡ some u
unfolding first_where count_where
first_where-append_new p [] u none_yet h = rw h refl
first_where-append_new p (v ∷ l) u none_yet h = ground (arith, first_where-append_new p l u)

record IsInserted (u : User) (s t : World) : Type 0 where
  pub new_id : count_where (has_user_id u.id) s.users ≡ 0
  pub users : t.users ≡ s.users ++ u ∷ []

inserted :
    (fault : Option Text) (u : User) (s : World) (a : Unit {0})
    → (exec_with fault (insert_user u s) s).0 ≡ ok a
    → IsInserted u s (exec_with fault (insert_user u s) s).1
unfolding insert_user
inserted (some m) u s a h = absurd cc
inserted none u s a h = elim (Bool-cases (ltb 0 (count_where (has_user_id u.id) s.users))) [
  | inl taken ↦ let q : err _ ≡ ok a = rw taken at h in absurd cc
  | inr fresh ↦ elim (Bool-cases (ltb 0 (count_where (has_username u.username) s.users))) [
    | inl named ↦ let q : err _ ≡ ok a = rw (fresh, named) at h in absurd cc
    | inr unnamed ↦ rw (fresh, unnamed) (record { new_id = ground arith; users = refl })
  ]
]

insert_user-ok :
    (f : SqlError → Error) (u : User) (e : Env) (s : World) (a : Unit {0})
    → (map_err f (exec (insert_user u)) e s).0 ≡ ok a
    → IsInserted u s (map_err f (exec (insert_user u)) e s).1
unfolding map_err exec
insert_user-ok f u e s a h =
    inserted (e.driver_fault s.ticks) u s a
      (or_else-eq-ok f (exec_with (e.driver_fault s.ticks) (insert_user u s) s).0 a h)

-- What `CreateUser` returns is what the table then has under its ID.
pub record IsStored (u : User) (name : Text) (role : Bool) (e : Env) (t : World) : Type 0 where
  pub username : u.username ≡ name
  pub is_admin : u.is_admin ≡ role
  pub moment : ℕ
  pub id : u.id ≡ e.uuid moment
  pub found : first_where (has_user_id u.id) t.users ≡ some u

stored_row :
    (v : User) (e : Env) (s : World) (u : User)
    → ((map_err (failed "insert user") (exec (insert_user v)) >>= λ _. pure v) e s).0 ≡ ok u
    → (v ≡ u)
      × (first_where
            (has_user_id v.id)
            ((map_err (failed "insert user") (exec (insert_user v)) >>= λ _. pure v) e s).1.users
          ≡ some v)
unfolding pure
stored_row v e s u h =
    let insert : Act Error (Unit {0}) = map_err (failed "insert user") (exec (insert_user v)) in
    let (a, done, returned) = bind-ok insert (λ _. pure v) e s u h in
    let new = insert_user-ok (failed "insert user") v e s a done in
    (
      ok-injective v u returned,
      rw (bind-eq-ok insert (λ _. pure v) e s a done) (
          rw new.users
            (first_where-append_new (has_user_id v.id) s.users v new.new_id (text_eq_refl v.id))),
    )

pub create_user-IsStored :
    (name hash : Text) (role : Bool) (e : Env) (s : World) (u : User)
    → (create_user name hash role e s).0 ≡ ok u
    → IsStored u name role e (create_user name hash role e s).1
unfolding create_user new_uuid time_now ask ◌>>=◌
create_user-IsStored name hash role e s u h =
    let v : User = record {
      id = e.uuid s.ticks;
      username = name;
      password_hash = hash;
      is_admin = role;
      created_at = e.clock (suc s.ticks);
    } in
    let (same, found) = stored_row v e (ticked (ticked s)) u h in
    record {
      username = ap (λ (x : User). x.username) (sym same);
      is_admin = ap (λ (x : User). x.is_admin) (sym same);
      moment = s.ticks;
      id = ap (λ (x : User). x.id) (sym same);
      found = rw (← same) found;
    }
