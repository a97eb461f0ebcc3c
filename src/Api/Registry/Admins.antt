-- ===== src/Api/Registry/Admins.antt =====
-- An account with the administrator's role is left at any time.
use overworld_ops.Base.{
  true, false, Bool, inl, inr, Text, ◌&&◌, ◌<◌, text_eq, ◌≡◌, count_where, not, arith,
  eq_of_text_eq, count-le-update, Bool-cases, count-delete_disjoint, count-append_one, count-update,
  first_where, count_mono, List, some, ◌∷◌, text_eq_refl, ◌∙◌, [], ap, refl,
}
use overworld_ops.System.{World, sent, stop_if, ◌>>=◌, Env, pure, ok, raise}
use overworld_ops.Store.Sql.{
  update_user, update_server_row, delete_user_row, delete_server_row, has_user_id,
}
use overworld_ops.Models.{User}
use overworld_ops.Api.Keeps.Accounts.{
  RoleSafe, DeleteSafe, handle_update_user-Keeps, handle_delete_user-Keeps,
}
use overworld_ops.Store.Keeps.{
  TableInvariant, Preserves-insert_user, Preserves-set_owner, Preserves-insert_server,
}
use overworld_ops.System.Keeps.{Erases, Keeps}
use overworld_ops.Api.Auth.{require_admin, require_auth}
use overworld_ops.Config.{Config}
use overworld_ops.Api.Http.{Request, Handler, Response}
use overworld_ops.Api.Routes.{Payload, HttpRequest, serve_all}
use overworld_ops.Api.Gate.Identity.{require_auth-IsGood}
use overworld_ops.Api.Keeps.Endpoints.{Special, serve_all-Keeps, all_special, request_of}
use overworld_ops.Api.Gate.Quiet.{require_admin-Unchanged, Unchanged-refl}
use overworld_ops.Api.Keeps.Servers.{handle_create_server-Keeps, handle_delete_server-Keeps}
use overworld_ops.System.Binds.{bind-ok, Result-cases, bind-eq-ok, bind-eq-err}

abbrev is_admin_with : Text → User → Bool
is_admin_with id u = u.is_admin && text_eq u.id id

abbrev pub HasAdmin : World → Type 0
HasAdmin s = 0 < count_where (λ u. u.is_admin) s.users

-- The account with that ID is one.
abbrev pub StillAdmin : Text → World → Type 0
StillAdmin id s = 0 < count_where (is_admin_with id) s.users

pub HasAdmin-invariant : TableInvariant HasAdmin
unfolding update_user update_server_row delete_server_row sent
HasAdmin-invariant = record {
  of_tables = record { ticked_ok = λ s h. h; sent_ok = λ c s _ h. h };
  insert_user_ok = λ u.
      Preserves-insert_user u (λ s h. omega (arith, count-append_one (λ x. x.is_admin) s.users u));
  update_user_ok = λ id f _ _ same_role. record {
    at = λ s h.
        omega (arith, count-update (λ x. x.is_admin) (has_user_id id) f s.users (λ u. same_role u));
  };
  update_server_ok = λ id f _ _ _. record { at = λ s h. h };
  set_owner_ok = λ from to now. Preserves-set_owner from to now (λ s h. h);
  delete_server_ok = λ id. record { at = λ s h. h };
}

module _ (id : Text) where
  StillAdmin-invariant : TableInvariant (StillAdmin id)
  unfolding update_user update_server_row delete_server_row sent
  StillAdmin-invariant = record {
    of_tables = record { ticked_ok = λ s h. h; sent_ok = λ c s _ h. h };
    insert_user_ok = λ u.
        Preserves-insert_user u
          (λ s h. omega (arith, count-append_one (is_admin_with id) s.users u));
    update_user_ok = λ k f same_id _ same_role. record {
      at = λ s h. omega (
        arith,
        count-update (is_admin_with id) (has_user_id k) f s.users
            (λ u. rw (same_id u, same_role u)),
      );
    };
    update_server_ok = λ k f _ _ _. record { at = λ s h. h };
    set_owner_ok = λ from to now. Preserves-set_owner from to now (λ s h. h);
    delete_server_ok = λ k. record { at = λ s h. h };
  }

-- The actor keeps the role whatever is done to another account.
module _ (actor : User) where
  still_role :
      (k : Text) (b : Bool) (u : User)
      → (text_eq k actor.id && not b) ≡ false
      → text_eq u.id k ≡ true
      → is_admin_with actor.id u ≡ true
      → is_admin_with actor.id (record u { is_admin = b }) ≡ true
  still_role k true u other same h = ground arith
  still_role k false u other same h =
      let e : u.id ≡ k = eq_of_text_eq u.id k same in
      let away : text_eq u.id actor.id ≡ false = rw e (ground arith) in ground arith

  role-StillAdmin : RoleSafe (StillAdmin actor.id) actor
  unfolding update_user
  role-StillAdmin k b other = record {
    at = λ s h. omega (
      arith,
      count-le-update (is_admin_with actor.id) (has_user_id k)
          (λ (u : User). record u { is_admin = b }) s.users (λ u. still_role k b u other),
    );
  }

  not_deleted :
      (k : Text) (u : User)
      → text_eq k actor.id ≡ false
      → is_admin_with actor.id u ≡ true
      → text_eq u.id k ≡ false
  not_deleted k u other h = elim (Bool-cases (text_eq u.id k)) [
    | inl same ↦
        let e : u.id ≡ k = eq_of_text_eq u.id k same in
        let away : text_eq u.id actor.id ≡ false = rw e other in ground arith
    | inr differ ↦ differ
  ]

  delete-StillAdmin : DeleteSafe (StillAdmin actor.id) actor
  unfolding delete_user_row
  delete-StillAdmin k other = record {
    at = λ s h. omega (
      arith,
      count-delete_disjoint (is_admin_with actor.id) (has_user_id k) s.users
          (λ u. not_deleted k u other),
    );
  }

guarded-ok :
    (b : Bool) (x : Response) (v u : User) (e : Env) (s : World)
    → ((stop_if b x >>= λ _. pure v) e s).0 ≡ ok u
    → (b ≡ false) × (v ≡ u)
unfolding stop_if ◌>>=◌ pure raise
guarded-ok true x v u e s h = absurd cc
guarded-ok false x v u e s h = (refl, ground arith)

erased_lem : (name : Text) → Erases HasAdmin name
unfolding sent
erased_lem name s h = h

-- The account that `requireAdmin` hands on is stored with the role.
require_admin-ok :
    (cfg : Config) (req : Request) (e : Env) (s : World) (u : User)
    → (require_admin cfg req e s).0 ≡ ok u
    → ((require_auth cfg req e s).0 ≡ ok u) × (u.is_admin ≡ true)
unfolding require_admin
require_admin-ok cfg req e s u h =
    let (v, known, rest) = bind-ok (require_auth cfg req) _ e s u h in
    let (role, same) = guarded-ok (not v.is_admin) _ v u e (require_auth cfg req e s).1 rest in
    (known ∙ ap ok same, rw (← same) (ground arith))

pub first-StillAdmin :
    (id : Text) (u : User) (l : List User)
    → first_where (has_user_id id) l ≡ some u
    → u.is_admin ≡ true
    → 0 < count_where (is_admin_with u.id) l
unfolding first_where count_where
first-StillAdmin id u [] h role = absurd cc
first-StillAdmin id u (v ∷ l) h role = elim (Bool-cases (text_eq v.id id)) [
  | inl same ↦
      let found : some v ≡ some u = rw same at h in
      let e : v ≡ u = ground arith in rw e (rw (role, text_eq_refl u.id) (omega arith))
  | inr other ↦
      let found : first_where (has_user_id id) l ≡ some u = rw other at h in
      omega (arith, first-StillAdmin id u l found role)
]

require_admin-StillAdmin :
    (cfg : Config) (req : Request) (e : Env) (s : World) (u : User)
    → (require_admin cfg req e s).0 ≡ ok u
    → StillAdmin u.id (require_admin cfg req e s).1
require_admin-StillAdmin cfg req e s u h =
    let (known, role) = require_admin-ok cfg req e s u h in
    let (id, good, stored) = require_auth-IsGood cfg req e s u known in
    let quiet = (require_admin-Unchanged s cfg req).at e s (Unchanged-refl s) in
    rw quiet.users (first-StillAdmin id u s.users stored role)

pub StillAdmin-HasAdmin : (id : Text) (s : World) → StillAdmin id s → HasAdmin s
StillAdmin-HasAdmin id s h =
    omega (arith, count_mono (is_admin_with id) (λ u. u.is_admin) s.users (λ u k. ground arith))

-- Behind `requireAdmin`, it is enough that the actor keeps the role.
as_admin-HasAdmin :
    (cfg : Config) (req : Request) (next : User → Handler)
    → ((u : User) → Keeps (StillAdmin u.id) (next u))
    → Keeps HasAdmin (require_admin cfg req >>= next)
as_admin-HasAdmin cfg req next kept = record {
  at = λ e s h. elim (Result-cases (require_admin cfg req e s).0) [
    | inl (u, known) ↦ rw (bind-eq-ok (require_admin cfg req) next e s u known) (
        StillAdmin-HasAdmin u.id (next u e (require_admin cfg req e s).1).1
          ((kept u).at e _ (require_admin-StillAdmin cfg req e s u known)))
    | inr (r, refused) ↦
        rw (bind-eq-err (require_admin cfg req) next e s r refused)
          (rw ((require_admin-Unchanged s cfg req).at e s (Unchanged-refl s)).users h)
  ];
}

special : (cfg : Config) (req : Request) (payload : Payload) → Special HasAdmin cfg req payload
special cfg req payload = record {
  create_ok = λ u.
      handle_create_server-Keeps HasAdmin-invariant cfg
        (λ v _. Preserves-insert_server v (λ s h. h)) u payload.new_server;
  delete_ok =
      λ u. handle_delete_server-Keeps HasAdmin-invariant u req (λ _ name s h. erased_lem name s h);
  update_user_ok = as_admin-HasAdmin cfg req _ (λ u.
      handle_update_user-Keeps (StillAdmin-invariant u.id) u req payload.user_change
        (role-StillAdmin u));
  delete_user_ok =
      as_admin-HasAdmin cfg req _
        (λ u. handle_delete_user-Keeps (StillAdmin-invariant u.id) u req (delete-StillAdmin u));
}

-- Under any traffic, whatever fails, there is an administrator, if there was one before.
pub serve_all-HasAdmin :
    (cfg : Config) (e : Env) (rs : List HttpRequest) (s : World)
    → HasAdmin s
    → HasAdmin (serve_all cfg e rs s)
serve_all-HasAdmin cfg e rs s h =
    serve_all-Keeps HasAdmin-invariant cfg e rs s
      (all_special (λ r value. special cfg (request_of r value) r.payload) rs) h
