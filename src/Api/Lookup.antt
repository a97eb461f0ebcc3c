-- ===== src/Api/Lookup.antt =====
-- What `lookup` answers while the database does not fail.
use overworld_ops.Base.{
  refl, some, none, true, false, Bool, ℕ, ◌≡◌, ◌||◌, text_eq, first_where, Option, Option-cases,
  Bool-cases, inl, inr, arith, text_eq_refl,
}
use overworld_ops.Models.{Server, User}
use overworld_ops.System.{World, Env, ok, err, ticked, ◌>>=◌, pure, raise, map_err}
use overworld_ops.System.Ends.{Ends}
use overworld_ops.Store.Sql.{has_id, exec, query}
use overworld_ops.Store.Servers.{server_by_id, scan_server}
use overworld_ops.Store.Made.Insert.{Same}
use overworld_ops.Api.Http.{Request, Response, fails}
use overworld_ops.Api.Views.{lookup, owns_server, lookup_error}
use overworld_ops.Api.Ownership.{lookup-owns_server}
use overworld_ops.Api.Answers.{Found}

-- Whether the account may have the record, if there is one.
abbrev pub lets : User → Option Server → Bool
lets u none = false
lets u (some v) = u.is_admin || text_eq v.owner_id u.id

-- The record of the ID in the path is not there, or belongs to another account; the answer is 404,
-- and the table is as it was.
pub record IsMissing (u : User) (req : Request) (s : World) (r : Response) (t : World)
    : Type 0 where
  pub hidden : lets u (first_where (has_id req.id) s.servers) ≡ false
  pub answer : r ≡ fails 404 "server not found"
  pub same : t.servers ≡ s.servers

pub lookup_missing :
    (u : User) (req : Request) (e : Env) (s : World)
    → e.driver_fault s.ticks ≡ none
    → first_where (has_id req.id) s.servers ≡ none
    → lookup u req e s ≡ (err (fails 404 "server not found"), ticked s)
unfolding lookup lookup_error map_err server_by_id exec query scan_server ◌>>=◌ raise
lookup_missing u req e s calm missing = rw calm (rw missing refl)

pub lookup_foreign :
    (u : User) (req : Request) (e : Env) (s : World) (v : Server)
    → e.driver_fault s.ticks ≡ none
    → first_where (has_id req.id) s.servers ≡ some v
    → owns_server u v ≡ false
    → lookup u req e s ≡ (err (fails 404 "server not found"), ticked s)
unfolding lookup lookup_error map_err server_by_id exec query scan_server ◌>>=◌ raise pure
lookup_foreign u req e s v calm found foreign = rw calm (rw found (rw foreign refl))

lookup_owned :
    (u : User) (req : Request) (e : Env) (s : World) (v : Server)
    → e.driver_fault s.ticks ≡ none
    → first_where (has_id req.id) s.servers ≡ some v
    → owns_server u v ≡ true
    → lookup u req e s ≡ (ok v, ticked s)
unfolding lookup lookup_error map_err server_by_id exec query scan_server ◌>>=◌ raise pure
lookup_owned u req e s v calm found own = rw calm (rw found (rw own refl))

-- The account may have the record of the ID in the path.
abbrev pub IsVisible : User → Request → World → Type 0
IsVisible u req s = lets u (first_where (has_id req.id) s.servers) ≡ true

pub Found-IsVisible :
    (u : User) (req : Request) (s : World) (v : Server) → Found u req s v → IsVisible u req s
Found-IsVisible u req s v (stored, inl admin) = rw stored (rw admin refl)
Found-IsVisible u req s v (stored, inr own) = rw stored (rw own (ground (arith, text_eq_refl u.id)))

module _ (u : User) (req : Request) (e : Env) (s : World)
    (calm : (n : ℕ) → e.driver_fault n ≡ none) where
  pub lookup-calm :
      Ends e
        (Same s.servers)
        (λ v t. Same s.servers t × Found u req s v)
        (IsMissing u req s)
        (lookup u req)
  unfolding owns_server
  lookup-calm = record {
    at = λ t same. elim (Option-cases (first_where (has_id req.id) s.servers)) [
      | inl missing ↦
          rw (lookup_missing u req e t (calm t.ticks) (rw same missing))
            (record { hidden = rw missing refl; answer = refl; same = same })
      | inr (v, found) ↦ elim (Bool-cases (owns_server u v)) [
        | inr foreign ↦
            rw (lookup_foreign u req e t v (calm t.ticks) (rw same found) foreign)
              (record { hidden = rw found foreign; answer = refl; same = same })
        | inl own ↦
            let owned = lookup_owned u req e t v (calm t.ticks) (rw same found) own in
            rw owned (same, rw same at (lookup-owns_server u req e t v (rw owned refl)))
      ]
    ];
  }
