-- ===== src/Api/Servers/Lists.antt =====
-- What a request for the list of servers shows.
use overworld_ops.Base.{
  [], ◌∷◌, List, Bool, true, false, ◌&&◌, ◌||◌, ◌≡◌, ◌⊎◌, inl, inr, refl, ap, map, count_where,
  is_empty, if◌then◌else◌, Text, Bool-cases, ◌∙◌,
}
use overworld_ops.Models.{Server, User}
use overworld_ops.Config.{Config}
use overworld_ops.Docker.Keeps.{docker_keeps}
use overworld_ops.System.{ok, World, Env}
use overworld_ops.System.Keeps.{OfTables, Keeps-map_err}
use overworld_ops.System.Ends.{
  Ends-kept, Ends, Ends-pure, Ends-bind, Ends-map_err, Ends-weaken, Ends-also, Ends-known,
}
use overworld_ops.Store.Sql.{has_owner}
use overworld_ops.Store.Keeps.{Keeps-query}
use overworld_ops.Store.Servers.{list_servers}
use overworld_ops.Store.Listing.{IsNewestFirst, list_servers-IsNewestFirst}
use overworld_ops.Store.Made.Insert.{Same, Same-OfTables}
use overworld_ops.Api.Http.{Response, Body, ServerView, serve}
use overworld_ops.Api.Answers.{Refused, view-Ends, either}
use overworld_ops.Api.Views.{views, owns_server}
use overworld_ops.Api.Servers.{handle_list_servers}

abbrev pub server_of : ServerView → Server
server_of shown = shown.server

module _ {e : Env} {P : World → Type 0} (tables : OfTables P) where
  -- Views raise nothing, and are those of the records, in their order.
  views-Ends :
      {E : Type 0} {X : E → World → Type 0} (cfg : Config) (l : List Server)
      → Ends e P (λ shown t. P t × (map server_of shown ≡ l)) X (views cfg l)
  unfolding views
  views-Ends cfg [] = Ends-pure [] (λ t h. (h, refl))
  views-Ends {E} {X} cfg (v ∷ l) =
      Ends-bind _ _ _ (view-Ends cfg v (search (docker_keeps, tables))) (λ first. Ends-known (λ one.
        Ends-bind _ _ _ (views-Ends {E = E} {X = X} cfg l)
          (λ rest. Ends-pure _ (λ t (h, others). (h, rw (one, others) refl)))))

-- `""` for an administrator
abbrev scope : User → Text
scope u = if u.is_admin then [] else u.id

visible_in_scope :
    (u : User) (p : Server → Bool) (l : List Server)
    → is_empty u.id ≡ false
    → count_where (λ v. p v && (is_empty (scope u) || has_owner (scope u) v)) l
      ≡ count_where (λ v. p v && owns_server u v) l
unfolding owns_server is_empty
visible_in_scope u p l named = elim (Bool-cases u.is_admin) [
  | inl admin ↦ rw admin refl
  | inr ordinary ↦ rw (ordinary, named) refl
]

module _ (cfg : Config) (u : User) (e : Env) (s : World) where
  -- The records that `ownsServer` lets the account have, and no others, the newest first.
  abbrev IsScope : List Server → Type 0
  IsScope l =
      IsNewestFirst l
      × ((p : Server → Bool)
          → count_where p l ≡ count_where (λ v. p v && owns_server u v) s.servers)

  -- The answer shows these.
  pub record IsListing (r : Response) (t : World) : Type 0 where
    pub shown : List ServerView
    pub status : r.status ≡ 200
    pub answer : r.body ≡ Body.servers shown
    pub table : t.servers ≡ s.servers
    pub ordered : IsNewestFirst (map server_of shown)
    pub each :
        (p : Server → Bool)
        → count_where p (map server_of shown) ≡ count_where (λ v. p v && owns_server u v) s.servers

  list_servers-IsScope :
      (t : World) (l : List Server)
      → is_empty u.id ≡ false
      → Same s.servers t
      → (list_servers (scope u) e t).0 ≡ ok l
      → IsScope l
  list_servers-IsScope t l named h returned = (
    (list_servers-IsNewestFirst (scope u) e t l (λ _. true) returned).0,
    λ p.
        (list_servers-IsNewestFirst (scope u) e t l p returned).1
        ∙ visible_in_scope u p t.servers named
        ∙ ap (count_where (λ v. p v && owns_server u v)) h,
  )

  list_servers-Ends :
      is_empty u.id ≡ false
      → Ends e
          (Same s.servers)
          (λ l t. Same s.servers t × IsScope l)
          (λ _. Same s.servers)
          (list_servers (scope u))
  unfolding list_servers
  list_servers-Ends named =
      Ends-also {P = Same s.servers} IsScope
        (λ t l h returned. list_servers-IsScope t l named h returned)
        (Ends-kept _ (Keeps-map_err _ _ (Keeps-query (Same-OfTables s.servers) _)))

  handle_list_servers-Ends :
      is_empty u.id ≡ false
      → Ends e (Same s.servers) IsListing (Refused s) (handle_list_servers cfg u)
  unfolding handle_list_servers
  handle_list_servers-Ends named =
      Ends-bind _ _ _
        (Ends-map_err _ _
          (Ends-weaken (λ l t h. h) (λ x t h. (h, (_, refl))) (list_servers-Ends named)))
        (λ l. Ends-known (λ (ordered, each).
          Ends-bind _ _ _ (views-Ends (Same-OfTables s.servers) cfg l) (λ shown.
            Ends-pure _ (λ t (h, same). record {
              shown = shown;
              status = refl;
              answer = refl;
              table = h;
              ordered = rw same ordered;
              each = rw same each;
            }))))

-- A request for the list of servers, by an account whose ID is not empty, either answers with
-- exactly the servers that the account owns, or all of them for an administrator, each as often as
-- the table has it and the newest first; or it answers with an error. It leaves the table as it is.
pub handle_list_servers-Lists :
    (cfg : Config) (u : User) (e : Env) (s : World)
    → is_empty u.id ≡ false
    → IsListing cfg u e s
        (serve (handle_list_servers cfg u) e s).0
        (serve (handle_list_servers cfg u) e s).1
      ⊎ Refused s
          (serve (handle_list_servers cfg u) e s).0
          (serve (handle_list_servers cfg u) e s).1
unfolding serve
handle_list_servers-Lists cfg u e s named =
    either (IsListing cfg u e s) (Refused s) _ _
      ((handle_list_servers-Ends cfg u e s named).at s refl)
