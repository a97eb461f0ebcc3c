-- ===== src/Store/Listing.antt =====
-- What `ListServers` of backend/internal/store/sqlite.go answers.
use overworld_ops.Base.{
  [], ◌∷◌, List, ◌≡◌, ◌≤◌, refl, true, Bool, Bool-cases, inl, inr, count_where, one_if,
  select_where, is_empty, Text, leb, arith, ◌&&◌, ◌||◌, ◌∙◌, ◌+◌,
}
use overworld_ops.Models.{Server}
use overworld_ops.System.{Env, World, ok}
use overworld_ops.Store.Sql.{has_owner}
use overworld_ops.Store.Servers.{insert_by_date, newest_first, scoped, list_servers}
use overworld_ops.Store.Reads.{query-ok}

-- No record is newer than the given one.
abbrev pub NoneNewer : Server → List Server → Type 0
NoneNewer v [] = Unit {0}
NoneNewer v (w ∷ l) = (w.created_at ≤ v.created_at) × NoneNewer v l

abbrev pub IsNewestFirst : List Server → Type 0
IsNewestFirst [] = Unit {0}
IsNewestFirst (v ∷ l) = NoneNewer v l × IsNewestFirst l

NoneNewer-trans :
    (v w : Server) (l : List Server) → w.created_at ≤ v.created_at → NoneNewer w l → NoneNewer v l
NoneNewer-trans v w [] older h = tt
NoneNewer-trans v w (x ∷ l) older (h, rest) = (omega arith, NoneNewer-trans v w l older rest)

NoneNewer-insert_by_date :
    (x v : Server) (l : List Server)
    → v.created_at ≤ x.created_at
    → NoneNewer x l
    → NoneNewer x (insert_by_date v l)
unfolding insert_by_date
NoneNewer-insert_by_date x v [] older h = (older, tt)
NoneNewer-insert_by_date x v (w ∷ l) older (h, rest) =
    elim (Bool-cases (leb w.created_at v.created_at)) [
      | inl e ↦ rw e (older, (h, rest))
      | inr e ↦ rw e (h, NoneNewer-insert_by_date x v l older rest)
    ]

insert_by_date-IsNewestFirst :
    (v : Server) (l : List Server) → IsNewestFirst l → IsNewestFirst (insert_by_date v l)
unfolding insert_by_date
insert_by_date-IsNewestFirst v [] h = (tt, tt)
insert_by_date-IsNewestFirst v (w ∷ l) (h, rest) =
    elim (Bool-cases (leb w.created_at v.created_at)) [
      | inl e ↦
          let older : w.created_at ≤ v.created_at = ground (arith, e) in
          rw e ((older, NoneNewer-trans v w l older h), (h, rest))
      | inr e ↦
          let newer : v.created_at ≤ w.created_at = ground (arith, e) in
          rw e (NoneNewer-insert_by_date w v l newer h, insert_by_date-IsNewestFirst v l rest)
    ]

newest_first-IsNewestFirst : (l : List Server) → IsNewestFirst (newest_first l)
unfolding newest_first
newest_first-IsNewestFirst [] = tt
newest_first-IsNewestFirst (v ∷ l) =
    insert_by_date-IsNewestFirst v (newest_first l) (newest_first-IsNewestFirst l)

module _ (p : Server → Bool) where
  count-insert_by_date :
      (v : Server) (l : List Server)
      → count_where p (insert_by_date v l) ≡ one_if (p v) + count_where p l
  unfolding insert_by_date count_where
  count-insert_by_date v [] = refl
  count-insert_by_date v (w ∷ l) = elim (Bool-cases (leb w.created_at v.created_at)) [
    | inl e ↦ rw e refl
    | inr e ↦ rw e (omega (arith, count-insert_by_date v l))
  ]

  count-newest_first : (l : List Server) → count_where p (newest_first l) ≡ count_where p l
  unfolding newest_first count_where
  count-newest_first [] = refl
  count-newest_first (v ∷ l) =
      omega (arith, count-insert_by_date v (newest_first l), count-newest_first l)

  count-select_where :
      (q : Server → Bool) (l : List Server)
      → count_where p (select_where q l) ≡ count_where (λ v. p v && q v) l
  unfolding select_where count_where
  count-select_where q [] = refl
  count-select_where q (v ∷ l) = ground (arith, count-select_where q l)

  count_always : (l : List Server) → count_where p l ≡ count_where (λ v. p v && true) l
  unfolding count_where
  count_always [] = refl
  count_always (v ∷ l) = ground (arith, count_always l)

  count-scoped :
      (owner : Text) (l : List Server)
      → count_where p (scoped owner l)
        ≡ count_where (λ v. p v && (is_empty owner || has_owner owner v)) l
  unfolding scoped
  count-scoped owner l = elim (Bool-cases (is_empty owner)) [
    | inl e ↦ rw e (count_always l)
    | inr e ↦ rw e (count-select_where (has_owner owner) l)
  ]

-- The listing that is returned has the newest record first, and every record as often as the table
-- has it if it belongs to the owner, or for no owner given, and otherwise not: as many records meet
-- any test as do in the table among those.
pub list_servers-IsNewestFirst :
    (owner : Text) (e : Env) (s : World) (l : List Server) (p : Server → Bool)
    → (list_servers owner e s).0 ≡ ok l
    → IsNewestFirst l
      × (count_where p l
          ≡ count_where (λ v. p v && (is_empty owner || has_owner owner v)) s.servers)
unfolding list_servers
list_servers-IsNewestFirst owner e s l p returned =
    let answer =
      query-ok "query servers" (λ t. newest_first (scoped owner t.servers)) e s l returned in
    rw (← answer) (
      newest_first-IsNewestFirst (scoped owner s.servers),
      count-newest_first p (scoped owner s.servers) ∙ count-scoped p owner s.servers,
    )
