-- ===== src/Store/Writes.antt =====
-- What the writes to one record do to the table.
use overworld_ops.Base.{
  none, some, Option, ℕ, Text, List, ◌≡◌, ◌∙◌, refl, ◌⊎◌, inl, inr, count_where, update_where,
  delete_where, delete_where_none, ◌==◌, Bool-cases, arith, Bool, ◌∷◌, one_if, ap, [],
}
use overworld_ops.Models.{Server, Status}
use overworld_ops.System.{World, Env}
use overworld_ops.System.Ends.{
  Ends, Outcome, Ends-bind, Ends-ask, Ends-map_err, Ends-weaken, Ends-if, Ends-raise, Ends-pure,
  Ends-from,
}
use overworld_ops.Store.Sql.{
  has_id, exec, exec_with, update_server_row, delete_server_row, require_row, time_now,
}
use overworld_ops.Store.Servers.{set_status, delete_server, save_server, set_mutable}
use overworld_ops.Store.Made.Insert.{Same, Same-OfTables}

-- An update that meets no row.
update_where_none :
    {A : Type 0} (p : A → Bool) (f : A → A) (xs : List A)
    → count_where p xs ≡ 0
    → update_where p f xs ≡ xs
unfolding count_where update_where
update_where_none p f [] h = refl
update_where_none p f (x ∷ xs) h = elim (Bool-cases (p x)) [
  | inl e ↦ let more : one_if (p x) ≡ 0 = omega arith in absurd (ground (arith, e, more))
  | inr e ↦ rw e (ap (λ l. x ∷ l) (update_where_none p f xs (omega arith)))
]

module _ (l : List Server) where
  -- The table is `l`, in which `f` was applied to the record of that ID.
  abbrev pub Updated : Text → (Server → Server) → World → Type 0
  Updated id f t = t.servers ≡ update_where (has_id id) f l

  -- The table is `l` without the record of that ID.
  abbrev pub Deleted : Text → World → Type 0
  Deleted id t = t.servers ≡ delete_where (has_id id) l

  -- The table is `l`, or the record has that status and message.
  abbrev pub Marked : Text → Status → Text → World → Type 0
  Marked id status message t =
      Same l t
      ⊎ ((now : ℕ) × Updated id
            (λ v. record v { status = status; status_message = message; updated_at = now }) t)

  update_row-Outcome :
      (id : Text) (f : Server → Server) (fault : Option Text) (s : World)
      → Same l s
      → Outcome
          (λ n t. Updated id f t × (n ≡ count_where (has_id id) l))
          (λ _. Same l)
          (exec_with fault (update_server_row id f s) s).0
          (exec_with fault (update_server_row id f s) s).1
  unfolding update_server_row
  update_row-Outcome id f none s h = rw h (refl, refl)
  update_row-Outcome id f (some message) s h = h

  delete_row-Outcome :
      (id : Text) (fault : Option Text) (s : World)
      → Same l s
      → Outcome
          (λ n t. Deleted id t × (n ≡ count_where (has_id id) l))
          (λ _. Same l)
          (exec_with fault (delete_server_row id s) s).0
          (exec_with fault (delete_server_row id s) s).1
  unfolding delete_server_row
  delete_row-Outcome id none s h = rw h (refl, refl)
  delete_row-Outcome id (some message) s h = h

  module _ (e : Env) where
    pub update_row-Ends :
        (id : Text) (f : Server → Server)
        → Ends e
            (Same l)
            (λ n t. Updated id f t × (n ≡ count_where (has_id id) l))
            (λ _. Same l)
            (exec (update_server_row id f))
    unfolding exec
    update_row-Ends id f = record {
      at = λ s h. update_row-Outcome id f (e.driver_fault s.ticks) s h;
    }

    delete_row-Ends :
        (id : Text)
        → Ends e
            (Same l)
            (λ n t. Deleted id t × (n ≡ count_where (has_id id) l))
            (λ _. Same l)
            (exec (delete_server_row id))
    unfolding exec
    delete_row-Ends id = record { at = λ s h. delete_row-Outcome id (e.driver_fault s.ticks) s h }

    -- A record that was not there is not deleted.
    require_row-Ends :
        (id : Text) (n : ℕ)
        → n ≡ count_where (has_id id) l
        → Ends e (Deleted id) (λ _. Deleted id) (λ _. Same l) (require_row n)
    unfolding require_row
    require_row-Ends id n counted = elim (Bool-cases (n == 0)) [
      | inr some_rows ↦ rw some_rows (Ends-pure tt (λ t h. h))
      | inl no_rows ↦
          rw no_rows (Ends-raise _ (λ t h. h ∙ delete_where_none (has_id id) l (ground arith)))
    ]

    pub delete_server-Ends :
        (id : Text) → Ends e (Same l) (λ _. Deleted id) (λ _. Same l) (delete_server id)
    unfolding delete_server
    delete_server-Ends id =
        Ends-bind _ _ _ (Ends-map_err _ _ (delete_row-Ends id))
          (λ n. Ends-from (λ s h. h) (require_row-Ends id n))

    pub set_status-Ends :
        (id : Text) (status : Status) (message : Text)
        → Ends e
            (Same l)
            (λ _. Marked id status message)
            (λ _. Marked id status message)
            (set_status id status message)
    unfolding set_status time_now require_row
    set_status-Ends id status message =
        Ends-bind (λ _. Same l) _ _ (Ends-ask _ (Same-OfTables l))
          (λ now.
            Ends-bind _ _ _
              (Ends-map_err _ _ (Ends-weaken (λ n t h. h) (λ x t h. inl h) (update_row-Ends id _)))
              (λ n.
                Ends-if _ _ _ (Ends-raise _ (λ t (h, _). inr (now, h)))
                  (Ends-pure _ (λ t (h, _). inr (now, h)))))

    -- A record that was not there is not updated.
    require_row-eq :
        (id : Text) (f : Server → Server) (n : ℕ)
        → n ≡ count_where (has_id id) l
        → Ends e (Updated id f) (λ _. Updated id f) (λ _. Same l) (require_row n)
    unfolding require_row
    require_row-eq id f n counted = elim (Bool-cases (n == 0)) [
      | inr some_rows ↦ rw some_rows (Ends-pure tt (λ t h. h))
      | inl no_rows ↦
          rw no_rows (Ends-raise _ (λ t h. h ∙ update_where_none (has_id id) f l (ground arith)))
    ]

    pub save_server-Ends :
        (x : Server)
        → Ends e (Same l) (λ _. Updated x.id (set_mutable x)) (λ _. Same l) (save_server x)
    unfolding save_server
    save_server-Ends x =
        Ends-bind _ _ _ (Ends-map_err _ _ (update_row-Ends x.id (set_mutable x)))
          (λ n. Ends-from (λ s h. h) (require_row-eq x.id (set_mutable x) n))
