-- ===== src/Store/Present.antt =====
-- One record of the table, and the writes that leave it as it is.
use overworld_ops.Base.{
  List, Bool, not, ◌&&◌, refl, [], ◌∷◌, update_where, some, true, false, Text, Option, ◌≡◌, ◌∙◌, ap,
  text_eq, first_where, eq_of_text_eq, first_where_update, first_where_append, first_where_delete,
  Bool-cases, ltb, count_where, inl, inr, count-pos_of_first, arith, none,
}
use overworld_ops.Models.{Server}
use overworld_ops.System.{World, sent, ok, Env, map_err, err}
use overworld_ops.System.Keeps.{OfTables, Keeps, keeps_rules}
use overworld_ops.Store.Sql.{
  has_id, update_server_row, delete_server_row, insert_server, exec_with, exec,
}
use overworld_ops.Store.Keeps.{
  RowInvariant, Preserves, Preserves-insert_server, Keeps-new_uuid, Keeps-time_now, Keeps-exec,
}
use overworld_ops.Store.Servers.{assigned_id, create_server, insert_error}
use overworld_ops.System.Post.{Post, Post-bind, Post-Keeps, Post-map_err, Post-pure}

module _ (j : Text) (o : Option Server) where
  -- The record with that ID, if there is one, is the given one.
  abbrev pub Holds : World → Type 0
  Holds s = first_where (has_id j) s.servers ≡ o

  pub Holds-OfTables : OfTables Holds
  unfolding sent
  Holds-OfTables = record { ticked_ok = λ s h. h; sent_ok = λ c s _ h. h }

  not_both_ids :
      (k : Text) (v : Server) → text_eq k j ≡ false → has_id k v ≡ true → has_id j v ≡ false
  not_both_ids k v differ here = rw (eq_of_text_eq v.id k here) differ

  pub Holds-row : (k : Text) → text_eq k j ≡ false → RowInvariant Holds k
  unfolding update_server_row
  Holds-row k differ = record {
    update_ok = λ f same_id _ _. record {
      at = λ s h.
          first_where_update (has_id j) (has_id k) f s.servers (λ v. not_both_ids k v differ)
            (λ v. ap (λ i. text_eq i j) (same_id v))
          ∙ h;
    };
  }

  pub Holds-delete : (k : Text) → text_eq k j ≡ false → Preserves Holds (delete_server_row k)
  unfolding delete_server_row
  Holds-delete k differ = record {
    at = λ s h.
        first_where_delete (has_id j) (has_id k) s.servers (λ v. not_both_ids k v differ) ∙ h;
  }

-- An update that changes no row which the test counts, and makes none count.
count-update_away :
    {A : Type 0} (p q : A → Bool) (f : A → A) (l : List A)
    → ((x : A) → q x ≡ true → p x ≡ false)
    → ((x : A) → q x ≡ true → p (f x) ≡ false)
    → count_where p (update_where q f l) ≡ count_where p l
unfolding count_where update_where
count-update_away p q f [] before after = refl
count-update_away p q f (x ∷ l) before after = elim (Bool-cases (q x)) [
  | inl here ↦ rw (here, before x here, after x here, count-update_away p q f l before after) refl
  | inr away ↦ rw (away, count-update_away p q f l before after) refl
]

-- Any record of another ID, as `p` describes it.
abbrev pub is_other : Text → (Server → Bool) → Server → Bool
is_other k p w = not (has_id k w) && p w

module _ (k : Text) (l : List Server) where
  -- The records of other IDs are those of `l`.
  abbrev pub Others : World → Type 0
  Others t =
      (p : Server → Bool) → count_where (is_other k p) t.servers ≡ count_where (is_other k p) l

  pub Others-OfTables : OfTables Others
  unfolding sent
  Others-OfTables = record { ticked_ok = λ s h. h; sent_ok = λ c s _ h. h }

  pub Others-row : RowInvariant Others k
  unfolding update_server_row
  Others-row = record {
    update_ok = λ f same_id _ _. record {
      at = λ s h p.
          count-update_away (is_other k p) (has_id k) f s.servers (λ w here. rw here refl)
            (λ w here. rw (same_id w, here) refl)
          ∙ h p;
    };
  }

module _ (j : Text) (v : Server) where
  -- An insertion comes after it.
  pub Holds-insert : (w : Server) → Preserves (Holds j (some v)) (insert_server w)
  Holds-insert w = Preserves-insert_server w (λ s h. first_where_append (has_id j) s.servers w v h)

-- A record that was inserted has an ID of its own.
inserted_apart :
    (fault : Option Text) (w v : Server) (j : Text) (s : World) (a : Unit {0})
    → first_where (has_id j) s.servers ≡ some v
    → (exec_with fault (insert_server w s) s).0 ≡ ok a
    → text_eq w.id j ≡ false
unfolding insert_server
inserted_apart (some m) w v j s a h done = absurd cc
inserted_apart none w v j s a h done =
    elim (Bool-cases (ltb 0 (count_where (has_id w.id) s.servers))) [
      | inl taken ↦ let q : err _ ≡ ok a = rw taken at done in absurd cc
      | inr fresh ↦ elim (Bool-cases (text_eq w.id j)) [
        | inr differ ↦ differ
        | inl same ↦
            let present = (count-pos_of_first (has_id j) v s.servers h).0 in
            let fresh' : ltb 0 (count_where (has_id j) s.servers) ≡ false =
              rw (← eq_of_text_eq w.id j same) fresh in
            absurd (ground (arith, present, fresh'))
      ]
    ]

module _ (j : Text) (v : Server) where
  assigned_id-Holds : (id : Text) → Keeps (Holds j (some v)) (assigned_id id)
  unfolding assigned_id
  assigned_id-Holds id = search (keeps_rules, Keeps-new_uuid, Holds-OfTables)

  insert_apart :
      (e : Env) (w : Server)
      → Post e
          (Holds j (some v))
          (λ _ t. Holds j (some v) t × (text_eq w.id j ≡ false))
          (map_err insert_error (exec (insert_server w)))
  unfolding exec
  insert_apart e w = Post-map_err insert_error _ (record {
    at = λ s a h returned. (
      (Keeps-exec (Holds-OfTables j (some v)) (insert_server w) (Holds-insert j v w)).at e s h,
      inserted_apart (e.driver_fault s.ticks) w v j s a h returned,
    );
  })

  pub create_server-apart :
      (e : Env) (x : Server)
      → Post e
          (Holds j (some v))
          (λ w t. Holds j (some v) t × (text_eq w.id j ≡ false))
          (create_server x)
  unfolding create_server
  create_server-apart e x =
      Post-bind (λ _. Holds j (some v)) _ _
        (Post-Keeps _ (Keeps-time_now (Holds-OfTables j (some v))))
        (λ now.
          Post-bind (λ _. Holds j (some v)) _ _ (Post-Keeps _ (assigned_id-Holds x.id))
            (λ id. Post-bind _ _ _ (insert_apart e _) (λ _. Post-pure _ _ (λ t h. h))))
