-- ===== src/Store/Calm.antt =====
-- The writes to a record while the database does not fail.
use overworld_ops.Base.{
  none, some, ℕ, Text, Bool, List, ◌≡◌, refl, first_where, update_where, Bool-cases, inl, inr, ap,
  text_eq, ◌∷◌, [],
}
use overworld_ops.Models.{Server, Status}
use overworld_ops.System.{World, Env, sent}
use overworld_ops.System.Keeps.{OfTables}
use overworld_ops.System.Ends.{
  Ends, Ends-bind, Ends-ask, Ends-map_err, Ends-if, Ends-raise, Ends-pure,
}
use overworld_ops.Store.Sql.{SqlError, has_id, exec, update_server_row, require_row, time_now}
use overworld_ops.Store.Servers.{set_status, set_container_id, touch_activity}

pub first_where_updated :
    {A : Type 0} (p : A → Bool) (f : A → A) (l : List A) (x : A)
    → ((y : A) → p (f y) ≡ p y)
    → first_where p l ≡ some x
    → first_where p (update_where p f l) ≡ some (f x)
unfolding first_where update_where
first_where_updated p f [] x same h = absurd cc
first_where_updated p f (y ∷ l) x same h = elim (Bool-cases (p y)) [
  | inl here ↦
      let found : some y ≡ some x = rw here at h in
      let one : y ≡ x = cc in rw (here, same y, here) (ap (λ z. some (f z)) one)
  | inr away ↦ rw (away, away) (first_where_updated p f l x same (rw away at h))
]

-- The table has a record of that ID, and it meets `Q`.
abbrev pub HasRow : Text → (Server → Type 0) → World → Type 0
HasRow k Q t = (w : Server) × (first_where (has_id k) t.servers ≡ some w) × Q w

pub HasRow-OfTables : (k : Text) (Q : Server → Type 0) → OfTables (HasRow k Q)
unfolding sent
HasRow-OfTables k Q = record { ticked_ok = λ s h. h; sent_ok = λ c s _ h. h }

module _ (e : Env) (calm : (n : ℕ) → e.driver_fault n ≡ none) (k : Text) where
  module _ {Q R : Server → Type 0} where
    update_row-calm :
        {X : SqlError → World → Type 0} (f : Server → Server)
        → ((v : Server) → (f v).id ≡ v.id)
        → ((v : Server) → Q v → R (f v))
        → Ends e (HasRow k Q) (λ _. HasRow k R) X (exec (update_server_row k f))
    unfolding exec update_server_row
    update_row-calm f same done = record {
      at = λ s (w, found, q). rw (calm s.ticks) (
        f w,
        first_where_updated (has_id k) f s.servers w (λ v. ap (λ id. text_eq id k) (same v)) found,
        done w q,
      );
    }

    pub set_status-calm :
        (status : Status) (message : Text)
        → ((v : Server) (now : ℕ)
            → Q v
            → R (record v { status = status; status_message = message; updated_at = now }))
        → Ends e (HasRow k Q) (λ _. HasRow k R) (λ _. HasRow k R) (set_status k status message)
    unfolding set_status time_now require_row
    set_status-calm status message done = Ends-bind _ _ _ (Ends-ask _ (HasRow-OfTables k Q)) (λ now.
        Ends-bind _ _ _ (Ends-map_err _ _ (update_row-calm _ (λ v. refl) (λ v. done v now)))
          (λ n. Ends-if _ _ _ (Ends-raise _ (λ t h. h)) (Ends-pure _ (λ t h. h))))

    pub set_container_id-calm :
        (container : Text)
        → ((v : Server) (now : ℕ)
            → Q v
            → R (record v { container_id = container; updated_at = now }))
        → Ends e (HasRow k Q) (λ _. HasRow k R) (λ _. HasRow k R) (set_container_id k container)
    unfolding set_container_id time_now require_row
    set_container_id-calm container done =
        Ends-bind _ _ _ (Ends-ask _ (HasRow-OfTables k Q)) (λ now.
          Ends-bind _ _ _ (Ends-map_err _ _ (update_row-calm _ (λ v. refl) (λ v. done v now)))
            (λ n. Ends-if _ _ _ (Ends-raise _ (λ t h. h)) (Ends-pure _ (λ t h. h))))

    pub touch_activity-calm :
        ((v : Server) (now : ℕ) → Q v → R (record v { last_active_at = some now }))
        → Ends e (HasRow k Q) (λ _. HasRow k R) (λ _. HasRow k R) (touch_activity k)
    unfolding touch_activity time_now
    touch_activity-calm done = Ends-bind _ _ _ (Ends-ask _ (HasRow-OfTables k Q)) (λ now.
        Ends-bind _ _ _ (Ends-map_err _ _ (update_row-calm _ (λ v. refl) (λ v. done v now)))
          (λ n. Ends-pure _ (λ t h. h)))
