-- ===== src/System/Leads.antt =====
-- Actions that lead from one property of the state to another.
use overworld_ops.Base.{◌≡◌, refl}
use overworld_ops.System.Keeps.{Keeps}
use overworld_ops.System.Post.{Post}
use overworld_ops.System.{World, Act, map_err, Result, ◌>>=◌, Env, ok, err, continue}

-- From `Q`, the action ends in `P`, whether it returns or raises.
pub record Leads {E A : Type 0} (Q P : World → Type 0) (m : Act E A) : Type 0 where
  pub at : (e : Env) (s : World) → Q s → P (m e s).1

-- Where the action returns, `Q` holds.
pub record Establishes {E A : Type 0} (Q : World → Type 0) (m : Act E A) : Type 0 where
  pub at : (e : Env) (s : World) (a : A) → (m e s).0 ≡ ok a → Q (m e s).1

module _ {E F A : Type 0} {Q P : World → Type 0} where
  pub Leads-map_err : (f : E → F) (m : Act E A) → Leads Q P m → Leads Q P (map_err f m)
  unfolding map_err
  Leads-map_err f m k = record { at = λ e s h. k.at e s h }

continue-Leads :
    {E A B : Type 0} (P : World → Type 0) (r : Result E A) (f : A → Act E B) (e : Env) (s : World)
    → ((x : E) → r ≡ err x → P s)
    → ((a : A) → r ≡ ok a → P (f a e s).1)
    → P (continue r f e s).1
continue-Leads P (ok a) f e s raised returned = returned a refl
continue-Leads P (err x) f e s raised returned = raised x refl

module _ {E A B : Type 0} {Q P : World → Type 0} where
  -- `Q` is still there when the rest starts.
  pub Leads-bind :
      (m : Act E A) (f : A → Act E B)
      → ((s : World) → Q s → P s)
      → Keeps Q m
      → ((a : A) → Leads Q P (f a))
      → Leads Q P (m >>= f)
  unfolding ◌>>=◌
  Leads-bind m f weaken km kf = record {
    at = λ e s h.
        continue-Leads P (m e s).0 f e (m e s).1 (λ x _. weaken _ (km.at e s h))
          (λ a _. (kf a).at e _ (km.at e s h));
  }

  -- The first action has done it, and the rest keeps it.
  pub Leads-then :
      (m : Act E A) (f : A → Act E B)
      → Leads Q P m
      → ((a : A) → Keeps P (f a))
      → Leads Q P (m >>= f)
  unfolding ◌>>=◌
  Leads-then m f km kf = record {
    at = λ e s h.
        continue-Leads P (m e s).0 f e (m e s).1 (λ x _. km.at e s h)
          (λ a _. (kf a).at e _ (km.at e s h));
  }

  -- What the first action has checked holds when the rest starts.
  pub Keeps-established :
      (m : Act E A) (f : A → Act E B)
      → Keeps P m
      → Establishes Q m
      → ((a : A) → Leads Q P (f a))
      → Keeps P (m >>= f)
  unfolding ◌>>=◌
  Keeps-established m f km checked kf = record {
    at = λ e s h.
        continue-Leads P (m e s).0 f e (m e s).1 (λ x _. km.at e s h)
          (λ a returned. (kf a).at e _ (checked.at e s a returned));
  }

module _ {E A : Type 0} {P : World → Type 0} where
  pub Leads-Keeps : (m : Act E A) → Keeps P m → Leads P P m
  Leads-Keeps m k = record { at = λ e s h. k.at e s h }

  pub Keeps-Leads : (m : Act E A) → Leads P P m → Keeps P m
  Keeps-Leads m k = record { at = λ e s h. k.at e s h }

module _ {E A B : Type 0} {Q P : World → Type 0} where
  -- The rest starts where the first action has returned.
  pub Leads-bind-Post :
      (R : A → World → Type 0) (m : Act E A) (f : A → Act E B)
      → Leads Q P m
      → ((e : Env) → Post e Q R m)
      → ((a : A) → Leads (R a) P (f a))
      → Leads Q P (m >>= f)
  unfolding ◌>>=◌
  Leads-bind-Post R m f km post kf = record {
    at = λ e s h.
        continue-Leads P (m e s).0 f e (m e s).1 (λ x _. km.at e s h)
          (λ a returned. (kf a).at e _ ((post e).at s a h returned));
  }
