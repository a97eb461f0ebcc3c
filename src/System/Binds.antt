-- ===== src/System/Binds.antt =====
-- How an action that was built from others has ended.
use overworld_ops.Base.{refl, inl, inr, ◌≡◌, ◌⊎◌, Bool, false, true}
use overworld_ops.System.{
  Result, attempt, stop_if, ◌>>=◌, ok, or_else, Act, raise, Env, err, World, continue,
}

pub Result-cases :
    {E A : Type 0} (r : Result E A) → ((a : A) × (r ≡ ok a)) ⊎ ((x : E) × (r ≡ err x))
Result-cases (ok a) = inl (a, refl)
Result-cases (err x) = inr (x, refl)

pub ok-injective : {E A : Type 0} (a b : A) → ◌≡◌ {A = Result E A} (ok a) (ok b) → a ≡ b
ok-injective a b h = cc

pub or_else-eq-ok :
    {E F A : Type 0} (f : E → F) (r : Result E A) (a : A) → or_else f r ≡ ok a → r ≡ ok a
or_else-eq-ok f (ok b) a h = cc
or_else-eq-ok f (err x) a h = cc

pub attempt-ok :
    {E F A : Type 0} (m : Act E A) (e : Env) (s : World) (r : Result E A)
    → (attempt {F = F} m e s).0 ≡ ok r
    → (m e s).0 ≡ r
unfolding attempt
attempt-ok m e s r h = cc

pub stop_if-ok :
    {E : Type 0} (b : Bool) (x : E) (e : Env) (s : World) (a : Unit {0})
    → (stop_if b x e s).0 ≡ ok a
    → b ≡ false
unfolding stop_if raise
stop_if-ok true x e s a h = absurd cc
stop_if-ok false x e s a h = refl

module _ {E A B : Type 0} where
  continue-ok :
      (r : Result E A) (f : A → Act E B) (e : Env) (s : World) (b : B)
      → (continue r f e s).0 ≡ ok b
      → (a : A) × (r ≡ ok a) × ((f a e s).0 ≡ ok b)
  continue-ok (ok a) f e s b h = (a, refl, h)
  continue-ok (err x) f e s b h = absurd cc

  -- A bind that returned has gone through both of its parts.
  pub bind-ok :
      (m : Act E A) (f : A → Act E B) (e : Env) (s : World) (b : B)
      → ((m >>= f) e s).0 ≡ ok b
      → (a : A) × ((m e s).0 ≡ ok a) × ((f a e (m e s).1).0 ≡ ok b)
  unfolding ◌>>=◌
  bind-ok m f e s b h = continue-ok (m e s).0 f e (m e s).1 b h

  pub bind-eq-err :
      (m : Act E A) (f : A → Act E B) (e : Env) (s : World) (x : E)
      → (m e s).0 ≡ err x
      → (m >>= f) e s ≡ (err x, (m e s).1)
  unfolding ◌>>=◌
  bind-eq-err m f e s x h = rw h refl

  pub bind-eq-ok :
      (m : Act E A) (f : A → Act E B) (e : Env) (s : World) (a : A)
      → (m e s).0 ≡ ok a
      → (m >>= f) e s ≡ f a e (m e s).1
  unfolding ◌>>=◌
  bind-eq-ok m f e s a h = rw h refl
