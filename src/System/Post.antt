-- ===== src/System/Post.antt =====
-- What holds of the value and the state where an action returns.
use overworld_ops.Base.{◌≡◌}
use overworld_ops.System.{Env, World, Act, pure, map_err, ◌>>=◌, ok}
use overworld_ops.System.Keeps.{Keeps}
use overworld_ops.System.Binds.{or_else-eq-ok, bind-ok, bind-eq-ok, ok-injective}

-- From `P`, in the environment `e`, a value that is returned and the state after it meet `R`.
pub record Post {E A : Type 0} (e : Env) (P : World → Type 0) (R : A → World → Type 0) (m : Act E A)
    : Type 0 where
  pub at : (s : World) (a : A) → P s → (m e s).0 ≡ ok a → R a (m e s).1

module _ {E A : Type 0} {e : Env} {P : World → Type 0} where
  pub Post-Keeps : (m : Act E A) → Keeps P m → Post e P (λ _. P) m
  Post-Keeps m k = record { at = λ s a h returned. k.at e s h }

  pub Post-pure :
      (R : A → World → Type 0) (a : A) → ((s : World) → P s → R a s) → Post e P R (pure {E = E} a)
  unfolding pure
  Post-pure R a k = record { at = λ s b h returned. rw (← ok-injective a b returned) (k s h) }

module _ {E F A : Type 0} {e : Env} {P : World → Type 0} {R : A → World → Type 0} where
  pub Post-map_err : (f : E → F) (m : Act E A) → Post e P R m → Post e P R (map_err f m)
  unfolding map_err
  Post-map_err f m k = record {
    at = λ s a h returned. k.at s a h (or_else-eq-ok f (m e s).0 a returned);
  }

module _ {E A B : Type 0} {e : Env} {P : World → Type 0} {R : B → World → Type 0} where
  pub Post-bind :
      (Q : A → World → Type 0) (m : Act E A) (f : A → Act E B)
      → Post e P Q m
      → ((a : A) → Post e (Q a) R (f a))
      → Post e P R (m >>= f)
  Post-bind Q m f km kf = record {
    at = λ s b h returned.
        let (a, first, rest) = bind-ok m f e s b returned in
        rw (bind-eq-ok m f e s a first) ((kf a).at (m e s).1 b (km.at s a h first) rest);
  }

-- A fact about no state is taken out of the precondition.
pub Post-known :
    {E A X : Type 0} {e : Env} {P : World → Type 0} {R : A → World → Type 0} (m : Act E A)
    → (X → Post e P R m)
    → Post e (λ t. P t × X) R m
Post-known m k = record { at = λ s a (h, x) returned. (k x).at s a h returned }
