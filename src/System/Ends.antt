-- ===== src/System/Ends.antt =====
-- What holds where an action returns, and what holds where it raises.
use overworld_ops.Base.{Bool, true, false, if◌then◌else◌, ◌≡◌, refl}
use overworld_ops.System.{
  Env, World, Act, Result, ok, err, pure, raise, map_err, attempt, stop_if, ask, ◌>>=◌, or_else,
  continue,
}
use overworld_ops.System.Keeps.{Keeps, OfTables}

-- From `P`, in the environment `e`, a value that is returned and the state after it meet `R`, and
-- an error that is raised and the state after it meet `X`.
abbrev pub Outcome :
    {E A : Type 0} → (A → World → Type 0) → (E → World → Type 0) → Result E A → World → Type 0
Outcome R X (ok a) t = R a t
Outcome R X (err x) t = X x t

pub record Ends {E A : Type 0} (e : Env) (P : World → Type 0) (R : A → World → Type 0)
    (X : E → World → Type 0) (m : Act E A) : Type 0 where
  pub at : (s : World) → P s → Outcome R X (m e s).0 (m e s).1

module _ {E A : Type 0} {e : Env} {P : World → Type 0} {R : A → World → Type 0}
    {X : E → World → Type 0} where
  pub Ends-pure : (a : A) → ((s : World) → P s → R a s) → Ends e P R X (pure a)
  unfolding pure
  Ends-pure a k = record { at = k }

  pub Ends-raise : (x : E) → ((s : World) → P s → X x s) → Ends e P R X (raise x)
  unfolding raise
  Ends-raise x k = record { at = k }

  pub Ends-if :
      (b : Bool) (m n : Act E A)
      → Ends e P R X m
      → Ends e P R X n
      → Ends e P R X (if b then m else n)
  Ends-if true m n km kn = km
  Ends-if false m n km kn = kn

continue-Outcome :
    {E A B : Type 0} (Q : A → World → Type 0) (R : B → World → Type 0) (X : E → World → Type 0)
    (e : Env) (r : Result E A) (f : A → Act E B) (s : World)
    → ((a : A) → Ends e (Q a) R X (f a))
    → Outcome Q X r s
    → Outcome R X (continue r f e s).0 (continue r f e s).1
continue-Outcome Q R X e (ok a) f s k h = (k a).at s h
continue-Outcome Q R X e (err x) f s k h = h

module _ {E A B : Type 0} {e : Env} {P : World → Type 0} {R : B → World → Type 0}
    {X : E → World → Type 0} where
  pub Ends-bind :
      (Q : A → World → Type 0) (m : Act E A) (f : A → Act E B)
      → Ends e P Q X m
      → ((a : A) → Ends e (Q a) R X (f a))
      → Ends e P R X (m >>= f)
  unfolding ◌>>=◌
  Ends-bind Q m f km kf = record {
    at = λ s h. continue-Outcome Q R X e (m e s).0 f (m e s).1 kf (km.at s h);
  }

or_else-Outcome :
    {E F A : Type 0} (R : A → World → Type 0) (X : F → World → Type 0) (f : E → F) (r : Result E A)
    (t : World)
    → Outcome R (λ x. X (f x)) r t
    → Outcome R X (or_else f r) t
or_else-Outcome R X f (ok a) t h = h
or_else-Outcome R X f (err x) t h = h

kept_Outcome :
    {E A : Type 0} (P : World → Type 0) (B : E → Type 0) (r : Result E A) (t : World)
    → P t
    → ((x : E) → B x)
    → Outcome (λ (_ : A). P) (λ x t. P t × B x) r t
kept_Outcome P B (ok a) t h b = h
kept_Outcome P B (err x) t h b = (h, b x)

module _ {E F A : Type 0} {e : Env} {P : World → Type 0} where
  pub Ends-map_err :
      {R : A → World → Type 0} {X : F → World → Type 0} (f : E → F) (m : Act E A)
      → Ends e P R (λ x. X (f x)) m
      → Ends e P R X (map_err f m)
  unfolding map_err
  Ends-map_err {R} {X} f m k = record {
    at = λ s h. or_else-Outcome R X f (m e s).0 (m e s).1 (k.at s h);
  }

  -- An attempt raises nothing.
  pub Ends-attempt :
      {X : F → World → Type 0} (m : Act E A) → Keeps P m → Ends e P (λ _. P) X (attempt m)
  unfolding attempt
  Ends-attempt m k = record { at = λ s h. k.at e s h }

module _ {E A : Type 0} {e : Env} {P : World → Type 0} where
  -- An action that keeps `P`, each of whose errors is of a kind.
  pub Ends-Keeps :
      (B : E → Type 0) (m : Act E A)
      → ((x : E) → B x)
      → Keeps P m
      → Ends e P (λ _. P) (λ x t. P t × B x) m
  Ends-Keeps B m b k = record { at = λ s h. kept_Outcome P B (m e s).0 (m e s).1 (k.at e s h) b }

  pub Ends-ask :
      {X : E → World → Type 0} (f : Env → _ → A) → OfTables P → Ends e P (λ _. P) X (ask f)
  unfolding ask
  Ends-ask f t = record { at = λ s h. t.ticked_ok s h }

module _ {E : Type 0} {e : Env} {P : World → Type 0} where
  pub Ends-stop_if :
      (B : E → Type 0) (b : Bool) (x : E) → B x → Ends e P (λ _. P) (λ x t. P t × B x) (stop_if b x)
  unfolding stop_if
  Ends-stop_if B true x y = Ends-raise x (λ s h. (h, y))
  Ends-stop_if B false x y = Ends-pure tt (λ s h. h)

weaken-Outcome :
    {E A : Type 0} (R R' : A → World → Type 0) (X X' : E → World → Type 0) (r : Result E A)
    (t : World)
    → ((a : A) → R a t → R' a t)
    → ((x : E) → X x t → X' x t)
    → Outcome R X r t
    → Outcome R' X' r t
weaken-Outcome R R' X X' (ok a) t returned raised h = returned a h
weaken-Outcome R R' X X' (err x) t returned raised h = raised x h

module _ {E A : Type 0} {R R' : A → World → Type 0} {X X' : E → World → Type 0} where
  pub Ends-weaken :
      {e : Env} {P : World → Type 0} {m : Act E A}
      → ((a : A) (t : World) → R a t → R' a t)
      → ((x : E) (t : World) → X x t → X' x t)
      → Ends e P R X m
      → Ends e P R' X' m
  Ends-weaken {e = e} {m = m} returned raised ends = record {
    at = λ s h.
        weaken-Outcome R R' X X' (m e s).0 (m e s).1 (λ a. returned a (m e s).1)
          (λ x. raised x (m e s).1) (ends.at s h);
  }

module _ {E A : Type 0} {e : Env} {P Q : World → Type 0} {R : A → World → Type 0}
    {X : E → World → Type 0} {m : Act E A} where
  -- What the precondition says of no state may be used to prove the rest.
  pub Ends-from :
      {Y : Type 0} → ((s : World) → Q s → P s × Y) → (Y → Ends e P R X m) → Ends e Q R X m
  Ends-from split k = record { at = λ s h. let (p, y) = split s h in (k y).at s p }

-- A fact about no state is taken out of the precondition.
pub Ends-known :
    {E A Y : Type 0} {e : Env} {P : World → Type 0} {R : A → World → Type 0}
    {X : E → World → Type 0} {m : Act E A}
    → (Y → Ends e P R X m)
    → Ends e (λ t. P t × Y) R X m
Ends-known k = Ends-from (λ s h. h) k

-- What is known of a value that is returned is added.
also_Outcome :
    {E A : Type 0} (R : A → World → Type 0) (X : E → World → Type 0) (Y : A → Type 0)
    (r : Result E A) (t : World)
    → ((a : A) → r ≡ ok a → Y a)
    → Outcome R X r t
    → Outcome (λ a w. R a w × Y a) X r t
also_Outcome R X Y (ok a) t k h = (h, k a refl)
also_Outcome R X Y (err x) t k h = h

pub Ends-also :
    {E A : Type 0} {e : Env} {P : World → Type 0} {R : A → World → Type 0} {X : E → World → Type 0}
    {m : Act E A} (Y : A → Type 0)
    → ((s : World) (a : A) → P s → (m e s).0 ≡ ok a → Y a)
    → Ends e P R X m
    → Ends e P (λ a t. R a t × Y a) X m
Ends-also {e = e} {R = R} {X = X} {m = m} Y k ends = record {
  at = λ s h. also_Outcome R X Y (m e s).0 (m e s).1 (λ a. k s a h) (ends.at s h);
}

both_Outcome :
    {E A : Type 0} (Q : World → Type 0) (r : Result E A) (t : World)
    → Outcome (λ _. Q) (λ _. Q) r t
    → Q t
both_Outcome Q (ok a) t h = h
both_Outcome Q (err x) t h = h

-- What holds however an action ends holds after the attempt.
pub Ends-attempt_both :
    {E F A : Type 0} {e : Env} {P Q : World → Type 0} {X : F → World → Type 0} (m : Act E A)
    → Ends e P (λ _. Q) (λ _. Q) m
    → Ends e P (λ _. Q) X (attempt m)
unfolding attempt
Ends-attempt_both {e = e} {Q = Q} m k = record {
  at = λ s h. both_Outcome Q (m e s).0 (m e s).1 (k.at s h);
}

-- How the action ended is the value of the attempt.
pub Ends-attempted :
    {E F A : Type 0} {e : Env} {P : World → Type 0} {R : A → World → Type 0}
    {X : E → World → Type 0} {Y : F → World → Type 0} (m : Act E A)
    → Ends e P R X m
    → Ends e P (λ r. Outcome R X r) Y (attempt m)
unfolding attempt
Ends-attempted m k = record { at = λ s h. k.at s h }

-- An action that keeps `P` ends in `P` either way.
pub Ends-kept :
    {E A : Type 0} {e : Env} {P : World → Type 0} (m : Act E A)
    → Keeps P m
    → Ends e P (λ _. P) (λ _. P) m
Ends-kept m k = Ends-weaken (λ _ _ h. h) (λ _ _ (h, _). h) (Ends-Keeps (λ _. Unit) m (λ _. tt) k)

-- What the precondition says to be there is given by name.
pub Ends-some :
    {E A Y : Type 0} {e : Env} {P : Y → World → Type 0} {R : A → World → Type 0}
    {X : E → World → Type 0} {m : Act E A}
    → ((y : Y) → Ends e (P y) R X m)
    → Ends e (λ t. (y : Y) × P y t) R X m
Ends-some k = record { at = λ s (y, h). (k y).at s h }

-- A guard that is passed or not, with its test.
pub Ends-guard :
    {E : Type 0} {e : Env} {P : World → Type 0} (b : Bool) (x : E)
    → Ends e P (λ _ t. P t × (b ≡ false)) (λ y t. P t × (b ≡ true) × (y ≡ x)) (stop_if b x)
unfolding stop_if
Ends-guard true x = Ends-raise x (λ t h. (h, refl, refl))
Ends-guard false x = Ends-pure tt (λ t h. (h, refl))
