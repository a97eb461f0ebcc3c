-- ===== src/System/Raises.antt =====
-- What every error of an action is like, and what a handler answers however it ends.
use overworld_ops.Base.{ℕ, Bool, true, false, if◌then◌else◌}
use overworld_ops.System.{
  Env, World, Act, Result, ok, err, pure, raise, map_err, attempt, stop_if, act_when, ask, ◌>>=◌,
  or_else, continue,
}

abbrev pub ErrMeets : {E A : Type 0} → (E → Type 0) → Result E A → Type 0
ErrMeets B (ok a) = Unit
ErrMeets B (err x) = B x

pub record Raises {E A : Type 0} (B : E → Type 0) (m : Act E A) : Type 0 where
  pub at : (e : Env) (s : World) → ErrMeets B (m e s).0

module _ {E A : Type 0} {B : E → Type 0} where
  pub Raises-pure : (a : A) → Raises B (pure a)
  unfolding pure
  Raises-pure a = record { at = λ e s. tt }

  pub Raises-raise : (x : E) → B x → Raises B (raise {A = A} x)
  unfolding raise
  Raises-raise x h = record { at = λ e s. h }

  pub Raises-if :
      (b : Bool) (m n : Act E A) → Raises B m → Raises B n → Raises B (if b then m else n)
  Raises-if true m n km kn = km
  Raises-if false m n km kn = kn

  pub Raises-ask : (f : Env → ℕ → A) → Raises B (ask f)
  unfolding ask
  Raises-ask f = record { at = λ e s. tt }

or_else-ErrMeets :
    {E F A : Type 0} (B : F → Type 0) (f : E → F) (r : Result E A)
    → ((x : E) → B (f x))
    → ErrMeets B (or_else f r)
or_else-ErrMeets B f (ok a) k = tt
or_else-ErrMeets B f (err x) k = k x

continue-ErrMeets :
    {E A C : Type 0} (B : E → Type 0) (r : Result E A) (f : A → Act E C) (e : Env) (s : World)
    → ErrMeets B r
    → ((a : A) → Raises B (f a))
    → ErrMeets B (continue r f e s).0
continue-ErrMeets B (ok a) f e s h k = (k a).at e s
continue-ErrMeets B (err x) f e s h k = h

module _ {E F A : Type 0} {B : F → Type 0} where
  pub Raises-map_err : (f : E → F) (m : Act E A) → ((x : E) → B (f x)) → Raises B (map_err f m)
  unfolding map_err
  Raises-map_err f m k = record { at = λ e s. or_else-ErrMeets B f (m e s).0 k }

  pub Raises-attempt : (m : Act E A) → Raises B (attempt {F = F} m)
  unfolding attempt
  Raises-attempt m = record { at = λ e s. tt }

module _ {E A C : Type 0} {B : E → Type 0} where
  pub Raises-bind :
      (m : Act E A) (f : A → Act E C) → Raises B m → ((a : A) → Raises B (f a)) → Raises B (m >>= f)
  unfolding ◌>>=◌
  Raises-bind m f km kf = record {
    at = λ e s. continue-ErrMeets B (m e s).0 f e (m e s).1 (km.at e s) kf;
  }

module _ {E : Type 0} {B : E → Type 0} where
  pub Raises-stop_if : (b : Bool) (x : E) → B x → Raises B (stop_if b x)
  unfolding stop_if
  Raises-stop_if true x h = Raises-raise x h
  Raises-stop_if false x h = Raises-pure tt

  pub Raises-act_when : (b : Bool) (m : Act E (Unit {0})) → Raises B m → Raises B (act_when b m)
  unfolding act_when
  Raises-act_when true m k = k
  Raises-act_when false m k = Raises-pure tt

pub ruleset raises_rules = (
  Raises-pure, Raises-raise, Raises-if, Raises-ask, Raises-map_err, Raises-attempt, Raises-bind,
  Raises-stop_if, Raises-act_when,
)

-- Whether it is returned or raised.
abbrev pub BothMeet : {E : Type 0} → (E → Type 0) → Result E E → Type 0
BothMeet B (ok a) = B a
BothMeet B (err x) = B x

pub record Replies {E : Type 0} (B : E → Type 0) (m : Act E E) : Type 0 where
  pub at : (e : Env) (s : World) → BothMeet B (m e s).0

continue-BothMeet :
    {E A : Type 0} (B : E → Type 0) (r : Result E A) (f : A → Act E E) (e : Env) (s : World)
    → ErrMeets B r
    → ((a : A) → Replies B (f a))
    → BothMeet B (continue r f e s).0
continue-BothMeet B (ok a) f e s h k = (k a).at e s
continue-BothMeet B (err x) f e s h k = h

module _ {E : Type 0} {B : E → Type 0} where
  pub Replies-pure : (a : E) → B a → Replies B (pure a)
  unfolding pure
  Replies-pure a h = record { at = λ e s. h }

  pub Replies-raise : (x : E) → B x → Replies B (raise x)
  unfolding raise
  Replies-raise x h = record { at = λ e s. h }

  pub Replies-if :
      (b : Bool) (m n : Act E E) → Replies B m → Replies B n → Replies B (if b then m else n)
  Replies-if true m n km kn = km
  Replies-if false m n km kn = kn

  pub Replies-bind :
      {A : Type 0} (m : Act E A) (f : A → Act E E)
      → Raises B m
      → ((a : A) → Replies B (f a))
      → Replies B (m >>= f)
  unfolding ◌>>=◌
  Replies-bind m f km kf = record {
    at = λ e s. continue-BothMeet B (m e s).0 f e (m e s).1 (km.at e s) kf;
  }

pub ruleset replies_rules = (raises_rules, Replies-pure, Replies-raise, Replies-if, Replies-bind)
