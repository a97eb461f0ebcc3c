-- ===== src/System/Keeps.antt =====
-- Invariants of actions, one rule for each way to build an action.
use overworld_ops.Base.{ℕ, ◌≡◌, ◌∙◌, refl, Bool, true, false, List, if◌then◌else◌, Text}
use overworld_ops.Docker.Types.{Call, volume_remove}
use overworld_ops.System.{
  Result, ok, err, Env, World, Act, pure, raise, ◌>>=◌, continue, map_err, attempt, act_when,
  stop_if, ask, sent, send, ticked,
}
use overworld_ops.System.Binds.{or_else-eq-ok, bind-ok, ok-injective, attempt-ok}

-- `m` keeps `P` in the environment `e`, whether it returns or raises.
pub record Keeps {E A : Type 0} (P : World → Type 0) (m : Act E A) : Type 0 where
  pub at : (e : Env) (s : World) → P s → P (m e s).1

abbrev pub removes_volume : Call → Bool
removes_volume (volume_remove name) = true
removes_volume _ = false

-- The removal of the volume leaves `P` as it is.
abbrev pub Erases : (World → Type 0) → Text → Type 0
Erases P name = (s : World) → P s → P (sent (volume_remove name) s)

-- `P` depends on no request but the removals of volumes.
pub record OfTables (P : World → Type 0) : Type 0 where
  pub ticked_ok : (s : World) → P s → P (ticked s)
  pub sent_ok : (c : Call) (s : World) → removes_volume c ≡ false → P s → P (sent c s)

module _ {P : World → Type 0} {E A : Type 0} where
  pub Keeps-pure : (a : A) → Keeps P (pure {E = E} a)
  unfolding pure
  Keeps-pure a = record { at = λ e s h. h }

  pub Keeps-raise : (x : E) → Keeps P (raise {A = A} x)
  unfolding raise
  Keeps-raise x = record { at = λ e s h. h }

  pub Keeps-if : (b : Bool) (m n : Act E A) → Keeps P m → Keeps P n → Keeps P (if b then m else n)
  Keeps-if true m n km kn = km
  Keeps-if false m n km kn = kn

  pub Keeps-ask : (f : Env → ℕ → A) → OfTables P → Keeps P (ask {E = E} f)
  unfolding ask
  Keeps-ask f t = record { at = λ e s h. t.ticked_ok s h }

  pub Keeps-send :
      (c : Call) (f : Env → List Call → Result E A)
      → OfTables P
      → removes_volume c ≡ false
      → Keeps P (send c f)
  unfolding send
  Keeps-send c f t harmless = record { at = λ e s h. t.sent_ok c s harmless h }

  pub Keeps-send_remove :
      (name : Text) (f : Env → List Call → Result E A)
      → Erases P name
      → Keeps P (send (volume_remove name) f)
  unfolding send
  Keeps-send_remove name f erases = record { at = λ e s h. erases s h }

module _ {P : World → Type 0} {E F A : Type 0} where
  pub Keeps-map_err : (f : E → F) (m : Act E A) → Keeps P m → Keeps P (map_err f m)
  unfolding map_err
  Keeps-map_err f m k = record { at = λ e s h. k.at e s h }

  pub Keeps-attempt : (m : Act E A) → Keeps P m → Keeps P (attempt {F = F} m)
  unfolding attempt
  Keeps-attempt m k = record { at = λ e s h. k.at e s h }

continue-Keeps :
    {E A B : Type 0} (P : World → Type 0) (r : Result E A) (f : A → Act E B) (e : Env) (s : World)
    → P s
    → ((a : A) → r ≡ ok a → P (f a e s).1)
    → P (continue r f e s).1
continue-Keeps P (ok a) f e s h k = k a refl
continue-Keeps P (err x) f e s h k = h

module _ {P : World → Type 0} {E A B : Type 0} where
  pub Keeps-bind :
      (m : Act E A) (f : A → Act E B) → Keeps P m → ((a : A) → Keeps P (f a)) → Keeps P (m >>= f)
  unfolding ◌>>=◌
  Keeps-bind m f km kf = record {
    at = λ e s h.
        let (r, s') = m e s in
        continue-Keeps P r f e s' (km.at e s h) (λ a _. (kf a).at e s' (km.at e s h));
  }

-- What `m` returns in any environment and state.
pub record Returns {E A : Type 0} (Q : A → Type 0) (m : Act E A) : Type 0 where
  pub at : (e : Env) (s : World) (a : A) → (m e s).0 ≡ ok a → Q a

pub Returns-map_err :
    {E F A : Type 0} {Q : A → Type 0} (f : E → F) (m : Act E A)
    → Returns Q m
    → Returns Q (map_err f m)
unfolding map_err
Returns-map_err f m known = record {
  at = λ e s a h. known.at e s a (or_else-eq-ok f (m e s).0 a h);
}

module _ {E A B : Type 0} {Q : B → Type 0} where
  pub Returns-bind :
      (m : Act E A) (f : A → Act E B) → ((a : A) → Returns Q (f a)) → Returns Q (m >>= f)
  Returns-bind m f k = record {
    at = λ e s b returned.
        let (a, first, rest) = bind-ok m f e s b returned in (k a).at e (m e s).1 b rest;
  }

pub Returns-pure : {E A : Type 0} {Q : A → Type 0} (a : A) → Q a → Returns Q (pure {E = E} a)
unfolding pure
Returns-pure {E} {A} {Q} a h = record { at = λ e s b returned. rw (← ok-injective a b returned) h }

-- What is known of a value, where there is one.
abbrev pub OkMeets : {E A : Type 0} → (A → Type 0) → Result E A → Type 0
OkMeets Q (ok a) = Q a
OkMeets Q (err x) = Unit

OkMeets-each :
    {E A : Type 0} (Q : A → Type 0) (r : Result E A) → ((a : A) → r ≡ ok a → Q a) → OkMeets Q r
OkMeets-each Q (ok a) k = k a refl
OkMeets-each Q (err x) k = tt

pub Returns-raise : {E A : Type 0} {Q : A → Type 0} (x : E) → Returns Q (raise {A = A} x)
unfolding raise
Returns-raise x = record { at = λ e s a h. absurd cc }

pub Returns-if :
    {E A : Type 0} {Q : A → Type 0} (b : Bool) (m n : Act E A)
    → Returns Q m
    → Returns Q n
    → Returns Q (if b then m else n)
Returns-if true m n km kn = km
Returns-if false m n km kn = kn

pub Returns-attempt :
    {E F A : Type 0} {Q : A → Type 0} (m : Act E A)
    → Returns Q m
    → Returns (OkMeets Q) (attempt {F = F} m)
Returns-attempt {Q = Q} m known = record {
  at = λ e s r h. OkMeets-each Q r (λ a same. known.at e s a (attempt-ok m e s r h ∙ same));
}

module _ {E A B : Type 0} {R : B → Type 0} where
  pub Returns-bind_result :
      (Q : A → Type 0) (m : Act E A) (f : A → Act E B)
      → Returns Q m
      → ((a : A) → Q a → Returns R (f a))
      → Returns R (m >>= f)
  Returns-bind_result Q m f known k = record {
    at = λ e s b returned.
        let (a, first, rest) = bind-ok m f e s b returned in
        (k a (known.at e s a first)).at e (m e s).1 b rest;
  }

module _ {P : World → Type 0} {E A B : Type 0} where
  -- The rest may use what is known of the value.
  pub Keeps-bind_result :
      (Q : A → Type 0) (m : Act E A) (f : A → Act E B)
      → Keeps P m
      → Returns Q m
      → ((a : A) → Q a → Keeps P (f a))
      → Keeps P (m >>= f)
  unfolding ◌>>=◌
  Keeps-bind_result Q m f km known kf = record {
    at = λ e s h.
        let (r, s') = m e s in
        continue-Keeps P r f e s' (km.at e s h)
          (λ a returned. (kf a (known.at e s a returned)).at e s' (km.at e s h));
  }

module _ {P : World → Type 0} {E : Type 0} where
  pub Keeps-act_when : (b : Bool) (m : Act E (Unit {0})) → Keeps P m → Keeps P (act_when b m)
  unfolding act_when
  Keeps-act_when true m k = k
  Keeps-act_when false m k = Keeps-pure tt

  pub Keeps-stop_if : (b : Bool) (x : E) → Keeps P (stop_if b x)
  unfolding stop_if
  Keeps-stop_if true x = Keeps-raise x
  Keeps-stop_if false x = Keeps-pure tt

-- After a guard, what follows may use that its test failed.
pub Keeps-guarded :
    {P : World → Type 0} {E A : Type 0} (b : Bool) (x : E) (m : Act E A)
    → (b ≡ false → Keeps P m)
    → Keeps P (stop_if b x >>= λ _. m)
unfolding stop_if ◌>>=◌ raise
Keeps-guarded true x m k = record { at = λ e s h. h }
Keeps-guarded false x m k = record { at = λ e s h. (k refl).at e s h }

pub ruleset keeps_rules = (
  Keeps-pure, Keeps-raise, Keeps-if, Keeps-map_err, Keeps-attempt, Keeps-bind, Keeps-act_when,
  Keeps-stop_if,
)
