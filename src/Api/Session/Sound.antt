-- ===== src/Api/Session/Sound.antt =====
-- What a cookie that `parseSession` accepts holds, and which account `requireAuth` hands on.
use overworld_ops.Base.{
  suc, refl, [], ◌∷◌, ◌++◌, none, some, Text, ◌≡◌, inl, inr, List, ap, Bool-cases, sym, Option, ◌∙◌,
  ◌==◌, ℤ, ==_iff, ℕ, parse_int, false, true, arith, text_eq, eq_of_text_eq, Option-cases,
}
use overworld_ops.Api.Session.{
  split_from, split_bar, bar, payload_of, sign, is_over, unexpired, verified, bad_signature,
  parse_session, decoded_cookie, malformed,
}
use overworld_ops.System.{◌>>=◌, Env, World, ok, err, ask, raise, pure, ticked}
use overworld_ops.Config.{Config}
use overworld_ops.Api.Base64.{decode}
use overworld_ops.Store.Sql.{time_now}

-- The pieces of a split, a bar before each.
abbrev barred : List Text → Text
barred [] = []
barred (w ∷ l) = bar ∷ (w ++ barred l)

pub append_assoc : (a b c : Text) → (a ++ b) ++ c ≡ a ++ (b ++ c)
append_assoc [] b c = refl
append_assoc (x ∷ a) b c = ap (λ t. x ∷ t) (append_assoc a b c)

pub append_nil : (a : Text) → a ++ [] ≡ a
append_nil [] = refl
append_nil (x ∷ a) = ap (λ t. x ∷ t) (append_nil a)

pub split_from-bar :
    (w s : Text) (c : ℕ) → (c == bar) ≡ true → split_from w (c ∷ s) ≡ w ∷ split_from [] s
unfolding split_from
split_from-bar w s c h = rw (split_from, h) refl

pub split_from-other :
    (w s : Text) (c : ℕ) → (c == bar) ≡ false → split_from w (c ∷ s) ≡ split_from (w ++ c ∷ []) s
unfolding split_from
split_from-other w s c h = rw (split_from, h) refl

barred-split_from : (w s : Text) → barred (split_from w s) ≡ bar ∷ (w ++ s)
unfolding split_from
barred-split_from w [] = refl
barred-split_from w (c ∷ s) = elim (Bool-cases (c == bar)) [
  | inl here ↦
      ap barred (split_from-bar w s c here)
      ∙ ap (λ t. bar ∷ (w ++ t))
          (barred-split_from [] s ∙ ap (λ d. d ∷ s) (sym ((==_iff c bar).0 here)))
  | inr other ↦
      ap barred (split_from-other w s c other)
      ∙ barred-split_from (w ++ c ∷ []) s
      ∙ ap (λ t. bar ∷ t) (append_assoc w (c ∷ []) s)
]

abbrev tail_or : Text → Text
tail_or [] = []
tail_or (c ∷ s) = s

-- Three pieces between bars.
split_bar-three :
    (raw a b c : Text) → split_bar raw ≡ a ∷ b ∷ c ∷ [] → raw ≡ a ++ bar ∷ (b ++ bar ∷ c)
unfolding split_bar
split_bar-three raw a b c h =
    ap tail_or (sym (barred-split_from [] raw) ∙ ap barred h) ∙ rw (append_nil c) refl

-- The cookie is the encoding of an ID, an expiry and the signature of both, with bars between, and
-- the expiry was not over at the reading of the clock that comes right after the computation of the
-- signature, from the state `s` on.
pub record IsGood (cfg : Config) (e : Env) (s : World) (cookie : Option Text) (user_id : Text)
    : Type 0 where
  pub value : Text
  pub expiry : Text
  pub until : ℤ
  pub given : cookie ≡ some value
  pub signed :
      decode value
      ≡ some
          (payload_of user_id expiry ++ bar ∷ sign e cfg.session_secret (payload_of user_id expiry))
  pub dated : parse_int expiry ≡ some until
  pub fresh : is_over (e.clock (suc s.ticks)) until ≡ false

unexpired_sound :
    (id : Text) (o : Option ℤ) (e : Env) (s : World) (a : Text)
    → (unexpired id o e s).0 ≡ ok a
    → (a ≡ id) × ((n : ℤ) × (o ≡ some n) × (is_over (e.clock s.ticks) n ≡ false))
unfolding unexpired time_now ◌>>=◌ ask raise pure
unexpired_sound id none e s a h = absurd cc
unexpired_sound id (some n) e s a h = elim (Bool-cases (is_over (e.clock s.ticks) n)) [
  | inl over ↦ let q : (unexpired id (some n) e s).0 ≡ ok a = h in absurd (ground arith)
  | inr not_over ↦ (ground arith, (n, refl, not_over))
]

verified_sound :
    (cfg : Config) (parts : List Text) (e : Env) (s : World) (a : Text)
    → (verified cfg parts e s).0 ≡ ok a
    → (expiry : Text) × (n : ℤ) × (parts
        ≡ a ∷ expiry ∷ sign e cfg.session_secret (payload_of a expiry) ∷ [])
      × (parse_int expiry ≡ some n)
      × (is_over (e.clock (suc s.ticks)) n ≡ false)
unfolding verified raise ◌>>=◌ ask
verified_sound cfg [] e s a h = absurd cc
verified_sound cfg (x ∷ []) e s a h = absurd cc
verified_sound cfg (x ∷ y ∷ []) e s a h = absurd cc
verified_sound cfg (x ∷ y ∷ z ∷ w ∷ l) e s a h = absurd cc
verified_sound cfg (x ∷ y ∷ z ∷ []) e s a h =
    elim (Bool-cases (text_eq z (sign e cfg.session_secret (payload_of x y)))) [
      | inl same ↦
          let g : (unexpired x (parse_int y) e (ticked s)).0 ≡ ok a = rw same at h in
          let (owner, (n, dated, fresh)) = unexpired_sound x (parse_int y) e (ticked s) a g in
          (
            y,
            n,
            ap (λ t. x ∷ y ∷ t ∷ []) (eq_of_text_eq z _ same)
                ∙ ap (λ t. t ∷ y ∷ sign e cfg.session_secret (payload_of t y) ∷ []) (sym owner),
            dated,
            fresh,
          )
      | inr differs ↦ let g : err bad_signature ≡ ok a = rw differs at h in absurd cc
    ]

pub parse_session_sound :
    (cfg : Config) (cookie : Option Text) (e : Env) (s : World) (a : Text)
    → (parse_session cfg cookie e s).0 ≡ ok a
    → IsGood cfg e s cookie a
unfolding parse_session decoded_cookie raise
parse_session_sound cfg none e s a h = absurd cc
parse_session_sound cfg (some value) e s a h = elim (Option-cases (decode value)) [
  | inl bad ↦ let g : err malformed ≡ ok a = rw bad at h in absurd cc
  | inr (raw, good) ↦
      let g : (verified cfg (split_bar raw) e s).0 ≡ ok a = rw good at h in
      let (expiry, n, parts, dated, fresh) = verified_sound cfg (split_bar raw) e s a g in
      record {
        value = value;
        expiry = expiry;
        until = n;
        given = refl;
        signed =
            good
            ∙ ap some
                (split_bar-three raw a expiry _ parts ∙ sym (append_assoc a (bar ∷ expiry) _));
        dated = dated;
        fresh = fresh;
      }
]
