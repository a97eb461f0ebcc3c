-- ===== src/Api/Session/RoundTrip.antt =====
-- A cookie that `issueSession` makes is accepted until it expires.
use overworld_ops.Base.{
  refl, [], ◌∷◌, ◌++◌, some, false, Text, ◌≡◌, Bool, ℕ, ◌<◌, arith, suc, ◌∙◌, ap, sym, itoa, ◌^◌,
  ◌≤◌, ◌+◌, text_eq_refl,
}
use overworld_ops.Api.Session.{
  split_bar, Bool, ℕ, bar, itoa, Config, Env, payload_of, sign, token_of, unix, decode, verified,
  parse_session, decoded_cookie, ◌>>=◌, ask, unexpired, time_now, pure, issue_session, session,
  signed_token, session_ttl,
}
use overworld_ops.Api.Base64.RoundTrip.{IsBytes, decode-encode}
use overworld_ops.Api.Session.Sound.{append_assoc}
use overworld_ops.Config.{Config}
use overworld_ops.System.{Env, World, ◌>>=◌, ask, ok, pure}
use overworld_ops.Api.Base64.{decode}
use overworld_ops.Store.Sql.{time_now}
use overworld_ops.Api.Http.{session}
use overworld_ops.Api.Session.Plain.{
  has_bar, hex-plain, digits_of-plain, IsBytes-append, split_bar-three_words, parse_int-itoa,
  not_below,
}
use overworld_ops.System.Binds.{ok-injective}

module _ (cfg : Config) (e : Env) (id : Text) (expiry : ℕ) where
  abbrev payload : Text
  payload = payload_of id (itoa expiry)

  module _ (id_bytes : IsBytes id) (id_plain : has_bar id ≡ false)
      (mac : (key message : Text) → IsBytes (e.hmac_sha256 key message)) where
    sign-plain :
        (has_bar (sign e cfg.session_secret payload) ≡ false)
        × IsBytes (sign e cfg.session_secret payload)
    unfolding sign
    sign-plain =
        hex-plain (e.hmac_sha256 cfg.session_secret payload) (mac cfg.session_secret payload)

    itoa-plain : (has_bar (itoa expiry) ≡ false) × IsBytes (itoa expiry)
    unfolding itoa
    itoa-plain = digits_of-plain (suc expiry) expiry

    decode-token :
        decode (token_of e cfg.session_secret id expiry)
        ≡ some (payload ++ bar ∷ sign e cfg.session_secret payload)
    unfolding token_of
    decode-token = decode-encode (payload ++ bar ∷ sign e cfg.session_secret payload) (
        IsBytes-append payload (bar ∷ sign e cfg.session_secret payload)
          (IsBytes-append id (bar ∷ itoa expiry) id_bytes (omega arith, itoa-plain.1))
          (omega arith, sign-plain.1))

    split-token :
        split_bar (payload ++ bar ∷ sign e cfg.session_secret payload)
        ≡ id ∷ itoa expiry ∷ sign e cfg.session_secret payload ∷ []
    split-token =
        ap split_bar (append_assoc id (bar ∷ itoa expiry) (bar ∷ sign e cfg.session_secret payload))
        ∙ split_bar-three_words id (itoa expiry) (sign e cfg.session_secret payload) id_plain
            itoa-plain.0 sign-plain.0

    module _ (t : World) (small : expiry < 2 ^ 63)
        (early : unix (e.clock (suc t.ticks)) ≤ expiry) where
      verified-token :
          (verified cfg (id ∷ itoa expiry ∷ sign e cfg.session_secret payload ∷ []) e t).0 ≡ ok id
      unfolding verified ◌>>=◌ ask unexpired time_now pure
      verified-token = rw (text_eq_refl (sign e cfg.session_secret payload)) (
          rw (parse_int-itoa expiry small)
            (rw (not_below expiry (unix (e.clock (suc t.ticks))) early) refl))

      pub parse_session-token_of :
          (parse_session cfg (some (token_of e cfg.session_secret id expiry)) e t).0 ≡ ok id
      unfolding parse_session decoded_cookie
      parse_session-token_of = rw decode-token (rw split-token verified-token)

session-injective :
    (a b : Text) (m n : ℕ) (c d : Bool) → session a m c ≡ session b n d → (a ≡ b) × (m ≡ n)
session-injective a b m n c d h = (cc, cc)

pub issue_session-token :
    {E : Type 0} (cfg : Config) (e : Env) (id : Text) (s : World) (token : Text) (expiry : ℕ)
    (secure : Bool)
    → (issue_session {E = E} cfg id e s).0 ≡ ok (session token expiry secure)
    → (token ≡ token_of e cfg.session_secret id expiry)
      × (expiry ≡ unix (e.clock s.ticks + session_ttl))
unfolding issue_session signed_token time_now ◌>>=◌ ask pure
issue_session-token cfg e id s token expiry secure h =
    let (same, dated) = session-injective _ token _ expiry _ secure (ok-injective _ _ h) in
    (sym same ∙ ap (token_of e cfg.session_secret id) dated, sym dated)

-- A cookie that `issueSession` makes for an account is accepted by `parseSession` in any later
-- state, and gives back the ID of the account, until the clock has passed its expiry. The ID is
-- made of bytes and has no bar, the HMAC is made of bytes, and the expiry fits an int64.
pub parse_session-issue_session :
    {E : Type 0} (cfg : Config) (e : Env) (id : Text) (s t : World) (token : Text) (expiry : ℕ)
    (secure : Bool)
    → (issue_session {E = E} cfg id e s).0 ≡ ok (session token expiry secure)
    → IsBytes id
    → has_bar id ≡ false
    → ((key message : Text) → IsBytes (e.hmac_sha256 key message))
    → expiry < 2 ^ 63
    → unix (e.clock (suc t.ticks)) ≤ expiry
    → (parse_session cfg (some token) e t).0 ≡ ok id
parse_session-issue_session {E} cfg e id s t token expiry secure h bytes plain mac small early =
    rw ((issue_session-token {E = E} cfg e id s token expiry secure h).0)
      (parse_session-token_of cfg e id expiry bytes plain mac t small early)
