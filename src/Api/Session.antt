-- ===== src/Api/Session.antt =====
-- The signed session cookie of backend/internal/api/auth.go.
pub mod Sound
pub mod Plain
pub mod RoundTrip
use overworld_ops.Base.{
  ℕ, ◌+◌, ◌*◌, ◌/◌, ◌%◌, ◌^◌, ◌==◌, ltb, Bool, true, false, if◌then◌else◌, Option, none, some, List,
  [], ◌∷◌, ◌++◌, Text, text_eq, itoa, parse_int, ℤ, pos, negsuc,
}
use overworld_ops.Config.{Config}
use overworld_ops.System.{Env, Act, pure, raise, ◌>>=◌, ask}
use overworld_ops.Store.Sql.{time_now}
use overworld_ops.Api.Http.{Cookie, session, cleared}
use overworld_ops.Api.Base64.{encode, decode}

-- `hex.EncodeToString`
unfoldable pub hex_digit : ℕ → ℕ
hex_digit n = if ltb n 10 then n + 48 else n + 87

unfoldable pub hex : List ℕ → Text
unfolding hex_digit
hex [] = []
hex (b ∷ l) = hex_digit (b / 16) ∷ hex_digit (b % 16) ∷ hex l

unfoldable pub sign : Env → Text → Text → Text
unfolding hex
sign e secret payload = hex (e.hmac_sha256 secret payload)

-- The byte '|', and `userID + "|" + expiry`
abbrev pub bar : ℕ
bar = 124

abbrev pub payload_of : Text → Text → Text
payload_of user_id expiry = user_id ++ bar ∷ expiry

-- `sessionTTL` in nanoseconds, and `t.Unix()` of a time in nanoseconds
abbrev pub session_ttl : ℕ
session_ttl = 30 * 24 * 60 * 60 * 10 ^ 9

abbrev pub unix : ℕ → ℕ
unix t = t / 10 ^ 9

unfoldable pub token_of : Env → Text → Text → ℕ → Text
unfolding sign encode itoa
token_of e secret user_id expiry =
    let payload = payload_of user_id (itoa expiry) in
    encode (payload ++ bar ∷ sign e secret payload)

-- Reads the environment, where the signature is computed.
unfoldable pub signed_token : {E : Type 0} → Text → Text → ℕ → Act E Text
unfolding token_of ask
signed_token secret user_id expiry = ask (λ e n. token_of e secret user_id expiry)

unfoldable pub issue_session : {E : Type 0} → Config → Text → Act E Cookie
unfolding pure
issue_session cfg user_id = do
  now ← time_now
  let expiry : ℕ = unix (now + session_ttl)
  token ← signed_token cfg.session_secret user_id expiry
  pure (session token expiry cfg.secure_cookies)

abbrev pub clear_session : Config → Cookie
clear_session cfg = cleared cfg.secure_cookies

-- `strings.Split(s, "|")`
unfoldable pub split_from : Text → Text → List Text
split_from word [] = word ∷ []
split_from word (c ∷ s) = elim (c == bar) [
  | true ↦ word ∷ split_from [] s
  | false ↦ split_from (word ++ c ∷ []) s
]

unfoldable pub split_bar : Text → List Text
unfolding split_from
split_bar s = split_from [] s

pub data SessionError : Type 0 where
  no_cookie malformed bad_signature expired : SessionError

-- `time.Now().Unix() > expiry`
abbrev pub is_over : ℕ → ℤ → Bool
is_over now (pos n) = ltb n (unix now)
is_over now (negsuc n) = true

-- The clock is read only if the expiry is a number.
unfoldable pub unexpired : Text → Option ℤ → Act SessionError Text
unfolding pure raise
unexpired user_id none = raise expired
unexpired user_id (some expiry) = do
  now ← time_now
  if is_over now expiry then raise expired else pure user_id

unfoldable pub verified : Config → List Text → Act SessionError Text
unfolding unexpired sign ask pure raise
verified cfg (user_id ∷ expiry ∷ signature ∷ []) = do
  want ← ask (λ e n. sign e cfg.session_secret (payload_of user_id expiry))
  if text_eq signature want then unexpired user_id (parse_int expiry) else raise bad_signature
verified cfg parts = raise malformed

unfoldable pub decoded_cookie : Config → Option Text → Act SessionError Text
unfolding verified split_bar raise
decoded_cookie cfg none = raise malformed
decoded_cookie cfg (some raw) = verified cfg (split_bar raw)

unfoldable pub parse_session : Config → Option Text → Act SessionError Text
unfolding decoded_cookie raise decode
parse_session cfg none = raise no_cookie
parse_session cfg (some value) = decoded_cookie cfg (decode value)
