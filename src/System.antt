-- ===== src/System.antt =====
-- The state that the program works on, and what it asks of the outside.
--
-- `World` holds the two SQLite tables, every request that the Docker Engine was sent, and the
-- number of times that the outside was consulted. `Env` answers for all that is not in this
-- repository: the Docker Engine, by any function of the requests so far; the SQLite driver, whose
-- statement fails or not; the clock, the UUIDs, bcrypt, HMAC-SHA256 and the port probe. A
-- program is an `Act`: it reads `Env`, changes `World`, and returns a value or an error.
pub mod Keeps
pub mod Binds
pub mod Leads
pub mod Post
pub mod Ends
pub mod Raises
use overworld_ops.Base.{
  ℕ, suc, Bool, true, false, List, [], ◌∷◌, Option, none, some, Text, if◌then◌else◌, ltb,
}
use overworld_ops.Models.{User, Server}
use overworld_ops.Docker.Types.{Call, ApiError, Inspection, PullMessage}

pub data Result (E A : Type 0) : Type 0 where
  ok : A → Result E A
  err : E → Result E A

pub record Env : Type 0 where
  -- the error of the n-th statement, if the driver fails it (disk, lock, cancelled context)
  pub driver_fault : ℕ → Option Text
  pub clock : ℕ → ℕ
  pub uuid : ℕ → Text
  -- `bcrypt.GenerateFromPassword` draws a salt, so it depends on the moment
  pub bcrypt_hash : ℕ → Text → Option Text
  pub bcrypt_matches : Text → Text → Bool
  -- `hmac.New(sha256.New, key)` on a message: bytes
  pub hmac_sha256 : Text → Text → List ℕ
  -- whether the host can bind the port at that moment
  pub port_binds : ℕ → ℕ → Bool
  -- requests that answer nothing but an error
  pub engine_fault : List Call → Call → Option ApiError
  pub engine_create : List Call → Call → Result ApiError Text
  pub engine_inspect : List Call → Text → Result ApiError (Text × Option Inspection)
  pub engine_list : List Call → Call → Result ApiError (List Text)
  -- the bytes of the log stream until it ends
  pub engine_logs : List Call → Text → Text → Result ApiError (List ℕ)
  -- the status with which the mux of `net/http` answers a path that it redirects
  pub redirect_status : List Text → ℕ
  -- the progress of an image pull, until its stream ends
  pub engine_pull : List Call → Text → Result ApiError (List PullMessage)

pub record World : Type 0 where
  pub users : List User
  pub servers : List Server
  -- the latest first
  pub calls : List Call
  pub ticks : ℕ

abbrev pub Act : Type 0 → Type 0 → Type 0
Act E A = Env → World → Result E A × World

module _ {E A : Type 0} where
  unfoldable pub pure : A → Act E A
  pure a e s = (ok a, s)

  unfoldable pub raise : E → Act E A
  raise x e s = (err x, s)

module _ {E A B : Type 0} where
  abbrev pub continue : Result E A → (A → Act E B) → Act E B
  continue (ok a) f e s = f a e s
  continue (err x) f e s = (err x, s)

  infixl 10 ◌>>=◌ ◌>>◌
  unfoldable pub ◌>>=◌ : Act E A → (A → Act E B) → Act E B
  unfolding pure raise
  ◌>>=◌ m f e s = let (r, s') = m e s in continue r f e s'

  abbrev pub ◌>>◌ : Act E A → Act E B → Act E B
  m >> n = m >>= λ _. n

-- `if err != nil { return …, wrap(err) }`
module _ {E F A : Type 0} where
  abbrev pub or_else : (E → F) → Result E A → Result F A
  or_else f (ok a) = ok a
  or_else f (err x) = err (f x)

  unfoldable pub map_err : (E → F) → Act E A → Act F A
  map_err f m e s = let (r, s') = m e s in (or_else f r, s')

  -- The error as a value, for the code that looks at it and goes on.
  unfoldable pub attempt : Act E A → Act F (Result E A)
  attempt m e s = let (r, s') = m e s in (ok r, s')

-- An action under an `if` that has no `else`.
unfoldable pub act_when : {E : Type 0} → Bool → Act E (Unit {0}) → Act E (Unit {0})
unfolding pure
act_when b m = if b then m else pure tt

-- `if cond { return … }`
unfoldable pub stop_if : {E : Type 0} → Bool → E → Act E (Unit {0})
unfolding pure raise
stop_if b x = if b then raise x else pure tt

abbrev pub ticked : World → World
ticked s = record s { ticks = suc s.ticks }

-- Asks the outside for something that has its answer by the moment.
unfoldable pub ask : {E A : Type 0} → (Env → ℕ → A) → Act E A
ask f e s = (ok (f e s.ticks), ticked s)

unfoldable pub sent : Call → World → World
sent c s = record s { calls = c ∷ s.calls }

-- Sends a request to the Docker Engine.
unfoldable pub send : {E A : Type 0} → Call → (Env → List Call → Result E A) → Act E A
unfolding sent
send c answer e s = (answer e s.calls, sent c s)
