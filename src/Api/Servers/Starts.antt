-- ===== src/Api/Servers/Starts.antt =====
-- What a request to start a server leaves, while the database does not fail.
use overworld_ops.Base.{none, ℕ, Text, ◌≡◌, ◌⊎◌, Bool}
use overworld_ops.Models.{Server, starting, User}
use overworld_ops.Config.{Config}
use overworld_ops.Docker.Client.{DockerError}
use overworld_ops.System.{World, Env, Result, ok, err}
use overworld_ops.System.Ends.{Ends}
use overworld_ops.Store.Calm.{HasRow}
use overworld_ops.Api.Servers.Saved.{Runs, IsBroken, IsSaved}
use overworld_ops.Api.Lookup.{IsMissing, IsVisible}
use overworld_ops.Api.Http.{Response, Request}
use overworld_ops.Api.Servers.{Bool}

module _ (cfg : Config) (e : Env) (calm : (n : ℕ) → e.driver_fault n ≡ none) (k : Text) where
  -- The record after the attempts to start it.
  abbrev Tried : Server → Result DockerError (Unit {0}) → World → Type 0
  Tried v (ok _) = Runs k v
  Tried v (err x) = HasRow k (λ _. Unit)

module _ (u : User) (req : Request) (s : World) where
  -- The server was there for the account, and was started.
  abbrev pub Started : Response → World → Type 0
  Started r t = IsVisible u req s × IsSaved req.id starting r t

  -- It was not there for the account, or its record is marked as failed.
  abbrev pub NotStarted : Response → World → Type 0
  NotStarted r t = IsMissing u req s r t ⊎ (IsVisible u req s × IsBroken req.id r t)
