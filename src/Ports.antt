-- ===== src/Ports.antt =====
-- backend/internal/ports/allocator.go: the lowest free port of the range.
--
-- `Allocate` holds its mutex from the read of the claimed ports to its return, so it is one
-- action; the insert of the record comes after it.
pub mod Scan
pub mod Keeps
pub mod Allocate
use overworld_ops.Base.{
  ℕ, zero, suc, ◌+◌, ◌-◌, ◌==◌, Bool, true, false, ◌||◌, if◌then◌else◌, List, [], ◌∷◌,
}
use overworld_ops.System.{Act, pure, raise, ◌>>=◌, map_err, ask}
use overworld_ops.Store.Sql.{Error}
use overworld_ops.Store.Servers.{used_ports}

pub data AllocateError : Type 0 where
  pool_exhausted : AllocateError
  read_failed : Error → AllocateError

-- `claimed[p]`
unfoldable pub claims : ℕ → List ℕ → Bool
claims p [] = false
claims p (q ∷ l) = q == p || claims p l

-- `hostPortFree`
unfoldable pub host_port_free : ℕ → Act AllocateError Bool
host_port_free p = ask (λ e n. e.port_binds n p)

-- `!a.probeHost || hostPortFree(p)`: the probe is made only if it is enabled.
unfoldable pub bindable : Bool → ℕ → Act AllocateError Bool
unfolding host_port_free pure
bindable probe p = if probe then host_port_free p else pure true

-- A port that no record claims is the result if it can be bound.
unfoldable pub try_port : Bool → ℕ → Act AllocateError ℕ → Act AllocateError ℕ
unfolding bindable pure
try_port probe p rest = do free ← bindable probe p; if free then pure p else rest

-- The loop from `p`, with the ports that are left to try.
unfoldable pub scan : Bool → List ℕ → ℕ → ℕ → Act AllocateError ℕ
unfolding claims try_port raise
scan probe claimed zero p = raise pool_exhausted
scan probe claimed (suc left) p =
    let rest = scan probe claimed left (p + 1) in
    if claims p claimed then rest else try_port probe p rest

unfoldable pub allocate : ℕ → ℕ → Bool → Act AllocateError ℕ
unfolding scan
allocate start end probe = do
  claimed ← map_err read_failed used_ports
  scan probe claimed (end + 1 - start) start
