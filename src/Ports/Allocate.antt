-- ===== src/Ports/Allocate.antt =====
-- `Allocate` returns the lowest port that is free.
use overworld_ops.Base.{
  [], some, ℕ, count_where, Bool, ◌<◌, ◌≤◌, List, map, ◌≡◌, ◌+◌, ◌⊎◌, ltb, true, ◌-◌, ◌∷◌, false,
  Text, arith, inl, inr, refl, Option-cases,
}
use overworld_ops.System.{Env, World, Result, ok, err, map_err, ◌>>=◌, ticked}
use overworld_ops.Ports.{claims, AllocateError, pool_exhausted, read_failed, allocate}
use overworld_ops.Store.Servers.{used_ports}
use overworld_ops.Store.Sql.{exec, query, has_port}
use overworld_ops.Ports.Scan.{IsFirstFree, scan-IsFirstFree}
use overworld_ops.Models.{Server}

abbrev pub port_of : Server → ℕ
port_of v = v.port

-- A port is claimed if some record has it.
pub claims-map :
    (p : ℕ) (l : List Server) → claims p (map port_of l) ≡ ltb 0 (count_where (has_port p) l)
unfolding claims count_where
claims-map p [] = refl
claims-map p (v ∷ l) = ground (arith, claims-map p l)

module _ (e : Env) (s : World) (probe : Bool) where
  -- A server has the port, or the probe is on and did not get it.
  abbrev pub IsTaken : ℕ → Type 0
  IsTaken p =
      (0 < count_where (has_port p) s.servers)
      ⊎ ((probe ≡ true) × ((n : ℕ) × (e.port_binds n p ≡ false)))

  -- What `Allocate` answers over the range from `start` to `end`.
  abbrev pub Allocates : ℕ → ℕ → Result AllocateError ℕ → Type 0
  Allocates start end (ok p) =
      (start ≤ p)
      × (p ≤ end)
      × (count_where (has_port p) s.servers ≡ 0)
      × (probe ≡ true → (n : ℕ) × (e.port_binds n p ≡ true))
      × ((q : ℕ) → start ≤ q → q < p → IsTaken q)
  Allocates start end (err pool_exhausted) = (q : ℕ) → start ≤ q → q ≤ end → IsTaken q
  Allocates start end (err (read_failed x)) =
      (message : Text) × (e.driver_fault s.ticks ≡ some message)

  IsTaken-of_busy :
      (p : ℕ)
      → (claims p (map port_of s.servers) ≡ true)
        ⊎ ((probe ≡ true) × ((n : ℕ) × (e.port_binds n p ≡ false)))
      → IsTaken p
  IsTaken-of_busy p (inl claimed) =
      let q : ltb 0 (count_where (has_port p) s.servers) ≡ true =
        rw (claims-map p s.servers) at claimed in
      inl (ground arith)
  IsTaken-of_busy p (inr busy) = inr busy

  from_scan :
      (start end : ℕ) (r : Result AllocateError ℕ)
      → IsFirstFree e (map port_of s.servers) probe start (end + 1 - start) r
      → Allocates start end r
  from_scan start end (ok p) (low, high, (free, binds), before) =
      let q : ltb 0 (count_where (has_port p) s.servers) ≡ false =
        rw (claims-map p s.servers) at free in
      (low, omega arith, ground arith, binds, λ r h k. IsTaken-of_busy r (before r h k))
  from_scan start end (err pool_exhausted) (_, all) =
      λ q h k. IsTaken-of_busy q (all q h (omega arith))
  from_scan start end (err (read_failed x)) (wrong, all) = cc

-- `Allocate` over the range from `start` to `end` returns the lowest port that no server record
-- has and that, where the probe is on, the host could bind, every lower port of the range being
-- taken; it reports an exhausted pool only if every port of the range is taken, and a failed read
-- only if the driver failed the statement.
pub allocate-Allocates :
    (start end : ℕ) (probe : Bool) (e : Env) (s : World)
    → Allocates e s probe start end (allocate start end probe e s).0
unfolding allocate used_ports map_err exec query ◌>>=◌
allocate-Allocates start end probe e s = elim (Option-cases (e.driver_fault s.ticks)) [
  | inl works ↦ rw works (
      from_scan e s probe start end _
        (scan-IsFirstFree e (map port_of s.servers) probe (end + 1 - start) start (ticked s)))
  | inr (message, fails) ↦ rw fails (message, fails)
]
