-- ===== src/Ports/Keeps.antt =====
-- `Allocate` leaves the tables alone, and its port is in the range.
use overworld_ops.Base.{zero, suc, ℕ, ◌≤◌, Bool, List, ◌+◌, ◌≡◌, arith, if◌then◌else◌, true, false}
use overworld_ops.System.{World, Env, Act, Result, ok, err, pure}
use overworld_ops.System.Keeps.{
  Keeps, OfTables, Returns, Keeps-ask, keeps_rules, Keeps-bind, Keeps-if, Keeps-pure,
}
use overworld_ops.Store.Keeps.{Keeps-query}
use overworld_ops.Store.Servers.{used_ports}
use overworld_ops.Ports.Allocate.{Allocates, allocate-Allocates}
use overworld_ops.Ports.{try_port, scan, allocate, Act, AllocateError, bindable, pure}

abbrev pub IsInRange : ℕ → ℕ → ℕ → Type 0
IsInRange start end p = (start ≤ p) × (p ≤ end)

module _ {P : World → Type 0} (tables : OfTables P) where
  bindable-Keeps : (probe : Bool) (p : ℕ) → Keeps P (bindable probe p)
  unfolding bindable
  bindable-Keeps true p = Keeps-ask (λ e n. e.port_binds n p) tables
  bindable-Keeps false p = search keeps_rules

  try_port-Keeps :
      (probe : Bool) (p : ℕ) (rest : Act AllocateError ℕ)
      → Keeps P rest
      → Keeps P (try_port probe p rest)
  unfolding try_port
  try_port-Keeps probe p rest k =
      Keeps-bind (bindable probe p) (λ free. if free then pure p else rest) (bindable-Keeps probe p)
        (λ free. Keeps-if free (pure p) rest (Keeps-pure p) k)

  scan-Keeps : (probe : Bool) (claimed : List ℕ) (left p : ℕ) → Keeps P (scan probe claimed left p)
  unfolding scan
  scan-Keeps probe claimed zero p = search keeps_rules
  scan-Keeps probe claimed (suc left) p =
      let rest = scan-Keeps probe claimed left (p + 1) in search (keeps_rules, try_port-Keeps)

  pub allocate-Keeps : (start end : ℕ) (probe : Bool) → Keeps P (allocate start end probe)
  unfolding allocate used_ports
  allocate-Keeps start end probe = search (keeps_rules, Keeps-query, scan-Keeps, tables) depth 8

range_of :
    (e : Env) (s : World) (probe : Bool) (start end p : ℕ) (r : Result AllocateError ℕ)
    → Allocates e s probe start end r
    → r ≡ ok p
    → IsInRange start end p
range_of e s probe start end p (ok q) a same = ground arith
range_of e s probe start end p (err x) a same = cc

pub allocate-Returns :
    (start end : ℕ) (probe : Bool) → Returns (IsInRange start end) (allocate start end probe)
allocate-Returns start end probe = record {
  at = λ e s p. range_of e s probe start end p _ (allocate-Allocates start end probe e s);
}
