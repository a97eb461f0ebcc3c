-- ===== src/Store/Reads.antt =====
-- A read that succeeds has returned what the table holds.
use overworld_ops.Base.{none, some, Option, Text, String, ◌≡◌}
use overworld_ops.System.{World, Env, map_err, ok}
use overworld_ops.Store.Sql.{exec_with, exec, query, failed}
use overworld_ops.System.Binds.{or_else-eq-ok}

read-ok :
    {A : Type 0} (fault : Option Text) (a b : A) (s t : World)
    → (exec_with fault (ok (a, t)) s).0 ≡ ok b
    → a ≡ b
read-ok none a b s t h = cc
read-ok (some m) a b s t h = absurd cc

pub query-ok :
    {A : Type 0} (op : String) (f : World → A) (e : Env) (s : World) (a : A)
    → (map_err (failed op) (exec (query f)) e s).0 ≡ ok a
    → f s ≡ a
unfolding map_err exec query
query-ok op f e s a h =
    read-ok (e.driver_fault s.ticks) (f s) a s s
      (or_else-eq-ok (failed op) (exec_with (e.driver_fault s.ticks) (ok (f s, s)) s).0 a h)
