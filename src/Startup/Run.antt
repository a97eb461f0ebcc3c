-- ===== src/Startup/Run.antt =====
-- What a whole run of the program keeps, from an empty database.
use overworld_ops.Store.Valid.Invariant.{IsValid-invariant}
use overworld_ops.Base.{
  [], refl, count_where, ℕ, ◌≡◌, ◌≤◌, arith, true, count_mono, Text, Option, ℤ, List,
}
use overworld_ops.Config.{Config, loaded, load}
use overworld_ops.Startup.{
  start, configured, World, served, prepare, Host, pure, StartError, Env, run, Result, HttpRequest,
  ok, err, ◌>>=◌,
}
use overworld_ops.System.{World, pure, Env, Result, ok, err, ◌>>=◌}
use overworld_ops.Models.{Server}
use overworld_ops.Store.Valid.{IsValid}
use overworld_ops.Api.Registry.PortRange.{PortsInRange, is_outside, PortsInRange-invariant}
use overworld_ops.Api.Registry.Capacity.{server_count, HasRoom, HasRoom-invariant, capacity-Special}
use overworld_ops.System.Keeps.{Returns, Returns-bind, Returns-pure}
use overworld_ops.Store.Keeps.{TableInvariant}
use overworld_ops.Api.Routes.{HttpRequest}
use overworld_ops.Api.Keeps.Endpoints.{
  AllSpecial, serve_all-Keeps, all_special, full-Special, request_of,
}
use overworld_ops.Startup.Keeps.{start-Keeps}
use overworld_ops.Config.Ranges.{load_ranges}

-- The registry is well formed, every port is in the configured range and is a port, and there are
-- no more servers than the cap allows.
pub record IsSound (cfg : Config) (s : World) : Type 0 where
  pub valid : IsValid s
  pub ports : PortsInRange cfg.port_range_start cfg.port_range_end s
  pub real_ports : PortsInRange 1 65535 s
  pub capped : server_count s ≤ cfg.max_servers

returned_config : (cfg : Config) → Returns (λ c. c ≡ cfg) (pure {E = StartError} cfg)
returned_config cfg = Returns-pure cfg refl

prepare-Returns : (host : Host) (cfg : Config) → Returns (λ c. c ≡ cfg) (prepare host cfg)
unfolding prepare
prepare-Returns host cfg = search (Returns-bind, returned_config) depth 16

start-Returns : (host : Host) (cfg : Config) → Returns (λ c. c ≡ cfg) (start host (loaded cfg))
unfolding start configured ◌>>=◌ pure
start-Returns host cfg = record { at = λ e s. (prepare-Returns host cfg).at e s }

empty-IsValid : (s : World) → s.users ≡ [] → s.servers ≡ [] → IsValid s
unfolding count_where
empty-IsValid s no_users no_servers = record {
  user_ids = λ k. rw no_users (omega arith);
  usernames = λ k. rw no_users (omega arith);
  server_ids = λ k. rw no_servers (omega arith);
  ports = λ p. rw no_servers (omega arith);
  owners = λ k. rw no_servers (λ owned. absurd (omega arith));
}

-- The range that `Load` lets through holds real ports only.
real_port :
    (start end : ℕ) (v : Server)
    → 1 ≤ start
    → end ≤ 65535
    → is_outside 1 65535 v ≡ true
    → is_outside start end v ≡ true
real_port start end v low high h = ground arith

real_ports_of :
    (start end : ℕ) (s : World)
    → 1 ≤ start
    → end ≤ 65535
    → PortsInRange start end s
    → PortsInRange 1 65535 s
real_ports_of start end s low high h = omega (
  arith,
  count_mono (is_outside 1 65535) (is_outside start end) s.servers
      (λ v. real_port start end v low high),
)

no_room_left : (max : ℕ) (s : World) → HasRoom max 0 s → server_count s ≤ max
no_room_left max s h = omega arith

module _ {P : World → Type 0} (inv : TableInvariant P) (host : Host) (cfg : Config) (e : Env) where
  served_keeps :
      (r : Result StartError Config) (rs : List HttpRequest) (t : World)
      → ((c : Config) → r ≡ ok c → c ≡ cfg)
      → AllSpecial P cfg rs
      → P t
      → P (served r e rs t)
  unfolding served
  served_keeps (ok c) rs t same special h =
      rw (same c refl) (serve_all-Keeps inv cfg e rs t special h)
  served_keeps (err x) rs t same special h = h

  -- A run keeps what the start and every request keep.
  pub run_keeps :
      (rs : List HttpRequest) (s : World)
      → AllSpecial P cfg rs
      → P s
      → P (run host (loaded cfg) e rs s)
  unfolding run
  run_keeps rs s special h =
      served_keeps (start host (loaded cfg) e s).0 rs (start host (loaded cfg) e s).1
        ((start-Returns host cfg).at e s) special ((start-Keeps inv host (loaded cfg)).at e s h)

-- From an empty database, a run of the program with the configuration that `Load` returns, whatever
-- the environment variables, the requests and the failures of the outside are, always has a well
-- formed registry, in which every port is in the configured range and lies between 1 and 65535, and
-- which has no more servers than the cap allows.
pub run-IsSound :
    (getenv : Text → Text) (parse_float parse_duration : Text → Option ℤ) (cfg : Config)
    (host : Host) (e : Env) (rs : List HttpRequest) (s : World)
    → load getenv parse_float parse_duration ≡ loaded cfg
    → s.users ≡ []
    → s.servers ≡ []
    → IsSound cfg (run host (load getenv parse_float parse_duration) e rs s)
unfolding count_where
run-IsSound getenv parse_float parse_duration cfg host e rs s given no_users no_servers =
    let ranges = load_ranges getenv parse_float parse_duration cfg given in
    let ports =
      run_keeps (PortsInRange-invariant cfg.port_range_start cfg.port_range_end).tables host cfg e
        rs s
        (all_special
          (λ r value.
            full-Special (PortsInRange-invariant cfg.port_range_start cfg.port_range_end) cfg
              (λ v inside. inside) (request_of r value) r.payload)
          rs)
        (rw no_servers refl) in
    rw given (record {
      valid =
          run_keeps IsValid-invariant.tables host cfg e rs s
            (all_special
              (λ r value.
                full-Special IsValid-invariant cfg (λ v _. tt) (request_of r value) r.payload)
              rs)
            (empty-IsValid s no_users no_servers);
      ports = ports;
      real_ports =
          real_ports_of cfg.port_range_start cfg.port_range_end (run host (loaded cfg) e rs s)
            (ranges.0) (ranges.2) ports;
      capped = no_room_left cfg.max_servers (run host (loaded cfg) e rs s) (
          run_keeps (HasRoom-invariant cfg.max_servers 0) host cfg e rs s
            (all_special (λ r value. capacity-Special cfg (request_of r value) r.payload) rs)
            (rw no_servers (omega arith)));
    })
