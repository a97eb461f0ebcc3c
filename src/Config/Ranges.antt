-- ===== src/Config/Ranges.antt =====
-- What `Load` guarantees of a configuration.
use overworld_ops.Base.{Text, ℤ, Option, pos, negsuc, ◌≡◌, ◌≤◌, arith, parse_int, codes}
use overworld_ops.Config.{Config, loaded, checked, load, env_by, raw_config}

checked_ranges :
    (getenv : Text → Text) (parse_float parse_duration : Text → Option ℤ) (start end max : ℤ)
    (c d : Config)
    → checked getenv parse_float parse_duration start end max c ≡ loaded d
    → (1 ≤ d.port_range_start)
      × (d.port_range_start ≤ d.port_range_end)
      × (d.port_range_end ≤ 65535)
      × (1 ≤ d.max_servers)
unfolding checked
checked_ranges g f t (pos a) (pos b) (pos m) c d h = ground arith
checked_ranges g f t (negsuc a) (pos b) (pos m) c d h = ground arith
checked_ranges g f t (pos a) (negsuc b) (pos m) c d h = ground arith
checked_ranges g f t (pos a) (pos b) (negsuc m) c d h = ground arith
checked_ranges g f t (negsuc a) (negsuc b) (pos m) c d h = ground arith
checked_ranges g f t (negsuc a) (pos b) (negsuc m) c d h = ground arith
checked_ranges g f t (pos a) (negsuc b) (negsuc m) c d h = ground arith
checked_ranges g f t (negsuc a) (negsuc b) (negsuc m) c d h = ground arith

-- Whatever the environment holds, a configuration that `Load` returns has a port range that is not
-- empty and lies between 1 and 65535, and allows at least one server.
pub load_ranges :
    (getenv : Text → Text) (parse_float parse_duration : Text → Option ℤ) (d : Config)
    → load getenv parse_float parse_duration ≡ loaded d
    → (1 ≤ d.port_range_start)
      × (d.port_range_start ≤ d.port_range_end)
      × (d.port_range_end ≤ 65535)
      × (1 ≤ d.max_servers)
unfolding load
load_ranges g f t d h =
    checked_ranges g f t (env_by g f t parse_int (codes "OWO_PORT_RANGE_START") (pos 25565))
      (env_by g f t parse_int (codes "OWO_PORT_RANGE_END") (pos 25665))
      (env_by g f t parse_int (codes "OWO_MAX_SERVERS") (pos 10)) (raw_config g f t) d h
