-- ===== src/Config.antt =====
-- backend/internal/config/config.go: the configuration and how it is read from the environment.
--
-- `getenv` is `os.Getenv`; `parse_float` (in billionths) and `parse_duration` (in nanoseconds)
-- are `strconv.ParseFloat` and `time.ParseDuration`, `none` where these return an error.
pub mod Ranges
use overworld_ops.Base.{
  ℕ, suc, ◌*◌, ◌/◌, ◌^◌, ◌==◌, leb, ltb, Bool, true, false, not, ◌&&◌, ◌||◌, if◌then◌else◌, Option,
  none, some, ◌++◌, Text, codes, text_eq, is_empty, ℤ, pos, negsuc, neg, itoa, parse_int,
}

pub record Config : Type 0 where
  pub http_addr : Text
  pub database_url : Text
  pub docker_host : Text
  pub minecraft_image : Text
  pub data_root : Text
  pub port_range_start : ℕ
  pub port_range_end : ℕ
  pub max_servers : ℕ
  pub probe_host_ports : Bool
  pub default_memory : Text
  pub default_cpu_limit : ℤ
  pub idle_timeout : ℤ
  pub session_secret : Text
  pub secure_cookies : Bool
  pub allow_registration : Bool
  pub admin_username : Text
  pub admin_password : Text
  pub curse_forge_api_key : Text
  pub cors_origin : Text
  pub stop_timeout : ℤ
  pub public_hostname : Text

-- `Config.PublicHost`
unfoldable pub public_host : Config → ℕ → Text
unfolding codes
public_host c port =
    if port == 25565 then c.public_hostname else c.public_hostname ++ (codes ":" ++ itoa port)

-- `int(d.Seconds())`, of a duration in nanoseconds
unfoldable pub seconds_of : ℤ → ℤ
seconds_of (pos n) = pos (n / 10 ^ 9)
seconds_of (negsuc n) = neg (suc n / 10 ^ 9)

-- `strconv.ParseBool`
unfoldable pub parse_bool : Text → Option Bool
unfolding text_eq codes
parse_bool s =
    if text_eq s (codes "1")
      || text_eq s (codes "t")
      || text_eq s (codes "T")
      || text_eq s (codes "true")
      || text_eq s (codes "TRUE")
      || text_eq s (codes "True")
    then some true
    else if text_eq s (codes "0")
        || text_eq s (codes "f")
        || text_eq s (codes "F")
        || text_eq s (codes "false")
        || text_eq s (codes "FALSE")
        || text_eq s (codes "False")
    then some false
    else none

abbrev get_or {ℓ} : {A : Type ℓ} → A → Option A → A
get_or d none = d
get_or d (some a) = a

pub data ConfigError : Type 0 where
  start_out_of_range end_out_of_range max_servers_too_small : ConfigError

pub data Loaded : Type 0 where
  loaded : Config → Loaded
  refused : ConfigError → Loaded

-- A port from 1 to 65535.
abbrev is_port : ℤ → Bool
is_port (pos n) = leb 1 n && leb n 65535
is_port (negsuc n) = false

abbrev pub pos_part : ℤ → ℕ
pos_part (pos n) = n
pos_part (negsuc n) = 0

abbrev at_least_one : ℤ → Bool
at_least_one (pos n) = leb 1 n
at_least_one (negsuc n) = false

module _ (getenv : Text → Text) (parse_float parse_duration : Text → Option ℤ) where
  unfoldable pub env : Text → Text → Text
  env key default = if is_empty (getenv key) then default else getenv key

  -- `envInt`, `envFloat`, `envBool` and `envDuration`, each with its parser
  unfoldable pub env_by {ℓ} : {A : Type ℓ} → (Text → Option A) → Text → A → A
  env_by parse key default =
      if is_empty (getenv key) then default else get_or default (parse (getenv key))

  -- The validation at the end of `Load`: the start, the end, then the number of servers.
  unfoldable pub checked : ℤ → ℤ → ℤ → Config → Loaded
  checked start end max c =
      if not (is_port start)
      then refused start_out_of_range
      else if not (is_port end) || ltb (pos_part end) (pos_part start)
      then refused end_out_of_range
      else if not (at_least_one max)
      then refused max_servers_too_small
      else loaded (record c {
        port_range_start = pos_part start;
        port_range_end = pos_part end;
        max_servers = pos_part max;
      })

  -- The fields that are not validated; the ports and the number of servers come with `checked`.
  unfoldable pub raw_config : Config
  unfolding codes env env_by
  raw_config = record {
    http_addr = env (codes "OWO_HTTP_ADDR") (codes ":8080");
    database_url = env (codes "OWO_DATABASE_URL") (codes "./data/overworld.db");
    docker_host = env (codes "OWO_DOCKER_HOST") (codes "");
    minecraft_image = env (codes "OWO_MINECRAFT_IMAGE") (codes "itzg/minecraft-server:latest");
    data_root = env (codes "OWO_DATA_ROOT") (codes "./data/servers");
    port_range_start = 0;
    port_range_end = 0;
    max_servers = 0;
    probe_host_ports = env_by parse_bool (codes "OWO_PROBE_HOST_PORTS") true;
    default_memory = env (codes "OWO_DEFAULT_MEMORY") (codes "2G");
    default_cpu_limit = env_by parse_float (codes "OWO_DEFAULT_CPU_LIMIT") (pos (2 * 10 ^ 9));
    idle_timeout = env_by parse_duration (codes "OWO_IDLE_TIMEOUT") (pos (30 * 60 * 10 ^ 9));
    session_secret = env (codes "OWO_SESSION_SECRET") (codes "dev-only-insecure-secret");
    secure_cookies = env_by parse_bool (codes "OWO_SECURE_COOKIES") false;
    allow_registration = env_by parse_bool (codes "OWO_ALLOW_REGISTRATION") true;
    admin_username = env (codes "OWO_ADMIN_USERNAME") (codes "");
    admin_password = env (codes "OWO_ADMIN_PASSWORD") (codes "");
    curse_forge_api_key = env (codes "OWO_CURSEFORGE_API_KEY") (codes "");
    cors_origin = env (codes "OWO_CORS_ORIGIN") (codes "http://localhost:5173");
    stop_timeout = env_by parse_duration (codes "OWO_STOP_TIMEOUT") (pos (60 * 10 ^ 9));
    public_hostname = env (codes "OWO_PUBLIC_HOSTNAME") (codes "localhost");
  }

  unfoldable pub load : Loaded
  unfolding codes env_by checked raw_config
  load =
      checked (env_by parse_int (codes "OWO_PORT_RANGE_START") (pos 25565))
        (env_by parse_int (codes "OWO_PORT_RANGE_END") (pos 25665))
        (env_by parse_int (codes "OWO_MAX_SERVERS") (pos 10)) raw_config
