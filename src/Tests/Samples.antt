-- ===== src/Tests/Samples.antt =====
-- A small installation: two accounts, one server, and an environment in which nothing fails.
use overworld_ops.Base.{[], none, some, codes, ◌∷◌, true, false, pos, ◌%◌}
use overworld_ops.Models.{User, Server, stopped}
use overworld_ops.Config.{Config}
use overworld_ops.System.{Env, World, ok}
use overworld_ops.Api.Routes.{HttpRequest, Payload, Method}

abbrev pub root : User
root = record {
  id = 1 ∷ [];
  username = codes "root";
  password_hash = 9 ∷ [];
  is_admin = true;
  created_at = 1;
}

abbrev pub friend : User
friend = record {
  id = 2 ∷ [];
  username = codes "friend";
  password_hash = 8 ∷ [];
  is_admin = false;
  created_at = 2;
}

abbrev pub smp : Server
smp = record {
  id = 7 ∷ [];
  name = codes "SMP";
  owner_id = 2 ∷ [];
  server_type = codes "VANILLA";
  version = codes "LATEST";
  modpack_provider = [];
  modpack_id = [];
  port = 25565;
  memory = codes "2G";
  cpu_limit = pos 2000000000;
  status = stopped;
  status_message = [];
  container_id = 5 ∷ [];
  created_at = 3;
  updated_at = 3;
  last_active_at = none;
}

abbrev pub world : World
world = record { users = root ∷ friend ∷ []; servers = smp ∷ []; calls = []; ticks = 0 }

-- Nothing fails, a UUID tells the moment, and a password hashes to itself.
abbrev pub calm : Env
calm = record {
  driver_fault = λ n. none;
  clock = λ n. n;
  uuid = λ n. (n % 100) ∷ 9 ∷ [];
  bcrypt_hash = λ n password. some password;
  bcrypt_matches = λ hash password. false;
  hmac_sha256 = λ key message. 171 ∷ [];
  port_binds = λ n p. true;
  engine_fault = λ past c. none;
  engine_create = λ past c. ok (6 ∷ []);
  engine_inspect = λ past id. ok (id, none);
  engine_list = λ past c. ok [];
  engine_logs = λ past id tail. ok [];
  redirect_status = λ path. 307;
  engine_pull = λ past image. ok [];
}

abbrev pub config : Config
config = record {
  http_addr = [];
  database_url = [];
  docker_host = [];
  minecraft_image = [];
  data_root = [];
  port_range_start = 25565;
  port_range_end = 25570;
  max_servers = 2;
  probe_host_ports = true;
  default_memory = codes "2G";
  default_cpu_limit = pos 2000000000;
  idle_timeout = pos 0;
  session_secret = codes "secret";
  secure_cookies = false;
  allow_registration = true;
  admin_username = [];
  admin_password = [];
  curse_forge_api_key = [];
  cors_origin = [];
  stop_timeout = pos 60000000000;
  public_hostname = codes "localhost";
}

abbrev pub no_payload : Payload
no_payload = record {
  credentials = none;
  new_server = none;
  rename = none;
  new_user = none;
  user_change = none;
}

abbrev pub register_request : HttpRequest
register_request = record {
  method = Method.post;
  path = codes "api" ∷ codes "auth" ∷ codes "register" ∷ [];
  origin = [];
  query = λ k. [];
  cookie = none;
  payload = record no_payload {
    credentials = some (record { username = codes "steve"; password = codes "password" });
  };
}
