-- ===== src/Api/Servers/Creates/Answer.antt =====
-- A request to create a server adds one record to the table, or leaves it as it is.
use overworld_ops.Api.Answers.{either, Refused, decoded-Ends}
use overworld_ops.Base.{
  if◌then◌else◌, is_empty, is_zero, ℕ, [], ◌∷◌, ◌++◌, some, Option, ◌≡◌, ◌⊎◌, refl, count_where,
}
use overworld_ops.Models.{Server, User, CreateServerInput}
use overworld_ops.Models.Validate.{valid, validate}
use overworld_ops.Config.{Config}
use overworld_ops.Docker.Client
use overworld_ops.Docker.Client.{DockerError}
use overworld_ops.Docker.Keeps.{docker_keeps}
use overworld_ops.System.{◌>>=◌, World, Env, attempt}
use overworld_ops.System.Ends.{
  Ends, Ends-known, Ends-from, Ends-weaken, Ends-bind, Ends-map_err, Ends-attempt,
}
use overworld_ops.Store.Sql.{has_id}
use overworld_ops.Store.Made.Insert.{Same, Added, create_server-Ends}
use overworld_ops.Store.Made.{IsSpecOf, IsSpecOf-meet, IsSpecOf-given, Made, Made-OfTables}
use overworld_ops.Api.Http.{Response, Body, ServerView, serve}
use overworld_ops.Api.Views.{spec_for}
use overworld_ops.Api.Servers.{handle_create_server, insert_made, new_server, finish_create}
use overworld_ops.Api.Servers.Creates.{
  finish_create-Ends, create_error-IsError, IsLowest, validated-Ends, admit-Ends, ask_port-Ends,
}

module _ (cfg : Config) (u : User) (input : Option CreateServerInput) (e : Env) (s : World) where
  -- One record was added: a new one for the account, with the accepted input and the lowest free
  -- port, and the answer shows it.
  pub record IsCreation (r : Response) (t : World) : Type 0 where
    pub given : CreateServerInput
    pub accepted : CreateServerInput
    pub port : ℕ
    pub added : Server
    pub shown : ServerView
    pub read : input ≡ some given
    pub valid_input : validate given ≡ valid accepted
    pub lowest : IsLowest cfg e s port
    pub new_id : count_where (has_id added.id) s.servers ≡ 0
    pub table : t.servers ≡ s.servers ++ added ∷ []
    pub owner_id : added.owner_id ≡ u.id
    pub at_port : added.port ≡ port
    pub name : added.name ≡ accepted.name
    pub server_type : added.server_type ≡ accepted.server_type
    pub version : added.version ≡ accepted.version
    pub modpack_provider : added.modpack_provider ≡ accepted.modpack_provider
    pub modpack_id : added.modpack_id ≡ accepted.modpack_id
    pub memory :
        added.memory ≡ (if is_empty accepted.memory then cfg.default_memory else accepted.memory)
    pub cpu_limit :
        added.cpu_limit
        ≡ (if is_zero accepted.cpu_limit then cfg.default_cpu_limit else accepted.cpu_limit)
    pub answer : r.body ≡ Body.server shown
    pub same : IsSpecOf added shown.server
    pub status : (r.status ≡ 201) ⊎ (r.status ≡ 500)

  created-Ends :
      (given q : CreateServerInput) (port : ℕ) (v : Server)
      → input ≡ some given
      → validate given ≡ valid q
      → IsLowest cfg e s port
      → Ends e (Added s.servers (new_server cfg u q port) v) IsCreation (Refused s) (
          attempt (Client.create_server cfg.minecraft_image (spec_for cfg v))
          >>= finish_create cfg v)
  unfolding new_server
  created-Ends given q port v read accepted lowest =
      Ends-from {P = Made s.servers v} (λ t (fresh, made, agreed). (made, (fresh, agreed)))
        (λ (fresh, agreed).
          Ends-bind (λ _. Made s.servers v) _ _
            (Ends-attempt _ (search (docker_keeps, Made-OfTables)))
            (λ made.
              Ends-weaken
                (λ r t ((w, table, same), status, (shown, answer, alike)).
                  let columns = IsSpecOf-given (new_server cfg u q port) v w agreed same in
                  record {
                    given = given;
                    accepted = q;
                    port = port;
                    added = w;
                    shown = shown;
                    read = read;
                    valid_input = accepted;
                    lowest = lowest;
                    new_id = rw same.id fresh;
                    table = table;
                    owner_id = columns.owner_id;
                    at_port = columns.port;
                    name = columns.name;
                    server_type = columns.server_type;
                    version = columns.version;
                    modpack_provider = columns.modpack_provider;
                    modpack_id = columns.modpack_id;
                    memory = columns.memory;
                    cpu_limit = columns.cpu_limit;
                    answer = answer;
                    same = IsSpecOf-meet v w shown.server same alike;
                    status = status;
                  })
                (λ x t h. h) (finish_create-Ends cfg e s.servers v made fresh)))

  insert_made-Ends :
      (given q : CreateServerInput) (port : ℕ)
      → input ≡ some given
      → validate given ≡ valid q
      → IsLowest cfg e s port
      → Ends e (Same s.servers) IsCreation (Refused s) (insert_made cfg u q port)
  unfolding insert_made
  insert_made-Ends given q port read accepted lowest =
      Ends-bind _ _ _
        (Ends-map_err _ _ (
          Ends-weaken (λ v t h. h) (λ x t h. (h, create_error-IsError x))
            (create_server-Ends s.servers e (new_server cfg u q port))))
        (λ v. created-Ends given q port v read accepted lowest)

  handle_create_server-Ends :
      Ends e (Same s.servers) IsCreation (Refused s) (handle_create_server cfg u input)
  unfolding handle_create_server
  handle_create_server-Ends = Ends-bind _ _ _ (decoded-Ends input) (λ given. Ends-known (λ read.
      Ends-bind _ _ _ (validated-Ends cfg e s (validate given)) (λ q. Ends-known (λ accepted.
        Ends-bind _ _ _ (admit-Ends cfg e s q) (λ _.
          Ends-bind _ _ _ (ask_port-Ends cfg e s)
            (λ port. Ends-known (λ lowest. insert_made-Ends given q port read accepted lowest)))))))

-- A request to create a server, whatever fails on the way, either answers with a server, with 201
-- or 500, and has added one record at the end of the table, or it answers with an error and leaves
-- the table as it was. The record that was added is owned by the account and has a new ID, the
-- lowest free port of the range and what the accepted input says, with the defaults of the
-- configuration for a memory or a CPU limit that is not given; the server that is shown is that one.
pub handle_create_server-Creates :
    (cfg : Config) (u : User) (input : Option CreateServerInput) (e : Env) (s : World)
    → IsCreation cfg u input e s
        (serve (handle_create_server cfg u input) e s).0
        (serve (handle_create_server cfg u input) e s).1
      ⊎ Refused s
          (serve (handle_create_server cfg u input) e s).0
          (serve (handle_create_server cfg u input) e s).1
unfolding serve
handle_create_server-Creates cfg u input e s =
    either (IsCreation cfg u input e s) (Refused s) _ _
      ((handle_create_server-Ends cfg u input e s).at s refl)
