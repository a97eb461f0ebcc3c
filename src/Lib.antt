-- ===== src/Lib.antt =====
-- Overworld Ops: the backend that lets friends deploy Minecraft servers on one machine.
--
-- The program (backend/) is a REST API over the Docker Engine and a SQLite registry of accounts and
-- servers. A request passes the CORS middleware and the table of routes, then a gate that reads the
-- session cookie and the account behind it, then a handler, which reads and writes the registry,
-- asks the port allocator for a host port, and sends requests to the Docker Engine.
--
-- Which file models which part:
--
--   Models, Models/Validate     backend/internal/store/models.go: Server, User,
--                               CreateServerInput.Validate
--   Store/Sql                   the schema and the SQL statements of backend/internal/store/sqlite.go
--   Store/Users, Store/Servers  the methods of Store in the same file
--   Ports                       backend/internal/ports/allocator.go: Allocate
--   Config                      backend/internal/config/config.go: Load, PublicHost
--   Docker/Types, Docker/Client backend/internal/docker/client.go and minecraft.go: the operations
--   Docker/Build, Docker/Size   buildEnv, buildResources, parseSize of minecraft.go
--   Docker/Image                EnsureImage of client.go
--   Docker/Logs                 backend/internal/docker/logs.go: DemuxLogs; below it the format that
--                               it reads
--   Api/Http                    backend/internal/api/respond.go: what a handler gets and answers
--   Api/Base64, Api/Session     the session cookie of backend/internal/api/auth.go
--   Api/Views, Api/Servers      backend/internal/api/servers.go
--   Api/Auth                    the gates, registration and login of backend/internal/api/auth.go
--   Api/Admin                   backend/internal/api/admin.go
--   Api/Answers                 how a handler ends: an error, or the record that it found
--   Api/Console                 backend/internal/api/logs.go
--   Api/Gate, Api/Ownership     what the gates and the lookup of a server let through
--   Api/Isolation               what an account may change of the servers of others
--   Api/Login, Api/Registration how an account gets in
--   Api/Routes, Api/Cors        backend/internal/api/server.go: Routes, withCORS, handleHealth; the
--                               paths that the mux of net/http redirects are in Api/Paths
--   Startup                     run of backend/cmd/overworld-ops/main.go, Open of sqlite.go
--
-- Beside a part, in files named for it, stand its proofs: Keeps, Leads, Post and Ends for what
-- actions preserve and establish, Valid and Registry for the state under any traffic, and
-- RoundTrip, Ranges, Accepted, Counts, Shape, Creates, Deletes, Starts, Stops, Renames, Lists,
-- Listing, Table, Deletion, Allocate, Fuel and Sound for what one operation promises.
--
-- System holds the state and the outside. A `World` is the two tables, the requests sent to Docker
-- so far (the latest first) and a count of how often the outside was asked. An `Env` answers for all
-- that the repository does not contain: the SQLite driver may fail any statement, the Docker Engine
-- answers by any function of the requests so far, and the clock, the UUIDs, bcrypt, HMAC-SHA256 and
-- the port probe are functions of the moment. A method or a handler is an `Act`: a function of both
-- that returns a value or an error with the new state; what was written before an error stays
-- written. An early `return` of a handler is the error of its action.
--
-- A Go string is a list of bytes, a Go map a list of pairs, a time a number of nanoseconds. A CPU
-- limit, a float64 in the source, is an integer number of billionths of a core of any size: a finer
-- limit, NaN, an infinity, and the conversion to int64 of a limit beyond its range have no
-- counterpart. An int64 that can
-- overflow wraps around in `add_int64` and `mul_int64`. A SQL table is the list of its rows, and a
-- statement that fails changes nothing.
--
-- Loops are recursions on the list that they walk. The allocator's loop recurs on the number of
-- ports that are left, `end + 1 - start`. The demultiplexer takes fuel, the number of bytes of the
-- stream, and every frame uses up at least eight of these. The decimal printer takes the number plus
-- one, and every digit divides it by ten.
--
-- Handlers run one after the other here; an interleaving of two handlers is not modelled. Not
-- modelled either: the debug flag, signals, the HTTP listener and the shutdown of the entrypoint,
-- the JSON encoder and decoder (a request carries its decoded body), logging, the frontend and the
-- scripts.
pub mod Base
pub mod Models
pub mod Docker
pub mod System
pub mod Store
pub mod Config
pub mod Ports
pub mod Api
pub mod Startup
pub mod Tests
