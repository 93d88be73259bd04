-- ===== src/Lib.antt =====
-- Verification of ServeoAPI, an HTTP API in Go that administers a server: users and their tokens,
-- personal API keys, the firewall, Docker containers, stacks and templates, and the files of the
-- containers with their backups.
--
-- The parts, and how they interact. A request passes JWTAuth (internal/core/middleware/jwt.go),
-- which asks ValidateToken (internal/core/middleware/token.go) for the user behind the bearer
-- token or API key, and RequirePermission (internal/core/middleware/rbac.go), which asks
-- HasPermission whether the user's comma-separated scopes grant the route's. The handlers of
-- internal/modules/v2 then read the context and change the database, the ticket store, the
-- firewall or the Docker engine. Logout, a change of the password and a change of the permissions
-- raise the token version of the user's row, which ValidateToken compares. The file manager and the
-- backups work on one tree of files, the first through os.Root, the second by absolute paths.
--
-- Files and sources:
--   Prelude         shared names, lists, Boolean tests and case lemmas
--   Text            strings as lists of bytes, and package strings and strconv as the program
--                   calls them: Bytes, Affix, Split, Trim, Case, Number (Atoi, FormatUint,
--                   ParseUint), Hex, Plain for digits and small letters
--   Http            internal/core/response/response.go, internal/core/contextkeys/keys.go,
--                   internal/modules/v2/common/auth.go. A handler maps a request and a state to
--                   a state and a response.
--   Rbac            internal/core/middleware/rbac.go (has_permission is HasPermission,
--                   require_permission is RequirePermission), and Catalog for
--                   internal/core/permissions/registry.go
--   Storage         the interfaces of what is not in the repository: the database behind gorm and
--                   its schema, bcrypt, the JWT package and its float64 numbers, each a record of
--                   operations with the documented laws that the program relies on; Memory has
--                   instances, which the examples run on
--   Auth            internal/modules/v2/auth: handler.go (login, logout, get_ticket), bearer.go,
--                   model.go (Admin for MigrateDatabase), and Tickets for tickets.go. The sync.Map of
--                   tickets is a function from tickets to entries; what goroutines do to it is a
--                   list of events.
--   Token           internal/core/middleware/token.go and jwt.go; Guard for the routes as
--                   RegisterRoutes builds them
--   Users           internal/modules/v2/users/handler.go and me.go
--   ApiKeys         internal/modules/v2/apikeys/handler.go
--   Firewall        internal/modules/v2/firewall/service.go (Ports for the port specifications,
--                   Status for the parser of ufw's output, Covers for the texts by
--                   which ufw names a port) and handler.go (Handler)
--   Docker          internal/modules/v2/docker: service.go (Paths for isBindSourceAllowed,
--                   Containers, Update for UpdateContainer and its rollback, with Changes for what a
--                   request asks), handler_compose.go (Compose, with Deployment for the files and
--                   the command of a stack), handler_containers.go (Handler), and Resources for the handlers of
--                   images, volumes, networks and the system. Engine is the Docker SDK: a
--                   record of operations on the engine's state. The inspected configuration is
--                   reached by pointers, so Objects is what they point to, and the assignments of
--                   UpdateContainer change what the rollback reads.
--   FilePath        packages path and path/filepath; FileSystem the tree of files that package os
--                   works on, with the places that an operation leaves alone
--   Files           internal/modules/v2/files: resolveSafeRoot and the handlers of the file
--                   manager (Root for the calls of os.Root); each maps a tree to a tree and a
--                   response
--   Backups         internal/modules/v2/backups/handler.go: the handlers, and Archive for zipDir and
--                   unzip. The bytes of an archive are a parameter: what package archive/zip makes
--                   of named contents, and what it reads of bytes.
--   Templates       internal/modules/v2/templates/handler.go: GetTemplate and DeployTemplate, which
--                   ends in the CreateContainer of Docker. The JSON package is a parameter; Filled
--                   describes the text that the template becomes.
--   Mcp             internal/modules/v2/mcp: the permission test of server.go and the tool
--                   ovh_reboot of tools.go, as one call (Cooldown) and as sections that two calls
--                   interleave (Race);
--                   Reading for the tools that read, file_read on the tree of files
--   RateLimit       internal/core/middleware/ratelimit.go. A limiter is a pointer, given by its
--                   address; the token bucket of golang.org/x/time/rate is a parameter. What
--                   requests and the cleaning goroutine do is a sequence of steps.
--   Config          internal/core/config/config.go and internal/core/middleware/cors.go
--
-- Numbers. uint is a natural number; token_version++ wraps at 2 ^ 64. Times are nanoseconds or
-- seconds as natural numbers that are given to the operation that asks for the time. FormatUint
-- writes n on n + 1 rounds of fuel, more than n has digits, which is proved by reading the text
-- again; every other loop goes over a list.
--
-- Errors are values, an Option, a sum or a Result; a slice out of range is the answer `panics`.
-- Decoders of JSON and YAML, the validator, ufw, Docker and the address parsers of package net are
-- parameters. The files are a tree without symbolic links, of which the program may read and
-- write everything; a MkdirAll that fails leaves it as it is. Maps of the language that are ranged over are lists in
-- the order that the run takes. Paths are those of Linux, where filepath.ToSlash changes nothing.
--
-- Not modelled: the Docker streams of logs and events and the terminal, the list of the templates
-- with the default ones, metrics, the updater, the OVH and metadata handlers, logging and the
-- start of the server.
pub mod Prelude
pub mod Templates
pub mod Text
pub mod FilePath
pub mod FileSystem
pub mod Http
pub mod RateLimit
pub mod Rbac
pub mod Storage
pub mod Auth
pub mod Token
pub mod Users
pub mod ApiKeys
pub mod Backups
pub mod Firewall
pub mod Docker
pub mod Mcp
pub mod Config
pub mod Files
