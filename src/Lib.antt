-- ===== src/Lib.antt =====
-- The backend of the WhatsApp clone (backend/internal), modelled after its source: accounts and
-- sessions, one-time codes, Signal prekeys, conversations and messages, over PostgreSQL and Redis.
--
-- How the parts interact: a request passes RequireAuth (middleware), which asks the tokens of auth and
-- the devices table; its handler calls one service, and each service reads and writes the tables that it
-- shares with the others. auth calls otp, which keeps its codes in Redis.
--
-- Files:
--   Base       numbers, options and lists, and the list functions that SQL statements are read with.
--   Models     the rows of the ten tables (backend/internal/models).
--   Action     a method that changes a state and may return an error.
--   Redis      the interface of the six Redis commands that otp calls, with their laws.
--   Crypto     the interface of bcrypt, SHA-256, JWT signing and random numbers.
--   Store      the tables with the unique indexes of backend/migrations; statements, transactions and
--              Redis commands, and what each has done by how it ended; Store/Keeps has the rules for what
--              an action keeps of the tables.
--   Config     backend/internal/config/config.go: Load, getEnv and getEnvInt, with strconv.Atoi.
--   Web        answers: a status with a JSON body, and what the handlers of the packages share.
--   Otp        backend/internal/otp/service.go: Generate and Verify; Otp/Guard on one call of
--              Verify, Otp/Limit on any number of them.
--   Auth       backend/internal/auth: Accounts (Register, VerifyOTP, ResendOTP), Tokens, Sessions (Login,
--              Logout, Refresh), and Middleware (backend/internal/middleware/auth.go).
--   Keys       backend/internal/keys: Base64 and Validation (validation.go), Upload and Bundle (service.go).
--   Users      backend/internal/users/service.go.
--   Conversations  backend/internal/conversations/service.go: Create and Listing.
--   Messages   backend/internal/messages/service.go: Send (SendMessage) and Listing (ListMessages).
--   Server     backend/internal/server/server.go: the routes, and which of them stand behind RequireAuth;
--              with them backend/internal/health/handler.go. The handler of each package is its child
--              Handler (backend/internal/*/handler.go): Auth/Handler, Keys/Handler, and so on.
--   History    what the tables record for good, through every service and handler.
--   Refusals   what the answers with a status from 400 to 499 leave, through every service and handler.
--   Startup    backend/cmd/api/main.go up to the call of Run, with the functions Connect of
--              backend/internal/db/db.go and backend/internal/cache/redis.go. The drivers are parameters.
--   Steps      each request as what it writes: single statements, the rotation of a signed prekey, and the
--              two transactions (an interface, Steps/Writes, for which History and Invariants each give a
--              value).
--   Invariants predicates of the tables that no index or constraint demands: on the active signed prekeys
--              of a device, and on the members of a conversation.
--   Tests      a sample world, and the theorems at concrete inputs.
--
-- State: World holds the tables, the contents of Redis and the number of statements issued. A method is a
-- function from a World to a result and a World, written as a do block in the order of the Go code, with
-- `err != nil` checks as its early returns. What was written before an error stays written.
--
-- The outside world is the record Env, a parameter of every method. By the number of a statement it says
-- whether the statement takes effect, fails, or takes effect and loses its reply; it gives the time, new
-- UUIDs, the order of rows that no ORDER BY fixes, and the rows that other transactions hold locked. A
-- theorem holds for every Env. Unique indexes are checked by the model; every other constraint (foreign
-- keys, CHECKs, lengths) is among the failures that the Env may choose. The equality of CITEXT is a
-- parameter too, of which only reflexivity is assumed.
--
-- Bounds: times are microseconds and UUIDs are numbers, with uuid.Nil as 0; Go's int is only compared
-- here and has no bound. There is no fuel: every loop of the source runs along a list or a fixed count.
-- Go's zero time, which gorm sends for joined_at and issued_at, is 0. The two
-- times in an access token are whole seconds, as jwt.NewNumericDate makes them; the expires_at that a
-- login answers keeps its microseconds.
--
-- A handler is a function from a World to one answer and a World. Gin finds the route of a request and
-- decodes and validates its path, query and body before the handler's own code runs, so a handler is given
-- what this yields: the request as a record, or nothing where it does not bind. Of an error's JSON the
-- `code` is kept, and its texts are left out. A run of the server is a list of requests, served one
-- after the other.
--
-- Not modelled: the steps of other requests between two statements of a method (a theorem about a method
-- speaks of the tables as it finds and leaves them); logging; Gin with its binding tags and its routing,
-- and so the composition of the services in server.New; and the Flutter client under mobile.
pub mod Base
pub mod Models
pub mod Action
pub mod Redis
pub mod Crypto
pub mod Config
pub mod Store
pub mod Web
pub mod Otp
pub mod Auth
pub mod Keys
pub mod Users
pub mod Conversations
pub mod Messages
pub mod Server
pub mod Startup
pub mod Steps
pub mod History
pub mod Invariants
pub mod Refusals
mod Tests
