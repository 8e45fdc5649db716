-- ===== src/Lib.antt =====
-- ripcord is a feature-flag server: flags are kept in a database, evaluated by a pure engine for
-- each user, served from a ruleset that is cached in Redis, and guarded by API keys with scopes.
--
-- The parts, and the files that model them:
--   Engine    ripcord/engine.py: the specifications (Engine/Spec), bucketing and the percentage
--             rollout (Engine/Bucket), targeting rules (Engine/Rules), the weighted choice of a
--             variant (Engine/Variants) and `evaluate` (Engine/Evaluate). The other files of Engine
--             prove what these do.
--   Auth      ripcord/auth.py, ripcord/api/keys.py and the scopes of ripcord/deps.py: scopes and
--             principals (Auth/Scopes), the text of a key (Auth/Key), the table of keys
--             (Auth/Store), the verification cache, `authenticate` and the routes of keys
--             (Auth/Verify), and the dependency that guards a route (Auth/Guard).
--   Cache     ripcord/cache.py: the commands of Redis (Cache/Redis), the ruleset's reads, its fenced
--             rebuild and the change notification (Cache/Ruleset), and the interleavings of changes
--             with rebuilds (Cache/System).
--   Models    ripcord/models.py: rows of flags, rules, variants and audit entries.
--   Schemas   ripcord/schemas.py: requests (Schemas/Input, Schemas/Keys, Schemas/Evaluate) and their
--             validation (Schemas/Validate for flags).
--   Services  ripcord/services.py: the tables (Services/Store), the conversions and what an update
--             computes (Services/Flags), the operations (Services/Operations), the JSON payloads that
--             the cache holds (Services/Payload), the cached evaluation (Services/Cached), the
--             histories of a table (Services/History), an abstract registry of flags
--             (Services/Refinement), and the changes as commits of the cache's system
--             (Services/Commits).
--   Api       ripcord/api/flags.py: the routes that change flags (Api/Flags). ripcord/api/keys.py: the
--             routes of keys (Api/Keys). ripcord/api/realtime.py: the ruleset (Api/Ruleset) and the
--             events of the stream (Api/Realtime). ripcord/api/evaluate.py and
--             ripcord/api/insights.py: Api/Evaluate, Api/Insights. ripcord/deps.py: the routes
--             behind their dependencies (Api/Guarded, Api/Endpoints).
--   Sdk       ripcord/sdk/client.py: the client's copy of the ruleset, its refresh and its reads
--             (Sdk/Client), the watch loop (Sdk/Watch), the construction and the end of a client
--             (Sdk/Lifecycle).
--   Logging   ripcord/logging_config.py: the filter that redacts credentials in the access log.
--   Metrics   ripcord/metrics.py: what the middleware counts, and the reading of the counter.
--   App       ripcord/main.py: the checks of `create_app` (App/Startup). ripcord/cli.py: its two
--             commands (App/Commands).
--   Prelude and Json are shared: tests on numbers, lists, Python's string order and dicts, JSON values.
--   Tests     concrete runs, with concrete instances of every interface.
--
-- How they meet: a route (Api/Flags) authenticates its caller (Auth/Guard), takes a request that
-- has been validated (Schemas), changes the table (Services/Operations) and announces the new
-- payload (Cache/Ruleset); an evaluation turns a row or a cached payload into a specification for
-- the engine (Engine/Evaluate). A client of the SDK reads the stream of announcements (Sdk/Watch),
-- fetches the ruleset at each one (Api/Ruleset) and evaluates on its copy (Sdk/Client).
--
-- State is passed explicitly. Where other requests may run between two awaits, the operation takes
-- the state that it reads and the state at which it commits apart, or is cut into the steps of a
-- relation: Auth/Mirror for one process's cache of keys beside other processes on the same table,
-- where a request may store its entry long after its SELECT; Cache/System for one change at a time
-- with any number of rebuilds and expiries, where a bump or an announcement may fail. A change
-- announces a flag with its rules in the order of the request, and the table has them by priority:
-- Cache/System leaves the relation of the two payloads open, Services/Announced states the
-- program's (Services/Commits has it beside the operations), and Services/Ordered that of flags
-- whose rules are listed by priority, for which the two are one. A flag whose last announcement
-- failed is marked in the state (`lost`), since the cache is then allowed to be stale.
--
-- Parameters, with what the program relies on as named laws: MD5 and SHA-256 are functions on
-- texts; the tokens of `secrets` and the clocks are arguments; SQLAlchemy is the records KeyStore
-- and FlagStore (unique keys, the version guard of an UPDATE or DELETE, rolled back commits); Redis
-- is the record Redis (a hash and a counter, each command atomic, a failing command changing
-- nothing); the JSON codec is an argument, with the columns `id`, `created_at` and `updated_at`
-- that a query loads as they are; so are what a connection of the client brings, how an event is
-- written on the wire, and what each of its requests brings. The body of the ruleset is the list of
-- the JSON texts between its commas, and is read as the array of what they hold.
--
-- The watch loop of the client has no end of its own: it is recursion on fuel, one unit a round,
-- and no theorem is about its end, since a stream may stay open for ever. What a connection has
-- brought when it ends is a list of lines, and the theorems on the stream are about the lines of
-- one connection (`read_connection`). Every other loop is structural recursion. The search of the
-- redaction's pattern is written as a machine that reads a text once.
--
-- Bounds: a bucket is below 10000. Weights, percentages and versions are natural numbers, as the
-- schemas demand; a rule's priority is an integer. The source divides `bucket * total` by 10000 in
-- floating point before it compares it with a sum of weights; the model compares `bucket * total`
-- with 10000 times that sum, which is the same while weights sum to less than 2 ^ 38, since the
-- quotient is then within half a unit in the last place of a number that is a whole or at least 1 /
-- 10000 away from one. The fallback of the loop, to the last variant, is part of the model; exact
-- arithmetic reaches it only at a zero total.
--
-- Not modelled: the running time of `hmac.compare_digest`; row ids and time stamps of flags; a time
-- to live as a number (the cached hash may vanish at any step instead); a rebuild whose read of the
-- counter raised, which publishes without a fence, is no step of Cache/System; the health check, a
-- constant; the documentation pages of the framework; two changes at a time in the cache's system;
-- the construction of the application, the argument parser, the text of the log and of the metrics,
-- which are calls of libraries; the cancellation of the watch task; the migrations, the scripts and
-- the dashboard.
pub mod Prelude
pub mod Json
pub mod Engine
pub mod Auth
pub mod Cache
pub mod Models
pub mod Schemas
pub mod Services
pub mod Logging
pub mod Metrics
pub mod Api
pub mod App
pub mod Sdk
mod Tests
