-- ===== src/Lib.antt =====
-- Verification of the task scheduling platform, a NestJS service for workspaces, projects, nested
-- tasks, comments, notifications and reminders over PostgreSQL.
--
-- The program's parts. Each service of src/modules is modelled by the module of its name, method by
-- method, as a function on the whole state: `Exec A` (Exec.antt) reads and writes a `World` and
-- returns a value or an exception, and what was written before a throw stays written.
--   World        the rows of the tables (modules/*/entities), the domain events and the queue's jobs
--   World.Tree   the recursive queries; World.Cascade what the foreign keys delete with a row
--   Http         the exceptions of the services and their status codes
--   Pagination   common/pagination and the query of every list endpoint
--   Projects, Tasks, Comments, Users, Activity   the services of src/modules/<name>; Tasks.Subtree the
--                nested answer of getSubtree, Tasks.Commands the writes of TasksService in sequence
--   Auth         modules/auth: AuthService, and RefreshTokenService in Auth.RefreshTokens
--   Workspaces, Invitations   modules/workspaces, with the guards in Workspaces.Guards and
--                common/utils/slugify.util.ts in Workspaces.Slugs
--   Notifications, Reminders   the services, listeners and workers of these modules;
--                Reminders.Scheduler reminders/scheduler.service.ts
--   Realtime     modules/realtime: the gateway, and in Realtime.Cluster the bridge between processes
--   Api          the controllers of src/modules with their guards (`serve`), and in Api.Errors
--                common/filters
--   Base, Samples   shared lemmas on tables, and the small workspace of the tests
-- The services call one another as in the source: tasks, comments and activity look up their project
-- or task first, tasks and comments emit events, and listeners turn events into notifications, jobs
-- and activity rows.
--
-- Conventions. Ids, hashes, tokens and addresses are only compared, so they are numbers. `Instant` is
-- a Date in milliseconds; `Micros` a column that the database fills in, in microseconds. A `Stamp` is
-- the id and the time that the database gives a new row; clocks and random values are arguments. A
-- table is the list of its rows, a `where` clause a Boolean test, and `save` replaces the rows with
-- the key of the saved one. An option of an option is a field that may be undefined or null. One
-- method runs at a time; concurrent requests are sequences of whole requests.
--
-- Fuel. A recursive query is evaluated level by level, with one level more than the table has rows.
-- In a forest that is enough (see World.Tree.Forest), and so are as many levels for the
-- nested answer (Tasks.Subtree.Shape).
--
-- Code that is not in the repository is a parameter with named hypotheses: `Codec` (base64url, Date,
-- casts) with `IsFaithful`, `CacheManager` with `IsCache`, the queue's `add` with `IsDeduplicating`,
-- `Crypto` (Argon2, SHA-256, token signing), the case folding of addresses, `verify` (the check of a
-- bearer token), `SocketIo` with `IsSocketIo`, `Redis` with `IsRedis`, `Json`, and in Reminders
-- which calls of the database fail while a reminder is delivered.
--
-- Not modelled: failures of the database elsewhere, a null for a column that admits none (the
-- database refuses it), the logging interceptor, which no module registers, health checks,
-- configuration, the wiring of modules, migrations, rate limiting, and the validation of bodies and
-- path parameters, which comes before the handlers.
pub mod Base
pub mod Http
pub mod World
pub mod Samples
pub mod Exec
pub mod Pagination
pub mod Projects
pub mod Tasks
pub mod Notifications
pub mod Activity
pub mod Api
pub mod Comments
pub mod Users
pub mod Auth
pub mod Workspaces
pub mod Invitations
pub mod Reminders
pub mod Realtime
