-- ===== src/Lib.antt =====
-- The verification library of template_golang_web, a web service in Go: a back office over users
-- with wallets, on PostgreSQL through sqlc (db/sqlc), on Redis (cache), behind gin (api), with a
-- scheduled clean-up (scheduler).
--
-- A request passes the layers of api/server.go, whose handlers call the store and the cache. Here a
-- request works on a `World`: the database, the Redis, the time, and the number of calls made so
-- far (Env). A call of the store or the cache is a function from a world to a result and a world.
-- Each may fail: `Env.fault` says for the n-th call whether it is fine, is refused before it takes
-- effect, or takes effect and loses its reply; both with a deadline or another error. A theorem
-- that does not name `healthy` holds for all faults.
--
--   Base, Base/Tests, Lists, Any, Int: shared names, Boolean tests, lists as tables, integers.
--   Utf8, Strconv: the texts that the database takes, and strconv's ParseInt and FormatInt.
--   Db/Model: the rows of db/sqlc/models.go. Db/Error: the errors, and what a query is.
--   Db/Users, Db/AdminUsers, Db/Wallets, Db/Entries, Db/OperationLogs, Db/Roles: the queries of
--     db/sqlc/*.sql.go, one function each, with the unique indexes and foreign keys of db/migration
--     that they can break. A bigint that overflows is an error, as in PostgreSQL.
--   Db/Tx: execTx of db/sqlc/store.go and the transactions of db/sqlc/tx_*.go; Db/Tx/Atomic,
--     Adjust, Create, Roles, Replace, Verdict and Withdrawals prove what they do.
--   Db/Store: the calls that change the database as a type, and sequences of them. Db/Ledger: the
--     invariant of wallets and their entries, and Db/Registry: that of the unique columns, each
--     kept by all of them (Db/Ledger/Effect and Keeps; Db/Registry/Restore, Queries and Calls).
--     Db/Ledger/Book: the abstract view of the wallets, a balance for each that is open, and its
--     steps; Db/Ledger/Refines: that the calls of the store are such steps.
--   Cache: cache/cache.go over the interface `Redis` of Env; Cache/Keys: the keys of package api.
--   Errcode: errcode/errcode.go; Errcode/Table: its numbers and messages. Api/Response:
--     api/response.go. Api/Handler: how a handler runs.
--   Api/Auth: api/auth.go and util/password.go, with the counter of wrong attempts
--     (Api/Auth/Counter, Lock), in the course of time (Timed, Attempts) and its end (Expiry), who
--     can log in (Api/Auth/Credentials), the change of a password (Password), and the life of a
--     session (Api/Auth/Written, Opening, Replacement, Revocation).
--   Api/Middleware: the two layers of api/middleware.go that admit a request;
--     Api/Middleware/Rights: the permissions of a session against the tables of the roles.
--   Api/Page, Api/Users, Api/Wallets, Api/AdminUsers, Api/System, Api/Audit: the handlers of
--     api/user.go, api/wallet.go, api/admin_user.go with api/role.go, api/system.go with
--     api/dashboard.go, and api/audit.go, whose layer logs the writing requests:
--     Api/Audit/Sensitive which keys are masked, Masking the bodies, Logging the entries;
--     Api/AdminUsers/Exact: the two lists of roles against the tables.
--   Api/Server: the routes of api/server.go with the layers of each, and a whole request; whom a
--     route admits (Api/Server/Admission), and that a request makes at most one call of the store
--     that changes the database, apart from its log (Reading, Writing, Accounts), so that the
--     invariants hold under all requests (Sequence) and the requests are steps of the book
--     (Bookkeeping); Api/Server/Answers: the form of the handlers' answers, by one rule for each
--     way to write one.
--   Api/Pipeline: the other layers of api/middleware.go in the order of api/server.go, with
--     handlers that may panic; Api/Pipeline/Uniform: the form of every exchange; Api/Pipeline/Cors:
--     the settings of CORS.
--   Config: util/config.go. Scheduler: scheduler/scheduler.go with the task of
--     scheduler/task_cleanup_operation_logs.go; Scheduler/Start: what Start leaves running;
--     Cleanup: which logs are left.
--   Program: main.go. `boot` is main up to listenSignal. Program/Run: what follows, as a step
--     relation: the HTTP server listens, takes and answers requests, the cron enqueues, the worker
--     runs tasks, time passes, and the main goroutine goes through listenSignal and Shutdown.
--     Program/Sound: what holds from start to end; Keeps: the database under all of it; Stops: the
--     end of the shutdown.
--   Tests: a Redis that keeps the laws, a small installation, and the theorems at it.
--
-- Parameters, with what the program relies on as named hypotheses: Redis (`IsLawful`, the
-- documented effect of GET, SET, DEL, INCR and EXPIRE, where SET takes a time to live of 0 as none),
-- encoding/json (`IsCodec`, `IsObjectCodec`), bcrypt (`IsHashing`), the uuid, viper, sql.Open and
-- asynq, the validators alphanum and email, the collation of the database, the calendar, and
-- gin-contrib's decision on a request's origin.
--
-- A `String` stands for a Go string, its characters for the bytes, but for the literals of errcode.
-- The note of an adjustment and the texts of the operation log may be no texts of the database, which
-- refuses them; the validators keep such bytes out of the names and emails of the other queries, which
-- do not test them here.
--
-- Bounds: a key and a balance are within 64 bits, the offset of a page wraps at 32 bits. No
-- function needs fuel but the numerals, where the number of digits is bounded by the number itself.
-- The time stands still while a request runs. A statement is one step, and a transaction is one
-- step: the steps of different requests may follow one another in any order, and what concurrent
-- transactions see of each other is left to the database. The keys of rows come from sequences,
-- which a rollback does not give back.
--
-- A request that a process answers is one step of it, so are a task and a signal; these too may
-- follow one another in any order. The queue of the tasks holds what this process has enqueued;
-- that other processes share it, and that asynq keeps their tasks from standing in it twice, is
-- left to asynq.
--
-- Not modelled: what is logged, but for the line of each request; what gin-contrib makes of the
-- CORS settings; what a deadline does but for the faults of the calls; gin's matching of paths; the
-- lines that hand asynq's log on (scheduler/logger.go); the wiring of db/sqlc/db.go; the generated
-- docs and mocks; and the front end under web.
pub mod Base
pub mod Utf8
pub mod Db
pub mod Env
pub mod Strconv
pub mod Cache
pub mod Errcode
pub mod Api
pub mod Config
pub mod Scheduler
pub mod Program
pub mod Tests
