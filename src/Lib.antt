-- ===== src/Lib.antt =====
-- acb-go: the board on which agents claim, work on and finish tasks, as a model of its Go code.
--
-- The parts of the program and the modules that model them:
--   internal/models, internal/db/schema.go   Models, Db/Store: Task, Gate, Agent, TaskEvent as records,
--     the statuses that the CHECK constraints admit as data types, the tables as lists of rows.
--   internal/db/*_repo.go   Db/Statement: every INSERT and UPDATE as a constructor, with its WHERE
--     clause (selects, selects_gate, selects_agent), its SET clause (assigns, …) and what it does to
--     the tables (run); Db/Rows: tables with a key. Db/TaskRepo, Db/EventRepo, Db/GateRepo,
--     Db/AgentRepo: one definition for each method, with the method's name (claim_task for ClaimTask).
--   internal/api/task_handler.go, response.go, router.go   Api/TaskHandler, Api/Response, Api/Server:
--     one definition for each handler, from the decoded request to the response; serve has their routes.
--   internal/api/agent_handler.go, auth.go, limiter.go   Api/AgentHandler, Api/Auth, Api/Limiter: the
--     handlers of agents, the middleware that finds the caller, the rate limiter.
--   internal/db/token_hash.go, webhook_crypto.go   Db/Secrets, and with the methods of AgentRepo that
--     use them Db/AgentRepo/Tokens.
--   internal/api/artifact_handler.go, internal/rustfs   Api/ArtifactHandler, Storage (client.go) and
--     Storage/Bucket (minio_store.go).
--   internal/api/dashboard_handler.go, health.go   Api/Dashboard with Api/Grouping, and Api/Health.
--   internal/dispatcher/dispatcher.go   find_next_for_agent in Api/TaskHandler/Reads, the retry queue of
--     an agent in Api/Dispatching/Retries, its commands under goroutines that overlap in
--     Api/Dispatching/Queue, DispatchNewTask, NotifyStatusChange and the signed requests in
--     Api/Dispatching/Webhooks.
--   internal/dispatcher/validator.go   isPrivateIP in Api/Dispatching/Addresses, over lists of bytes;
--     ValidateWebhookURL and the DNS pins in Api/Dispatching/Urls.
--   internal/api/router.go, middleware.go   Api/Service: every route behind the authentication and the
--     panic recovery; handle is the server.
--   internal/db/schema.go, the loop   Db/Migrations: which migrations run.
--   internal/redis/events.go   Redis: the channels of an event.
--   internal/timeout/timeout.go   Timeout/Service: check and the loop, over a number of ticks.
--   internal/config/config.go   Config: the catalogs of skills and tags; Config/Load: Load.
--
-- How they interact. A handler calls the repositories, and these send statements to PostgreSQL. A
-- program is a function of the environment and the world (Session). Each database call is one atomic
-- statement; before it the environment lets any statements of other processes run, sets the clock
-- and may make the call fail. So a handler of several calls is interleaved with everything else at
-- each of them. An error is a value (Error), a nil dereference is `panic`, and what `go` starts is
-- recorded in order (publish, notify, dispatch_new) and not run. Evolves is the relation of the
-- tables before and after any sequence of statements that the service can issue (Issued); Lifecycle
-- proves what such histories keep. IsQuiet is the environment in which a request runs alone; the
-- modules named Quiet, and Api/Creating, Api/Claiming, Api/Unblocking, Api/Dispatching,
-- Db/TaskRepo/Failing and Db/TaskRepo/Timeouts, prove what each branch does there.
--
-- The model's choices. Columns of JSON text are the values that the text stands for; LIKE, the text
-- of a list (marshal), the reading of a time and uuid.New are functions of the environment. A time
-- is a number of microseconds. A Go int is an unbounded integer: priorities and retry counts are
-- taken to be far from 64 bits, and from the 32 bits of their INTEGER columns. A Commit that reports
-- an error has not committed. A nil slice of artifacts and an empty one are one value. The ids of
-- events count up without gaps. Tasks are never deleted by the program, and the model has no DELETE.
-- The shift of the upload limit does not wrap. The loops are recursion on the lists that they run
-- over; only the loop over a retry queue (drain) has fuel, since it also puts entries back: six
-- rounds for each entry are enough, because an entry is put back with its attempt counted up and
-- dropped at the fifth.
--
-- Services outside the repository are parameters: Crypto (Argon2id, SHA-256, AES-GCM, base64 and the
-- random source), Minio (the calls of the MinIO library, which change the objects of the world), Net (the
-- parser of URLs and the resolver), Limiter (rate.Limiter), Signing (JSON and HMAC), Multipart (the parser
-- of forms), and os.Getenv. What a theorem relies on of them is a record of laws: IsCrypto,
-- IsBucket, IsUp.
--
-- Not modelled: NewRouter without some of its repositories, which main.go never makes; how webhooks are
-- sent over HTTP, with the semaphore and the goroutines of the dispatcher; failing Redis commands; the
-- timer of the timeout service; the start-up, with the connections and the token of the administrator, and the
-- logging.
pub mod Prelude
pub mod Models
pub mod Db
pub mod Config
pub mod Session
pub mod Storage
pub mod Redis
pub mod Api
pub mod Lifecycle
pub mod Timeout
pub mod Tests
