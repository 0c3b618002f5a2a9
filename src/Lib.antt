-- ===== src/Lib.antt =====
-- Verification of the backend of Uptime (backend/internal and backend/cmd), a Go service that
-- checks websites on a schedule. Users sign in and edit monitors over an HTTP API; workers claim
-- the monitors that are due, fetch them and record the outcome; both work on one PostgreSQL
-- database through backend/internal/store, whose transactions are the only thing that they share.
--
-- Store models backend/internal/store. Store/Rows has the rows of store.go, monitors.go and
-- checks.go and the database `Db`, a list for each table. Store/Exec has transactions: the
-- environment decides for each statement whether it runs, fails, or takes effect while its
-- acknowledgement is lost, and where Refresh and Logout lock a session, other transactions commit
-- an arbitrary change while they wait. In FinishCheck, UpdateMonitor and UpdateUserAvatar a SELECT
-- ... FOR UPDATE reads the row without a wait, as in a transaction that begins after it and meets
-- no other on its rows. Store/Accounts has the statements of store.go on users, sessions and
-- refresh tokens; Store/Checks has ClaimChecks, FinishCheck, ReleaseCheck and PruneCheckHistory of
-- checks.go, Store/Schedule NextCheck, Store/History HistoryWindow and CheckHistory,
-- Store/Statuses MonitorStatuses; Store/Monitors has monitors.go.
--
-- Auth models backend/internal/auth: Auth/Gate is password_gate.go, Auth/Crypto is crypto.go,
-- Auth/Service is service.go, whose operations run on Store/Exec and take the gate as state;
-- Auth/Controller is controller.go, the handlers with their cookies, and Authenticate.
--
-- Monitor models backend/internal/monitor: Monitor/Worker is worker.go, with one execution of a
-- job and, in Monitor/Worker/Pool, the loop of Run as a step relation, and, in
-- Monitor/Worker/Cleanup, the rounds of cleanup, for which one more than there are minutes is
-- enough fuel; Monitor/Network is public_network.go, which decides what a favicon may be fetched
-- from; Monitor/Favicon is the shared cache of favicon.go with its calls in flight,
-- Monitor/Favicon/Icons has the addresses and the icons of a page, Monitor/Favicon/Fetch the
-- requests of fetch. Ten requests are the fuel of one read, more than the three that CheckRedirect
-- allows. Monitor/Favicon/Callers interleaves the callers of get. Monitor/Validation is
-- validation.go, with its regular expressions matched as they are written.
--
-- Monitor/Controller has the HTTP handlers of controller.go and statistics.go, one by one: Cursor
-- is the cursor of a page, Requests is readMonitor, Statistics is statistics.go, Handlers has
-- create, list, update and delete.
--
-- Profile models backend/internal/profile: Profile is controller.go, Profile/Avatar is avatar.go,
-- with the directory of avatars as a list of files beside the database.
--
-- Http models backend/internal/httpx: Http/Protect is the middleware in front of the API,
-- Http/Reply what handlers write: a handler runs on a database and returns a reply with the
-- database after it.
--
-- Api models backend/cmd/api/main.go: a request goes through Protect, the routes of the three
-- controllers, and Authenticate; what the handlers share is one state. The patterns are those of
-- RegisterRoutes, and which of them fits a request is left to net/http. Commands has run of the
-- three commands in backend/cmd, with Open and Close of backend/internal/store/store.go; signals,
-- timeouts and logs are left out. Openapi models backend/internal/openapi, the pass over the
-- generated documents.
--
-- Config models backend/internal/config, which the commands call first.
--
-- Prelude has what all share: tests on numbers and byte strings, and lists as tables with SELECT,
-- UPDATE, DELETE and ORDER BY. Samples has a small database for tests, which stand in the modules
-- named Tests.
--
-- A UUID is a number, a time is a number of nanoseconds since 1970 (the rounding of PostgreSQL to
-- microseconds is left out), a string is the list of its bytes. A duration keeps its 64 bits in
-- NextCheck, where it is multiplied. The gate counts billionths of a token exactly, so that the
-- rounding of the source, which adds up over a long history, is left out, and an availability is a
-- fraction, where the source has float64. The draws of random numbers and the readings of clocks
-- are arguments. The worker attempts to save a result three times, as in worker.go. The loop over
-- the buckets of a history runs on as many rounds as the window has steps, after which it has
-- reached the end of the window. Each statement acts on the whole database at once: the isolation
-- that the source asks of PostgreSQL is assumed of it.
--
-- Base64, SHA-256, Argon2id, JWT with the time that its parser reads, the mail parser and Unicode
-- are parameters of Auth/Crypto; how gorm.Open ends is one of Commands; strings.TrimSpace and
-- strings.ToLower are parameters of Http/Protect; the resolver and the dialer are arguments of
-- Monitor/Network; net/url, the tokenizer of HTML, the codec of PNG and what servers answer are
-- parameters of Monitor/Favicon; net/url, net.ParseIP and Unicode are parameters of
-- Monitor/Validation; the codecs of JSON and YAML are parameters of Openapi; JSON bodies reach the
-- handlers decoded. Not modelled are the migrations and the generated documents, and the frontend,
-- which is a client in TypeScript.
pub mod Prelude
pub mod Samples
pub mod Store
pub mod Api
pub mod Auth
pub mod Commands
pub mod Config
pub mod Monitor
pub mod Openapi
pub mod Http
pub mod Profile
