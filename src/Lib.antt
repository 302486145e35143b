-- ===== src/Lib.antt =====
-- The lab telemetry server (server/, in Go): instruments post readings, which are stored once each
-- in TimescaleDB, checked against thresholds, and served downsampled to a dashboard; with the harness
-- that loads it (bench/).
--
-- The parts and their files. Paths are under server/internal, unless they start with server/ or bench/.
--   Prelude: native numbers with Boolean tests, lists, Go strings as lists of code points (`Text`),
--     maps with string keys, int64 values, strconv.Itoa and strconv.Atoi (Prelude/Decimal),
--     strings.Split and strings.TrimSpace (Prelude/Split).
--   Values: float64 as NaN, the infinities, or an integer multiple of 2 ^ -1074, so that comparisons
--     are exact; time.Time as nanoseconds from the zero time.
--   Store: store/store.go. Store/Data has its records and the tables; Store/World is everything
--     outside the process, the database behind pgx and the clock, as a record of operations with the
--     documented effect of each statement: it does its work, or fails without effect, or does its
--     work and the answer is lost. Store/Insert is InsertReadings with its chunks,
--     Store/Insert/Interleaved calls of it that run at the same time, statement by statement,
--     Store/Settings the control-plane queries, Store/Series the choice of a rollup for a step, over
--     Store/Cursor, the loop over the rows of a query, Store/Reads the queries of the dashboard and
--     of /metrics, whose statements are a second record of operations. Store/Migrate is
--     store/migrate.go, over a database of its own interface.
--   Alert: alert/alert.go. Alert has the state and the operations under the mutex (Evaluate,
--     transition, allowNotify); Alert/Firing has fire, Check and Reload. A section under the mutex is
--     one function, so that any interleaving of goroutines is a list of calls. The sends of the
--     notifiers are values that an operation returns. Alert/Notifiers is alert/notifiers.go: the mail
--     and the Slack request that one send is.
--   Auth: auth/auth.go, SourceForToken over a map ranged over in any order. Auth/Admin is auth/jwt.go,
--     over the JWT library as a record of operations with their documented laws.
--   Metrics: metricsx/metricsx.go, whose int64 counters wrap.
--   Api: the handlers of api/. Api/Http has requests, responses and the server's state; Api/Ingest is
--     ingest.go with requireIngestToken of middleware.go; Api/Config is the configuration part of
--     config.go; Api/Series is series.go; Api/Admin is the login of config.go and requireAdmin of
--     middleware.go, with the route of server.go that it guards. A handler takes the server and the
--     world and returns the response, the server, the messages and the world. Api/Ops is ops.go and
--     channels.go. Api/Router is server.go: the routes, each with its guard, and corsPublic; a request
--     goes through `serve`. Api/Router/Histories has sequences of requests, of ticks of the alerter's
--     goroutine and of waits; a request is one step there. Api/Ingest/Concurrent has calls of
--     handleIngest at the same time: each step is one statement or one section under a mutex, and the
--     steps come in any order; Api/Ingest/Concurrent/OneRun relates the handler to its runs.
--   Config: config/config.go.
--   Startup: server/cmd/server/main.go and New of store/store.go: the attempts to connect, the
--     migrations and the wiring, up to the point where the server listens. Startup/Exit is the rest of
--     `run`, and `main` with the code that the process exits with.
--   Bench: bench/main.go and bench/commands.go. Bench/Load is runLoad as a step relation:
--     each step is one access of one worker to what the workers share, in any order. Bench/Percentile
--     is `pct`, Bench/Batch the readings of makeBatch, Bench/Merge the merge of the producers' statistics,
--     with `+=` as a load and a store. Bench/Traffic has the workers' sends and the server's POST /ingest
--     together: numbering, requests that are answered, or that the client gives up and the server handles
--     later or never, and whatever else the server does, in any order. Bench/Read is the read mode up to its requests,
--     Bench/Read/After the same against a server with any history, and Bench/Report the arithmetic
--     and the results of the modes.
--   Tests: a database in memory that fulfils the laws of Store/World, a JWT library that signs one
--     set of claims, and the theorems at concrete inputs.
--
-- Fuel: `connect_loop` has the 30 attempts of the source. `insert_loop` has one round more than
-- there are readings, and each round passes at least one reading, so that the loop ends before
-- the fuel does. Printing a number has as much fuel as the number is large.
--
-- Parameters, with what the code relies on as laws: the database, the connection pool, the clock, the
-- JWT library, the chi router, the SMTP and HTTP clients, the float64 operations of a percentile,
-- time.Parse, fmt.Sscanf, encoding/json, the texts that %g and RFC3339 write. Decoding a request's body
-- gives a value or an error.
--
-- Not modelled: the log lines and the middlewares RequestID, RealIP and Recoverer;
-- LastAlertTime, which nothing calls; the parsing of flags, the HTTP transport and the output of
-- the bench; SQL files; the clients in Python and the web front end; timing, the limit on
-- the size of a body, and the location of a time, in which the text of an alarm writes it.
pub mod Prelude
pub mod Values
pub mod Startup
pub mod Store
pub mod Alert
pub mod Auth
pub mod Metrics
pub mod Api
pub mod Config
pub mod Bench
pub mod Tests
