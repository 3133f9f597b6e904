-- ===== src/Lib.antt =====
-- Cellora indexes the CKB blockchain into PostgreSQL and serves the index over HTTP. The indexer
-- (crates/indexer) asks a CKB node for one block after another, parses it, and writes its rows in one
-- transaction; when a block does not fit on the stored chain it walks back to the common ancestor and
-- rolls the tables back to it. The service (crates/api) authenticates a request by its API key, limits
-- its rate, and answers from the same tables, page by page.
--
-- Prelude       shared notation: results and their monad, tests on numbers, byte strings and the text
--               functions of std, tables as lists, Rust's integer bounds.
-- Db            crates/db/src: the rows (models.rs, migrations/*.sql), and one function for each
--               statement (blocks.rs, transactions.rs, cells.rs, checkpoint.rs, reorg_log.rs,
--               api_keys.rs, users.rs, sessions.rs; CellQueries is the reading half of cells.rs). A
--               table is a list of rows, a statement a function on the database that can fail.
-- Indexer       crates/indexer/src. Chain is the part of the node's answers that is read, Parser is
--               parser.rs, Reorg is reorg.rs, Poller is poller.rs with the counters of metrics.rs.
--               Parser.View says what the parser's rows are to be. Indexer.Poller.step is Poller::step,
--               turn is one round of the loop of Poller::run and run is the loop, as a list of rounds each with its own node, server and clock.
-- Api           crates/api/src. The request path: Auth is auth.rs on Keys (keys.rs) and Db.ApiKeys,
--               RateLimit is ratelimit.rs, its Lua script included, and Middleware puts them around
--               a route in the order of build_app in lib.rs, with the tip headers (Tip is tip.rs),
--               the answers to errors (Error is error.rs) and the logging of the request. Cells is
--               routes/cells.rs (list_cells is its handler `list`), with Pagination, Hex and
--               Registry (scripts/registry.rs); Blocks, Proofs and Health are the modules of routes/
--               with their names.
--               The dashboard: Session is session.rs, Cookies the cookies of session.rs and of
--               routes/admin.rs, Admin the handlers of routes/admin.rs, with the sign-in through
--               GitHub in Admin.Oauth; AdminMetrics is the charts of routes/admin_metrics.rs.
--               The workers: RequestLogs is the Redis list that lib.rs fills and metrics_worker.rs
--               drains; Webhooks is the vetting of addresses in webhooks.rs, with the
--               dispatcher and its requests in Webhooks.Delivery and the handlers of routes/webhooks.rs in
--               Webhooks.Routes.
-- Indexer.Tests, Api.Tests and the modules Tests below Api run the code on small data, and apply the
-- theorems there.
--
-- State is passed explicitly. `World` is what a step of the indexer changes: the database, the counters
-- and what was published. A transaction works on a copy that an error drops; a `Connection` says of
-- each statement whether the server fails on it. A failed commit is taken not to have committed. A
-- step sees one answer of the node at each height; the next step may see another node. `AdminWorld` is
-- what the dashboard's handlers change: the tables, and the keys of Redis with the times at which they
-- expire. One request reads one clock, and its random bytes are an argument. The list of request logs
-- is interleaved: tasks push and trim it while the worker pops. A request through the middleware runs
-- alone, and so does a handler; the steps of Api.Auth.Revocation take the reading of a key's row and its
-- insertion into the cache apart, so that a revocation may come between them.
--
-- Floating-point refill rates are fractions, exact in the model; clocks are milliseconds. The rate
-- limiter's own clock and the one by which Redis lets a key expire are one.
--
-- Numbers are natural numbers with the bounds of their Rust type where the code converts or saturates
-- (to_i64, clamp_i32, clamp_i64, saturating_suc). Every loop of the code is structural recursion, on
-- the list that it walks, on the height or on the batches that it counts down, so no fuel is needed.
-- Two recursions have fuel: the requests of a client that pages through a list, where one more than
-- there are cells is enough, and the digits of a decimal, where one more than the number is.
--
-- Parameters: the CKB libraries (`Libraries`: script hashes, JSON, decimals), the node, the database
-- server, base64, JSON and hex decoding (`Codecs`), SHA-256 with base64 (`Tokens`), Argon2
-- (`VerifyPassword`, `HashPassword`), the characters that a header accepts (`HeaderText`), the calls
-- of GitHub (`Github`), JSON of the request logs (`LogJson`), the JSON-RPC client of the proofs
-- route (`Ckb`), the text of a nonce (`NonceText`), URL parsing and DNS (`Webhooks.Network`),
-- percentiles of the charts (`Percentile`), HMAC-SHA256 and JSON of the events (`Signing`). Not
-- modelled: start-up and shutdown, logging, configuration loading, the HTTP transport of the node's
-- client, the layers of axum and tower for CORS, traces, timeouts and panics, the dispatcher's wait
-- at shutdown, the route for statistics, GraphQL and OpenAPI schemas, the summary and the status of
-- the dashboard's charts, the operator's command line, the rendering of metrics.
pub mod Prelude
pub mod Db
pub mod Indexer
pub mod Api
