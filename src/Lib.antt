-- ===== src/Lib.antt =====
-- The gateway of Relay Desk, cmd/server: an OpenAI-compatible chat endpoint in front of free models,
-- which forwards each request through a pool of proxies or through the accounts of a Resin gateway.
--
-- A request to `gatewayChat` (cmd/server/main.go) is authenticated by its client key, passes the limiter of that
-- key and the semaphore of the gateway, has its body, its model and the settings checked, gets its identifiers,
-- and enters a loop of attempts. Each attempt takes a proxy for the session, may have an image
-- described by a helper model, shapes the body, forwards it, and judges the answer: it is copied to the
-- client or the next attempt begins. The answers move the health of the proxies, the routes of the sessions
-- and the scores of the accounts.
--
-- Where the parts are modelled:
--   Limiter: `clientKeyLimiter` of cmd/server/client_keys.go. A window keeps lists with heads, as the
--     slices are kept; 64-bit sums wrap around. `now` is the time of the call and `clock` the later time that
--     `time.Until` reads.
--   Json: values as encoding/json decodes them; Agent: `shapeFreeModelBody` and the toolset of
--     cmd/server/agent_shape.go. The embedded catalogue cmd/server/opencode_tools.json is an argument.
--   Collapse: `collapseChatCompletionStream` of the same file, from lines to the document. The scanner is bufio's:
--     its lines, and whether reading has failed by the time of each and at the end, are arguments.
--   Proxy, Gateway: the loop of `gatewayChat` and its end, cmd/server/main.go, with the judgements of
--     cmd/server/proxy_runtime.go. What comes from outside is the record `AttemptEnv`, and what the loop
--     does to other parts is a list of effects. The loop runs by the number of rounds left, which is the
--     number of attempts of the source: at most 3, or 10 with Resin, so that nothing runs out.
--   Sessions: `pickSessionProxy`, `clearSessionProxy` (cmd/server/main.go), `nextResinAccount` and
--     `advanceResinAccount` (cmd/server/resin.go). Gateway.Sessions takes the proxies of the
--     loop from here.
--   Scores: `resinScoreStore` of cmd/server/resin.go.
--   Pool: the table and the snapshot of the proxies, the marks of failure and success, and the cache of
--     clients, cmd/server/proxy_runtime.go and cmd/server/main.go.
--   Login: the lock on failed logins, cmd/server/main.go; Login.Admin: login, session, logout and password.
--   Status: the aggregation of the public status page, cmd/server/status.go.
--   Alerts: the outbox of cmd/server/alerts.go. A run of the dispatcher has one time for its whole batch.
--   Headers: `validateCustomHeaders` of cmd/server/main.go.
--   Models: `resolveModel` of cmd/server/model_policies.go, the policies and aliases of the same file with the
--     cache they are read through (Models.Aliases), and `usageErrorOrigin` of cmd/server/main.go.
--   Keys: the client keys with their cache and their administration, cmd/server/client_keys.go and
--     cmd/server/runtime_cache.go, and the credential and the session of a request (Keys.Credential),
--     cmd/server/main.go. The unique column of the table is a condition on the rows behind a statement.
--   Gateway.Engine, Gateway.Admission, Gateway.Chat: the settings of Resin, the checks of a request as a chain of
--     steps that pass or refuse, and `gatewayChat` as a whole, which puts Keys, Limiter, Models, Images, Ids
--     and the loop together. Gateway.Admitted, Gateway.Requests and Gateway.Attempted prove what holds of every request.
--   Ids: the identifiers of requests and sessions, cmd/server/main.go, with the clock behind them.
--   Images: the tests for images in a request and the rewriting around the helper model, cmd/server/main.go.
--   Sse: the detector of the first token in a stream, and the limited capture, cmd/server/main.go.
--   Probes: the probe jobs of cmd/server/proxy_runtime.go: store, request, one probe, and the workers, whose
--     interleavings are sequences of events.
--   Reports: how errors are worded in records, cmd/server/main.go.
--   Base: lists, maps, bytes, integers and Boolean tests that these share.
--
-- All recursion is on the structure of a list, on the rounds left, or on a number of steps; no function runs
-- on fuel. Tables of the database are lists or maps that the SQL statements change as their text says. A text is
-- a list of bytes, and `strings.ToLower` and `strings.TrimSpace` act on ASCII alone.
--
-- Not modelled: the forms of the administrator other than those for client keys, models and the password, cookies, encryption,
-- usage records and statistics, the refresh of the models, the caches of settings in cmd/server/runtime_cache.go, the janitor
-- that starts probe jobs by the clock, the reading of the helper model's answer, the transport through bun-bridge,
-- and the web console: they are input and output, SQL text, or parts that stand by themselves.
pub mod Base
pub mod Limiter
pub mod Json
pub mod Agent
pub mod Collapse
pub mod Proxy
pub mod Gateway
pub mod Login
pub mod Sessions
pub mod Pool
pub mod Scores
pub mod Status
pub mod Headers
pub mod Models
pub mod Alerts
pub mod Images
pub mod Sse
pub mod Ids
pub mod Keys
pub mod Probes
pub mod Reports
