-- ===== src/Lib.antt =====
-- The audit gateway of new-api-gateway: an HTTP proxy before new-api that passes the requests of known
-- model routes on, streams the answers back, and keeps evidence, a trace and an analysis job of each.
--
-- How a request goes, and which file models what:
--   Routes         internal/routes/registry.go: the route table and the matching of paths.
--   AuthKeys       internal/authkeys/extractor.go: the API key of a request.
--   Identity       internal/identity: whose key it is, by a chain of caches before the lookup;
--                  Identity/Postgres is the cache in the table `token_identity_cache`, column by column.
--   Proxy          internal/gateway/proxy.go and capture.go: Proxy/Serve keeps the evidence of the request,
--                  Proxy/Serve/Responses serves whole responses and streams, Proxy/Handler has the
--                  websocket tunnel and `ServeHTTP`, Proxy/Persist has `insertTrace`.
--   Gateway/Stream internal/gateway/stream.go: the copy of a stream to the client and the capture.
--   Gateway/Sse    internal/gateway/stream.go: the writer that cuts a stream into event payloads.
--   Gateway/Usage  internal/gateway/usage*.go and minimal.go: models and token counts, by families.
--   Gateway/WebsocketLog internal/gateway/websocket_log.go: the bounded log of a tunnel's frames.
--   Gateway/Spool  internal/gateway/spool.go: the names of the spool's files.
--   Gateway/Headers internal/gateway/headers.go: the evidence of headers, where the values of some names are left out.
--   Gateway/Tunnel internal/gateway/proxy.go: the two goroutines of `copyBidirectional`, as steps in any order.
--   Evidence       internal/evidence/store.go: the evidence in files, and the paths of its references.
--   Admin          internal/admin: roles, the rate limiter, session cookies, and the guards for permissions
--                  and CSRF tokens. Admin/Repository has the tables and the statements on them,
--                  Admin/Handlers login, logout and the change of passwords, Admin/Handlers/Records reviews,
--                  contexts and raw evidence, Admin/Handlers/Lookup the lookup of an API key, and
--                  Admin/Handlers/Routing the guards of every route and a request from its guards to its
--                  handler. Admin/Traces is the list of traces with its pages.
--   Text, Prelude  Go's `strings` functions and the shared helpers.
-- Each function is named after the Go function, in lower case with underscores. State is passed on
-- explicitly: an extractor, a cache and a copy are records that each operation returns anew. What the
-- proxy does to its audit side is a history of events, and each answer of the audit side is a function of
-- the history so far, so that it may fail at any point. A request to the admin interface takes the tables to
-- the tables behind it, and any of its statements may fail; `Reach` is what requests lead to, in any order.
--
-- Bytes and lengths are natural numbers; token counts are signed 64-bit integers and their sums wrap
-- around. No definition runs on fuel: streams, lists and texts are consumed by structural recursion.
--
-- Parameters, since their code is not in the repository: JSON, HMAC, bcrypt, random numbers, regular
-- expressions, network connections, the database of new-api, Redis. Parameters whose code is in the
-- repository but not modelled: multipart parsing, and for the proxy the stores of traces, alerts and jobs;
-- the proxy also takes its evidence store, its header evidence and what a tunnel does as parameters, and
-- these have models of their own. Not modelled: timeouts, URL joining, the other lists and the summaries of the
-- admin interface, the runtime of the analysis, the configuration, the health checks, the
-- workers. The queries of the admin interface are read from their SQL: a row is found in the order of the
-- table, identifiers of sessions are unique, and each statement is atomic.
-- A handler that only reads is in Admin/Handlers/Routing by its guards; its answer, a document or an error, comes
-- with the request. A write to a tunnel's connection has no deadline: it returns only if the other side takes it or
-- the connection is closed. A document that `assembleSSE` cannot put together is a panic of the extractor in
-- Gateway/Usage/Chat; in the proxy an extractor is a parameter that may panic, which aborts the client's stream.
-- `Cookie` is not among the headers whose values the evidence leaves out.

pub mod Admin
pub mod AuthKeys
pub mod Evidence
pub mod Gateway
pub mod Identity
pub mod Prelude
pub mod Proxy
pub mod Routes
pub mod Text
