-- ===== src/Lib.antt =====
-- The API gateway: rate limiting, circuit breaking, load balancing, retries, routing, response
-- caching, authentication, the request pipeline over them, and the WebSocket proxy.
--
-- packages/core holds algorithms that know no server: five rate limiting algorithms behind one
-- interface, a store that keeps their states by key, a circuit breaker, a cache policy with a store
-- of responses, API keys and JWT. packages/gateway puts them behind Fastify: a request is matched to
-- a route, authenticated, counted against the route's limits, answered from the cache or forwarded
-- to a target that a balancer picks, with retries, and recorded in a usage buffer.
--
-- Each file opens with the source file it is about. Definitions keep the names of the source in
-- snake_case; a module's theorems are in its child Laws, and the theorems at concrete inputs are
-- under Tests.
-- - Common: tests, lists, texts, maps and arithmetic that the other modules share. A text is a list
--   of code units.
-- - RateLimit: packages/core/src/ratelimit. An algorithm is a function of the state, the policy, the
--   time and the cost (Types); Trace runs one over a sequence of calls; FixedWindow, TokenBucket,
--   LeakyBucket, SlidingLog and SlidingCounter are the algorithms; Store is the memory store; Enforce
--   is packages/gateway/src/ratelimit, over any store, which may fail.
--   Its child Redis is redisStore.ts with the scripts of packages/core/src/ratelimit/lua, as functions
--   of what a key holds and when it expires; Hashes has the four scripts that keep a hash.
-- - Breaker: packages/core/src/breaker; its child Spec is the machine that it implements.
-- - Balancer: packages/gateway/src/proxy/balancer.ts, a list of targets and a cursor.
-- - Config: packages/gateway/src/config/schema.ts, the parsed configuration.
-- - Watch: packages/gateway/src/config/watch.ts, reloads as steps on the flag `reloading`.
-- - Proxy: packages/gateway/src/proxy; Headers is forward.ts and transform.ts, Retry is
--   retry.ts, Upstream is upstreamUrl.ts and bufferStream.ts; Errors is `sendProxyError` of
--   packages/gateway/src/server.ts.
-- - Routing: packages/gateway/src/routing; its child Fits says what a route asks without the code.
-- - Cache: Policy and Store are packages/core/src/cache, Key is packages/gateway/src/cache.
-- - Http: packages/gateway/src/http, with Limits for packages/gateway/src/security and Cors for
--   packages/gateway/src/cors. What a handler does with Fastify's reply is a list of calls.
-- - Auth: packages/gateway/src/auth and packages/core/src/auth. Admin: packages/gateway/src/admin, with
--   auth.ts in the module itself and routes.ts in its child Routes. Db: the tables of
--   packages/gateway/src/db/repositories and the statements on them, with usage.ts in Batches.
-- - Usage: packages/gateway/src/usage/buffer.ts.
-- - WebSocket: Url, Registry and Handshake are url.ts, registry.ts and upgrade.ts in
--   packages/gateway/src/websocket. Connect and Bridge are proxy.ts: `proxyWebSocket` with
--   `connectUpstream`, and `acceptClient` as a step function on the events of its two sockets and
--   its timers (Bridge/Events).
-- - Gateway: packages/gateway/src/server.ts, where the components meet. Runtime is the state that a
--   reload replaces, Exchange what a request is and what is done for it, Checks and Handler the
--   handler of `app.all('/*')`, Hooks the hooks around it, and Run the life of a gateway as a sequence
--   of requests, reloads and purges. `request` and `reply` of the source are a record and a list of
--   calls; the exceptions of the source are values.
-- - Adapters: packages/adapters, the middleware of Express and the hook of Fastify.
--
-- State is passed on by hand: an operation takes the state and gives the result and the next state.
-- A call without `await` runs to its end, so that a history is a list of calls. The pipeline handles
-- one request after the other; what other requests do while one waits is modelled for the handshake
-- with a WebSocket upstream (WebSocket/Connect, with the limit of connections in Overrun) and for
-- the insertions of usage records (Db/Batches), which end in any order. Times are natural numbers of
-- milliseconds and are arguments, as is everything else that comes from outside: the random numbers,
-- the upstream's answers, SHA-256, percent-coding, JSON, jose, Redis and the database. Fractions
-- over windowMs are counted in units of 1 / windowMs; the rounding of floating point numbers is not
-- modelled, nor is a width of integers, as the source's numbers stay below 2 ^ 53. No fuel is used:
-- the loops run over lists or over the attempts that are left, and the balancer's over as many
-- rounds as there are targets.
--
-- Not modelled: the lists and the usage summary of the admin routes, the metrics, the logger and the
-- scripts of the command line; the Redis script of the sliding window log and the Redis cache; the
-- migrations; the parsing of the configuration, which is zod's; the sockets and streams below the
-- events that the models take.
pub mod Common
pub mod RateLimit
pub mod Breaker
pub mod Balancer
pub mod Config
pub mod Proxy
pub mod Routing
pub mod Cache
pub mod Gateway
pub mod Http
pub mod Auth
pub mod Adapters
pub mod Watch
pub mod Db
pub mod Admin
pub mod Usage
pub mod WebSocket
mod Tests
