-- ===== src/Lib.antt =====
-- A verification library of the gateway, which routes requests for language models to several
-- upstream providers.
--
-- A request is let in by its key or session, passes the rate limiter and is looked up in the response
-- cache. Its model is resolved through aliases and a combo and compared with the key's whitelist, and
-- it goes to an upstream, or to those of a combo in turn, where it takes an account and a proxy of the
-- pools if the upstream's circuit breaker lets it through; its outcome is recorded with the circuit,
-- the account and the proxy. Gateway composes the cache, the combos, the custom models and the keys in
-- the handler's order, and Grok.Serve, CodeBuddy.Serve and CfPool.Serve the accounts with the
-- circuit; a combo reads the circuits' states, which stand in Combo as its `Status`.
--
-- Base: lists, association lists for Go's maps, the index of a signed counter, and what is used of
--   the package strings.
-- Circuit: internal/upstream/health.go, with the constants and setCircuitState of
--   internal/upstream/upstream.go. `UpstreamHealth` is the struct of that name, `record_request`,
--   `can_request`, `check_grok`, `check_cb` and `check_cf` are its methods and the active checks.
-- Cache: internal/cache/semantic.go. `Store` is the struct, `get`, `put` and `set_enabled` its
--   methods.
-- Limiter: internal/ratelimit/ratelimit.go. `allow_with_limit`, `cleanup` and `middleware`.
-- Login: login_limiter.go. `attempt` is the handler of the middleware, `cleanup` one pass of the
--   worker.
-- Memory: internal/memory/memory.go, the store of session memory.
-- ProxyPool: internal/proxy/pool.go. ProxyPool.Operations has the pool and its methods under their
--   names (`next` is Next, `mark_failed` is MarkFailed), ProxyPool has the validation.
-- CfPool: CFKeyManager and CFKey of internal/upstream/cloudflare.go. `next_key` is Next, and a key
--   that a request holds is an argument of `record_usage` and of the disabling functions.
--   CfPool.Serve is ProxyCloudflare up to the answer, with at most twelve rounds as in the code, and
--   CfPool.Stored how internal/db/db.go and LoadFromRedis keep the accounts in Redis.
-- CodeBuddy: internal/upstream/codebuddy.go. CodeBuddy has CBKey, CodeBuddy.Pool CBKeyManager and its
--   workers (`next_key` is Next), CodeBuddy.Serve ProxyCodeBuddy up to the answer, whose loop has one
--   round for each key as in the code, and CodeBuddy.Stream the reading of the reply.
-- Combo: internal/proxy/combo.go; Combo.Catalog has AddCombo and DeleteCombo, and validateName of
--   internal/proxy/validate.go. `resolve` is Resolve and `pick` is resolveSmart.
-- Compression: internal/compression/codeblocks.go, the split of a prompt into prose and code. Its loop
--   over the blocks has as much fuel as the prompt has characters and one more, and each round takes
--   some.
-- Console: internal/console/console.go, the ring of recent log lines.
-- Cost: internal/cost/cost.go, the table of prices and the longest prefix in it; a price is in
--   thousandths of a dollar for a million tokens, and `usd` in billionths of a dollar.
-- Csrf: csrf_guard.go, the guard against forged requests, over texts as lists of characters.
-- Custom: internal/proxy/custom.go, aliases and custom models; `resolve_custom` is Resolve.
-- Gateway: ProxyRequest of internal/proxy/proxy.go. `handle` is the handler from the look-up in the
--   cache on, Gateway.Resolution has the resolution of the model, `chain` of Gateway.Chain the retry
--   chain, `dispatch` the closure of that name and Gateway.Writer internal/proxy/buffered_writer.go.
--   The functions on names of models are in internal/upstream/upstream.go and
--   internal/upstream/grok.go.
-- Grok: GrokAccountManager and GrokAccount of internal/upstream/grok.go; `next_account` is Next,
--   Grok.Accounts has the sign-ins, removals and the worker that refreshes tokens, and
--   `proxy_grok` of Grok.Serve is ProxyGrok up to the answer that it hands on. Its loop has one round
--   for each account, as in the code.
-- Keys: internal/auth/auth.go. Manager and its methods, with IsModelAllowed and MatchModel;
--   Keys.Middleware has AuthMiddleware and AdminMiddleware.
-- QuotaTracker: internal/quota/quota.go. `add_usage`, `set_pool` and `set_credits` are AddUsage, SetPool
--   and SetCredits; a day is a number.
-- Sessions: internal/auth/session_store.go, with Redis as an argument.
-- Tunnel: internal/tunnel/manager.go and internal/handlers/tunnels.go. Tunnel.Calls has Enable, Disable,
--   Restart, AutoStart, Shutdown and Status, Tunnel.Start the subprocesses, Tunnel.Named the control
--   plane of a named tunnel, Tunnel.Stored LoadConfig and SaveConfig, Tunnel.Ring the log ring,
--   Tunnel.Handlers the endpoints and Tunnel.Overlaps the calls that overlap. The machine, the account
--   at Cloudflare, Redis and JSON are the record `Env`, whose laws are `IsOs` and `IsStore`.
--
-- A method that changes its receiver returns the new state. The clock, the random source, the
-- answers of the store and of the network, `strings.ToLower` and the price of a model are arguments.
-- Each method runs as one step, as its lock makes it; where a request holds a value between two
-- methods, the value is an argument of the second. The calls of the tunnel hold their lock in parts
-- only: they are modelled whole, as if each ran by itself, and Tunnel.Overlaps has the parts as steps of
-- their own, with any others in between. Requests run one after the other. Loops are structural
-- recursion, without fuel but for the loop named above. A time is a number of nanoseconds.
--
-- Not modelled: receivers that are nil; counters that pass 2^63 (the cursor of the proxy pool
-- wraps at 2^64 as in the code); the rounding of float64, in place of which the rate limiter, the
-- quotas and the prices count whole units; negative ports and limits; log messages; the
-- persistence but for that of the Cloudflare accounts and of the tunnel, the other handlers and the
-- traffic to the upstreams, which are I/O; the engines of the compression, the guardrails and the
-- filters of tool results, which are regular expressions over JSON bodies; prompts that are not valid
-- UTF-8; the strategies of resolveSmart that Resolve does not hand to it.
pub mod Base
pub mod Cache
pub mod CfPool
pub mod Circuit
pub mod CodeBuddy
pub mod Combo
pub mod Compression
pub mod Console
pub mod Cost
pub mod Csrf
pub mod Custom
pub mod Gateway
pub mod Grok
pub mod Keys
pub mod Limiter
pub mod Login
pub mod Memory
pub mod ProxyPool
pub mod QuotaTracker
pub mod Sessions
pub mod Tunnel
