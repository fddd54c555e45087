-- ===== src/Lib.antt =====
-- reMazarin, a reverse proxy with sessions, groups, rate limits and bans, modelled in the parts that decide
-- who reaches which backend.
--
-- The parts and their files
-- - Limiter: proxy/limiter.go. IpBucket, Limiter (the package's variables), allow, record_failure, ban, unban,
--   is_banned, set_tier, resolve_tier, reload_throttle, sweep_buckets stand for the functions with the same
--   names in Go's spelling. Limiter/Bans, Limiter/Bucket, Limiter/Failures, Limiter/Tiers and
--   Limiter/Persistence hold the laws.
-- - Metrics: proxy/metrics.go, with its ring in Metrics/Ring.
-- - Auth: proxy/auth.go. Auth/Cache: `World`, the package's variables, the cache and the log queue.
--   Auth: `judge`, the checks of withAuthForKey, `act`, what it does on each of their answers, and
--   `authorize_ip`, which is authorizeIP. Auth/Gate, Auth/Requests, Auth/Traces, Auth/Groups and Auth/Raw
--   hold the laws.
-- - Proxy: proxy/proxy.go, proxy/listeners.go, proxy/static.go, proxy/api.go, proxy/reverseProxy.go, and the
--   starts and stops of proxy/tcp.go and proxy/udp.go. Proxy/Backends has the data and the handlers that a
--   route is given. Proxy/Startup is StartProxy with its loops. The laws
--   are in Proxy/Registry, Proxy/Handlers, Proxy/Startup/Ports and Proxy/Lifecycle, which has the states
--   that the callbacks of main.go reach, but for a change of the target of a raw TCP route that does not run.
-- - Router: proxy/router.go, withAPIInject of proxy/proxy.go, and handleTCPConn of proxy/tcp.go.
--   Router/Dispatch follows a request from the router through the middleware. Router/TlsErrors is tlsErrWriter of
--   proxy/listeners.go.
-- - Udp: the relay of proxy/udp.go, a function for what each of its goroutines does between two waits. The laws
--   are in Udp/Flows, Udp/Owners and Udp/Sockets.
-- - Storage: the tables of storage/migrations as lists of rows, and the statements of the package storage on
--   them: Storage/Sessions, Storage/Activity (storage/metrics.go), Storage/Throttle, Storage/GlobalSettings,
--   Storage/Routes and Storage/Accounts, with laws in Storage/Sessions/ByIp, Storage/Sessions/Tokens,
--   Storage/Sessions/GroupIds, Storage/Routes/Sync, Storage/Routes/Protect and Storage/Accounts/Invites.
--   Storage/Migrations and Storage/Seed are storage/storage.go.
-- - Api: the handlers of the package api. Api has what they share, Api/Accounts the login, the registration and
--   the pages of a user, Api/Sessions and Api/Admin those that only touch the database, Api/Live those that
--   change the running proxy, with Api/Live/Routes and Api/Live/Ranges for the routes. Api/Registry is
--   api/api.go: the handlers by name. The laws are in Api/Registry/Gate, Api/Accounts/Login,
--   Api/Accounts/Register, Api/Live/Routes/Made, Api/Live/Ranges/Rollback and Api/Live/Ranges/Whole.
-- - Boot: config.go, the start in main.go, and the goroutines of InitAuth in proxy/auth.go. Boot/Admin has the
--   laws.
-- - Net, Common/Text, Common/Int and Common/Time: what the program uses of Go's net, strings, strconv and
--   time. Common/Tests, Common/Lists and Common/Dicts are helpers. Fixtures and the Tests modules run the
--   results on values.
--
-- How the parts interact: the router drops banned IPs, finds the handler of the host and the port, and hands
-- the request to withAuthForKey at the handler's route key; that asks the limiter, the cached rules of the
-- route, and the sessions of the database, and reports to the metrics, the limiter and the access log. A
-- request below /api/ of a page goes to a registered handler instead, which reads and writes the database; a
-- handler that changes routes, settings or limits also calls back into the proxy, as main.go connects them. The
-- start reads the database that these handlers leave.
--
-- How Go is read
-- - A time counts nanoseconds from year 1, so that the zero time is 0. A duration is an int64 that wraps
--   around, and a difference of times is cut off at its largest value. A request reads the clock once.
-- - A float64 is an exact number: a rate counts millionths of a token per second, and the tokens of a bucket
--   count units of which Limiter.token make one, so that no refill is rounded.
-- - A map is an association list. A handler, a cancel function and a relay are the data that they close over.
-- - The driver of the database stores a time as the text of the local time; `zone` is its distance to UTC, which
--   does not change. It matters where a query compares an end with datetime('now'), which is UTC: in the
--   bans and in the lists of sessions. The other queries compare texts of one zone, which is as good as instants.
-- - Each operation is one step. The source holds a lock or swaps a map around each part of it; the two
--   statements of UseInvite are an exception, and are one step here as well.
-- - The database is a record of tables with a flag `reachable`; every statement fails when it is not, and no
--   other fault is modelled. `auth_store` is the variable authStore.
-- - SHA-256 and the parsers of addresses are the fields of Net.Env; bcrypt, the file system, crypto/tls and
--   net/url are parameters as well. The only hypothesis on them is that bcrypt accepts a
--   password for its own hash.
-- - A handler of the API gets the decoded body, the random text and the hash that it asks for as arguments, and
--   its answer is a value, which may be that there never is one. The package variables that main.go sets are not nil.
-- - A range of ports whose last one is the largest integer makes createRouteRange loop for ever, unless a port
--   is refused; the model runs through all integers once, as the rounds after that are the same.
-- - Fuel: Common.Text.emit prints a number with fuel one above it, and each round divides it by ten;
--   Common/Text/Decimal shows that this is enough. All other loops are recursion on their list or text, or on
--   the number of their rounds.
--
-- Not modelled: the bytes that are copied between connections, the waiting and the shutdown of the goroutines,
-- ShutdownHTTP, cleanShutdown and the signals, the options of the database connection, otel.go, logging.go, the
-- debug traces, and the web pages. They are I/O and wiring.
pub mod Common
pub mod Net
pub mod Storage
pub mod Limiter
pub mod Metrics
pub mod Auth
pub mod Proxy
pub mod Router
pub mod Udp
pub mod Api
pub mod Boot
pub mod Fixtures
