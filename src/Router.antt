-- ===== src/Router.antt =====
-- proxy/router.go, withAPIInject of proxy/proxy.go, and the head of handleTCPConn of proxy/tcp.go: how a
-- request or a raw connection finds its route, and what it meets on the way.
pub mod Dispatch
pub mod TlsErrors
mod Tests
use re_mazarin.Common.{
  ℕ, String, Bool, true, false, Option, none, some, lookup, str_eq, if◌then◌else◌, any,
}
use re_mazarin.Common.Text.{to_lower, strip_prefix}
use re_mazarin.Net.{Env, split_host_port}
use re_mazarin.Storage.Throttle.{tier_signed_in}
use re_mazarin.Limiter.{is_banned, set_tier}
use re_mazarin.Metrics.{Outcome, served, banned, not_found, no_listener, tcp_rejected, dial_error}
use re_mazarin.Auth.{
  World, Request, Response, with_auth_for_key, extract_client_ip, event, fail_ip, log_access,
  authorize_ip,
}
use re_mazarin.Proxy.{Host, Proxy, ListenServer, Handler, Backend}

-- The answer of the router: one of its own errors, an API handler, or what the middleware says of
-- the backend.
pub data Answer : Type 0 where
  rejected : (status : ℕ) → Answer
  api_call : (name : String) → Answer
  gated : Backend → Response → Answer

abbrev pub join : (host port : String) → String
join host port = Prim.Native.String.◌++◌ host (Prim.Native.String.◌++◌ ":" port)

-- The host and the port of the Host header; without a port, that of the scheme.
unfoldable pub target_of : Request → String × String
unfolding to_lower split_host_port
target_of r = elim (split_host_port r.host) [
  | some (host, port) ↦ (to_lower host, port)
  | none ↦ (to_lower r.host, if r.tls then "443" else "80")
]

-- The name behind /api/, if a handler is registered under it.
unfoldable pub api_name : Host → String → Option String
unfolding strip_prefix
api_name h path = elim (strip_prefix "/api/" path) [
  | none ↦ none
  | some name ↦ if any (str_eq name) h.apis then some name else none
]

abbrev pub pass_on : Env → World → Handler → Request → ℕ → World × Answer
pass_on env w hd r now =
    let (w', answer) = with_auth_for_key env w hd.route_key r now in (w', gated hd.backend answer)

abbrev pub injected : Env → World → Handler → Request → ℕ → Option String → World × Answer
injected env w hd r now none = pass_on env w hd r now
injected env w hd r now (some name) = (w, api_call name)

-- ServeHTTP of a wrapped handler.
unfoldable pub serve_http :
    Host → Env → World → Handler → Request → (path : String) → ℕ → World × Answer
unfolding api_name
serve_http h env w hd r path now =
    injected env w hd r now (if hd.inject_api then api_name h path else none)

-- An error of the router, counted as an event and as a failure.
abbrev pub stray : World → (ip key : String) → Outcome → (status now : ℕ) → World × Answer
stray w ip key outcome status now = (fail_ip (event w ip key outcome now) ip now, rejected status)

abbrev pub to_handler :
    Host → Env → World → Request → (path ip key : String) → ℕ → Option Handler → World × Answer
to_handler h env w r path ip key now none = stray w ip key not_found 404 now
to_handler h env w r path ip key now (some hd) = serve_http h env w hd r path now

abbrev pub to_server :
    Host
    → Env
    → World
    → Request
    → (path ip host key : String) → ℕ
    → Option ListenServer
    → World × Answer
to_server h env w r path ip host key now none = stray w ip key no_listener 503 now
to_server h env w r path ip host key now (some ls) =
    to_handler h env w r path ip key now (lookup ls.handlers host)

unfoldable pub route : Host → Proxy → Env → World → Request → (path : String) → ℕ → World × Answer
unfolding target_of serve_http
route h p env w r path now =
    let (host, port) = target_of r in
    let ip = extract_client_ip r in
    let key = join host port in
    let (l, hit) = is_banned w.limiter ip now in
    let w' = record w { limiter = l } in
    if hit
    then (event w' ip key banned now, rejected 403)
    else to_server h env w' r path ip host key now (lookup p.servers port)

-- What becomes of a raw connection.
pub data Connection : Type 0 where
  dropped relayed dial_failed : Connection

abbrev signed_in : World → String → String → ℕ → World
signed_in w ip user now =
    if str_eq user "" then w else record w { limiter = set_tier w.limiter ip tier_signed_in now }

abbrev logged : World → (ip user url : String) → World
logged w ip user url = elim w.limiter.auth_store [ none ↦ w | some _ ↦ log_access w ip user url ]

-- The end of handleTCPConn behind the authorisation; `dials` is whether the target answers.
unfoldable pub open_conn : World → (url ip user : String) → (dials : Bool) → ℕ → World × Connection
unfolding log_access
open_conn w url ip user dials now =
    let w' = logged (event (signed_in w ip user now) ip url served now) ip user url in
    if dials then (w', relayed) else (event w' ip url dial_error now, dial_failed)

abbrev pub admit :
    World × (Bool × String) → (url ip : String) → (dials : Bool) → ℕ → World × Connection
admit (w, (true, user)) url ip dials now = open_conn w url ip user dials now
admit (w, (false, user)) url ip dials now = (
  fail_ip (event (log_access w ip "Unauthorized User" url) ip url tcp_rejected now) ip now,
  dropped,
)

unfoldable pub handle_tcp_conn :
    Env → World → (url ip : String) → (dials : Bool) → ℕ → World × Connection
unfolding open_conn log_access
handle_tcp_conn env w url ip dials now =
    let (l, hit) = is_banned w.limiter ip now in
    let w' = record w { limiter = l } in
    if hit
    then (event w' ip url banned now, dropped)
    else admit (authorize_ip env w' url ip now) url ip dials now
