-- ===== src/Proxy.antt =====
-- proxy/proxy.go, with the listeners of proxy/listeners.go, proxy/tcp.go and proxy/udp.go: the routes of
-- a running proxy, whose data and handlers are in Proxy/Backends. A cancel function is the relay that it
-- cancels. The contexts, the goroutines and the lengths of the channels are left out; `live_http` holds
-- the addresses of the servers.
pub mod Registry
pub mod Handlers
pub mod Startup
pub mod Lifecycle
mod Tests
mod Backends
unfoldable pub use re_mazarin.Proxy.Backends.{
  is_tcp, is_udp, is_raw, parse_host_port, create_static_handler, create_api_handler,
  create_reverse_proxy, create_handler_for_route, wrap_route_handler,
}
pub use re_mazarin.Proxy.Backends.{
  FileKind, Host, ProxyRoute, Backend, Handler, ListenServer, Relay, RouteError, Proxy, has_key,
  directory, regular, other, file_handler, folder_handler, api_handler, reverse_proxy, no_port,
  unknown_type, tcp_port_used, http_port_used, udp_port_used, duplicate_url, duplicate_tcp_port,
  duplicate_udp_port, http_and_tcp, missing_cert_or_key, cert_not_found, key_not_found,
  tls_mismatch, handler_failed, listener_failed,
}
use re_mazarin.Common.{
  String, Bool, not, ◌&&◌, ◌||◌, Option, none, some, [], ◌∷◌, ◌++◌, lookup, insert, delete, str_eq,
  if◌then◌else◌,
}

-- startListener: only the TLS configuration can fail; a port that cannot be bound is reported
-- later.
unfoldable pub start_listener : Host → Proxy → ListenServer → Option Proxy
start_listener h p ls =
    if ls.tls && not (h.load_key_pair ls.cert_path ls.key_path)
    then none
    else some (record p { live_http = p.live_http ++ Prim.Native.String.◌++◌ ":" ls.port ∷ [] })

-- A relay that already runs on the port is replaced.
unfoldable pub start_tcp_proxy : Proxy → (port target route_url : String) → Proxy
start_tcp_proxy p port target route_url =
    if p.started
    then record p {
      tcp_cancels = insert p.tcp_cancels port (record { target = target; route_url = route_url });
    }
    else p

unfoldable pub start_udp_proxy : Proxy → (port target route_url : String) → Proxy
start_udp_proxy p port target route_url =
    if p.started
    then record p {
      udp_cancels = insert p.udp_cancels port (record { target = target; route_url = route_url });
    }
    else p

unfoldable pub stop_tcp_proxy : Proxy → String → Proxy
stop_tcp_proxy p port = record p { tcp_cancels = delete p.tcp_cancels port }

unfoldable pub stop_udp_proxy : Proxy → String → Proxy
stop_udp_proxy p port = record p { udp_cancels = delete p.udp_cancels port }

-- The two starts of a raw route, for the protocols of its type.
unfoldable pub start_raw : Proxy → String → ProxyRoute → Proxy
unfolding start_tcp_proxy start_udp_proxy is_tcp is_udp
start_raw p port route =
    let q = if is_tcp route.kind then start_tcp_proxy p port route.target route.url else p in
    if is_udp route.kind then start_udp_proxy q port route.target route.url else q

-- The switch over the route types in ValidateRoute.
unfoldable pub known_type : String → Bool
known_type t =
    str_eq t "proxy"
    || str_eq t "tcp"
    || str_eq t "udp"
    || str_eq t "tcp+udp"
    || str_eq t "static"
    || str_eq t "api"
    || str_eq t ""

-- The port conflicts that ValidateRoute looks for.
unfoldable pub conflict : Proxy → (port kind : String) → Option RouteError
unfolding is_tcp is_udp is_raw
conflict p port kind =
    if (is_tcp kind || not (is_raw kind)) && has_key p.tcp_cancels port
    then some tcp_port_used
    else if is_tcp kind && has_key p.servers port
    then some http_port_used
    else if is_udp kind && has_key p.udp_cancels port
    then some udp_port_used
    else none

abbrev pub validate_at : Proxy → String → Option (String × String) → Option RouteError
validate_at p kind none = some no_port
validate_at p kind (some (_, port)) =
    if not (known_type kind) then some unknown_type else conflict p port kind

unfoldable pub validate_route : Proxy → (url kind : String) → Option RouteError
unfolding parse_host_port known_type conflict
validate_route p url kind = validate_at p kind (parse_host_port url)

unfoldable pub new_server : ProxyRoute → String → ListenServer
new_server route port = record {
  port = port;
  tls = route.tls;
  cert_path = route.cert;
  key_path = route.key;
  routes = [];
  handlers = [];
}

abbrev pub opened : Proxy → String → ListenServer → Option Proxy → Proxy × Option RouteError
opened p port ls none =
    (record p { servers = delete (insert p.servers port ls) port }, some listener_failed)
opened p port ls (some q) = (q, none)

-- The first half of the HTTP branch of RegisterRoute: the listener of the port, started if there is
-- none.
unfoldable pub ensure_listener : Host → Proxy → ProxyRoute → String → Proxy × Option RouteError
unfolding new_server start_listener
ensure_listener h p route port =
    let ls = new_server route port in
    if has_key p.servers port
    then (p, none)
    else if has_key p.tcp_cancels port
    then (p, some tcp_port_used)
    else opened p port ls (start_listener h (record p { servers = insert p.servers port ls }) ls)

abbrev pub put_server : Proxy → String → ListenServer → Proxy
put_server p port ls = record p { servers = insert p.servers port ls }

-- The second half: the handler takes the place of the host's old one.
unfoldable pub install_at :
    Proxy
    → ProxyRoute
    → (host port : String) → Option Backend
    → Option ListenServer
    → Proxy × Option RouteError
unfolding wrap_route_handler
install_at p route host port none o = (p, some handler_failed)
install_at p route host port (some raw) none = (p, some listener_failed)
install_at p route host port (some raw) (some ls) = (
  put_server p port (record ls {
    routes = insert ls.routes host route;
    handlers = insert ls.handlers host (wrap_route_handler route raw);
  }),
  none,
)

unfoldable pub install :
    Host → Proxy → ProxyRoute → (host port : String) → Proxy × Option RouteError
unfolding create_handler_for_route install_at
install h p route host port =
    install_at p route host port (create_handler_for_route h route) (lookup p.servers port)

unfoldable pub register_http :
    Host → ProxyRoute → (host port : String) → Proxy × Option RouteError → Proxy × Option RouteError
unfolding install
register_http h route host port (p, some e) = (p, some e)
register_http h route host port (p, none) = install h p route host port

abbrev pub register_at :
    Host → Proxy → ProxyRoute → Option (String × String) → Proxy × Option RouteError
register_at h p route none = (p, some no_port)
register_at h p route (some (host, port)) =
    if is_raw route.kind
    then (start_raw p port route, none)
    else register_http h route host port (ensure_listener h p route port)

unfoldable pub register_route : Host → Proxy → ProxyRoute → Proxy × Option RouteError
unfolding parse_host_port is_raw start_raw ensure_listener register_http
register_route h p route = register_at h p route (parse_host_port route.url)

unfoldable pub unregister_at : Proxy → (host port : String) → Option ListenServer → Proxy
unfolding stop_tcp_proxy stop_udp_proxy
unregister_at p host port none = stop_udp_proxy (stop_tcp_proxy p port) port
unregister_at p host port (some ls) =
    put_server p port
      (record ls { routes = delete ls.routes host; handlers = delete ls.handlers host })

abbrev pub unregister_url : Proxy → Option (String × String) → Proxy
unregister_url p none = p
unregister_url p (some (host, port)) = unregister_at p host port (lookup p.servers port)

unfoldable pub unregister_route : Proxy → String → Proxy
unfolding parse_host_port unregister_at
unregister_route p url = unregister_url p (parse_host_port url)
