-- ===== src/Proxy/Startup.antt =====
-- StartProxy, parseProxies, initProxies and startListeners of proxy/proxy.go and proxy/listeners.go: how
-- the stored routes become the servers and the raw listeners of a fresh proxy.
pub mod Ports
use re_mazarin.Common.{
  String, Bool, true, false, not, ◌&&◌, ◌||◌, Option, none, some, List, [], ◌∷◌, ◌++◌, Map, lookup,
  insert, str_eq, if◌then◌else◌, any, or_else, ◌⊎◌, inl, inr,
}
use re_mazarin.Proxy.{
  Host, Proxy, ProxyRoute, ListenServer, Handler, RouteError, no_port, duplicate_url,
  duplicate_tcp_port, duplicate_udp_port, http_and_tcp, missing_cert_or_key, cert_not_found,
  key_not_found, tls_mismatch, handler_failed, listener_failed, has_key, is_tcp, is_udp, is_raw,
  parse_host_port, create_handler_for_route, wrap_route_handler, start_listener, start_raw,
  new_server,
}

-- The variables of the loop of parseProxies.
pub record Scan : Type 0 where
  pub used_urls : List String
  pub tcp_ports : List String
  pub udp_ports : List String
  pub servers : Map ListenServer

abbrev pub member : String → List String → Bool
member x xs = any (str_eq x) xs

abbrev pub add_if : Bool → String → List String → List String
add_if b x xs = if b then x ∷ xs else xs

-- The branch of a raw route.
unfoldable pub parse_raw : Scan → String → ProxyRoute → RouteError ⊎ Scan
unfolding is_tcp is_udp
parse_raw sc port route =
    if is_tcp route.kind && member port sc.tcp_ports
    then inl duplicate_tcp_port
    else if is_tcp route.kind && has_key sc.servers port
    then inl http_and_tcp
    else if is_udp route.kind && member port sc.udp_ports
    then inl duplicate_udp_port
    else inr (record sc {
      tcp_ports = add_if (is_tcp route.kind) port sc.tcp_ports;
      udp_ports = add_if (is_udp route.kind) port sc.udp_ports;
    })

-- The files that a route with TLS needs.
unfoldable pub tls_error : Host → ProxyRoute → Option RouteError
tls_error h route =
    if not route.tls
    then none
    else if str_eq route.cert "" || str_eq route.key ""
    then some missing_cert_or_key
    else elim (h.stat route.cert) [
      | none ↦ some cert_not_found
      | some _ ↦ elim (h.stat route.key) [ none ↦ some key_not_found | some _ ↦ none ]
    ]

abbrev pub with_route : Scan → (host port : String) → ProxyRoute → ListenServer → Scan
with_route sc host port route ls = record sc {
  servers = insert sc.servers port (record ls { routes = insert ls.routes host route });
}

differs : Bool → Bool → Bool
differs true b = not b
differs false b = b

-- The server that the port has by now, or a new one.
unfoldable pub parse_server :
    Scan → (host port : String) → ProxyRoute → Option ListenServer → RouteError ⊎ Scan
unfolding new_server differs
parse_server sc host port route none = inr (with_route sc host port route (new_server route port))
parse_server sc host port route (some ls) =
    if differs ls.tls route.tls then inl tls_mismatch else inr (with_route sc host port route ls)

unfoldable pub parse_http : Host → Scan → (host port : String) → ProxyRoute → RouteError ⊎ Scan
unfolding tls_error parse_server
parse_http h sc host port route =
    if member port sc.tcp_ports then inl http_and_tcp else elim (tls_error h route) [
      | some e ↦ inl e
      | none ↦ parse_server sc host port route (lookup sc.servers port)
    ]

-- One round of the loop.
unfoldable pub parse_route : Host → Scan → ProxyRoute → Option (String × String) → RouteError ⊎ Scan
unfolding is_raw parse_raw parse_http
parse_route h sc route none = inl no_port
parse_route h sc route (some (host, port)) =
    let sc' = record sc { used_urls = route.url ∷ sc.used_urls } in
    if member route.url sc.used_urls
    then inl duplicate_url
    else if is_raw route.kind
    then parse_raw sc' port route
    else parse_http h sc' host port route

-- parseProxies; an error ends the loop, and the program.
unfoldable pub parse_proxies : Host → RouteError ⊎ Scan → List ProxyRoute → RouteError ⊎ Scan
unfolding parse_route parse_host_port
parse_proxies h x [] = x
parse_proxies h (inl e) (r ∷ rs) = inl e
parse_proxies h (inr sc) (r ∷ rs) = parse_proxies h (parse_route h sc r (parse_host_port r.url)) rs

-- The inner loop of initProxies.
unfoldable pub init_handlers : Host → Map ProxyRoute → Option (Map Handler)
unfolding create_handler_for_route wrap_route_handler
init_handlers h [] = some []
init_handlers h ((host, route) ∷ m) = elim (create_handler_for_route h route) [
  | none ↦ none
  | some raw ↦ elim (init_handlers h m) [
    | none ↦ none
    | some hs ↦ some ((host, wrap_route_handler route raw) ∷ hs)
  ]
]

unfoldable pub init_proxies : Host → Map ListenServer → Option (Map ListenServer)
unfolding init_handlers
init_proxies h [] = some []
init_proxies h ((port, ls) ∷ m) = elim (init_handlers h ls.routes) [
  | none ↦ none
  | some hs ↦ elim (init_proxies h m) [
    | none ↦ none
    | some m' ↦ some ((port, record ls { handlers = hs }) ∷ m')
  ]
]

-- The first listener that fails is reported and ends the loop.
unfoldable pub start_listeners : Host → Proxy → Map ListenServer → Proxy
unfolding start_listener
start_listeners h p [] = p
start_listeners h p ((port, ls) ∷ m) = elim (start_listener h p ls) [
  | none ↦ record p { err_chan = p.err_chan ++ listener_failed ∷ [] }
  | some q ↦ start_listeners h q m
]

unfoldable pub start_raws : Proxy → List ProxyRoute → Proxy
unfolding parse_host_port start_raw
start_raws p [] = p
start_raws p (r ∷ rs) = start_raws (start_raw p (or_else (parse_host_port r.url) ("", "")).1 r) rs

abbrev pub empty_scan : Scan
empty_scan = record { used_urls = []; tcp_ports = []; udp_ports = []; servers = [] }

-- The proxy with its servers, before anything listens.
abbrev pub prepared : Proxy → Map ListenServer → Proxy
prepared p servers = record p {
  servers = servers;
  tcp_cancels = [];
  udp_cancels = [];
  started = true;
  err_chan = [];
}

abbrev pub started_with : Host → Proxy → Option (Map ListenServer) → Proxy × Option RouteError
started_with h p none = (prepared p [], some handler_failed)
started_with h p (some servers) =
    (start_raws (start_listeners h (prepared p servers) servers) p.proxies, none)

abbrev pub started_from : Host → Proxy → RouteError ⊎ Scan → Proxy × Option RouteError
started_from h p (inl e) = (prepared p [], some e)
started_from h p (inr sc) = started_with h p (init_proxies h sc.servers)

-- StartProxy. On an error the program ends, so the servers that were prepared by then are left out.
unfoldable pub start_proxy : Host → Proxy → Proxy × Option RouteError
unfolding parse_proxies init_proxies start_listeners start_raws
start_proxy h p = started_from h p (parse_proxies h (inr empty_scan) p.proxies)
