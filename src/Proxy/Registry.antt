-- ===== src/Proxy/Registry.antt =====
-- RegisterRoute, UnregisterRoute and ValidateRoute of proxy/proxy.go: which ports a running proxy holds,
-- and which handler answers for a host.
use re_mazarin.Common.{
  Bool, true, String, ◌≡◌, false, not, ◌&&◌, ◌||◌, Option, none, some, Map, lookup, insert, delete,
  str_eq, arith, eq_iff, refl, sym, ap, ◌∙◌, lookup-insert, lookup-delete, Bool-cases, inl, inr,
}
use re_mazarin.Proxy.{
  Host, Proxy, ProxyRoute, ListenServer, Handler, Backend, RouteError, has_key, is_tcp, is_raw,
  parse_host_port, create_handler_for_route, start_listener, start_tcp_proxy, start_udp_proxy,
  start_raw, conflict, validate_route, ensure_listener, put_server, install, install_at,
  register_http, register_route, validate_at, register_at, new_server,
}

module _ {ℓ} {A : Type ℓ} where
  pub has_key-insert :
      (m : Map A) (k j : String) (v : A) → has_key (insert m k v) j ≡ (str_eq k j || has_key m j)
  has_key-insert m k j v = rw (lookup-insert) (ground arith)

  pub has_key-delete :
      (m : Map A) (k j : String) → has_key (delete m k) j ≡ (not (str_eq k j) && has_key m j)
  has_key-delete m k j = rw (lookup-delete) (ground arith)

-- No port has both an HTTP listener and a raw TCP listener: the two would bind the same socket.
abbrev pub Exclusive : Proxy → Type 0
Exclusive p = (port : String) → (has_key p.servers port && has_key p.tcp_cancels port) ≡ false

-- The handler that answers for a host on a port.
abbrev pub handler_of : Option ListenServer → String → Option Handler
handler_of none host = none
handler_of (some ls) host = lookup ls.handlers host

abbrev pub handler_at : Proxy → (host port : String) → Option Handler
handler_at p host port = handler_of (lookup p.servers port) host

-- The servers and the TCP listeners behind the start of a raw route.
pub start_raw-servers :
    (p : Proxy) (port : String) (r : ProxyRoute) → (start_raw p port r).servers ≡ p.servers
unfolding start_raw start_tcp_proxy start_udp_proxy
start_raw-servers p port r = ground arith

pub start_raw-has :
    (p : Proxy) (port q : String) (r : ProxyRoute)
    → has_key (start_raw p port r).tcp_cancels q
      ≡ (p.started && is_tcp r.kind && str_eq port q || has_key p.tcp_cancels q)
unfolding start_raw start_tcp_proxy start_udp_proxy
start_raw-has p port q r =
    ground
      (arith, has_key-insert p.tcp_cancels port q (record { target = r.target; route_url = r.url }))

-- What the absence of a conflict says of a port.
no_conflict :
    (p : Proxy) (port kind : String)
    → conflict p port kind ≡ none
    → (is_tcp kind && has_key p.servers port) ≡ false
unfolding conflict
no_conflict p port kind h = ground arith

valid_at-no_conflict :
    (p : Proxy) (kind host port : String)
    → validate_at p kind (some (host, port)) ≡ none
    → conflict p port kind ≡ none
valid_at-no_conflict p kind host port h = ground arith

valid-no_conflict :
    (p : Proxy) (url kind host port : String)
    → parse_host_port url ≡ some (host, port)
    → validate_route p url kind ≡ none
    → conflict p port kind ≡ none
unfolding validate_route
valid-no_conflict p url kind host port e h =
    valid_at-no_conflict p kind host port (ap (validate_at p kind) (sym e) ∙ h)

start_raw-Exclusive :
    (p : Proxy) (port : String) (r : ProxyRoute)
    → Exclusive p
    → (is_tcp r.kind && has_key p.servers port) ≡ false
    → Exclusive (start_raw p port r)
start_raw-Exclusive p port r ex free q =
    rw (start_raw-servers p port r, start_raw-has p port q r) (ground (arith, ex q, eq_iff port q))

ensure-Exclusive :
    (h : Host) (p : Proxy) (r : ProxyRoute) (port : String)
    → Exclusive p
    → Exclusive (ensure_listener h p r port).0
unfolding ensure_listener start_listener
ensure-Exclusive h p r port ex q = ground (
  arith,
  ex q,
  ex port,
  eq_iff port q,
  has_key-insert p.servers port q (new_server r port),
  has_key-delete (insert p.servers port (new_server r port)) port q,
)

pub put_server-Exclusive :
    (p : Proxy) (port : String) (ls old : ListenServer)
    → lookup p.servers port ≡ some old
    → Exclusive p
    → Exclusive (put_server p port ls)
put_server-Exclusive p port ls old e ex q =
    ground (arith, ex q, ex port, eq_iff port q, has_key-insert p.servers port q ls)

install-Exclusive :
    (h : Host) (p : Proxy) (r : ProxyRoute) (host port : String) (b : Option Backend)
    (o : Option ListenServer)
    → lookup p.servers port ≡ o
    → Exclusive p
    → Exclusive (install_at p r host port b o).0
unfolding install_at
install-Exclusive h p r host port none o e ex = ex
install-Exclusive h p r host port (some raw) none e ex = ex
install-Exclusive h p r host port (some raw) (some ls) e ex = put_server-Exclusive p port _ ls e ex

register_http-Exclusive :
    (h : Host) (r : ProxyRoute) (host port : String) (x : Proxy × Option RouteError)
    → Exclusive x.0
    → Exclusive (register_http h r host port x).0
unfolding register_http install
register_http-Exclusive h r host port (p, some e) ex = ex
register_http-Exclusive h r host port (p, none) ex =
    install-Exclusive h p r host port (create_handler_for_route h r) (lookup p.servers port) refl ex

-- The port is not that of an HTTP listener, if the route is one of raw TCP.
abbrev pub is_free : Proxy → (kind : String) → Option (String × String) → Bool
is_free p kind none = true
is_free p kind (some (_, port)) = not (is_tcp kind && has_key p.servers port)

pub register_free-Exclusive :
    (h : Host) (p : Proxy) (r : ProxyRoute) (o : Option (String × String))
    → Exclusive p
    → is_free p r.kind o ≡ true
    → Exclusive (register_at h p r o).0
register_free-Exclusive h p r none ex v = ex
register_free-Exclusive h p r (some (host, port)) ex v = elim (Bool-cases (is_raw r.kind)) [
  | inl raw ↦ rw raw (start_raw-Exclusive p port r ex (ground (arith, v)))
  | inr http ↦ rw http (
      register_http-Exclusive h r host port (ensure_listener h p r port)
        (ensure-Exclusive h p r port ex))
]

valid_free :
    (p : Proxy) (kind : String) (o : Option (String × String))
    → validate_at p kind o ≡ none
    → is_free p kind o ≡ true
valid_free p kind none v = refl
valid_free p kind (some (host, port)) v =
    ap not (no_conflict p port kind (valid_at-no_conflict p kind host port v))

register_at-Exclusive :
    (h : Host) (p : Proxy) (r : ProxyRoute) (o : Option (String × String))
    → Exclusive p
    → validate_at p r.kind o ≡ none
    → Exclusive (register_at h p r o).0
register_at-Exclusive h p r o ex v = register_free-Exclusive h p r o ex (valid_free p r.kind o v)

-- Registering a route that ValidateRoute accepts keeps HTTP and raw TCP listeners on different
-- ports, also when the registration fails half way.
pub register_route-Exclusive :
    (h : Host) (p : Proxy) (r : ProxyRoute)
    → Exclusive p
    → validate_route p r.url r.kind ≡ none
    → Exclusive (register_route h p r).0
unfolding validate_route register_route
register_route-Exclusive h p r ex v = register_at-Exclusive h p r (parse_host_port r.url) ex v
