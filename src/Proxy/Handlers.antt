-- ===== src/Proxy/Handlers.antt =====
-- RegisterRoute and UnregisterRoute of proxy/proxy.go: which handler answers for a host, and which raw
-- listeners run, after a route was added or removed.
use re_mazarin.Common.{
  String, ◌≡◌, true, false, ◌&&◌, Option, none, some, [], Map, lookup, insert, delete, str_eq,
  if◌then◌else◌, arith, eq_iff, eq_refl, refl, sym, ap, ◌∙◌, lookup-insert, lookup-delete,
  Bool-cases, inl, inr, else_branch, then_branch,
}
use re_mazarin.Proxy.{
  Host, Proxy, ProxyRoute, ListenServer, Handler, Relay, Backend, RouteError, is_tcp, is_udp,
  is_raw, parse_host_port, create_handler_for_route, wrap_route_handler, start_listener,
  start_tcp_proxy, start_udp_proxy, stop_tcp_proxy, stop_udp_proxy, start_raw, ensure_listener,
  put_server, install, install_at, register_http, register_route, unregister_at, unregister_route,
  register_at, unregister_url, new_server, opened,
}
use re_mazarin.Proxy.Registry.{
  Exclusive, put_server-Exclusive, has_key-delete, handler_of, handler_at,
}

-- Removing a route keeps HTTP and raw TCP listeners on different ports.
unregister_at-Exclusive :
    (p : Proxy) (host port : String) (o : Option ListenServer)
    → lookup p.servers port ≡ o
    → Exclusive p
    → Exclusive (unregister_at p host port o)
unfolding unregister_at stop_tcp_proxy stop_udp_proxy
unregister_at-Exclusive p host port none e ex q =
    ground (arith, ex q, has_key-delete p.tcp_cancels port q)
unregister_at-Exclusive p host port (some ls) e ex q = put_server-Exclusive p port _ ls e ex q

unregister_url-Exclusive :
    (p : Proxy) (o : Option (String × String)) → Exclusive p → Exclusive (unregister_url p o)
unregister_url-Exclusive p none ex = ex
unregister_url-Exclusive p (some (host, port)) ex =
    unregister_at-Exclusive p host port (lookup p.servers port) refl ex

-- Removing a route, by any text that its caller gives as its URL, keeps HTTP and raw TCP listeners
-- on different ports.
pub unregister_route-Exclusive :
    (p : Proxy) (url : String) → Exclusive p → Exclusive (unregister_route p url)
unfolding unregister_route
unregister_route-Exclusive p url ex = unregister_url-Exclusive p (parse_host_port url) ex

handler_at-put_server :
    (p : Proxy) (port host q : String) (ls : ListenServer)
    → handler_at (put_server p port ls) host q
      ≡ (if str_eq port q then lookup ls.handlers host else handler_at p host q)
handler_at-put_server p port host q ls =
    ap (λ o. handler_of o host) (lookup-insert p.servers port q ls) ∙ ground arith

start_listener-servers :
    (h : Host) (p t : Proxy) (ls : ListenServer)
    → start_listener h p ls ≡ some t
    → t.servers ≡ p.servers
unfolding start_listener
start_listener-servers h p t ls e = ground arith

-- A server without handlers on a port that had none answers for no host.
fresh_handlers :
    (p : Proxy) (m : Map ListenServer) (port host q : String) (ls : ListenServer)
    → lookup p.servers port ≡ none
    → ls.handlers ≡ []
    → (lookup m q ≡ (if str_eq port q then some ls else lookup p.servers q))
    → handler_of (lookup m q) host ≡ handler_at p host q
unfolding lookup
fresh_handlers p m port host q ls e empty same =
    ap (λ o. handler_of o host) same ∙ elim (Bool-cases (str_eq port q)) [
      | inl t ↦
          let gone : lookup p.servers q ≡ none =
            ap (lookup p.servers) (sym ((eq_iff port q).0 t)) ∙ e in
          rw t
            (ap (λ (l : Map Handler). lookup l host) empty ∙ sym (ap (λ o. handler_of o host) gone))
      | inr f ↦ rw f
    ]

opened-handlers :
    (p : Proxy) (port host q : String) (ls : ListenServer) (o : Option Proxy)
    → lookup p.servers port ≡ none
    → ls.handlers ≡ []
    → ((t : Proxy) → o ≡ some t → t.servers ≡ insert p.servers port ls)
    → handler_at (opened p port ls o).0 host q ≡ handler_at p host q
opened-handlers p port host q ls none e empty h =
    let m : Map ListenServer = delete (insert p.servers port ls) port in
    ap (λ o. handler_of o host)
      (ground (
        arith,
        eq_iff port q,
        lookup-delete (insert p.servers port ls) port q,
        lookup-insert p.servers port q ls,
      ))
opened-handlers p port host q ls (some t) e empty h =
    ap (λ (m : Map ListenServer). handler_of (lookup m q) host) (h t refl)
    ∙ fresh_handlers p (insert p.servers port ls) port host q ls e empty
        (lookup-insert p.servers port q ls)

-- A new listener has no handlers, so nothing changes for any host.
handler_at-ensure :
    (h : Host) (p : Proxy) (r : ProxyRoute) (port host q : String)
    → handler_at (ensure_listener h p r port).0 host q ≡ handler_at p host q
unfolding ensure_listener new_server
handler_at-ensure h p r port host q = ground (
  arith,
  opened-handlers p port host q (new_server r port)
      (start_listener h (put_server p port (new_server r port)) (new_server r port)),
)

-- What an installed handler changes.
install-handler_at :
    (p t : Proxy) (r : ProxyRoute) (host port : String) (raw : Backend) (o : Option ListenServer)
    → lookup p.servers port ≡ o
    → install_at p r host port (some raw) o ≡ (t, none)
    → (j q : String)
    → handler_at t j q ≡ (
        if str_eq port q && str_eq host j
        then some (wrap_route_handler r raw)
        else handler_at p j q)
unfolding install_at
install-handler_at p t r host port raw none e done j q = cc
install-handler_at p t r host port raw (some ls) e done j q =
    let ls' : ListenServer = record ls {
      routes = insert ls.routes host r;
      handlers = insert ls.handlers host (wrap_route_handler r raw);
    } in
    let same : put_server p port ls' ≡ t = ap (λ (x : Proxy × Option RouteError). x.0) done in
    ap (λ (x : Proxy). handler_at x j q) (sym same)
    ∙ ground (
      arith,
      eq_iff port q,
      handler_at-put_server p port j q ls',
      lookup-insert ls.handlers host j (wrap_route_handler r raw),
    )

abbrev pub installed : Proxy → (host port : String) → Handler → (j q : String) → Option Handler
installed p host port new j q =
    if str_eq port q && str_eq host j then some new else handler_at p j q

not_installed :
    (p : Proxy) (r : ProxyRoute) (host port : String) (o : Option ListenServer)
    → ¬ ((install_at p r host port none o).1 ≡ none)
unfolding install_at
not_installed p r host port o h = cc

register_http-handler_at :
    (h : Host) (p : Proxy) (r : ProxyRoute) (host port : String) (x : Proxy × Option RouteError)
    (b : Option Backend)
    → create_handler_for_route h r ≡ b
    → ((j q : String) → handler_at x.0 j q ≡ handler_at p j q)
    → (register_http h r host port x).1 ≡ none
    → (raw : Backend) × (b ≡ some raw)
      × ((j q : String)
          → handler_at (register_http h r host port x).0 j q
            ≡ installed p host port (wrap_route_handler r raw) j q)
unfolding register_http install
register_http-handler_at h p r host port (x, some e) b eq same done = absurd (cc done)
register_http-handler_at h p r host port (x, none) none eq same done = absurd (
    not_installed x r host port (lookup x.servers port)
      (ap (λ o. (install_at x r host port o (lookup x.servers port)).1) (sym eq) ∙ done))
register_http-handler_at h p r host port (x, none) (some raw) eq same done =
    let t : Proxy × Option RouteError =
      install_at x r host port (some raw) (lookup x.servers port) in
    let this : install_at x r host port (create_handler_for_route h r) (lookup x.servers port) ≡ t =
      ap (λ o. install_at x r host port o (lookup x.servers port)) eq in
    (
      raw,
      refl,
      λ j q.
          ap (λ (y : Proxy × Option RouteError). handler_at y.0 j q) this
          ∙ install-handler_at x t.0 r host port raw (lookup x.servers port) refl
              (ap (λ (e : Option RouteError). (t.0, e))
                (ap (λ (y : Proxy × Option RouteError). y.1) (sym this) ∙ done))
              j q
          ∙ ground (arith, same j q),
    )

-- An HTTP route that is registered without an error has a handler, which from then on answers for
-- its host on its port; the handler of every other host, and of every other port, stays.
pub register_route-handler_at :
    (h : Host) (p : Proxy) (r : ProxyRoute) (host port : String)
    → parse_host_port r.url ≡ some (host, port)
    → is_raw r.kind ≡ false
    → (register_route h p r).1 ≡ none
    → (raw : Backend) × (create_handler_for_route h r ≡ some raw)
      × ((j q : String)
          → handler_at (register_route h p r).0 j q
            ≡ installed p host port (wrap_route_handler r raw) j q)
unfolding register_route
register_route-handler_at h p r host port e http done =
    let this : register_at h p r (parse_host_port r.url)
        ≡ register_http h r host port (ensure_listener h p r port) =
      ap (register_at h p r) e ∙ else_branch (is_raw r.kind) _ _ http in
    let (raw, made, change) =
      register_http-handler_at h p r host port (ensure_listener h p r port)
        (create_handler_for_route h r) refl (handler_at-ensure h p r port)
        (ap (λ (y : Proxy × Option RouteError). y.1) (sym this) ∙ done) in
    (raw, made, λ j q. ap (λ (y : Proxy × Option RouteError). handler_at y.0 j q) this ∙ change j q)

-- Removing the route of a host, on a port with an HTTP listener, takes the handler of that host
-- away and no other; the raw listeners stay.
pub unregister_route-handler_at :
    (p : Proxy) (url host port : String) (ls : ListenServer)
    → parse_host_port url ≡ some (host, port)
    → lookup p.servers port ≡ some ls
    → ((j q : String)
        → handler_at (unregister_route p url) j q
          ≡ (if str_eq port q && str_eq host j then none else handler_at p j q))
      × ((unregister_route p url).tcp_cancels ≡ p.tcp_cancels)
      × ((unregister_route p url).udp_cancels ≡ p.udp_cancels)
unfolding unregister_route unregister_at
unregister_route-handler_at p url host port ls e found =
    let this : unregister_url p (parse_host_port url) ≡ unregister_at p host port (some ls) =
      ap (unregister_url p) e ∙ ap (unregister_at p host port) found in
    (
      λ j q.
          ap (λ (x : Proxy). handler_at x j q) this
          ∙ ground (
            arith,
            eq_iff port q,
            handler_at-put_server p port j q
                (record ls { routes = delete ls.routes host; handlers = delete ls.handlers host }),
            lookup-delete ls.handlers host j,
          ),
      ap (λ (x : Proxy). x.tcp_cancels) this,
      ap (λ (x : Proxy). x.udp_cancels) this,
    )

abbrev with_relay : Proxy → String → Relay → Proxy
with_relay p port relay = record p { udp_cancels = insert p.udp_cancels port relay }

start_raw-udp :
    (p : Proxy) (port : String) (r : ProxyRoute)
    → p.started ≡ true
    → is_tcp r.kind ≡ false
    → is_udp r.kind ≡ true
    → start_raw p port r ≡ with_relay p port (record { target = r.target; route_url = r.url })
unfolding start_raw start_udp_proxy
start_raw-udp p port r up tcp udp =
    let q : Proxy = if is_tcp r.kind then start_tcp_proxy p port r.target r.url else p in
    let same : q ≡ p = else_branch (is_tcp r.kind) _ p tcp in
    then_branch (is_udp r.kind) (start_udp_proxy q port r.target r.url) q udp
    ∙ ap (λ (x : Proxy). start_udp_proxy x port r.target r.url) same
    ∙ then_branch p.started _ p up

registered-udp :
    (h : Host) (p : Proxy) (r : ProxyRoute) (host port : String)
    → p.started ≡ true
    → r.kind ≡ "udp"
    → parse_host_port r.url ≡ some (host, port)
    → (register_route h p r).0 ≡ with_relay p port (record { target = r.target; route_url = r.url })
unfolding register_route is_raw is_tcp is_udp
registered-udp h p r host port up udp e =
    ap (λ o. (register_at h p r o).0) e
    ∙ ap (λ (x : Proxy × Option RouteError). x.0) (then_branch (is_raw r.kind) _ _ (ap is_raw udp))
    ∙ start_raw-udp p port r up (ap is_tcp udp) (ap is_udp udp)

-- A UDP route on a port that also has an HTTP listener is registered like any other. Removing it
-- leaves its relay running, and takes away the handler of the HTTP route with the same host.
pub unregister_route-udp :
    (h : Host) (p : Proxy) (r : ProxyRoute) (host port : String) (ls : ListenServer)
    → p.started ≡ true
    → r.kind ≡ "udp"
    → parse_host_port r.url ≡ some (host, port)
    → lookup p.servers port ≡ some ls
    → (lookup (unregister_route (register_route h p r).0 r.url).udp_cancels port
        ≡ some (record { target = r.target; route_url = r.url }))
      × (handler_at (unregister_route (register_route h p r).0 r.url) host port ≡ none)
unregister_route-udp h p r host port ls up udp e found =
    let relay : Relay = record { target = r.target; route_url = r.url } in
    let t : Proxy = with_relay p port relay in
    let this : (register_route h p r).0 ≡ t = registered-udp h p r host port up udp e in
    let (gone, _, stay) = unregister_route-handler_at t r.url host port ls e found in
    (
      ap (λ (x : Proxy). lookup (unregister_route x r.url).udp_cancels port) this
          ∙ ap (λ (m : Map Relay). lookup m port) stay
          ∙ (rw (lookup-insert p.udp_cancels port port relay, eq_refl)),
      ap (λ (x : Proxy). handler_at (unregister_route x r.url) host port) this
          ∙ gone host port
          ∙ ground (arith, eq_refl port, eq_refl host),
    )
