-- ===== src/Proxy/Startup/Ports.antt =====
-- StartProxy of proxy/proxy.go: no port is taken twice by the routes that the program starts with.
use re_mazarin.Common.{
  String, ◌≡◌, Bool, true, false, ◌&&◌, ◌||◌, Option, none, some, List, [], ◌∷◌, Map, lookup,
  insert, str_eq, or_else, ◌⊎◌, inl, inr, arith, refl, ap, ◌∙◌, sym, eq_iff, eq_refl, Option-cases,
  All, subst, ◌++◌,
}
use re_mazarin.Proxy.{
  Host, Proxy, ProxyRoute, ListenServer, Relay, RouteError, handler_failed, has_key, is_tcp, is_raw,
  parse_host_port, start_listener, start_raw, new_server,
}
use re_mazarin.Proxy.Registry.{Exclusive, has_key-insert, start_raw-servers, start_raw-has}
use re_mazarin.Proxy.Startup.{
  Scan, member, parse_raw, with_route, parse_server, parse_http, parse_route, parse_proxies,
  init_handlers, init_proxies, start_listeners, start_raws, empty_scan, prepared, started_with,
  started_from, start_proxy,
}

-- The loop's invariant.
abbrev Apart : Scan → Type 0
Apart sc = (q : String) → (has_key sc.servers q && member q sc.tcp_ports) ≡ false

-- The raw TCP ports of a scan grow.
abbrev Grows : Scan → Scan → Type 0
Grows sc t = (q : String) → member q sc.tcp_ports ≡ true → member q t.tcp_ports ≡ true

abbrev port_of : ProxyRoute → String
port_of r = (or_else (parse_host_port r.url) ("", "")).1

abbrev used : Scan → ProxyRoute → Scan
used sc r = record sc { used_urls = r.url ∷ sc.used_urls }

-- The port of a raw TCP route is among the ports.
abbrev Listed : List String → ProxyRoute → Type 0
Listed ports r = is_tcp r.kind ≡ true → member (port_of r) ports ≡ true

parse_raw-Apart :
    (sc t : Scan) (port : String) (r : ProxyRoute)
    → parse_raw sc port r ≡ inr t
    → Apart sc
    → Apart t × Grows sc t × (is_tcp r.kind ≡ true → member port t.tcp_ports ≡ true)
unfolding parse_raw
parse_raw-Apart sc t port r e ok = (
  λ q. ground (arith, ok q, eq_iff q port),
  λ q m. ground arith,
  λ tcp. ground (arith, eq_refl port),
)

with_route-Apart :
    (sc : Scan) (host port : String) (r : ProxyRoute) (ls : ListenServer)
    → member port sc.tcp_ports ≡ false
    → Apart sc
    → Apart (with_route sc host port r ls)
with_route-Apart sc host port r ls free ok q = ground (
  arith,
  ok q,
  eq_iff port q,
  has_key-insert sc.servers port q (record ls { routes = insert ls.routes host r }),
)

parse_server-Apart :
    (sc t : Scan) (host port : String) (r : ProxyRoute) (o : Option ListenServer)
    → parse_server sc host port r o ≡ inr t
    → member port sc.tcp_ports ≡ false
    → Apart sc
    → Apart t × (t.tcp_ports ≡ sc.tcp_ports)
unfolding parse_server
parse_server-Apart sc t host port r none e free ok =
    let u : Scan = with_route sc host port r (new_server r port) in
    let same : u ≡ t = cc e in
    subst (λ (x : Scan). Apart x × (x.tcp_ports ≡ sc.tcp_ports)) same
      (with_route-Apart sc host port r _ free ok, refl)
parse_server-Apart sc t host port r (some ls) e free ok =
    let u : Scan = with_route sc host port r ls in
    let same : u ≡ t = ground (arith, e) in
    subst (λ (x : Scan). Apart x × (x.tcp_ports ≡ sc.tcp_ports)) same
      (with_route-Apart sc host port r ls free ok, refl)

parse_http-Apart :
    (h : Host) (sc t : Scan) (host port : String) (r : ProxyRoute)
    → parse_http h sc host port r ≡ inr t
    → Apart sc
    → Apart t × (t.tcp_ports ≡ sc.tcp_ports)
unfolding parse_http
parse_http-Apart h sc t host port r e ok =
    ground (arith, parse_server-Apart sc t host port r (lookup sc.servers port))

parse_route-branch :
    (h : Host) (sc t : Scan) (r : ProxyRoute) (host port : String)
    → parse_route h sc r (some (host, port)) ≡ inr t
    → ((is_raw r.kind ≡ true) × (parse_raw (used sc r) port r ≡ inr t))
      ⊎ ((is_raw r.kind ≡ false) × (parse_http h (used sc r) host port r ≡ inr t))
unfolding parse_route
parse_route-branch h sc t r host port e = ground arith

no_url : (h : Host) (sc t : Scan) (r : ProxyRoute) → ¬ (parse_route h sc r none ≡ inr t)
unfolding parse_route
no_url h sc t r e = cc

not_raw : (k : String) → is_raw k ≡ false → is_tcp k ≡ false
unfolding is_raw
not_raw k e = ground arith

parse_route-Apart :
    (h : Host) (sc t : Scan) (r : ProxyRoute) (o : Option (String × String))
    → parse_route h sc r o ≡ inr t
    → Apart sc
    → Apart t
      × Grows sc t
      × (is_tcp r.kind ≡ true → member (or_else o ("", "")).1 t.tcp_ports ≡ true)
parse_route-Apart h sc t r none e ok = absurd (no_url h sc t r e)
parse_route-Apart h sc t r (some (host, port)) e ok =
    elim (parse_route-branch h sc t r host port e) [
      | inl (raw, e') ↦ parse_raw-Apart (used sc r) t port r e' ok
      | inr (http, e') ↦
          let (apart, same) = parse_http-Apart h (used sc r) t host port r e' ok in
          (apart, λ q m. ap (member q) same ∙ m, λ tcp. ground (arith, not_raw r.kind http))
    ]

outcome : (x : RouteError ⊎ Scan) → ((e : RouteError) × (x ≡ inl e)) ⊎ ((t : Scan) × (x ≡ inr t))
outcome (inl e) = inl (e, refl)
outcome (inr t) = inr (t, refl)

stays_failed :
    (h : Host) (e : RouteError) (t : Scan) (rs : List ProxyRoute)
    → ¬ (parse_proxies h (inl e) rs ≡ inr t)
unfolding parse_proxies
stays_failed h e t [] eq = cc
stays_failed h e t (r ∷ rs) eq = cc

-- What a run of the loop keeps and gains.
parse_proxies-Apart :
    (h : Host) (sc t : Scan) (rs : List ProxyRoute)
    → parse_proxies h (inr sc) rs ≡ inr t
    → Apart sc
    → Apart t × Grows sc t × All (Listed t.tcp_ports) rs
unfolding parse_proxies
parse_proxies-Apart h sc t [] e ok =
    let same : sc ≡ t = cc e in
    (subst Apart same ok, λ q m. subst (λ (x : Scan). member q x.tcp_ports ≡ true) same m, tt)
parse_proxies-Apart h sc t (r ∷ rs) e ok =
    elim (outcome (parse_route h sc r (parse_host_port r.url))) [
      | inl (err, e') ↦
          absurd (stays_failed h err t rs (ap (λ x. parse_proxies h x rs) (sym e') ∙ e))
      | inr (u, e') ↦
          let (apart, grows, listed) = parse_route-Apart h sc u r (parse_host_port r.url) e' ok in
          let (apart', grows', rest) =
            parse_proxies-Apart h u t rs (ap (λ x. parse_proxies h x rs) (sym e') ∙ e) apart in
          (apart', λ q m. grows' q (grows q m), (λ tcp. grows' _ (listed tcp), rest))
    ]

-- The raw TCP listeners that StartProxy starts are on listed ports.
start_raws-has :
    (p : Proxy) (ports : List String) (rs : List ProxyRoute) (q : String)
    → All (Listed ports) rs
    → (has_key p.tcp_cancels q ≡ true → member q ports ≡ true)
    → has_key (start_raws p rs).tcp_cancels q ≡ true
    → member q ports ≡ true
unfolding start_raws
start_raws-has p ports [] q listed old h = old h
start_raws-has p ports (r ∷ rs) q (here, rest) old h =
    start_raws-has (start_raw p (port_of r) r) ports rs q rest
      (λ k. ground (arith, start_raw-has p (port_of r) q r, eq_iff (port_of r) q)) h

start_raws-servers : (p : Proxy) (rs : List ProxyRoute) → (start_raws p rs).servers ≡ p.servers
unfolding start_raws
start_raws-servers p [] = refl
start_raws-servers p (r ∷ rs) =
    start_raws-servers (start_raw p (port_of r) r) rs ∙ start_raw-servers p (port_of r) r

start_listeners-ports :
    (h : Host) (p : Proxy) (m : Map ListenServer)
    → ((start_listeners h p m).servers ≡ p.servers)
      × ((start_listeners h p m).tcp_cancels ≡ p.tcp_cancels)
unfolding start_listeners start_listener
start_listeners-ports h p [] = (refl, refl)
start_listeners-ports h p ((port, ls) ∷ m) = ground (
  arith,
  start_listeners-ports h
      (record p { live_http = p.live_http ++ Prim.Native.String.◌++◌ ":" ls.port ∷ [] }) m,
)

has_key-cons :
    (k q : String) (v : ListenServer) (m : Map ListenServer)
    → has_key ((k, v) ∷ m) q ≡ (str_eq k q || has_key m q)
unfolding lookup
has_key-cons k q v m = ground arith

has_key-nil : (q : String) → has_key {A = ListenServer} [] q ≡ false
unfolding lookup
has_key-nil q = refl

init_proxies-has :
    (h : Host) (m m' : Map ListenServer) (q : String)
    → init_proxies h m ≡ some m'
    → has_key m' q ≡ has_key m q
unfolding init_proxies
init_proxies-has h [] m' q e = cc e
init_proxies-has h ((port, ls) ∷ m) m' q e = elim (Option-cases (init_handlers h ls.routes)) [
  | inl n ↦ absurd (ground (arith, n, e))
  | inr (hs, f) ↦ elim (Option-cases (init_proxies h m)) [
    | inl n ↦ absurd (ground (arith, n, e))
    | inr (k, g) ↦
        let same : ((port, record ls { handlers = hs }) ∷ k) ≡ m' = ground (arith, f, g, e) in
        ap (λ (x : Map ListenServer). has_key x q) (sym same)
        ∙ has_key-cons port q _ k
        ∙ ap (λ (b : Bool). str_eq port q || b) (init_proxies-has h m k q g)
        ∙ sym (has_key-cons port q ls m)
  ]
]

none_yet : (m : Map Relay) (q : String) → m ≡ [] → ¬ (has_key m q ≡ true)
unfolding lookup
none_yet m q e k =
    let no_key : has_key m q ≡ false = ap (λ (x : Map Relay). has_key x q) e in cc (no_key, k)

prepared-Exclusive :
    (h : Host) (p : Proxy) (sc : Scan) (m : Map ListenServer)
    → init_proxies h sc.servers ≡ some m
    → Apart sc
    → All (Listed sc.tcp_ports) p.proxies
    → Exclusive (started_with h p (some m)).0
prepared-Exclusive h p sc m e apart listed q =
    let t : Proxy = start_listeners h (prepared p m) m in
    let (servers, tcp) = start_listeners-ports h (prepared p m) m in
    let has : has_key (start_raws t p.proxies).servers q ≡ has_key sc.servers q =
      ap (λ (x : Map ListenServer). has_key x q) (start_raws-servers t p.proxies ∙ servers)
      ∙ init_proxies-has h sc.servers m q e in
    ground (
      arith,
      has,
      apart q,
      start_raws-has t sc.tcp_ports p.proxies q listed
          (λ k. absurd (none_yet t.tcp_cancels q tcp k)),
    )

not_none : (e : RouteError) → ¬ (some e ≡ none)
not_none e h = cc

nothing-Apart : Apart empty_scan
nothing-Apart q = rw (has_key-nil q)

-- A start that succeeds leaves HTTP and raw TCP listeners on different ports, whatever the
-- database held.
pub start_proxy-Exclusive :
    (h : Host) (p : Proxy) → (start_proxy h p).1 ≡ none → Exclusive (start_proxy h p).0
unfolding start_proxy
start_proxy-Exclusive h p done = elim (outcome (parse_proxies h (inr empty_scan) p.proxies)) [
  | inl (err, e) ↦ absurd (not_none err (sym (ap (λ x. (started_from h p x).1) e) ∙ done))
  | inr (sc, e) ↦
      let (apart, _, listed) = parse_proxies-Apart h empty_scan sc p.proxies e nothing-Apart in
      elim (Option-cases (init_proxies h sc.servers)) [
        | inl n ↦ absurd (
            not_none handler_failed (
              sym (ap (λ x. (started_from h p x).1) e ∙ ap (λ o. (started_with h p o).1) n) ∙ done))
        | inr (m, f) ↦
            subst (λ (x : Proxy × Option RouteError). Exclusive x.0)
              (sym (ap (started_from h p) e ∙ ap (started_with h p) f))
              (prepared-Exclusive h p sc m f apart listed)
      ]
]
