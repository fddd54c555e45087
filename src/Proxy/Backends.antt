-- ===== src/Proxy/Backends.antt =====
-- proxy/proxy.go: the routes, servers and relays of a running proxy as data. proxy/api.go,
-- proxy/static.go and proxy/reverseProxy.go: the handler that a route is given.
use re_mazarin.Common.{
  String, Bool, ◌||◌, Option, none, some, List, Map, lookup, str_eq, if◌then◌else◌, any, is_some,
}
use re_mazarin.Common.Text.{split_last, strip_prefix}

-- What the program asks of the file system, of crypto/tls and of net/url, and the registered API
-- handlers of the package api.
pub data FileKind : Type 0 where
  directory regular other : FileKind

pub record Host : Type 0 where
  pub stat : String → Option FileKind
  pub open_root : String → Bool
  pub dir : String → String
  pub base : String → String
  pub parse_url : String → Bool
  pub load_key_pair : (cert key : String) → Bool
  pub apis : List String

pub record ProxyRoute : Type 0 where
  pub url : String
  pub target : String
  pub kind : String
  pub tls : Bool
  pub cert : String
  pub key : String
  pub inject_api : Bool

-- What answers behind the middleware.
pub data Backend : Type 0 where
  file_handler : (dir filename : String) → Backend
  folder_handler : (root : String) → Backend
  api_handler : (name : String) → Backend
  reverse_proxy : (target_addr : String) → Backend

-- wrapRouteHandler: the backend behind withAuthForKey at `route_key`, and behind withAPIInject if
-- `inject_api`.
pub record Handler : Type 0 where
  pub route_key : String
  pub backend : Backend
  pub inject_api : Bool

pub record ListenServer : Type 0 where
  pub port : String
  pub tls : Bool
  pub cert_path : String
  pub key_path : String
  pub routes : Map ProxyRoute
  pub handlers : Map Handler

pub record Relay : Type 0 where
  pub target : String
  pub route_url : String

pub data RouteError : Type 0 where
  no_port unknown_type tcp_port_used http_port_used udp_port_used duplicate_url duplicate_tcp_port
        duplicate_udp_port http_and_tcp missing_cert_or_key cert_not_found key_not_found
        tls_mismatch handler_failed listener_failed :
      RouteError

pub record Proxy : Type 0 where
  pub proxies : List ProxyRoute
  pub servers : Map ListenServer
  pub tcp_cancels : Map Relay
  pub udp_cancels : Map Relay
  pub live_http : List String
  pub started : Bool
  pub err_chan : List RouteError

abbrev pub has_key {ℓ} : {A : Type ℓ} → Map A → String → Bool
has_key m k = is_some (lookup m k)

unfoldable pub is_tcp : String → Bool
is_tcp t = str_eq t "tcp" || str_eq t "tcp+udp"

unfoldable pub is_udp : String → Bool
is_udp t = str_eq t "udp" || str_eq t "tcp+udp"

unfoldable pub is_raw : String → Bool
unfolding is_tcp is_udp
is_raw t = is_tcp t || is_udp t

-- The host and the port around the last colon.
unfoldable pub parse_host_port : String → Option (String × String)
parse_host_port raw_url = split_last b':' raw_url

-- createStaticHandler: a handler of a regular file opens the file's directory.
unfoldable pub create_static_handler : Host → ProxyRoute → Option Backend
create_static_handler h route = elim (h.stat route.target) [
  | none ↦ none
  | some directory ↦ if h.open_root route.target then some (folder_handler route.target) else none
  | some regular ↦
      if h.open_root (h.dir route.target)
      then some (file_handler (h.dir route.target) (h.base route.target))
      else none
  | some other ↦ none
]

unfoldable pub create_api_handler : Host → ProxyRoute → Option Backend
create_api_handler h route =
    if any (str_eq route.target) h.apis then some (api_handler route.target) else none

-- createReverseProxy; a target without a scheme is one of http.
unfoldable pub create_reverse_proxy : Host → ProxyRoute → Option Backend
create_reverse_proxy h route =
    let target_addr =
      if is_some (strip_prefix "http://" route.target)
        || is_some (strip_prefix "https://" route.target)
      then route.target
      else Prim.Native.String.◌++◌ "http://" route.target in
    if h.parse_url target_addr then some (reverse_proxy target_addr) else none

unfoldable pub create_handler_for_route : Host → ProxyRoute → Option Backend
unfolding create_static_handler create_api_handler create_reverse_proxy
create_handler_for_route h route =
    if str_eq route.kind "static"
    then create_static_handler h route
    else if str_eq route.kind "api"
    then create_api_handler h route
    else if str_eq route.kind "proxy" || str_eq route.kind ""
    then create_reverse_proxy h route
    else none

unfoldable pub wrap_route_handler : ProxyRoute → Backend → Handler
wrap_route_handler route raw = record {
  route_key = route.url;
  backend = raw;
  inject_api = route.inject_api;
}
