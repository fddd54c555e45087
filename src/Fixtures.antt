-- ===== src/Fixtures.antt =====
-- Concrete values for the tests: a user with a session, a route with a group, a limiter and a proxy.
use re_mazarin.Common.{true, false, none, some, [], ◌∷◌, str_eq, if◌then◌else◌}
use re_mazarin.Common.Int.{pos}
use re_mazarin.Net.{Env}
use re_mazarin.Storage.{Storage, User, Membership, SessionRow, Route, ThrottlePolicy}
use re_mazarin.Limiter.{Limiter}
use re_mazarin.Metrics.Ring.{initial}
use re_mazarin.Auth.{World, Request, parse_cached_route}
use re_mazarin.Api.{ApiRequest, get, post}
use re_mazarin.Proxy.{Host, Proxy, ProxyRoute, ListenServer, Handler, reverse_proxy}

-- Only the address 1.2.3.4 is one; the digest is the text itself.
abbrev pub env : Env
env = record {
  sha256_hex = λ s. s;
  parse_ip = λ s. if str_eq s "1.2.3.4" then some 281470698652420 else none;
  print_ip = λ _. "1.2.3.4";
  parse_cidr = λ _. none;
}

abbrev pub ann : User
ann = record { id = 1; username = "ann"; password_hash = "h"; created_at = 1 }

abbrev pub member_of_two : Membership
member_of_two = record { user_id = 1; group_id = 2 }

abbrev pub session_row : SessionRow
session_row = record {
  id = 1;
  token_hash = "tok";
  user_id = 1;
  client_ip = "1.2.3.4";
  expires_at = 1000;
  created_at = 1;
}

abbrev pub storage : Storage
storage = record {
  reachable = true;
  users = ann ∷ [];
  groups = [];
  user_groups = member_of_two ∷ [];
  sessions = session_row ∷ [];
  invites = [];
  proxy_routes = [];
  settings = none;
  throttle_policies = [];
  banned_ips = [];
  access_log = [];
  auth_failures = [];
  last_failure = 0;
  zone = pos 3600000000000;
  last_user = 1;
  last_group = 0;
  last_session = 1;
  last_invite = 0;
  last_route = 0;
  last_access = 0;
}

-- One token a second, two at most; a ban of ten minutes after two failures within a minute.
abbrev pub anonymous_policy : ThrottlePolicy
anonymous_policy = record {
  tier = "anonymous";
  enabled = true;
  rate_per_sec = pos 1000000;
  burst = pos 2;
  ban_enabled = true;
  ban_threshold = pos 2;
  ban_window_sec = pos 60;
  ban_duration_sec = pos 600;
}

abbrev pub limiter : Limiter
limiter = record {
  ip_buckets = [];
  policies = ("anonymous", anonymous_policy) ∷ [];
  banned = [];
  auth_store = some storage;
}

abbrev pub group_route : Route
group_route = record {
  id = 1;
  url = "app:443";
  target = "backend";
  kind = "tcp";
  tls = true;
  cert = "";
  key = "";
  enabled = true;
  source = "admin";
  allowed_groups = "2";
  allowed_ips = "";
  ip_auth = true;
  persistent_login = true;
  require_login = false;
  range_group = "";
}

-- The same route with a group's name in place of its number.
abbrev pub named_route : Route
named_route = record group_route { url = "named:443"; allowed_groups = "staff" }

abbrev pub world : World
world = record {
  limiter = limiter;
  metrics = initial;
  auth_cache =
      ("app:443", parse_cached_route env group_route)
      ∷ ("named:443", parse_cached_route env named_route)
      ∷ [];
  global_settings = record { session_duration_hours = pos 24; renew_on_access = true };
  log_chan = [];
}

abbrev pub request : Request
request = record { host = "App:443"; tls = true; remote_addr = "1.2.3.4:5000"; cookie = some "tok" }

-- A client without a session.
abbrev pub stranger : Request
stranger = record { host = "app:443"; tls = true; remote_addr = "9.9.9.9:5000"; cookie = none }

abbrev pub host : Host
host = record {
  stat = λ _. none;
  open_root = λ _. true;
  dir = λ s. s;
  base = λ s. s;
  parse_url = λ _. true;
  load_key_pair = λ _ _. true;
  apis = "auth/me" ∷ [];
}

abbrev pub app_handler : Handler
app_handler = record {
  route_key = "app:443";
  backend = reverse_proxy "http://backend";
  inject_api = true;
}

abbrev pub app_server : ListenServer
app_server = record {
  port = "443";
  tls = true;
  cert_path = "";
  key_path = "";
  routes = [];
  handlers = ("app", app_handler) ∷ [];
}

abbrev pub proxy : Proxy
proxy = record {
  proxies = [];
  servers = ("443", app_server) ∷ [];
  tcp_cancels = [];
  udp_cancels = [];
  live_http = ":443" ∷ [];
  started = true;
  err_chan = [];
}

abbrev pub web_route : ProxyRoute
web_route = record {
  url = "web:443";
  target = "10.0.0.1:80";
  kind = "proxy";
  tls = true;
  cert = "";
  key = "";
  inject_api = false;
}

abbrev pub udp_route : ProxyRoute
udp_route = record web_route { url = "app:443"; kind = "udp" }

-- A request of the page's scripts, with the cookie of ann.
abbrev pub get_request : ApiRequest
get_request = record {
  method = get;
  path = "/api/auth/me";
  host = "app.example.org:443";
  tls = true;
  remote_addr = "1.2.3.4:5000";
  cookie = some "tok";
  query = [];
}

abbrev pub post_request : ApiRequest
post_request = record get_request { method = post; path = "/api/auth/login" }
