-- ===== src/Api/Live/Routes/Tests.antt =====
-- Runs of the routes handler.
use re_mazarin.Common.{◌≡◌, true, false, none, some, [], ◌∷◌, refl}
use re_mazarin.Common.Int.{pos}
use re_mazarin.Common.{lookup}
use re_mazarin.Common.Text.{split_last, contains, atoi}
use re_mazarin.Net.{split_host_port}
use re_mazarin.Storage.Sessions.{validate_session}
use re_mazarin.Storage.Accounts.{user_in_group}
use re_mazarin.Storage.{Group}
use re_mazarin.Storage.Routes.{Access}
use re_mazarin.Api.{refused, is_raw_type, require_admin, split_host_port_num}
use re_mazarin.Proxy.{http_port_used, validate_route}
use re_mazarin.Api.Live.{System}
use re_mazarin.Api.Live.Routes.{
  RouteBody, Certificate, asked_route, implied_access, handle_admin_routes,
}
use re_mazarin.Common.{Among, inl}
use re_mazarin.Storage.{Route}
use re_mazarin.Storage.Sessions.{Session}
use re_mazarin.Storage.Routes.{create_route}
use re_mazarin.Proxy.{
  register_route, Backend, parse_host_port, is_raw, create_handler_for_route, wrap_route_handler,
}
use re_mazarin.Proxy.Registry.{handler_at}
use re_mazarin.Api.{ok, route_made}
use re_mazarin.Api.Live.Ranges.{proxy_route}
use re_mazarin.Api.Live.Routes.Made.{handle_admin_routes-made}
use re_mazarin.Fixtures.{env, host, storage, world, proxy, post_request, group_route}

abbrev certificate : Certificate
certificate = record { cert = "c"; key = "k" }

abbrev raw_body : RouteBody
raw_body = record {
  url = "game:9000";
  target = "10.0.0.1:9000";
  kind = "udp";
  tls = true;
  range_end = pos 0;
  offset = false;
}

asked_raw : asked_route certificate raw_body ≡ record {
  url = "game:9000";
  target = "10.0.0.1:9000";
  kind = "udp";
  tls = false;
  cert = "";
  key = "";
}
unfolding asked_route is_raw_type
asked_raw = refl

abbrev groups_only : Access
groups_only = record {
  allowed_groups = "2";
  allowed_ips = "";
  ip_auth = false;
  persistent_login = false;
  require_login = false;
}

implied : (implied_access groups_only (some group_route)).ip_auth ≡ true
unfolding implied_access is_raw_type
implied = refl

abbrev admins : Group
admins = record { id = 2; name = "admin"; description = ""; created_at = 1 }

abbrev administered : System
administered = record {
  store = record storage { groups = admins ∷ [] };
  world = world;
  proxy = proxy;
}

-- The proxy of the tests has an HTTP listener on port 443.
refused_tcp :
    (handle_admin_routes env host certificate administered post_request
      (some (record raw_body { url = "game:443"; kind = "tcp" }))
      none
      "range"
      100).1
    ≡ refused http_port_used
unfolding handle_admin_routes require_admin validate_session user_in_group split_host_port_num
    split_host_port split_last contains atoi validate_route asked_route lookup
refused_tcp = refl

abbrev web_body : RouteBody
web_body = record {
  url = "new:443";
  target = "10.0.0.1:80";
  kind = "";
  tls = true;
  range_end = pos 0;
  offset = false;
}

abbrev made_row : Route
made_row = record group_route {
  id = 1;
  url = "new:443";
  target = "10.0.0.1:80";
  kind = "proxy";
  cert = "c";
  key = "k";
  source = "ui";
  allowed_groups = "";
  ip_auth = false;
}

abbrev ann_session : Session
ann_session = record { id = 1; user_id = 1; username = "ann"; expires_at = 1000; created_at = 1 }

is_admin : require_admin env administered.store post_request 100 ≡ inl ann_session
unfolding require_admin validate_session user_in_group
is_admin = refl

parsed : split_host_port_num "new:443" ≡ some ("new", pos 443)
unfolding split_host_port_num split_host_port split_last contains atoi
parsed = refl

split : parse_host_port "new:443" ≡ some ("new", "443")
unfolding parse_host_port split_last
split = refl

not_raw : is_raw (asked_route certificate web_body).kind ≡ false
unfolding is_raw asked_route
not_raw = refl

answered :
    (handle_admin_routes env host certificate administered post_request
      (some web_body)
      none
      "range"
      100).1
    ≡ ok none (route_made made_row none)
unfolding handle_admin_routes require_admin validate_session user_in_group split_host_port_num
    split_host_port split_last contains atoi validate_route asked_route lookup create_route
    is_raw_type register_route
answered = refl

handle_admin_routes-made_example :
    let sys' =
      (handle_admin_routes env host certificate administered post_request
        (some web_body)
        none
        "range"
        100).0 in
    Among made_row sys'.store.proxy_routes
    × (made_row.url ≡ "new:443")
    × ((raw : Backend) × (create_handler_for_route host
            (proxy_route (asked_route certificate web_body))
          ≡ some raw)
        × (handler_at sys'.proxy "new" "443"
            ≡ some (wrap_route_handler (proxy_route (asked_route certificate web_body)) raw)))
handle_admin_routes-made_example =
    handle_admin_routes-made env host certificate administered post_request web_body none "range"
      100 ann_session "new" (pos 443) is_admin refl refl parsed refl made_row "new" "443" split
      not_raw answered
