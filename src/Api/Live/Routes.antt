-- ===== src/Api/Live/Routes.antt =====
-- HandleAdminRoutes of api/auth.go. `range_group` is what NewRangeGroupID returns.
pub mod Made
mod Tests
use re_mazarin.Common.{
  ℕ, String, Bool, true, false, not, ◌&&◌, ◌||◌, Option, none, some, List, [], ◌∷◌, str_eq,
  if◌then◌else◌,
}
use re_mazarin.Common.Int.{ℤ, lt_ℤ}
use re_mazarin.Common.Text.{atoi}
use re_mazarin.Net.{Env}
use re_mazarin.Storage.{Storage, Route}
use re_mazarin.Storage.Routes.{
  ConfigRoute, Access, get_all_routes, get_route_by_id, get_route_by_group, create_route,
  delete_route, delete_route_group, update_route_access, update_route_access_by_group,
  update_route_endpoint,
}
use re_mazarin.Proxy.{Host, RouteError, validate_route, register_route, unregister_route}
use re_mazarin.Api.{
  Method, get, post, put, delete, other, ApiRequest, query_get, done, route_rows, route_made, Reply,
  ok, fail, refused, require_admin, by_number, split_host_port_num, is_raw_type,
}
use re_mazarin.Api.Accounts.{not_allowed, by_url}
use re_mazarin.Api.Admin.{as_admin}
use re_mazarin.Api.Live.{System, with_store, on_route_update}
use re_mazarin.Api.Live.Ranges.{proxy_route, create_route_range, unregister_urls}

pub record RouteBody : Type 0 where
  pub url : String
  pub target : String
  pub kind : String
  pub tls : Bool
  pub range_end : ℤ
  pub offset : Bool

-- DefaultCert and DefaultKey.
pub record Certificate : Type 0 where
  pub cert : String
  pub key : String

abbrev pub list_routes : Option (List Route) → Reply
list_routes none = fail 500 "db error"
list_routes (some rts) = ok none (route_rows (by_url rts))

-- The route that a request asks for: a raw one has no TLS, and only one with TLS a certificate.
unfoldable pub asked_route : Certificate → RouteBody → ConfigRoute
asked_route d b =
    let kind = if str_eq b.kind "" then "proxy" else b.kind in
    let tls = b.tls && not (is_raw_type kind) in
    record {
      url = b.url;
      target = b.target;
      kind = kind;
      tls = tls;
      cert = if tls then d.cert else "";
      key = if tls then d.key else "";
    }

-- Behind CreateRoute: the route goes live, or the answer has a warning.
abbrev pub live_route :
    Env → Host → System → ConfigRoute → ℕ → Storage × Option Route → System × Reply
live_route env h sys c now (s, none) = (with_store sys s, fail 409 "url already in use")
live_route env h sys c now (s, some rt) =
    let (p, warning) = register_route h sys.proxy (proxy_route c) in
    (on_route_update env (record sys { store = s; proxy = p }) now, ok none (route_made rt warning))

abbrev pub create_one : Env → Host → System → ConfigRoute → ℕ → Option RouteError → System × Reply
create_one env h sys c now (some e) = (sys, refused e)
create_one env h sys c now none = live_route env h sys c now (create_route sys.store c "")

abbrev pub post_parsed :
    Env
    → Host
    → System
    → ConfigRoute
    → (range_end : ℤ) (offset : Bool) (range_group : String) → ℕ
    → Option (String × ℤ)
    → System × Reply
post_parsed env h sys c range_end offset range_group now none =
    (sys, fail 400 "invalid url: expected host:port")
post_parsed env h sys c range_end offset range_group now (some (host, start)) =
    if lt_ℤ start range_end
    then create_route_range env h sys c host start range_end offset range_group now
    else create_one env h sys c now (validate_route sys.proxy c.url c.kind)

abbrev pub post_route :
    Env
    → Host
    → Certificate
    → System
    → (range_group : String) → ℕ
    → Option RouteBody
    → System × Reply
post_route env h d sys range_group now none = (sys, fail 400 "url and target required")
post_route env h d sys range_group now (some b) =
    if str_eq b.url "" || str_eq b.target ""
    then (sys, fail 400 "url and target required")
    else post_parsed env h sys (asked_route d b) b.range_end b.offset range_group now
        (split_host_port_num b.url)

pub record AccessBody : Type 0 where
  pub access : Access
  pub target : String

-- Groups on a raw route imply authentication by IP.
abbrev pub is_raw_route : Option Route → Bool
is_raw_route none = false
is_raw_route (some rt) = is_raw_type rt.kind

unfoldable pub implied_access : Access → Option Route → Access
implied_access a o =
    if not (str_eq a.allowed_groups "") && is_raw_route o then record a { ip_auth = true } else a

abbrev pub updated_group : Env → System → ℕ → Storage × Bool → System × Reply
updated_group env sys now (s, false) = (with_store sys s, fail 404 "range group not found")
updated_group env sys now (s, true) = (on_route_update env (with_store sys s) now, ok none done)

abbrev pub put_group :
    Env → System → (range_group : String) → ℕ → Option AccessBody → System × Reply
put_group env sys range_group now none = (sys, fail 400 "invalid request")
put_group env sys range_group now (some b) = updated_group env sys now (
    update_route_access_by_group sys.store range_group
      (implied_access b.access (get_route_by_group sys.store range_group)))

-- The route with its new target, behind UpdateRouteEndpoint.
abbrev pub moved : Host → System → Route → (target : String) → Storage × Bool → System
moved h sys rt target (s, false) = with_store sys s
moved h sys rt target (s, true) = record sys {
  store = s;
  proxy =
      (register_route h sys.proxy (record {
        url = rt.url;
        target = target;
        kind = rt.kind;
        tls = rt.tls;
        cert = rt.cert;
        key = rt.key;
        inject_api = false;
      })).0;
}

abbrev pub move_ui : Host → System → ℕ → (target : String) → Option Route → System
move_ui h sys id target none = sys
move_ui h sys id target (some rt) =
    if str_eq rt.source "ui"
    then moved h sys rt target (update_route_endpoint sys.store id target)
    else sys

unfoldable pub move_target : Host → System → ℕ → (target : String) → System
move_target h sys id target =
    if str_eq target "" then sys else move_ui h sys id target (get_route_by_id sys.store id)

abbrev pub updated_route :
    Env → Host → System → ℕ → (target : String) → ℕ → Storage × Bool → System × Reply
updated_route env h sys id target now (s, false) = (with_store sys s, fail 404 "route not found")
updated_route env h sys id target now (s, true) =
    (on_route_update env (move_target h (with_store sys s) id target) now, ok none done)

abbrev pub update_one : Env → Host → System → ℕ → AccessBody → ℕ → System × Reply
update_one env h sys id b now =
    updated_route env h sys id b.target now
      (update_route_access sys.store id (implied_access b.access (get_route_by_id sys.store id)))

abbrev pub put_one : Env → Host → System → ℕ → Option AccessBody → Option ℤ → System × Reply
put_one env h sys now body none = (sys, fail 400 "invalid id")
put_one env h sys now none (some id) = (sys, fail 400 "invalid request")
put_one env h sys now (some b) (some id) =
    by_number id (λ n. update_one env h sys n b now) (sys, fail 404 "route not found")

abbrev pub removed_urls : Env → System → ℕ → Storage × List String → System × Reply
removed_urls env sys now (s, []) = (with_store sys s, fail 400 "range group not found")
removed_urls env sys now (s, u ∷ us) = (
  on_route_update env (record sys { store = s; proxy = unregister_urls sys.proxy (u ∷ us) }) now,
  ok none done,
)

abbrev pub removed_url : Env → System → ℕ → Storage × Option String → System × Reply
removed_url env sys now (s, none) =
    (with_store sys s, fail 400 "route not found or config routes cannot be deleted")
removed_url env sys now (s, some u) = (
  on_route_update env (record sys { store = s; proxy = unregister_route sys.proxy u }) now,
  ok none done,
)

abbrev pub delete_one : Env → System → ℕ → Option ℤ → System × Reply
delete_one env sys now none = (sys, fail 400 "invalid id")
delete_one env sys now (some id) =
    removed_url env sys now (by_number id (delete_route sys.store) (sys.store, none))

abbrev pub routes_method :
    Env
    → Host
    → Certificate
    → System
    → ApiRequest
    → Option RouteBody
    → Option AccessBody
    → (range_group : String) → ℕ
    → Method
    → System × Reply
routes_method env h d sys r body access range_group now get =
    (sys, list_routes (get_all_routes sys.store))
routes_method env h d sys r body access range_group now post =
    post_route env h d sys range_group now body
routes_method env h d sys r body access range_group now put =
    if str_eq (query_get r "group") ""
    then put_one env h sys now access (atoi (query_get r "id"))
    else put_group env sys (query_get r "group") now access
routes_method env h d sys r body access range_group now delete =
    if str_eq (query_get r "group") ""
    then delete_one env sys now (atoi (query_get r "id"))
    else removed_urls env sys now (delete_route_group sys.store (query_get r "group"))
routes_method env h d sys r body access range_group now other = (sys, not_allowed)

unfoldable pub handle_admin_routes :
    Env
    → Host
    → Certificate
    → System
    → ApiRequest
    → Option RouteBody
    → Option AccessBody
    → (range_group : String) → ℕ
    → System × Reply
handle_admin_routes env h d sys r body access range_group now =
    as_admin sys (require_admin env sys.store r now)
      (routes_method env h d sys r body access range_group now r.method)
