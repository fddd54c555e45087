-- ===== src/Storage/Routes.antt =====
-- storage/routes.go: the table of routes.
pub mod Sync
pub mod Protect
mod Tests
use re_mazarin.Common.{
  sort_by, ℕ, suc, String, Bool, true, false, not, ◌&&◌, Option, none, some, List, [], ◌∷◌, ◌++◌,
  ◌==◌, str_eq, if◌then◌else◌, select, any, find, map,
}
use re_mazarin.Common.Text.{split, trim_space, itoa_ℕ}
use re_mazarin.Storage.{Storage, Route, Group}
use re_mazarin.Storage.Accounts.{text_before}

pub record ConfigRoute : Type 0 where
  pub url : String
  pub target : String
  pub kind : String
  pub tls : Bool
  pub cert : String
  pub key : String

-- The row that an INSERT makes: the other columns have their defaults.
unfoldable pub new_route : ℕ → ConfigRoute → (source range_group : String) → Route
new_route id c source range_group = record {
  id = id;
  url = c.url;
  target = c.target;
  kind = c.kind;
  tls = c.tls;
  cert = c.cert;
  key = c.key;
  enabled = true;
  source = source;
  allowed_groups = "";
  allowed_ips = "";
  ip_auth = false;
  persistent_login = true;
  require_login = false;
  range_group = range_group;
}

-- ON CONFLICT(url) DO UPDATE: the access-control columns keep their values.
unfoldable pub overwrite : ConfigRoute → Route → Route
overwrite c r = record r {
  target = c.target;
  kind = c.kind;
  tls = c.tls;
  cert = c.cert;
  key = c.key;
  source = "config";
  enabled = true;
}

unfoldable pub has_url : String → List Route → Bool
has_url url rs = any (λ r. str_eq r.url url) rs

unfoldable pub upsert_route : Storage → ConfigRoute → Storage
unfolding new_route overwrite has_url
upsert_route s c =
    if has_url c.url s.proxy_routes
    then record s {
      proxy_routes = map (λ r. if str_eq r.url c.url then overwrite c r else r) s.proxy_routes;
    }
    else record s {
      proxy_routes = s.proxy_routes ++ new_route (suc s.last_route) c "config" "" ∷ [];
      last_route = suc s.last_route;
    }

unfoldable pub upsert_routes : Storage → List ConfigRoute → Storage
upsert_routes s [] = s
upsert_routes s (c ∷ cs) = upsert_routes (upsert_route s c) cs

-- source = 'config' AND url NOT IN (…)
unfoldable pub is_removed : List ConfigRoute → Route → Bool
is_removed cs r = str_eq r.source "config" && not (any (λ c. str_eq c.url r.url) cs)

-- One transaction: all of it, or an error and nothing.
unfoldable pub sync_routes : Storage → List ConfigRoute → Storage × Bool
unfolding upsert_routes upsert_route is_removed
sync_routes s cs =
    if s.reachable
    then (let t = upsert_routes s cs in
        (record t { proxy_routes = select (λ r. not (is_removed cs r)) t.proxy_routes }, true))
    else (s, false)

-- ORDER BY url is done by the callers that show the rows; the others make maps of them, or filter them.
unfoldable pub get_all_routes : Storage → Option (List Route)
get_all_routes s = if s.reachable then some (select (λ r. r.enabled) s.proxy_routes) else none

unfoldable pub get_route_by_url : Storage → String → Option Route
get_route_by_url s url =
    if s.reachable then find (λ r. str_eq r.url url && r.enabled) s.proxy_routes else none

unfoldable pub get_route_by_id : Storage → ℕ → Option Route
get_route_by_id s id = if s.reachable then find (λ r. r.id == id) s.proxy_routes else none

pub record Access : Type 0 where
  pub allowed_groups : String
  pub allowed_ips : String
  pub ip_auth : Bool
  pub persistent_login : Bool
  pub require_login : Bool

abbrev set_access : Access → Route → Route
set_access a r = record r {
  allowed_groups = a.allowed_groups;
  allowed_ips = a.allowed_ips;
  ip_auth = a.ip_auth;
  persistent_login = a.persistent_login;
  require_login = a.require_login;
}

-- UPDATE … WHERE p, and whether a row was affected.
update_where : Storage → (Route → Bool) → (Route → Route) → Storage × Bool
update_where s p f =
    if s.reachable
    then (
      record s { proxy_routes = map (λ r. if p r then f r else r) s.proxy_routes },
      any p s.proxy_routes,
    )
    else (s, false)

unfoldable pub update_route_access : Storage → ℕ → Access → Storage × Bool
unfolding update_where
update_route_access s id a = update_where s (λ r. r.id == id) (set_access a)

unfoldable pub update_route_access_by_group : Storage → String → Access → Storage × Bool
unfolding update_where
update_route_access_by_group s range_group a =
    if str_eq range_group ""
    then (s, false)
    else update_where s (λ r. str_eq r.range_group range_group) (set_access a)

unfoldable pub update_route_endpoint : Storage → ℕ → String → Storage × Bool
unfolding update_where
update_route_endpoint s id target =
    update_where s (λ r. r.id == id && str_eq r.source "ui") (λ r. record r { target = target })

-- The column url is UNIQUE.
unfoldable pub create_route : Storage → ConfigRoute → String → Storage × Option Route
unfolding has_url new_route
create_route s c range_group =
    if s.reachable && not (has_url c.url s.proxy_routes)
    then (let r = new_route (suc s.last_route) c "ui" range_group in
        (
          record s { proxy_routes = s.proxy_routes ++ r ∷ []; last_route = suc s.last_route },
          some r,
        ))
    else (s, none)

-- DELETE … WHERE p RETURNING url; an error when no row was deleted.
delete_where : Storage → (Route → Bool) → Storage × List String
delete_where s p =
    if s.reachable
    then (
      record s { proxy_routes = select (λ r. not (p r)) s.proxy_routes },
      map (λ r. r.url) (select p s.proxy_routes),
    )
    else (s, [])

first_url : List String → Option String
first_url [] = none
first_url (u ∷ _) = some u

unfoldable pub delete_route : Storage → ℕ → Storage × Option String
unfolding delete_where first_url
delete_route s id =
    let (s', urls) = delete_where s (λ r. r.id == id && str_eq r.source "ui") in
    (s', first_url urls)

-- The empty list stands for the error.
unfoldable pub delete_route_group : Storage → String → Storage × List String
unfolding delete_where
delete_route_group s range_group =
    if str_eq range_group ""
    then (s, [])
    else delete_where s (λ r. str_eq r.range_group range_group && str_eq r.source "ui")

-- GetRouteByGroup: the row whose URL comes first.
unfoldable pub get_route_by_group : Storage → String → Option Route
get_route_by_group s range_group =
    if s.reachable
    then find (λ r. true)
        (sort_by (λ q r. text_before q.url r.url)
          (select (λ r. str_eq r.range_group range_group) s.proxy_routes))
    else none

-- EnsureRouteGroup: the number of a group, where no group is set yet; whether the statements succeeded.
group_set_at : Storage → (route_url : String) → Option Group → Storage × Bool
unfolding update_where
group_set_at s route_url none = (s, false)
group_set_at s route_url (some g) = (
  (update_where s (λ r. str_eq r.url route_url && str_eq r.allowed_groups "")
      (λ r. record r { allowed_groups = itoa_ℕ g.id })).0,
  true,
)

unfoldable pub ensure_route_group : Storage → (route_url group_name : String) → Storage × Bool
unfolding group_set_at
ensure_route_group s route_url group_name =
    group_set_at s route_url
      (if s.reachable then find (λ g. str_eq g.name group_name) s.groups else none)

-- The texts between commas, trimmed, without the empty ones.
unfoldable pub trimmed_parts : List String → List String
trimmed_parts [] = []
trimmed_parts (p ∷ ps) =
    let q = trim_space p in if str_eq q "" then trimmed_parts ps else q ∷ trimmed_parts ps

unfoldable pub names_any : List String → List ℕ → Bool
names_any allowed ids = any (λ id. any (str_eq (itoa_ℕ id)) allowed) ids

-- RouteAllows
unfoldable pub route_allows : String → List ℕ → Bool
unfolding trimmed_parts names_any
route_allows allowed_groups ids =
    if str_eq allowed_groups ""
    then true
    else names_any (trimmed_parts (split b',' allowed_groups)) ids
