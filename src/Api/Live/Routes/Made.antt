-- ===== src/Api/Live/Routes/Made.antt =====
-- HandleAdminRoutes of api/auth.go: a route that an administrator makes, in the table and in the proxy.
use re_mazarin.Common.{
  ℕ, suc, String, ◌≡◌, false, ◌||◌, Option, none, some, List, [], ◌∷◌, ◌++◌, Among, here, there,
  str_eq, arith, refl, ap, ◌∙◌, sym, subst, inl, then_branch, else_branch, true_and, eq_refl,
}
use re_mazarin.Common.Int.{ℤ, lt_ℤ}
use re_mazarin.Net.{Env}
use re_mazarin.Storage.{Storage, Route}
use re_mazarin.Storage.Sessions.{Session}
use re_mazarin.Storage.Routes.{ConfigRoute, new_route, create_route}
use re_mazarin.Proxy.{
  Host, Proxy, RouteError, Backend, parse_host_port, is_raw, validate_route, register_route,
  create_handler_for_route, wrap_route_handler,
}
use re_mazarin.Proxy.Registry.{handler_at}
use re_mazarin.Proxy.Handlers.{register_route-handler_at}
use re_mazarin.Api.{post, ApiRequest, route_made, Reply, ok, require_admin, split_host_port_num}
use re_mazarin.Api.Admin.{as_admin}
use re_mazarin.Api.Live.{System, on_route_update}
use re_mazarin.Api.Live.Ranges.{proxy_route}
use re_mazarin.Api.Live.Ranges.Whole.{on_route_update-store}
use re_mazarin.Api.Live.Routes.{
  RouteBody, AccessBody, Certificate, asked_route, live_route, create_one, post_parsed,
  routes_method, handle_admin_routes,
}

Among-last : (rs : List Route) (r : Route) → Among r (rs ++ r ∷ [])
Among-last [] r = here refl
Among-last (q ∷ qs) r = there (Among-last qs r)

-- What CreateRoute says of the row that it returns.
abbrev Stored : ConfigRoute → Storage × Option Route → Type 0
Stored c (s, none) = Unit
Stored c (s, some rt) = Among rt s.proxy_routes × (rt.url ≡ c.url)

create_route-Stored : (s : Storage) (c : ConfigRoute) (g : String) → Stored c (create_route s c g)
unfolding create_route new_route
create_route-Stored s c g =
    ground (arith, Among-last s.proxy_routes (new_route (suc s.last_route) c "ui" g))

-- The row, and whether the proxy took the route.
abbrev IsLive : Host → Proxy → ConfigRoute → Route → System → Type 0
IsLive h p c rt sys' =
    Among rt sys'.store.proxy_routes
    × (rt.url ≡ c.url)
    × ((register_route h p (proxy_route c)).1 ≡ none)
    × (sys'.proxy ≡ (register_route h p (proxy_route c)).0)

abbrev row_of : Route → Reply → Route
row_of d (ok _ (route_made rt _)) = rt
row_of d _ = d

abbrev warning_of : Reply → Option RouteError
warning_of (ok _ (route_made _ w)) = w
warning_of _ = none

live_route-IsLive :
    (env : Env) (h : Host) (sys : System) (c : ConfigRoute) (now : ℕ) (rt : Route)
    (x : Storage × Option Route)
    → Stored c x
    → (live_route env h sys c now x).1 ≡ ok none (route_made rt none)
    → IsLive h sys.proxy c rt (live_route env h sys c now x).0
unfolding on_route_update
live_route-IsLive env h sys c now rt (s, none) st e = absurd (cc e)
live_route-IsLive env h sys c now rt (s, some q) st e =
    let (p, warning) = register_route h sys.proxy (proxy_route c) in
    let same : q ≡ rt = ap (row_of rt) e in
    let store = on_route_update-store env (record sys { store = s; proxy = p }) now in
    (
      subst (λ (t : Storage). Among rt t.proxy_routes) (sym store)
          (subst (λ r. Among r s.proxy_routes) same st.0),
      ap (λ (r : Route). r.url) (sym same) ∙ st.1,
      ap warning_of e,
      refl,
    )

create_one-IsLive :
    (env : Env) (h : Host) (sys : System) (c : ConfigRoute) (now : ℕ) (rt : Route)
    (o : Option RouteError)
    → (create_one env h sys c now o).1 ≡ ok none (route_made rt none)
    → IsLive h sys.proxy c rt (create_one env h sys c now o).0
create_one-IsLive env h sys c now rt (some x) e = absurd (cc e)
create_one-IsLive env h sys c now rt none e =
    live_route-IsLive env h sys c now rt (create_route sys.store c "")
      (create_route-Stored sys.store c "") e

module _ (env : Env) (h : Host) (d : Certificate) (sys : System) (r : ApiRequest) (b : RouteBody)
    (access : Option AccessBody) (range_group : String) (now : ℕ) (sess : Session) (host : String)
    (start : ℤ) (admin : require_admin env sys.store r now ≡ inl sess) (m : r.method ≡ post)
    (full : (str_eq b.url "" || str_eq b.target "") ≡ false)
    (parsed : split_host_port_num b.url ≡ some (host, start))
    (single : lt_ℤ start b.range_end ≡ false) where
  -- The answer to the request for a single route.
  posted :
      handle_admin_routes env h d sys r (some b) access range_group now
      ≡ create_one env h sys
          (asked_route d b)
          now
          (validate_route sys.proxy b.url (asked_route d b).kind)
  unfolding handle_admin_routes asked_route
  posted =
      ap
        (λ x. as_admin sys x (routes_method env h d sys r (some b) access range_group now r.method))
        admin
      ∙ ap (routes_method env h d sys r (some b) access range_group now) m
      ∙ else_branch (str_eq b.url "" || str_eq b.target "") _ _ full
      ∙ ap (post_parsed env h sys (asked_route d b) b.range_end b.offset range_group now) parsed
      ∙ else_branch (lt_ℤ start b.range_end) _ _ single

  -- A single HTTP route that an administrator asks for, answered without an error or a warning, has a row with
  -- its URL in the table of routes, and from then on a handler of its own answers for its host on its
  -- port.
  pub handle_admin_routes-made :
      (rt : Route) (name port : String)
      → parse_host_port b.url ≡ some (name, port)
      → is_raw (asked_route d b).kind ≡ false
      → (handle_admin_routes env h d sys r (some b) access range_group now).1
        ≡ ok none (route_made rt none)
      → let sys' = (handle_admin_routes env h d sys r (some b) access range_group now).0 in
        Among rt sys'.store.proxy_routes
        × (rt.url ≡ b.url)
        × ((raw : Backend) × (create_handler_for_route h (proxy_route (asked_route d b)) ≡ some raw)
            × (handler_at sys'.proxy name port
                ≡ some (wrap_route_handler (proxy_route (asked_route d b)) raw)))
  unfolding asked_route
  handle_admin_routes-made rt name port split http e =
      let c = asked_route d b in
      let (row, url, done, live) =
        subst (λ (x : System × Reply). IsLive h sys.proxy c rt x.0) (sym posted)
          (create_one-IsLive env h sys c now rt (validate_route sys.proxy b.url c.kind)
            (ap (λ (x : System × Reply). x.1) (sym posted) ∙ e)) in
      let (raw, made, change) =
        register_route-handler_at h sys.proxy (proxy_route c) name port split http done in
      (
        row,
        url,
        (
          raw,
          made,
          ap (λ p. handler_at p name port) live
              ∙ change name port
              ∙ then_branch _ _ _ (true_and _ _ (eq_refl port) (eq_refl name)),
        ),
      )
