-- ===== src/Api/Live/Ranges.antt =====
-- createRouteRange of api/auth.go: one route for each port of a range, or none. Where the last port is the
-- largest integer, the test of the loops never fails: a round that is refused ends the first one, or nothing
-- does. `range_group` is what NewRangeGroupID returned.
mod Rollback
pub mod Whole
mod Tests
use re_mazarin.Common.{
  ℕ, zero, suc, String, Bool, true, false, not, Option, none, some, List, [], ◌∷◌, ltb,
  if◌then◌else◌, ◌⊎◌, inl, inr,
}
use re_mazarin.Common.Int.{ℤ, pos, pos_part, gap, shifted, wrap64, eq_ℤ, max_i64, i64_mod}
use re_mazarin.Common.Text.{itoa}
use re_mazarin.Net.{Env, join_host_port}
use re_mazarin.Storage.{Storage, Route}
use re_mazarin.Storage.Routes.{ConfigRoute, create_route, delete_route_group}
use re_mazarin.Proxy.{
  Host, Proxy, ProxyRoute, RouteError, validate_route, register_route, unregister_route,
}
use re_mazarin.Api.{range_made, Reply, ok, fail, refused, endless, split_host_port_num}
use re_mazarin.Api.Live.{System, on_route_update}

abbrev pub max_port_range : ℕ
max_port_range = 256

-- What OnRouteRegister makes of a stored route.
abbrev pub proxy_route : ConfigRoute → ProxyRoute
proxy_route c = record {
  url = c.url;
  target = c.target;
  kind = c.kind;
  tls = c.tls;
  cert = c.cert;
  key = c.key;
  inject_api = false;
}

-- The target of the port `k` steps behind the first one.
abbrev pub target_at : ConfigRoute → Option (String × ℤ) → ℕ → String
target_at c none k = c.target
target_at c (some (h, p)) k = join_host_port h (itoa (shifted p k))

-- The ports of a range, `n` of them, and the route of each.
unfoldable pub range_rows :
    ConfigRoute
    → (host : String) (start : ℤ) → Option (String × ℤ)
    → (n k : ℕ) → List (ℤ × ConfigRoute)
range_rows c host start target zero k = []
range_rows c host start target (suc n) k =
    (
      shifted start k,
      record c {
        url = join_host_port host (itoa (shifted start k));
        target = target_at c target k;
      },
    )
    ∷ range_rows c host start target n (suc k)

abbrev pub refused_or : Option RouteError → Option RouteError → Option RouteError
refused_or none rest = rest
refused_or (some e) rest = some e

-- The first error of OnRouteValidate.
unfoldable pub validate_rows : Proxy → List (ℤ × ConfigRoute) → Option RouteError
validate_rows p [] = none
validate_rows p ((port, c) ∷ cs) = refused_or (validate_route p c.url c.kind) (validate_rows p cs)

-- The database and the proxy, and the port that is in use or the last error of OnRouteRegister.
abbrev pub Outcome : Type 0
Outcome = (Storage × Proxy) × (ℤ ⊎ Option RouteError)

abbrev pub last_error : Option RouteError → Option RouteError → Option RouteError
last_error warning none = warning
last_error warning (some e) = some e

-- A round behind CreateRoute; `rest` are the rounds after it.
abbrev pub made_row :
    (Storage → Proxy → Option RouteError → Outcome)
    → Host
    → Proxy
    → Option RouteError
    → ℤ × ConfigRoute
    → Storage × Option Route
    → Outcome
made_row rest h p warning (port, c) (s, none) = ((s, p), inl port)
made_row rest h p warning (port, c) (s, some _) =
    let (q, e) = register_route h p (proxy_route c) in rest s q (last_error warning e)

unfoldable pub create_rows :
    Host
    → (range_group : String) → List (ℤ × ConfigRoute)
    → Storage
    → Proxy
    → Option RouteError
    → Outcome
create_rows h range_group [] s p warning = ((s, p), inr warning)
create_rows h range_group ((port, c) ∷ cs) s p warning =
    made_row (create_rows h range_group cs) h p warning (port, c) (create_route s c range_group)

unfoldable pub unregister_urls : Proxy → List String → Proxy
unregister_urls p [] = p
unregister_urls p (u ∷ us) = unregister_urls (unregister_route p u) us

-- The roll-back, or the answer.
abbrev pub end_range :
    Env → System → (range_group : String) (span : ℕ) → ℕ → Outcome → System × Reply
end_range env sys range_group span now ((s, p), inl port) =
    let (t, urls) = delete_route_group s range_group in
    (
      record sys { store = t; proxy = unregister_urls p urls },
      fail 409
          (Prim.Native.String.◌++◌ "port " (Prim.Native.String.◌++◌ (itoa port) " already in use")),
    )
end_range env sys range_group span now ((s, p), inr warning) = (
  on_route_update env (record sys { store = s; proxy = p }) now,
  ok none (range_made range_group (wrap64 span) warning),
)

-- Behind the first loop; `ends` is whether its test fails at last.
abbrev pub make_range :
    Env
    → Host
    → System
    → (range_group : String) → List (ℤ × ConfigRoute)
    → (span : ℕ) (ends : Bool) → ℕ
    → Option RouteError
    → System × Reply
make_range env h sys range_group cs span ends now (some e) = (sys, refused e)
make_range env h sys range_group cs span false now none = (sys, endless)
make_range env h sys range_group cs span true now none =
    end_range env sys range_group span now (create_rows h range_group cs sys.store sys.proxy none)

abbrev pub checked_range :
    Env
    → Host
    → System
    → (range_group : String) → List (ℤ × ConfigRoute)
    → (span : ℕ) (ends : Bool) → ℕ
    → System × Reply
checked_range env h sys range_group cs span ends now =
    make_range env h sys range_group cs span ends now (validate_rows sys.proxy cs)

-- p <= endPort fails for some int64 p.
abbrev pub loop_ends : (end_port : ℤ) → Bool
loop_ends end_port = not (eq_ℤ end_port (pos max_i64))

-- The rounds of a loop that ends, or as many as there are integers: the ports begin again after them.
unfoldable pub rounds : (span : ℕ) (ends : Bool) → ℕ
rounds span ends = if ends then span else i64_mod

-- The rounds of the loops, where the target is parsed if it walks along.
abbrev pub range_with :
    Env
    → Host
    → System
    → ConfigRoute
    → (host : String) (start : ℤ) (span : ℕ) (ends : Bool) → (range_group : String) → ℕ
    → (offset : Bool) → Option (String × ℤ)
    → System × Reply
range_with env h sys c host start span ends range_group now false target =
    checked_range env h sys range_group (range_rows c host start none (rounds span ends) 0) span
      ends now
range_with env h sys c host start span ends range_group now true none =
    (sys, fail 400 "offset target must be host:port")
range_with env h sys c host start span ends range_group now true (some t) =
    checked_range env h sys range_group (range_rows c host start (some t) (rounds span ends) 0) span
      ends now

unfoldable pub create_route_range :
    Env
    → Host
    → System
    → ConfigRoute
    → (host : String) (start end_port : ℤ) (offset : Bool) (range_group : String) → ℕ
    → System × Reply
create_route_range env h sys c host start end_port offset range_group now =
    let span = suc (gap start end_port) in
    if ltb max_port_range (pos_part (wrap64 span))
    then (sys, fail 400 "port range too large (max 256 ports)")
    else range_with env h sys c host start span (loop_ends end_port) range_group now offset
        (split_host_port_num c.target)
