-- ===== src/Proxy/Tests.antt =====
-- Runs of the properties of a running proxy.
use re_mazarin.Common.{
  String, ◌≡◌, false, none, some, [], ◌∷◌, refl, lookup, if◌then◌else◌, str_eq, ◌&&◌,
}
use re_mazarin.Common.Text.{split_last, strip_prefix}
use re_mazarin.Proxy.{
  Proxy, Backend, parse_host_port, is_raw, is_tcp, is_udp, register_route, unregister_route,
  ensure_listener, register_http, install, install_at, create_handler_for_route,
  create_reverse_proxy, wrap_route_handler, validate_route, known_type, conflict,
}
use re_mazarin.Proxy.Registry.{Exclusive, handler_at}
use re_mazarin.Proxy.Handlers.{
  register_route-handler_at, unregister_route-handler_at, unregister_route-udp, installed,
}
use re_mazarin.Proxy.Startup.{start_proxy, parse_proxies, init_proxies}
use re_mazarin.Proxy.Lifecycle.{
  Reachable, start, register, retarget, unregister, Reachable-Exclusive,
}
use re_mazarin.Fixtures.{host, proxy, app_server, web_route, udp_route}

register_route-handler_at_example :
    (raw : Backend) × (create_handler_for_route host web_route ≡ some raw)
    × ((j q : String)
        → handler_at (register_route host proxy web_route).0 j q
          ≡ installed proxy "web" "443" (wrap_route_handler web_route raw) j q)
unfolding parse_host_port split_last is_raw is_tcp is_udp register_route ensure_listener
    register_http install install_at create_handler_for_route create_reverse_proxy strip_prefix
    lookup
register_route-handler_at_example =
    register_route-handler_at host proxy web_route "web" "443" refl refl refl

unregister_route-handler_at_example :
    ((j q : String)
      → handler_at (unregister_route proxy "app:443") j q
        ≡ (if str_eq "443" q && str_eq "app" j then none else handler_at proxy j q))
    × ((unregister_route proxy "app:443").tcp_cancels ≡ [])
    × ((unregister_route proxy "app:443").udp_cancels ≡ [])
unfolding parse_host_port split_last lookup
unregister_route-handler_at_example =
    unregister_route-handler_at proxy "app:443" "app" "443" app_server refl refl

-- ValidateRoute accepts the UDP route of the next run.
udp_route-valid : validate_route proxy "app:443" "udp" ≡ none
unfolding validate_route parse_host_port split_last known_type conflict lookup is_tcp is_udp is_raw
udp_route-valid = refl

unregister_route-udp_example :
    (lookup (unregister_route (register_route host proxy udp_route).0 "app:443").udp_cancels "443"
      ≡ some (record { target = "10.0.0.1:80"; route_url = "app:443" }))
    × (handler_at (unregister_route (register_route host proxy udp_route).0 "app:443") "app" "443"
        ≡ none)
unfolding parse_host_port split_last lookup
unregister_route-udp_example =
    unregister_route-udp host proxy udp_route "app" "443" app_server refl refl refl refl

-- A proxy that starts with a route, gets another one, and loses the first.
abbrev fresh : Proxy
fresh = record proxy { proxies = web_route ∷ []; servers = []; live_http = []; started = false }

abbrev live : Proxy
live = (start_proxy host (record fresh { proxies = [] })).0

live-Reachable : Reachable host live
unfolding start_proxy parse_proxies init_proxies
live-Reachable = start (record fresh { proxies = [] }) refl

abbrev with_udp : Proxy
with_udp = (register_route host live udp_route).0

abbrev changed : Proxy
changed = unregister_route (register_route host with_udp udp_route).0 "app:443"

changed-Reachable : Reachable host changed
unfolding validate_route parse_host_port split_last known_type conflict lookup is_tcp is_udp is_raw
    start_proxy parse_proxies init_proxies
changed-Reachable =
    unregister _ "app:443"
      (retarget with_udp udp_route (register live udp_route live-Reachable refl) refl)

Reachable-Exclusive_example : Exclusive changed
Reachable-Exclusive_example = Reachable-Exclusive host changed changed-Reachable
