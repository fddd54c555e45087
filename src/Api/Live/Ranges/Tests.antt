-- ===== src/Api/Live/Ranges/Tests.antt =====
-- Runs of a request for a range of ports.
use re_mazarin.Common.{lookup, ◌≡◌, true, false, [], ◌∷◌, refl, if◌then◌else◌, suc}
use re_mazarin.Common.Int.{pos, gap, wrap64, shifted}
use re_mazarin.Common.Text.{split_last, contains, itoa, atoi}
use re_mazarin.Net.{join_host_port, split_host_port}
use re_mazarin.Storage.{Route}
use re_mazarin.Storage.Routes.{ConfigRoute, create_route}
use re_mazarin.Proxy.{validate_route}
use re_mazarin.Api.{is_ok, fail, split_host_port_num}
use re_mazarin.Api.Live.{System}
use re_mazarin.Api.Live.Ranges.{create_route_range, rounds, validate_rows, range_rows, create_rows}
use re_mazarin.Api.Live.Ranges.Rollback.{kept, group_urls}
use re_mazarin.Api.Live.Ranges.Whole.{create_route_range-whole, port_urls}
use re_mazarin.Fixtures.{env, host, storage, world, proxy, group_route}

abbrev game : ConfigRoute
game = record {
  url = "game:9000";
  target = "10.0.0.1:9000";
  kind = "udp";
  tls = false;
  cert = "";
  key = "";
}

-- A row that is disabled has the URL of the second port.
abbrev disabled : Route
disabled = record group_route { url = "game:9001"; enabled = false }

abbrev half_taken : System
half_taken = record {
  store = record storage { proxy_routes = disabled ∷ [] };
  world = world;
  proxy = proxy;
}

create_route_range-whole_example :
    let (sys', reply) =
      create_route_range env host half_taken game "game" (pos 9000) (pos 9002) true "range" 100 in
    (kept "range" sys'.store ≡ disabled ∷ [])
    × (group_urls "range" sys'.store ≡ (
        if is_ok reply
        then port_urls "game" (pos 9000) (suc (gap (pos 9000) (pos 9002))) 0
        else []))
create_route_range-whole_example =
    create_route_range-whole env host half_taken game "game" (pos 9000) "range" refl refl (pos 9002)
      true 100

conflict :
    (create_route_range env host half_taken game "game" (pos 9000) (pos 9002) true "range" 100).1
    ≡ fail 409 "port 9001 already in use"
unfolding create_route_range wrap64 split_host_port_num split_host_port split_last contains atoi
    rounds validate_rows range_rows validate_route join_host_port itoa shifted lookup create_rows
    create_route
conflict = refl
