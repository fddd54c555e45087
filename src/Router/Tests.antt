-- ===== src/Router/Tests.antt =====
-- Runs of the properties of the router.
use re_mazarin.Common.{none, ◌≡◌, true, false, some, refl, lookup, ap, ◌⊎◌}
use re_mazarin.Common.Text.{split_first, split_last, contains, trim_space, split, atoi}
use re_mazarin.Net.{normalize_ip}
use re_mazarin.Storage.Routes.{trimmed_parts}
use re_mazarin.Storage.Sessions.{validate_session_by_ip_in_groups, latest, is_candidate}
use re_mazarin.Limiter.{is_banned, allow}
use re_mazarin.Auth.{with_auth_for_key, parse_cached_route, extract_client_ip, forwarded}
use re_mazarin.Auth.Requests.{enters_cached}
use re_mazarin.Proxy.{Handler, reverse_proxy, api_handler}
use re_mazarin.Router.{gated, api_call, route, api_name}
use re_mazarin.Router.Dispatch.{handler_for, route-forwarded, called, route-called}
use re_mazarin.Router.TlsErrors.{handshake_ip}
use re_mazarin.Fixtures.{host, proxy, env, world, storage, request, stranger}

request-forwarded :
    (route host proxy env world request "/" 100).1
    ≡ gated (reverse_proxy "http://backend") forwarded
unfolding route is_banned lookup split_last contains with_auth_for_key allow parse_cached_route
    validate_session_by_ip_in_groups latest is_candidate normalize_ip trim_space extract_client_ip
    trimmed_parts split atoi
request-forwarded = refl

route-forwarded_example :
    (hd : Handler) × (handler_for proxy request ≡ some hd)
    × (hd.backend ≡ reverse_proxy "http://backend")
    × ((is_banned world.limiter (extract_client_ip request) 100).1 ≡ false)
    × (enters_cached env storage
          (lookup world.auth_cache hd.route_key)
          (extract_client_ip request)
          (some "tok")
          100
        ≡ true)
route-forwarded_example =
    route-forwarded host proxy env world storage request "/" 100 (reverse_proxy "http://backend")
      refl request-forwarded

stranger-api : (route host proxy env world stranger "/api/auth/me" 100).1 ≡ api_call "auth/me"
unfolding route is_banned lookup split_last contains
stranger-api = refl

route-called_example :
    (hd : Handler) × (handler_for proxy stranger ≡ some hd)
    × ((is_banned world.limiter (extract_client_ip stranger) 100).1 ≡ false)
    × (((hd.inject_api ≡ true) × (api_name host "/api/auth/me" ≡ some "auth/me"))
        ⊎ ((hd.backend ≡ api_handler "auth/me")
            × (enters_cached env storage
                  (lookup world.auth_cache hd.route_key)
                  (extract_client_ip stranger)
                  stranger.cookie
                  100
                ≡ true)))
route-called_example =
    route-called host proxy env world storage stranger "/api/auth/me" "auth/me" 100 refl
      (ap called stranger-api)

junk-handshake :
    handshake_ip "http: TLS handshake error from 10.0.0.7:51000: EOF\n" ≡ some "10.0.0.7"
unfolding handshake_ip split_last contains
junk-handshake = refl

junk-handshake_v6 : handshake_ip "http: TLS handshake error from [::1]:51000: EOF\n" ≡ some "::1"
unfolding handshake_ip split_first contains
junk-handshake_v6 = refl

other-handshake : handshake_ip "http: Accept error: EOF\n" ≡ none
unfolding handshake_ip
other-handshake = refl
