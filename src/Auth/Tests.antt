-- ===== src/Auth/Tests.antt =====
-- Runs of the properties of access control.
use re_mazarin.Common.{
  ◌≡◌, ◌<◌, true, false, not, ◌&&◌, some, arith, [], ◌∷◌, refl, here, lookup, ◌⊎◌, Among,
}
use re_mazarin.Common.Int.{pos}
use re_mazarin.Net.{normalize_ip}
use re_mazarin.Storage.{SessionRow, Membership}
use re_mazarin.Storage.Routes.{trimmed_parts}
use re_mazarin.Storage.Sessions.{validate_session_by_ip_in_groups, latest, is_candidate}
use re_mazarin.Common.Text.{trim_space, split, atoi}
use re_mazarin.Limiter.{is_banned, allow, record_failure}
use re_mazarin.Metrics.{record_event}
use re_mazarin.Auth.{
  CachedRoute, judge, authorize_ip, with_auth_for_key, extract_client_ip, parse_cached_route,
  ip_allows,
}
use re_mazarin.Auth.Gate.{is_grant, enters, judge-enters}
use re_mazarin.Auth.Requests.{is_forwarded, enters_cached, rate_answer, with_auth_for_key-enters}
use re_mazarin.Auth.Traces.{gate_outcome, with_auth_for_key-metrics, refused-record_failure}
use re_mazarin.Auth.Raw.{authorize_ip-member, authorize_ip-no_numbers}
use re_mazarin.Common.{All, ◌≤◌}
use re_mazarin.Common.Int.{max_i64}
use re_mazarin.Storage.Routes.{route_allows}
use re_mazarin.Storage.Sessions.{Session, group_ids_of, with_groups}
use re_mazarin.Auth.{groups_allow}
use re_mazarin.Storage.{Storage, Group}
use re_mazarin.Storage.Accounts.{get_user_groups}
use re_mazarin.Auth.Groups.{groups_allow-route_allows}
use re_mazarin.Fixtures.{
  env, storage, world, request, stranger, group_route, named_route, session_row,
}

abbrev cached : CachedRoute
cached = parse_cached_route env group_route

judge-enters_example :
    is_grant (judge env storage cached "1.2.3.4" (some "tok") 100)
    ≡ enters env storage cached "1.2.3.4" (some "tok") 100
judge-enters_example = judge-enters env storage cached "1.2.3.4" (some "tok") 100

with_auth_for_key-enters_example :
    is_forwarded (with_auth_for_key env world "app:443" request 100).1 ≡ (
      not (is_banned world.limiter (extract_client_ip request) 100).1
      && (rate_answer world.limiter (extract_client_ip request) 100).1.0
      && enters_cached env storage
          (lookup world.auth_cache "app:443")
          (extract_client_ip request)
          (some "tok")
          100)
with_auth_for_key-enters_example =
    with_auth_for_key-enters env world storage "app:443" request 100 refl

with_auth_for_key-metrics_example :
    (with_auth_for_key env world "app:443" request 100).0.metrics
    ≡ record_event world.metrics
        (extract_client_ip request)
        "app:443"
        (gate_outcome
          (is_banned world.limiter (extract_client_ip request) 100).1
          (rate_answer world.limiter (extract_client_ip request) 100).1.0
          (enters_cached env storage
            (lookup world.auth_cache "app:443")
            (extract_client_ip request)
            (some "tok")
            100))
        100
with_auth_for_key-metrics_example =
    with_auth_for_key-metrics env world storage "app:443" request 100 refl

stranger-not_banned : (is_banned world.limiter (extract_client_ip stranger) 100).1 ≡ false
unfolding is_banned lookup
stranger-not_banned = refl

stranger-refused : is_forwarded (with_auth_for_key env world "nowhere:443" stranger 100).1 ≡ false
unfolding with_auth_for_key is_banned lookup allow
stranger-refused = refl

refused-record_failure_example :
    (with_auth_for_key env world "nowhere:443" stranger 100).0.limiter
    ≡ record_failure
        (rate_answer world.limiter (extract_client_ip stranger) 100).0
        (extract_client_ip stranger)
        100
refused-record_failure_example =
    refused-record_failure env world storage "nowhere:443" stranger 100 refl stranger-not_banned
      stranger-refused

admitted : (authorize_ip env world "app:443" "1.2.3.4" 100).1.0 ≡ true
unfolding authorize_ip lookup parse_cached_route validate_session_by_ip_in_groups latest
    is_candidate normalize_ip trim_space trimmed_parts split atoi
admitted = refl

authorize_ip-member_example :
    (ip_allows env cached "1.2.3.4" ≡ true)
    ⊎ ((r : SessionRow) × (m : Membership) × Among r storage.sessions
        × (r.client_ip ≡ normalize_ip env "1.2.3.4")
        × (100 < r.expires_at)
        × Among m storage.user_groups
        × (m.user_id ≡ r.user_id)
        × Among (pos m.group_id) (pos 2 ∷ []))
unfolding parse_cached_route lookup trimmed_parts split trim_space atoi
authorize_ip-member_example =
    authorize_ip-member env world storage cached "app:443" "1.2.3.4" 100 (pos 2) [] refl refl refl
      refl admitted

authorize_ip-no_numbers_example : (authorize_ip env world "named:443" "1.2.3.4" 100).1.0 ≡ true
unfolding parse_cached_route lookup normalize_ip trimmed_parts split trim_space atoi
authorize_ip-no_numbers_example =
    authorize_ip-no_numbers env world storage (parse_cached_route env named_route) "named:443"
      "1.2.3.4" 100 session_row refl refl refl refl refl (here refl) refl refl (omega arith)

abbrev ann_session : Session
ann_session = record { id = 1; user_id = 1; username = "ann"; expires_at = 1000; created_at = 1 }

abbrev two : Group
two = record { id = 2; name = "two"; description = ""; created_at = 1 }

abbrev with_two : Storage
with_two = record storage { groups = two ∷ [] }

few_groups : All (λ n. n ≤ max_i64) (group_ids_of with_two 1)
unfolding group_ids_of
few_groups = (omega arith, tt)

ann-groups : get_user_groups with_two 1 ≡ some (two ∷ [])
unfolding get_user_groups
ann-groups = refl

groups_allow-route_allows_example :
    groups_allow
      (parse_cached_route env group_route).group_set
      (with_groups with_two ann_session).group_ids
    ≡ route_allows "2" (2 ∷ [])
groups_allow-route_allows_example =
    groups_allow-route_allows env with_two ann_session group_route (two ∷ []) refl few_groups
      (refl, tt) ann-groups
