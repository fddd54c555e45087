-- ===== src/Storage/Routes/Tests.antt =====
-- Runs of the properties of SyncRoutes.
use re_mazarin.Common.{true, [], ◌∷◌, refl, Among, here}
use re_mazarin.Storage.{Storage, Route}
use re_mazarin.Storage.Routes.{
  ConfigRoute, sync_routes, upsert_routes, upsert_route, has_url, is_removed, overwrite,
}
use re_mazarin.Storage.Routes.Sync.{SameAccess, sync_routes-SameAccess}
use re_mazarin.Fixtures.{storage, group_route}

abbrev routed : Storage
routed = record storage { proxy_routes = group_route ∷ [] }

abbrev moved : ConfigRoute
moved = record { url = "app:443"; target = "other"; kind = "tcp"; tls = true; cert = ""; key = "" }

sync_routes-SameAccess_example :
    (q : Route) × Among q (sync_routes routed (moved ∷ [])).0.proxy_routes
    × SameAccess q group_route
sync_routes-SameAccess_example =
    sync_routes-SameAccess routed (moved ∷ []) group_route refl (here refl) refl

abbrev moved_route : Route
moved_route = record group_route { target = "other"; source = "config" }

moved-Among : Among moved_route (sync_routes routed (moved ∷ [])).0.proxy_routes
unfolding sync_routes upsert_routes upsert_route has_url is_removed overwrite
moved-Among = here refl
