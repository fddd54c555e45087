-- ===== src/Boot/Tests.antt =====
-- Runs of the start.
use re_mazarin.Common.{
  ◌≡◌, true, false, ◌&&◌, none, some, Option, [], ◌∷◌, ◌⊎◌, inl, inr, lookup, insert, All, refl,
  str_eq,
}
use re_mazarin.Common.Int.{pos}
use re_mazarin.Storage.{Storage, Group, Route}
use re_mazarin.Storage.Seed.{seed_admin}
use re_mazarin.Common.Text.{split_last}
use re_mazarin.Storage.Routes.{sync_routes, get_all_routes, ensure_route_group}
use re_mazarin.Proxy.Startup.{start_proxy}
use re_mazarin.Auth.{parse_cached_route, is_public}
use re_mazarin.Proxy.{
  Host, Proxy, ListenServer, validate_route, register_route, directory, tls_mismatch,
}
use re_mazarin.Api.Live.{System}
use re_mazarin.Boot.{Config, PageConfig, load_config, boot, BootError, start_failed}
use re_mazarin.Boot.Admin.{boot-closed}
use re_mazarin.Fixtures.{env, storage, world, host, proxy, group_route, app_server, web_route}

abbrev site_host : Host
site_host = record host { stat = λ _. some directory }

abbrev no_page : PageConfig
no_page = record { enabled = false; url = ""; target = ""; tls = false; cert = ""; key = "" }

abbrev config : Config
config = record {
  web = no_page;
  database = "";
  admin = record no_page { enabled = true };
  otel = record {
    enabled = false;
    endpoint = "";
    service_name = "";
    interval = pos 0;
    runtime_interval = pos 0;
  };
  routes = [];
}

abbrev admins : Group
admins = record { id = 1; name = "admin"; description = ""; created_at = 1 }

abbrev stored : Storage
stored = record storage { groups = admins ∷ [] }

abbrev loaded : Option Config
loaded = load_config (some config)

abbrev or_config : Option Config → Config
or_config none = config
or_config (some cfg) = cfg

abbrev cfg : Config
cfg = or_config loaded

abbrev or_system : System ⊎ BootError → System
or_system (inl sys) = sys
or_system (inr _) = record { store = stored; world = world; proxy = proxy }

abbrev sys : System
sys = or_system (boot env site_host world stored none 100 (some config))

is_loaded : load_config (some config) ≡ some cfg
unfolding load_config
is_loaded = refl

is_enabled : cfg.admin.enabled ≡ true
unfolding load_config
is_enabled = refl

is_up : (seed_admin stored none 100).reachable ≡ true
unfolding seed_admin
is_up = refl

is_started : boot env site_host world stored none 100 (some config) ≡ inl sys
unfolding boot sync_routes seed_admin get_all_routes ensure_route_group start_proxy split_last
    lookup insert
is_started = refl

boot-closed_example :
    All
      (λ r. (str_eq r.url cfg.admin.url && is_public (parse_cached_route env r)) ≡ false)
      sys.store.proxy_routes
unfolding seed_admin
boot-closed_example =
    boot-closed env site_host world stored none 100 (some config) cfg sys is_loaded is_enabled is_up
      refl is_started

-- A route that the page of the administrators made for the port of another one, with TLS this time. The
-- running proxy takes it, and the next start does not.
abbrev plain_row : Route
plain_row = record group_route {
  url = "a:443";
  target = "10.0.0.1:80";
  kind = "proxy";
  tls = false;
  source = "ui";
}

abbrev tls_row : Route
tls_row = record plain_row { url = "b:443"; tls = true; cert = "c"; key = "k" }

abbrev mixed : Storage
mixed = record storage { proxy_routes = plain_row ∷ tls_row ∷ [] }

abbrev plain_server : ListenServer
plain_server = record app_server { tls = false }

abbrev plain_proxy : Proxy
plain_proxy = record proxy { servers = ("443", plain_server) ∷ [] }

live : validate_route plain_proxy "b:443" "proxy" ≡ none
unfolding validate_route split_last lookup
live = refl

registers :
    (register_route site_host plain_proxy
      (record web_route { url = "b:443"; cert = "c"; key = "k" })).1
    ≡ none
unfolding register_route split_last lookup
registers = refl

restart :
    boot env site_host world mixed none 100 (some (record config { admin = no_page }))
    ≡ inr (start_failed tls_mismatch)
unfolding boot sync_routes seed_admin get_all_routes start_proxy split_last lookup insert
restart = refl
