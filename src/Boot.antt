-- ===== src/Boot.antt =====
-- config.go, the start in main.go, and the goroutines of InitAuth in proxy/auth.go. `Config` is what the
-- TOML parser made of the file; the telemetry, the logging and the shutdown are left out.
mod Admin
mod Tests
use re_mazarin.Common.{
  ℕ, String, Bool, true, false, ◌||◌, Option, none, some, List, [], ◌∷◌, ◌++◌, map, str_eq,
  if◌then◌else◌, ◌⊎◌, inl, inr,
}
use re_mazarin.Common.Int.{ℤ, pos, is_nonpos}
use re_mazarin.Net.{Env}
use re_mazarin.Storage.{Storage, Route}
use re_mazarin.Storage.Seed.{seed_admin}
use re_mazarin.Storage.Sessions.{cleanup_expired_sessions}
use re_mazarin.Storage.Accounts.{cleanup_expired_invites}
use re_mazarin.Storage.Activity.{log_access_row, cleanup_old_access_log}
use re_mazarin.Storage.Throttle.{cleanup_expired_bans}
use re_mazarin.Storage.Routes.{ConfigRoute, sync_routes, ensure_route_group, get_all_routes}
use re_mazarin.Limiter.{sweep_buckets, reload_throttle}
use re_mazarin.Auth.{World, LogEntry, refresh_cache}
use re_mazarin.Proxy.{Host, Proxy, ProxyRoute, RouteError}
use re_mazarin.Proxy.Startup.{start_proxy}
use re_mazarin.Api.Live.{System}

-- WebConfig and AdminConfig.
pub record PageConfig : Type 0 where
  pub enabled : Bool
  pub url : String
  pub target : String
  pub tls : Bool
  pub cert : String
  pub key : String

pub record OtelConfig : Type 0 where
  pub enabled : Bool
  pub endpoint : String
  pub service_name : String
  pub interval : ℤ
  pub runtime_interval : ℤ

pub record Config : Type 0 where
  pub web : PageConfig
  pub database : String
  pub admin : PageConfig
  pub otel : OtelConfig
  pub routes : List ConfigRoute

abbrev pub or_default : String → String → String
or_default s d = if str_eq s "" then d else s

abbrev pub or_seconds : ℤ → ℤ → ℤ
or_seconds n d = if is_nonpos n then d else n

unfoldable pub validate_config : Config → Config
validate_config cfg = record cfg {
  web = record cfg.web {
    url = or_default cfg.web.url "localhost:8080";
    target = or_default cfg.web.target "./www/auth";
  };
  database = or_default cfg.database "./remazarin.db";
  admin = record cfg.admin {
    url = or_default cfg.admin.url "localhost:8081";
    target = or_default cfg.admin.target "./www/admin";
  };
  otel = record cfg.otel {
    service_name = or_default cfg.otel.service_name "remazarin";
    interval = or_seconds cfg.otel.interval (pos 15);
    runtime_interval = or_seconds cfg.otel.runtime_interval (pos 30);
  };
}

abbrev pub page_route : PageConfig → ConfigRoute
page_route p = record {
  url = p.url;
  target = p.target;
  kind = "static";
  tls = p.tls;
  cert = p.cert;
  key = p.key;
}

abbrev pub page_routes : PageConfig → List ConfigRoute
page_routes p = if p.enabled then page_route p ∷ [] else []

unfoldable pub generate_auth_adm : Config → Config
generate_auth_adm cfg = record cfg {
  routes = (cfg.routes ++ page_routes cfg.web) ++ page_routes cfg.admin;
}

-- loadConfig; `none` is a file that does not decode.
unfoldable pub load_config : Option Config → Option Config
unfolding validate_config generate_auth_adm
load_config none = none
load_config (some cfg) = some (generate_auth_adm (validate_config cfg))

abbrev pub set_store : World → Storage → World
set_store w s = record w { limiter = record w.limiter { auth_store = some s } }

-- InitAuth before its goroutines.
unfoldable pub init_auth : Env → World → Storage → ℕ → World
init_auth env w s now =
    let w' : World = record (set_store w s) {
      global_settings = record { session_duration_hours = pos 168; renew_on_access = true };
    } in
    let w'' = refresh_cache env w' now in record w'' { limiter = reload_throttle w''.limiter now }

abbrev pub drained : World → List LogEntry → Option Storage → ℕ → World
drained w [] o now = w
drained w (e ∷ es) none now = record w { log_chan = es }
drained w (e ∷ es) (some s) now =
    set_store (record w { log_chan = es }) (log_access_row s e.ip e.username e.route now)

-- A round of the goroutine that writes the log.
unfoldable pub drain_log : World → ℕ → World
drain_log w now = drained w w.log_chan w.limiter.auth_store now

abbrev pub cleaned : World → Option Storage → ℕ → World
cleaned w none now = w
cleaned w (some s) now = set_store w (
    cleanup_expired_bans
      (cleanup_old_access_log (cleanup_expired_invites (cleanup_expired_sessions s now) now)) now)

-- A tick of the other one, every five minutes.
unfoldable pub auth_tick : Env → World → ℕ → World
auth_tick env w now =
    let w' = refresh_cache env w now in
    let w'' = cleaned w' w'.limiter.auth_store now in
    record w'' { limiter = sweep_buckets w''.limiter now }

pub data BootError : Type 0 where
  config_failed sync_failed routes_failed : BootError
  start_failed : RouteError → BootError

-- The routes of the database as the proxy gets them: the two pages inject the API.
abbrev pub to_proxy_route : Config → Route → ProxyRoute
to_proxy_route cfg r = record {
  url = r.url;
  target = r.target;
  kind = r.kind;
  tls = r.tls;
  cert = r.cert;
  key = r.key;
  inject_api = str_eq r.url cfg.web.url || str_eq r.url cfg.admin.url;
}

abbrev pub empty_proxy : List ProxyRoute → Proxy
empty_proxy rs = record {
  proxies = rs;
  servers = [];
  tcp_cancels = [];
  udp_cancels = [];
  live_http = [];
  started = false;
  err_chan = [];
}

abbrev pub running : World → Storage → Proxy × Option RouteError → System ⊎ BootError
running w s (p, none) = inl (record { store = s; world = w; proxy = p })
running w s (p, some e) = inr (start_failed e)

abbrev pub start_with : Host → World → Storage → Config → Option (List Route) → System ⊎ BootError
start_with h w s cfg none = inr routes_failed
start_with h w s cfg (some rs) =
    running w s (start_proxy h (empty_proxy (map (to_proxy_route cfg) rs)))

-- EnsureRouteGroup, if there is an admin page; its error is only logged.
unfoldable pub protect_admin : Storage → Config → Storage
protect_admin s cfg =
    if cfg.admin.enabled then (ensure_route_group s cfg.admin.url "admin").0 else s

abbrev pub synced : Env → Host → World → Config → ℕ → Storage × Bool → System ⊎ BootError
synced env h w cfg now (s, false) = inr sync_failed
synced env h w cfg now (s, true) =
    let t = protect_admin s cfg in
    start_with h (refresh_cache env (set_store w t) now) t cfg (get_all_routes t)

abbrev pub boot_config :
    Env → Host → World → Storage → (hash : Option String) → ℕ → Option Config → System ⊎ BootError
boot_config env h w s hash now none = inr config_failed
boot_config env h w s hash now (some cfg) =
    let t = seed_admin s hash now in
    synced env h (init_auth env w t now) cfg now (sync_routes t cfg.routes)

-- run up to the wait for the end: the file is decoded, the database is open and migrated. `w` are the
-- variables of the package proxy before.
unfoldable pub boot :
    Env → Host → World → Storage → (hash : Option String) → ℕ → Option Config → System ⊎ BootError
unfolding load_config init_auth protect_admin
boot env h w s hash now decoded = boot_config env h w s hash now (load_config decoded)
