-- ===== src/Auth/Cache.antt =====
-- proxy/auth.go: the package's variables as a `World`, the parsed routes of the cache, the access log
-- queue and the record of a denial.
use re_mazarin.Common.{
  ℕ, String, ◌||◌, none, some, List, [], ◌∷◌, ◌++◌, Map, insert, ltb, str_eq, if◌then◌else◌, length,
}
use re_mazarin.Common.Int.{ℤ}
use re_mazarin.Common.Text.{split, trim_space, contains, atoi}
use re_mazarin.Net.{Env, IpNet}
use re_mazarin.Storage.{Route, Settings}
use re_mazarin.Storage.GlobalSettings.{get_settings}
use re_mazarin.Storage.Routes.{get_all_routes, trimmed_parts}
use re_mazarin.Limiter.{Limiter, record_failure, reload_throttle}
use re_mazarin.Metrics.{Metrics, Outcome, denied, record_event}

pub record CachedRoute : Type 0 where
  pub route : Route
  pub open route use *
  pub group_set : List String
  pub group_ids : List ℤ
  pub allowed_addrs : List ℕ
  pub allowed_nets : List IpNet

pub record LogEntry : Type 0 where
  pub ip : String
  pub username : String
  pub route : String

pub record World : Type 0 where
  pub limiter : Limiter
  pub metrics : Metrics
  pub auth_cache : Map CachedRoute
  pub global_settings : Settings
  pub log_chan : List LogEntry

-- The capacity of logChan.
abbrev pub log_capacity : ℕ
log_capacity = 512

-- The parts that strconv.Atoi accepts.
ids_of : List String → List ℤ
ids_of [] = []
ids_of (p ∷ ps) = elim (atoi p) [ some id ↦ id ∷ ids_of ps | none ↦ ids_of ps ]

-- The entries of AllowedIPs without a slash that are addresses, and those with one that are
-- networks.
addresses : Env → List String → List ℕ
addresses env [] = []
addresses env (p ∷ ps) =
    let entry = trim_space p in
    if str_eq entry "" || contains b'/' entry
    then addresses env ps
    else elim (env.parse_ip entry) [ some ip ↦ ip ∷ addresses env ps | none ↦ addresses env ps ]

networks : Env → List String → List IpNet
networks env [] = []
networks env (p ∷ ps) =
    let entry = trim_space p in
    if contains b'/' entry
    then elim (env.parse_cidr entry) [ some n ↦ n ∷ networks env ps | none ↦ networks env ps ]
    else networks env ps

unfoldable pub parse_cached_route : Env → Route → CachedRoute
unfolding addresses networks ids_of
parse_cached_route env r =
    let groups =
      if str_eq r.allowed_groups "" then [] else trimmed_parts (split b',' r.allowed_groups) in
    record {
      route = r;
      group_set = groups;
      group_ids = ids_of groups;
      allowed_addrs = addresses env (split b',' r.allowed_ips);
      allowed_nets = networks env (split b',' r.allowed_ips);
    }

cache_of : Env → List Route → Map CachedRoute → Map CachedRoute
cache_of env [] m = m
cache_of env (r ∷ rs) m = cache_of env rs (insert m r.url (parse_cached_route env r))

-- The cache, the settings and the limiter follow the database; nothing changes if the routes cannot
-- be read.
unfoldable pub refresh_cache : Env → World → ℕ → World
unfolding cache_of
refresh_cache env w now = elim w.limiter.auth_store [
  | none ↦ w
  | some s ↦ elim (get_all_routes s) [
    | none ↦ w
    | some routes ↦ record w {
      auth_cache = cache_of env routes [];
      global_settings = get_settings s;
      limiter = reload_throttle w.limiter now;
    }
  ]
]

-- An entry is dropped when the queue is full.
unfoldable pub log_access : World → (ip username route : String) → World
log_access w ip username route =
    if ltb (length w.log_chan) log_capacity
    then record w {
      log_chan = w.log_chan ++ record { ip = ip; username = username; route = route } ∷ [];
    }
    else w

abbrev pub event : World → (ip route : String) → Outcome → ℕ → World
event w ip route outcome now = record w { metrics = record_event w.metrics ip route outcome now }

abbrev pub fail_ip : World → String → ℕ → World
fail_ip w ip now = record w { limiter = record_failure w.limiter ip now }

unfoldable pub deny_auth : World → (ip rk : String) → ℕ → World
unfolding log_access
deny_auth w ip rk now =
    fail_ip (event (log_access w ip "Unauthorized User" rk) ip rk denied now) ip now
