-- ===== src/Api/Live.antt =====
-- The handlers for administrators that change the running proxy: settings and routes of api/auth.go and
-- the limits of api/throttle.go.
pub mod Ranges
pub mod Routes
use re_mazarin.Common.{
  ltb, sort_by, ℕ, String, Bool, true, false, not, Option, none, some, List, str_eq, or_else,
  if◌then◌else◌, is_some,
}
use re_mazarin.Common.Int.{ℤ}
use re_mazarin.Common.Text.{trim_space, strip_prefix}
use re_mazarin.Net.{Env}
use re_mazarin.Storage.{Storage, ThrottlePolicy, BannedIp}
use re_mazarin.Storage.GlobalSettings.{get_settings, update_settings}
use re_mazarin.Storage.Throttle.{
  tier_anonymous, tier_signed_in, get_throttle_policies, get_active_bans, upsert_throttle_policy,
  delete_throttle_policy,
}
use re_mazarin.Storage.Accounts.{text_before}
use re_mazarin.Limiter.{Limiter, ban_ip, unban_ip}
use re_mazarin.Auth.{World, refresh_cache}
use re_mazarin.Proxy.{Proxy}
use re_mazarin.Api.{
  Method, get, post, put, delete, other, ApiRequest, query_get, done, settings_row, throttle_page,
  Reply, ok, fail, require_admin,
}
use re_mazarin.Api.Accounts.{not_allowed}
use re_mazarin.Api.Admin.{as_admin}

-- The database, which the packages api and proxy share, the package proxy's variables, and the proxy.
-- `world` is read through `shared`, which has the database as it is now.
pub record System : Type 0 where
  pub store : Storage
  pub world : World
  pub proxy : Proxy

abbrev pub shared : System → World
shared sys = record sys.world { limiter = record sys.world.limiter { auth_store = some sys.store } }

abbrev pub with_store : System → Storage → System
with_store sys s = record sys { store = s }

-- What the package proxy made of its variables, and of the database.
abbrev pub after_world : System → World → System
after_world sys w = record sys { world = w; store = or_else w.limiter.auth_store sys.store }

-- OnRouteUpdate, which main.go sets to RefreshCache.
unfoldable pub on_route_update : Env → System → ℕ → System
on_route_update env sys now = after_world sys (refresh_cache env (shared sys) now)

abbrev pub with_limiter : System → (Limiter → Limiter) → System
with_limiter sys f = after_world sys (record (shared sys) { limiter = f (shared sys).limiter })

-- A statement, and the cache behind it if it succeeded.
abbrev pub stored_or :
    Env → System → ℕ → (status : ℕ) (msg : String) → Storage × Bool → System × Reply
stored_or env sys now status msg (s, true) =
    (on_route_update env (with_store sys s) now, ok none done)
stored_or env sys now status msg (s, false) = (with_store sys s, fail status msg)

pub record SettingsBody : Type 0 where
  pub session_duration_hours : ℤ
  pub renew_on_access : Bool

abbrev pub put_settings : Env → System → ℕ → Option SettingsBody → System × Reply
put_settings env sys now none = (sys, fail 400 "invalid request")
put_settings env sys now (some b) =
    stored_or env sys now 500 "db error"
      (update_settings sys.store b.session_duration_hours b.renew_on_access)

abbrev pub settings_method : Env → System → Option SettingsBody → ℕ → Method → System × Reply
settings_method env sys body now get = (sys, ok none (settings_row (get_settings sys.store)))
settings_method env sys body now put = put_settings env sys now body
settings_method env sys body now _ = (sys, not_allowed)

unfoldable pub handle_admin_settings :
    Env → System → ApiRequest → Option SettingsBody → ℕ → System × Reply
handle_admin_settings env sys r body now =
    as_admin sys (require_admin env sys.store r now) (settings_method env sys body now r.method)

-- ORDER BY created_at DESC
abbrev pub newest_bans : List BannedIp → List BannedIp
newest_bans bs = sort_by (λ b c. ltb c.created_at b.created_at) bs

abbrev pub throttle_reply : Option (List ThrottlePolicy) → Option (List BannedIp) → Reply
throttle_reply none bs = fail 500 "db error"
throttle_reply (some ps) none = fail 500 "db error"
throttle_reply (some ps) (some bs) =
    ok none (throttle_page (sort_by (λ p q. text_before p.tier q.tier) ps) (newest_bans bs))

-- The two built-in tiers and the overrides of groups.
unfoldable pub is_tier : String → Bool
is_tier t =
    if str_eq t tier_anonymous
    then true
    else if str_eq t tier_signed_in
    then true
    else is_some (strip_prefix "group:" t)

abbrev pub put_policy : Env → System → ℕ → Option ThrottlePolicy → System × Reply
put_policy env sys now none = (sys, fail 400 "tier required")
put_policy env sys now (some p) =
    if str_eq (trim_space p.tier) ""
    then (sys, fail 400 "tier required")
    else if not (is_tier p.tier)
    then (sys, fail 400 "invalid tier")
    else stored_or env sys now 500 "db error" (upsert_throttle_policy sys.store p)

pub record BanBody : Type 0 where
  pub ip : String
  pub duration_sec : ℤ

abbrev pub post_ban : System → ℕ → Option BanBody → System × Reply
post_ban sys now none = (sys, fail 400 "ip required")
post_ban sys now (some b) =
    if str_eq (trim_space b.ip) ""
    then (sys, fail 400 "ip required")
    else (with_limiter sys (λ l. ban_ip l (trim_space b.ip) b.duration_sec now), ok none done)

-- The text of the only error of DeleteThrottlePolicy on a reachable database.
abbrev pub built_in_text : String → String
built_in_text tier =
    Prim.Native.String.◌++◌ "cannot delete built-in tier \"" (Prim.Native.String.◌++◌ tier "\"")

abbrev pub delete_limit : Env → System → ApiRequest → ℕ → System × Reply
delete_limit env sys r now =
    if not (str_eq (query_get r "ip") "")
    then (with_limiter sys (λ l. unban_ip l (query_get r "ip")), ok none done)
    else if not (str_eq (query_get r "tier") "")
    then stored_or env sys now 400 (built_in_text (query_get r "tier"))
        (delete_throttle_policy sys.store (query_get r "tier"))
    else (sys, fail 400 "ip or tier required")

abbrev pub throttle_method :
    Env → System → ApiRequest → Option ThrottlePolicy → Option BanBody → ℕ → Method → System × Reply
throttle_method env sys r policy body now get =
    (sys, throttle_reply (get_throttle_policies sys.store) (get_active_bans sys.store now))
throttle_method env sys r policy body now put = put_policy env sys now policy
throttle_method env sys r policy body now post = post_ban sys now body
throttle_method env sys r policy body now delete = delete_limit env sys r now
throttle_method env sys r policy body now other = (sys, not_allowed)

unfoldable pub handle_admin_throttle :
    Env → System → ApiRequest → Option ThrottlePolicy → Option BanBody → ℕ → System × Reply
unfolding is_tier
handle_admin_throttle env sys r policy body now =
    as_admin sys (require_admin env sys.store r now)
      (throttle_method env sys r policy body now r.method)
