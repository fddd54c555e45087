-- ===== src/Api/Registry.antt =====
-- api/api.go and api/example.go: the registered handlers by name, and what each does to the system.
mod Gate
mod Tests
use re_mazarin.Common.{
  ℕ, String, Bool, Option, none, some, List, [], ◌∷◌, Map, lookup, insert, if◌then◌else◌, is_some,
}
use re_mazarin.Net.{Env}
use re_mazarin.Storage.{Storage, ThrottlePolicy}
use re_mazarin.Limiter.{get_bans}
use re_mazarin.Proxy.{Host}
use re_mazarin.Api.{ApiRequest, hello, healthy, Reply, ok}
use re_mazarin.Api.Accounts.{
  LoginBody, RegisterBody, handle_config, handle_login, handle_logout, handle_register, handle_me,
  handle_user_routes, handle_extend_session,
}
use re_mazarin.Api.Sessions.{handle_user_sessions}
use re_mazarin.Api.Admin.{
  MembershipBody, GroupBody, InviteBody, handle_admin_users, handle_admin_user_groups,
  handle_admin_groups, handle_admin_invites, handle_admin_metrics,
}
use re_mazarin.Api.Live.{
  System, newest_bans, shared, with_store, SettingsBody, BanBody, handle_admin_settings,
  handle_admin_throttle,
}
use re_mazarin.Api.Live.Routes.{RouteBody, AccessBody, Certificate, handle_admin_routes}

pub data ApiHandler : Type 0 where
  config login logout register me user_routes admin_users admin_user_groups admin_groups
        admin_invites admin_routes admin_settings admin_metrics admin_throttle user_sessions
        extend_session example health :
      ApiHandler

-- The body of a request, as the handler that reads it decodes it, and the random texts and the hashes
-- that the handlers get.
pub record Inputs : Type 0 where
  pub login_body : Option LoginBody
  pub register_body : Option RegisterBody
  pub membership_body : Option MembershipBody
  pub group_body : Option GroupBody
  pub invite_body : InviteBody
  pub route_body : Option RouteBody
  pub access_body : Option AccessBody
  pub settings_body : Option SettingsBody
  pub policy_body : Option ThrottlePolicy
  pub ban_body : Option BanBody
  pub matches : String → String → Bool
  pub hash : Option String
  pub random : String

-- What main.go sets before it serves requests.
pub record Site : Type 0 where
  pub auth_url : String
  pub defaults : Certificate

-- A handler that only knows the database.
abbrev pub stored : System → Storage × Reply → System × Reply
stored sys (s, reply) = (with_store sys s, reply)

unfoldable pub handle :
    Env → Host → Site → ApiHandler → Inputs → System → ApiRequest → ℕ → System × Reply
handle env h site config i sys r now = (sys, handle_config site.auth_url r)
handle env h site login i sys r now =
    stored sys (handle_login env sys.store r i.login_body i.matches i.random now)
handle env h site logout i sys r now = stored sys (handle_logout env sys.store r)
handle env h site register i sys r now =
    stored sys (handle_register env sys.store r i.register_body i.hash now)
handle env h site me i sys r now = (sys, handle_me env sys.store r now)
handle env h site user_routes i sys r now = (sys, handle_user_routes env sys.store r now)
handle env h site admin_users i sys r now = stored sys (handle_admin_users env sys.store r now)
handle env h site admin_user_groups i sys r now =
    stored sys (handle_admin_user_groups env sys.store r i.membership_body now)
handle env h site admin_groups i sys r now =
    stored sys (handle_admin_groups env sys.store r i.group_body now)
handle env h site admin_invites i sys r now =
    stored sys (handle_admin_invites env sys.store r i.invite_body i.random now)
handle env h site admin_routes i sys r now =
    handle_admin_routes env h site.defaults sys r i.route_body i.access_body i.random now
handle env h site admin_settings i sys r now = handle_admin_settings env sys r i.settings_body now
handle env h site admin_metrics i sys r now = stored sys (
    handle_admin_metrics env sys.store sys.world.metrics
      (newest_bans (get_bans (shared sys).limiter now)) r now)
handle env h site admin_throttle i sys r now =
    handle_admin_throttle env sys r i.policy_body i.ban_body now
handle env h site user_sessions i sys r now = stored sys (handle_user_sessions env sys.store r now)
handle env h site extend_session i sys r now =
    stored sys (handle_extend_session env sys.store r now)
handle env h site example i sys r now = (sys, ok none (hello r.path r.method))
handle env h site health i sys r now = (sys, ok none healthy)

-- register; `none` is the error for a name that is taken.
unfoldable pub register_name :
    Option (Map ApiHandler) → String × ApiHandler → Option (Map ApiHandler)
register_name none (name, k) = none
register_name (some m) (name, k) = if is_some (lookup m name) then none else some (insert m name k)

unfoldable pub register_all :
    Option (Map ApiHandler) → List (String × ApiHandler) → Option (Map ApiHandler)
unfolding register_name
register_all m [] = m
register_all m (e ∷ es) = register_all (register_name m e) es

abbrev pub builtin : List (String × ApiHandler)
builtin =
    ("config", config)
    ∷ ("auth/login", login)
    ∷ ("auth/logout", logout)
    ∷ ("auth/register", register)
    ∷ ("auth/me", me)
    ∷ ("auth/routes", user_routes)
    ∷ ("admin/users", admin_users)
    ∷ ("admin/users/groups", admin_user_groups)
    ∷ ("admin/groups", admin_groups)
    ∷ ("admin/invites", admin_invites)
    ∷ ("admin/routes", admin_routes)
    ∷ ("admin/settings", admin_settings)
    ∷ ("admin/metrics", admin_metrics)
    ∷ ("admin/throttle", admin_throttle)
    ∷ ("auth/sessions", user_sessions)
    ∷ ("auth/extend", extend_session)
    ∷ []

unfoldable pub init_builtin : Map ApiHandler → Option (Map ApiHandler)
unfolding register_all
init_builtin m = register_all (some m) builtin

unfoldable pub init_api : Map ApiHandler → Option (Map ApiHandler)
unfolding register_all
init_api m = register_all (some m) (("example", example) ∷ ("health", health) ∷ [])

abbrev pub then_init_api : Option (Map ApiHandler) → Option (Map ApiHandler)
then_init_api none = none
then_init_api (some m) = init_api m

-- What main.go registers.
unfoldable pub registry : Option (Map ApiHandler)
unfolding init_builtin init_api
registry = then_init_api (init_builtin [])

-- The call of what Get returns; `none` is the error for a name without a handler.
abbrev pub call_got :
    Env
    → Host
    → Site
    → Option ApiHandler
    → Inputs
    → System
    → ApiRequest
    → ℕ
    → Option (System × Reply)
call_got env h site none i sys r now = none
call_got env h site (some k) i sys r now = some (handle env h site k i sys r now)

unfoldable pub call :
    Env
    → Host
    → Site
    → Map ApiHandler
    → (name : String) → Inputs
    → System
    → ApiRequest
    → ℕ
    → Option (System × Reply)
unfolding handle
call env h site m name i sys r now = call_got env h site (lookup m name) i sys r now
