-- ===== src/Api/Accounts.antt =====
-- The account handlers of api/auth.go: login, logout, registration, and what a user may see.
-- `matches` compares a stored hash with the password that was given, `hash` is what bcrypt made of a new
-- one, `tok` is what randHex returned.
mod Login
mod Register
mod Tests
use re_mazarin.Common.{
  sort_by, ℕ, zero, String, Bool, true, false, not, ◌&&◌, ◌||◌, Option, none, some, List, [], ◌∷◌,
  map, str_eq, or_else, if◌then◌else◌, ◌/◌, suc,
}
use re_mazarin.Common.Int.{ℤ, pos, negsuc, is_nonpos}
use re_mazarin.Common.Text.{split_first}
use re_mazarin.Common.Time.{add_time}
use re_mazarin.Net.{Env, split_host_port}
use re_mazarin.Storage.{Storage, User, Group, Route, Settings, InviteRow}
use re_mazarin.Storage.Sessions.{Session, create_session, delete_session, extend_session_by_id}
use re_mazarin.Storage.Accounts.{
  text_before, authenticate, get_user_groups, get_user_by_id, create_user, use_invite,
}
use re_mazarin.Storage.Activity.{log_auth_failure}
use re_mazarin.Storage.GlobalSettings.{get_settings, session_dur}
use re_mazarin.Storage.Routes.{get_all_routes, get_route_by_url, route_allows}
use re_mazarin.Api.{
  Method, get, post, ApiRequest, query_get, Cookie, RouteInfo, done, auth_url, account, registered,
  accessible, extended, Reply, ok, fail, profile_of, set_session, clear_session,
  session_from_request, is_raw_type,
}

abbrev pub not_allowed : Reply
not_allowed = fail 405 "method not allowed"

abbrev pub not_authenticated : Reply
not_authenticated = fail 401 "not authenticated"

abbrev pub is_get : Method → Bool
is_get get = true
is_get _ = false

abbrev pub is_post : Method → Bool
is_post post = true
is_post _ = false

-- HandleConfig; `url` is the variable authURL.
unfoldable pub handle_config : (url : String) → ApiRequest → Reply
handle_config url r = if is_get r.method then ok none (auth_url url) else not_allowed

pub record LoginBody : Type 0 where
  pub username : String
  pub password : String

-- 7 days
abbrev pub default_session_dur : ℤ
default_session_dur = pos 604800000000000

unfoldable pub login_dur : Storage → ℤ
login_dur s =
    let dur = session_dur (get_settings s) in if is_nonpos dur then default_session_dur else dur

-- The host of the remote address, empty where there is none.
unfoldable pub client_of : ApiRequest → String
client_of r = elim (split_host_port r.remote_addr) [ none ↦ "" | some (ip, _) ↦ ip ]

abbrev pub groups_or_none : Storage → ℕ → List Group
groups_or_none s user_id = or_else (get_user_groups s user_id) []

abbrev pub logged_in : ApiRequest → User → Storage × Option String → Storage × Reply
logged_in r u (s, none) = (s, fail 500 "session error")
logged_in r u (s, some tok) =
    (s, ok (some (set_session r tok)) (account (profile_of u) (groups_or_none s u.id)))

abbrev pub login_as :
    Env → Storage → ApiRequest → LoginBody → (tok : String) → ℕ → Option User → Storage × Reply
login_as env s r b tok now none =
    (log_auth_failure s (client_of r) b.username now, fail 401 "invalid credentials")
login_as env s r b tok now (some u) =
    logged_in r u (create_session env s u.id (login_dur s) (client_of r) tok now)

abbrev pub login_body :
    Env
    → Storage
    → ApiRequest
    → (matches : String → String → Bool) → (tok : String) → ℕ
    → Option LoginBody
    → Storage × Reply
login_body env s r matches tok now none = (s, fail 400 "invalid request")
login_body env s r matches tok now (some b) =
    login_as env s r b tok now (authenticate s b.username (matches b.password))

unfoldable pub handle_login :
    Env
    → Storage
    → ApiRequest
    → Option LoginBody
    → (matches : String → String → Bool) → (tok : String) → ℕ
    → Storage × Reply
unfolding login_dur client_of
handle_login env s r body matches tok now =
    if is_post r.method then login_body env s r matches tok now body else (s, not_allowed)

abbrev pub drop_session : Env → Storage → Option String → Storage
drop_session env s none = s
drop_session env s (some tok) = (delete_session env s tok).0

unfoldable pub handle_logout : Env → Storage → ApiRequest → Storage × Reply
handle_logout env s r =
    if is_post r.method
    then (drop_session env s r.cookie, ok (some (clear_session r)) done)
    else (s, not_allowed)

pub record RegisterBody : Type 0 where
  pub username : String
  pub password : String
  pub invite : String

abbrev pub made_user : Storage × Option User → Storage × Reply
made_user (s, none) = (s, fail 409 "username already taken")
made_user (s, some u) = (s, ok none (registered (profile_of u)))

abbrev pub invited :
    RegisterBody → (hash : Option String) → ℕ → Storage × Option InviteRow → Storage × Reply
invited b hash now (s, none) = (s, fail 400 "invalid or expired invite")
invited b hash now (s, some _) = made_user (create_user s b.username hash now)

unfoldable pub is_complete : RegisterBody → Bool
is_complete b = not (str_eq b.username "" || str_eq b.password "" || str_eq b.invite "")

abbrev pub register_body :
    Env → Storage → (hash : Option String) → ℕ → Option RegisterBody → Storage × Reply
register_body env s hash now none = (s, fail 400 "username, password and invite are required")
register_body env s hash now (some b) =
    if is_complete b
    then invited b hash now (use_invite env s b.invite now)
    else (s, fail 400 "username, password and invite are required")

unfoldable pub handle_register :
    Env → Storage → ApiRequest → Option RegisterBody → (hash : Option String) → ℕ → Storage × Reply
unfolding is_complete
handle_register env s r body hash now =
    if is_post r.method then register_body env s hash now body else (s, not_allowed)

abbrev pub me_user : Storage → Option User → Reply
me_user s none = fail 404 "user not found"
me_user s (some u) = ok none (account (profile_of u) (groups_or_none s u.id))

abbrev pub me_session : Storage → Option Session → Reply
me_session s none = not_authenticated
me_session s (some sess) = me_user s (get_user_by_id s sess.user_id)

unfoldable pub handle_me : Env → Storage → ApiRequest → ℕ → Reply
handle_me env s r now =
    if is_get r.method then me_session s (session_from_request env s r now) else not_allowed

-- strings.SplitN(url, ":", 2)[0]
unfoldable pub host_part : String → String
host_part s = elim (split_first b':' s) [ none ↦ s | some (h, _) ↦ h ]

-- The whole hours of a duration.
unfoldable pub whole_hours : ℤ → ℤ
whole_hours (pos n) = pos (n / 3600000000000)
whole_hours (negsuc n) = elim (suc n / 3600000000000) [ zero ↦ pos 0 | suc k ↦ negsuc k ]

-- Whether a route is one for the page: not raw, not an API handler, not this page, and open to one of the
-- groups.
unfoldable pub is_accessible : (self_host : String) → List ℕ → Route → Bool
unfolding host_part
is_accessible self_host ids rt =
    not (is_raw_type rt.kind || str_eq rt.kind "api")
    && not (str_eq (host_part rt.url) self_host)
    && route_allows rt.allowed_groups ids

-- The loop over the routes.
unfoldable pub accessible_routes :
    Settings → (self_host : String) → List ℕ → List Route → List RouteInfo
unfolding is_accessible whole_hours
accessible_routes st self ids [] = []
accessible_routes st self ids (rt ∷ rts) =
    if is_accessible self ids rt
    then record {
      url = rt.url;
      tls = rt.tls;
      session_duration = whole_hours (session_dur st);
      renew_on_access = st.renew_on_access;
    }
      ∷ accessible_routes st self ids rts
    else accessible_routes st self ids rts

-- ORDER BY url
abbrev pub by_url : List Route → List Route
by_url rts = sort_by (λ q r. text_before q.url r.url) rts

abbrev pub group_numbers : List Group → List ℕ
group_numbers gs = map (λ g. g.id) gs

abbrev pub routes_reply : Storage → ApiRequest → Option (List Group) → Option (List Route) → Reply
routes_reply s r none o = fail 500 "db error"
routes_reply s r (some gs) none = fail 500 "db error"
routes_reply s r (some gs) (some rts) = ok none (
    accessible
      (accessible_routes (get_settings s) (host_part r.host) (group_numbers gs) (by_url rts)))

abbrev pub routes_session : Storage → ApiRequest → Option Session → Reply
routes_session s r none = not_authenticated
routes_session s r (some sess) =
    routes_reply s r (get_user_groups s sess.user_id) (get_all_routes s)

unfoldable pub handle_user_routes : Env → Storage → ApiRequest → ℕ → Reply
unfolding accessible_routes host_part
handle_user_routes env s r now =
    if is_get r.method then routes_session s r (session_from_request env s r now) else not_allowed

-- The cookie that goes with the longer session, if the request has one.
abbrev pub rolled : ApiRequest → Option String → Option Cookie
rolled r none = none
rolled r (some tok) = some (set_session r tok)

abbrev pub extend_allowed :
    Storage → ApiRequest → Session → ℕ → Route → Option (List Group) → Storage × Reply
extend_allowed s r sess now rt none = (s, fail 500 "db error")
extend_allowed s r sess now rt (some gs) =
    let dur = session_dur (get_settings s) in
    if route_allows rt.allowed_groups (group_numbers gs)
    then (
      extend_session_by_id s sess.id dur now,
      ok (rolled r r.cookie) (extended (add_time now dur)),
    )
    else (s, fail 403 "access denied")

abbrev pub extend_route : Storage → ApiRequest → Session → ℕ → Option Route → Storage × Reply
extend_route s r sess now none = (s, fail 404 "route not found")
extend_route s r sess now (some rt) =
    extend_allowed s r sess now rt (get_user_groups s sess.user_id)

abbrev pub extend_own : Storage → ApiRequest → ℕ → Option Session → Storage × Reply
extend_own s r now none = (s, not_authenticated)
extend_own s r now (some sess) =
    if str_eq (query_get r "url") ""
    then (s, fail 400 "url required")
    else extend_route s r sess now (get_route_by_url s (query_get r "url"))

unfoldable pub handle_extend_session : Env → Storage → ApiRequest → ℕ → Storage × Reply
handle_extend_session env s r now =
    if is_post r.method
    then extend_own s r now (session_from_request env s r now)
    else (s, not_allowed)
