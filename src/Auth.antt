-- ===== src/Auth.antt =====
-- proxy/auth.go: who may pass. Auth/Cache has the cache, the log queue and the variables of the package,
-- a `World`; `limiter.auth_store` is the variable authStore. `now` stands for every reading of the
-- clock that one request makes. Debug logging is left out.
pub mod Requests
pub mod Raw
mod Tests
mod Cache
pub mod Traces
pub mod Gate
pub mod Groups
unfoldable pub use re_mazarin.Auth.Cache.{parse_cached_route, refresh_cache, log_access, deny_auth}
pub use re_mazarin.Auth.Cache.{CachedRoute, LogEntry, World, log_capacity, event, fail_ip}
use re_mazarin.Common.{
  ℕ, String, Bool, true, false, not, ◌&&◌, ◌||◌, Option, none, some, List, [], ◌∷◌, lookup, ◌==◌,
  str_eq, if◌then◌else◌, any,
}
use re_mazarin.Common.Int.{ℤ}
use re_mazarin.Common.Text.{itoa}
use re_mazarin.Net.{Env, net_contains, split_host_port}
use re_mazarin.Storage.{Storage}
use re_mazarin.Storage.GlobalSettings.{session_dur}
use re_mazarin.Storage.Sessions.{
  SessionWithGroups, validate_session_and_groups, validate_session_by_ip_in_groups, extend_session,
  extend_user_sessions_by_ip,
}
use re_mazarin.Limiter.{is_banned, allow, set_tier, resolve_tier}
use re_mazarin.Metrics.{served, rate_limited, banned}

-- Whether a group of the user is in the pre-parsed set.
unfoldable pub groups_allow : List String → List ℤ → Bool
groups_allow group_set ids = any (λ id. any (str_eq (itoa id)) group_set) ids

unfoldable pub ip_allows : Env → CachedRoute → String → Bool
ip_allows env cr ip = elim (env.parse_ip ip) [
  | none ↦ false
  | some addr ↦
      any (λ a. a == addr) cr.allowed_addrs || any (λ n. net_contains n addr) cr.allowed_nets
]

-- What the program reads of an http.Request.
pub record Request : Type 0 where
  pub host : String
  pub tls : Bool
  pub remote_addr : String
  pub cookie : Option String

unfoldable pub extract_client_ip : Request → String
extract_client_ip r = elim (split_host_port r.remote_addr) [
  | none ↦ r.remote_addr
  | some (ip, _) ↦ ip
]

abbrev pub use_store : World → (Storage → Storage) → World
use_store w f = elim w.limiter.auth_store [
  | none ↦ w
  | some s ↦ record w { limiter = record w.limiter { auth_store = some (f s) } }
]

-- The route has no rule for a raw connection.
abbrev pub is_open_raw : CachedRoute → Bool
is_open_raw cr = not cr.ip_auth && str_eq cr.allowed_groups "" && str_eq cr.allowed_ips ""

unfoldable pub renew_by_ip : Env → World → SessionWithGroups → String → ℕ → World
renew_by_ip env w sg ip now =
    if w.global_settings.renew_on_access
    then use_store w
        (λ s. extend_user_sessions_by_ip env s sg.user_id ip (session_dur w.global_settings) now)
    else w

-- The session that lets an IP through a route with IP session auth.
abbrev pub raw_session : Env → Option Storage → CachedRoute → String → ℕ → Option SessionWithGroups
raw_session env none cr ip now = none
raw_session env (some s) cr ip now =
    if cr.ip_auth || not (str_eq cr.allowed_groups "")
    then validate_session_by_ip_in_groups env s ip cr.group_ids now
    else none

-- What follows the session lookup: the session, else the static allowlist.
authorize_session :
    Env → World → CachedRoute → String → ℕ → Option SessionWithGroups → World × (Bool × String)
unfolding renew_by_ip
authorize_session env w cr ip now (some sg) = (renew_by_ip env w sg ip now, (true, sg.username))
authorize_session env w cr ip now none =
    (w, (not (str_eq cr.allowed_ips "") && ip_allows env cr ip, ""))

authorize_entry : Env → World → String → ℕ → Option CachedRoute → World × (Bool × String)
unfolding authorize_session
authorize_entry env w ip now none = (w, (true, ""))
authorize_entry env w ip now (some cr) =
    if is_open_raw cr
    then (w, (true, ""))
    else authorize_session env w cr ip now (raw_session env w.limiter.auth_store cr ip now)

-- authorizeIP: whether a raw connection may pass, and the user that it is logged for.
unfoldable pub authorize_ip : Env → World → (route_url ip : String) → ℕ → World × (Bool × String)
unfolding authorize_entry
authorize_ip env w route_url ip now = authorize_entry env w ip now (lookup w.auth_cache route_url)

-- The ways past the route's rules, and out.
pub data Verdict : Type 0 where
  public_route : Verdict
  ip_session : SessionWithGroups → Verdict
  ip_allowlist : Verdict
  cookie_session : (tok : String) → SessionWithGroups → Verdict
  auth_required : Verdict
  forbidden : Verdict

-- The route has no rule at all.
abbrev pub is_public : CachedRoute → Bool
is_public cr =
    not cr.ip_auth
    && str_eq cr.allowed_groups ""
    && str_eq cr.allowed_ips ""
    && not cr.require_login

-- IP session auth of an HTTP route.
abbrev pub http_session : Env → Storage → CachedRoute → String → ℕ → Option SessionWithGroups
http_session env s cr ip now =
    if cr.ip_auth then validate_session_by_ip_in_groups env s ip cr.group_ids now else none

is_empty : List String → Bool
is_empty [] = true
is_empty (_ ∷ _) = false

judge_session : CachedRoute → String → Option SessionWithGroups → Verdict
judge_session cr tok none = auth_required
judge_session cr tok (some sg) =
    if not cr.require_login && not (groups_allow cr.group_set sg.group_ids)
    then forbidden
    else cookie_session tok sg

judge_cookie : Env → Storage → CachedRoute → Option String → ℕ → Verdict
unfolding judge_session
judge_cookie env s cr none now = auth_required
judge_cookie env s cr (some tok) now =
    judge_session cr tok (validate_session_and_groups env s tok now)

-- The checks of withAuthForKey behind the cache lookup, in their order.
unfoldable pub judge : Env → Storage → CachedRoute → String → Option String → ℕ → Verdict
unfolding judge_cookie is_empty
judge env s cr ip cookie now =
    if is_public cr then public_route else elim (http_session env s cr ip now) [
      | some sg ↦ ip_session sg
      | none ↦
          if not (str_eq cr.allowed_ips "") && ip_allows env cr ip
          then ip_allowlist
          else if not cr.persistent_login
          then auth_required
          else if is_empty cr.group_set && not cr.require_login
          then auth_required
          else judge_cookie env s cr cookie now
    ]

-- What the client gets: the backend's answer, or an error with its status and Retry-After.
pub data Response : Type 0 where
  forwarded : Response
  failed : (status : ℕ) (retry_after : Option ℕ) → Response

abbrev serve : World → (ip username rk : String) → ℕ → World
serve w ip username rk now = event (log_access w ip username rk) ip rk served now

abbrev promote : World → String → SessionWithGroups → ℕ → World
promote w ip sg now = record w {
  limiter = set_tier w.limiter ip (resolve_tier w.limiter.policies sg.group_ids) now;
}

unfoldable pub renew_cookie : Env → World → String → ℕ → World
renew_cookie env w tok now =
    if w.global_settings.renew_on_access
    then use_store w (λ s. extend_session env s tok (session_dur w.global_settings) now)
    else w

-- What withAuthForKey does on each verdict.
unfoldable pub act : Env → World → (rk ip : String) → ℕ → Verdict → World × Response
unfolding renew_by_ip renew_cookie log_access deny_auth
act env w rk ip now public_route = (serve w ip "" rk now, forwarded)
act env w rk ip now (ip_session sg) =
    (promote (serve (renew_by_ip env w sg ip now) ip sg.username rk now) ip sg now, forwarded)
act env w rk ip now ip_allowlist = (serve w ip "" rk now, forwarded)
act env w rk ip now (cookie_session tok sg) =
    (promote (serve (renew_cookie env w tok now) ip sg.username rk now) ip sg now, forwarded)
act env w rk ip now auth_required = (deny_auth w ip rk now, failed 407 none)
act env w rk ip now forbidden = (deny_auth w ip rk now, failed 403 none)

-- What follows the lookup in the cache.
unfoldable pub judge_entry :
    Env
    → World
    → Storage
    → (rk ip : String) → Option String
    → ℕ
    → Option CachedRoute
    → World × Response
unfolding act judge
judge_entry env w s rk ip cookie now none = (deny_auth w ip rk now, failed 407 none)
judge_entry env w s rk ip cookie now (some cr) = act env w rk ip now (judge env s cr ip cookie now)

abbrev pub judge_stored :
    Env → World → (rk ip : String) → Option String → ℕ → Option Storage → World × Response
judge_stored env w rk ip cookie now none = (w, forwarded)
judge_stored env w rk ip cookie now (some s) =
    judge_entry env w s rk ip cookie now (lookup w.auth_cache rk)

unfoldable pub judge_route : Env → World → (rk ip : String) → Option String → ℕ → World × Response
unfolding judge_entry
judge_route env w rk ip cookie now = judge_stored env w rk ip cookie now w.limiter.auth_store

-- The rate limit, ahead of any work on the database.
unfoldable pub limited : Env → World → (rk ip : String) → Option String → ℕ → World × Response
unfolding judge_route
limited env w rk ip cookie now =
    let (l, (ok, retry)) = allow w.limiter ip now in
    let w' = record w { limiter = l } in
    if ok
    then judge_route env w' rk ip cookie now
    else (fail_ip (event w' ip rk rate_limited now) ip now, failed 429 (some retry))

unfoldable pub gate : Env → World → (rk ip : String) → Option String → ℕ → World × Response
unfolding limited
gate env w rk ip cookie now =
    let (l, hit) = is_banned w.limiter ip now in
    let w' = record w { limiter = l } in
    if hit then (event w' ip rk banned now, failed 403 none) else limited env w' rk ip cookie now

abbrev pub guarded : Env → World → String → Request → ℕ → Option Storage → World × Response
guarded env w rk r now none = (w, forwarded)
guarded env w rk r now (some _) = gate env w rk (extract_client_ip r) r.cookie now

-- The handler that withAuthForKey returns, bound to the route key `rk`.
unfoldable pub with_auth_for_key : Env → World → String → Request → ℕ → World × Response
unfolding gate
with_auth_for_key env w rk r now = guarded env w rk r now w.limiter.auth_store
