-- ===== src/Storage/Activity.antt =====
-- storage/metrics.go: the logs of failed logins and of accesses, and the listings of sessions.
use re_mazarin.Common.{
  ℕ, suc, String, Bool, Option, none, some, List, [], ◌∷◌, ◌++◌, ltb, ◌==◌, if◌then◌else◌, select,
  any, sort_by, take, ◌&&◌,
}
use re_mazarin.Storage.{is_later, Storage, SessionRow, AccessEvent, AuthFailure}
use re_mazarin.Storage.Sessions.{user_of}

pub record SessionInfo : Type 0 where
  pub id : ℕ
  pub user_id : ℕ
  pub username : String
  pub client_ip : String
  pub created_at : ℕ
  pub expires_at : ℕ

unfoldable pub log_auth_failure : Storage → (ip username : String) → ℕ → Storage
log_auth_failure s ip username now =
    let row : AuthFailure = record {
      id = suc s.last_failure;
      ip = ip;
      username = username;
      created_at = now;
    } in
    if s.reachable
    then record s { auth_failures = s.auth_failures ++ row ∷ []; last_failure = suc s.last_failure }
    else s

-- The newest first.
unfoldable pub get_recent_auth_failures : Storage → ℕ → Option (List AuthFailure)
get_recent_auth_failures s limit =
    if s.reachable
    then some (take limit (sort_by (λ f g. ltb g.created_at f.created_at) s.auth_failures))
    else none

-- JOIN users: the rows of users that exist.
infos : Storage → List SessionRow → List SessionInfo
infos s [] = []
infos s (r ∷ rs) = elim (user_of s r.user_id) [
  | none ↦ infos s rs
  | some u ↦
      record {
        id = r.id;
        user_id = r.user_id;
        username = u.username;
        client_ip = r.client_ip;
        created_at = r.created_at;
        expires_at = r.expires_at;
      }
      ∷ infos s rs
]

listed : Storage → (SessionRow → Bool) → List SessionInfo
unfolding infos user_of
listed s p = infos s (sort_by (λ q r. ltb r.created_at q.created_at) (select p s.sessions))

unfoldable pub get_active_sessions : Storage → ℕ → Option (List SessionInfo)
unfolding listed is_later
get_active_sessions s now =
    if s.reachable then some (listed s (λ r. is_later s.zone now r.expires_at)) else none

unfoldable pub get_user_sessions : Storage → (user_id : ℕ) → ℕ → Option (List SessionInfo)
unfolding listed is_later
get_user_sessions s user_id now =
    if s.reachable
    then some (listed s (λ r. r.user_id == user_id && is_later s.zone now r.expires_at))
    else none

unfoldable pub log_access_row : Storage → (ip username route_url : String) → ℕ → Storage
log_access_row s ip username route_url now =
    let row : AccessEvent = record {
      id = suc s.last_access;
      ip = ip;
      username = username;
      route_url = route_url;
      created_at = now;
    } in
    if s.reachable
    then record s { access_log = s.access_log ++ row ∷ []; last_access = suc s.last_access }
    else s

unfoldable pub newest_access : Storage → ℕ → List AccessEvent
newest_access s limit = take limit (sort_by (λ d e. ltb e.created_at d.created_at) s.access_log)

unfoldable pub get_recent_access : Storage → ℕ → Option (List AccessEvent)
unfolding newest_access
get_recent_access s limit = if s.reachable then some (newest_access s limit) else none

-- The rows whose id is among those of the 5000 newest stay.
unfoldable pub cleanup_old_access_log : Storage → Storage
unfolding newest_access
cleanup_old_access_log s =
    if s.reachable
    then record s {
      access_log = select (λ e. any (λ k. k.id == e.id) (newest_access s 5000)) s.access_log;
    }
    else s
