-- ===== src/Api/Sessions.antt =====
-- HandleUserSessions of api/metrics.go: a user's own sessions.
use re_mazarin.Common.{ℕ, String, Bool, true, false, Option, none, some, List}
use re_mazarin.Common.Int.{ℤ}
use re_mazarin.Common.Text.{atoi}
use re_mazarin.Net.{Env}
use re_mazarin.Storage.{Storage}
use re_mazarin.Storage.Sessions.{Session, delete_session_by_id}
use re_mazarin.Storage.Activity.{SessionInfo, get_user_sessions}
use re_mazarin.Api.{
  Method, get, delete, ApiRequest, query_get, done, own_sessions, Reply, ok, fail,
  session_from_request, by_number,
}

abbrev pub own_list : Session → Option (List SessionInfo) → Reply
own_list sess none = fail 500 "db error"
own_list sess (some infos) = ok none (own_sessions infos sess.id)

-- The answer to a deletion, by whether it hit a row.
abbrev pub deleted_or : String → Storage × Bool → Storage × Reply
deleted_or msg (s, true) = (s, ok none done)
deleted_or msg (s, false) = (s, fail 404 msg)

abbrev pub delete_own : Storage → Session → Option ℤ → Storage × Reply
delete_own s sess none = (s, fail 400 "invalid id")
delete_own s sess (some id) =
    deleted_or "session not found"
      (by_number id (λ n. delete_session_by_id s n sess.user_id) (s, false))

abbrev pub own_method : Storage → ApiRequest → ℕ → Session → Method → Storage × Reply
own_method s r now sess get = (s, own_list sess (get_user_sessions s sess.user_id now))
own_method s r now sess delete = delete_own s sess (atoi (query_get r "id"))
own_method s r now sess _ = (s, fail 405 "method not allowed")

abbrev pub own_session : Storage → ApiRequest → ℕ → Option Session → Storage × Reply
own_session s r now none = (s, fail 401 "not authenticated")
own_session s r now (some sess) = own_method s r now sess r.method

unfoldable pub handle_user_sessions : Env → Storage → ApiRequest → ℕ → Storage × Reply
handle_user_sessions env s r now = own_session s r now (session_from_request env s r now)
