-- ===== src/Api/Admin.antt =====
-- The handlers for administrators that only touch the database: users, memberships, groups and invites of
-- api/auth.go, and the metrics page of api/metrics.go.
use re_mazarin.Common.{
  ℕ, String, Bool, true, false, Option, none, some, List, str_eq, if◌then◌else◌, ◌⊎◌, inl, inr, map,
}
use re_mazarin.Common.Int.{ℤ, pos, is_nonpos}
use re_mazarin.Common.Text.{atoi}
use re_mazarin.Common.Time.{hours}
use re_mazarin.Net.{Env}
use re_mazarin.Metrics.{Metrics, get_recent_events}
use re_mazarin.Storage.{Storage, User, Group, InviteRow, AuthFailure, AccessEvent, BannedIp}
use re_mazarin.Storage.Sessions.{Session, admin_delete_session}
use re_mazarin.Storage.Accounts.{
  get_all_users, delete_user, add_user_to_group, remove_user_from_group, get_all_groups,
  create_group, delete_group, DeleteGroupResult, deleted, group_not_found, group_protected,
  get_all_invites, create_invite, delete_invite,
}
use re_mazarin.Storage.Activity.{
  SessionInfo, get_active_sessions, get_recent_auth_failures, get_recent_access,
}
use re_mazarin.Api.{
  Method, get, post, delete, ApiRequest, query_get, Profile, done, user_rows, group_rows,
  group_made, invite_rows, invite_made, metrics_page, Reply, ok, fail, profile_of, require_admin,
  by_number,
}
use re_mazarin.Api.Accounts.{not_allowed, groups_or_none}
use re_mazarin.Api.Sessions.{deleted_or}

-- `if requireAdmin(w, r) == nil { return }` before the rest of a handler.
abbrev pub as_admin {ℓ} : {S : Type ℓ} → S → Session ⊎ Reply → S × Reply → S × Reply
as_admin s (inr answer) rest = (s, answer)
as_admin s (inl _) rest = rest

-- The answer to a statement without a result, by whether it succeeded.
abbrev pub done_or : (status : ℕ) (msg : String) → Storage × Bool → Storage × Reply
done_or status msg (s, true) = (s, ok none done)
done_or status msg (s, false) = (s, fail status msg)

abbrev pub rows_of : Storage → List User → List (Profile × List Group)
rows_of s us = map (λ u. (profile_of u, groups_or_none s u.id)) us

abbrev pub list_users : Storage → Option (List User) → Reply
list_users s none = fail 500 "db error"
list_users s (some us) = ok none (user_rows (rows_of s us))

abbrev pub remove_user : Storage → Option ℤ → Storage × Reply
remove_user s none = (s, fail 400 "invalid id")
remove_user s (some id) = deleted_or "user not found" (by_number id (delete_user s) (s, false))

abbrev pub users_method : Storage → ApiRequest → Method → Storage × Reply
users_method s r get = (s, list_users s (get_all_users s))
users_method s r delete = remove_user s (atoi (query_get r "id"))
users_method s r _ = (s, not_allowed)

unfoldable pub handle_admin_users : Env → Storage → ApiRequest → ℕ → Storage × Reply
handle_admin_users env s r now = as_admin s (require_admin env s r now) (users_method s r r.method)

pub record MembershipBody : Type 0 where
  pub user_id : ℤ
  pub group_id : ℤ

abbrev pub add_member : Storage → Option MembershipBody → Storage × Reply
add_member s none = (s, fail 400 "invalid request")
add_member s (some b) = done_or 500 "db error" (
    by_number b.user_id (λ u. by_number b.group_id (λ g. add_user_to_group s u g) (s, false))
      (s, false))

-- No row has a negative number, so the statement deletes nothing.
abbrev pub remove_member : Storage → (user_id group_id : Option ℤ) → Storage × Reply
remove_member s (some u) (some g) = done_or 500 "db error" (
    by_number u (λ n. by_number g (λ m. remove_user_from_group s n m) (s, s.reachable))
      (s, s.reachable))
remove_member s none g = (s, fail 400 "invalid ids")
remove_member s (some u) none = (s, fail 400 "invalid ids")

abbrev pub memberships_method :
    Storage → ApiRequest → Option MembershipBody → Method → Storage × Reply
memberships_method s r body post = add_member s body
memberships_method s r body delete =
    remove_member s (atoi (query_get r "user_id")) (atoi (query_get r "group_id"))
memberships_method s r body _ = (s, not_allowed)

unfoldable pub handle_admin_user_groups :
    Env → Storage → ApiRequest → Option MembershipBody → ℕ → Storage × Reply
handle_admin_user_groups env s r body now =
    as_admin s (require_admin env s r now) (memberships_method s r body r.method)

pub record GroupBody : Type 0 where
  pub name : String
  pub description : String

abbrev pub made_group : Storage × Option Group → Storage × Reply
made_group (s, none) = (s, fail 409 "group name taken")
made_group (s, some g) = (s, ok none (group_made g))

abbrev pub add_group : Storage → ℕ → Option GroupBody → Storage × Reply
add_group s now none = (s, fail 400 "name required")
add_group s now (some b) =
    if str_eq b.name ""
    then (s, fail 400 "name required")
    else made_group (create_group s b.name b.description now)

abbrev pub removed_group : Storage × DeleteGroupResult → Storage × Reply
removed_group (s, deleted) = (s, ok none done)
removed_group (s, group_not_found) = (s, fail 404 "group not found")
removed_group (s, group_protected) = (s, fail 400 "cannot delete the admin group")

abbrev pub remove_group : Storage → Option ℤ → Storage × Reply
remove_group s none = (s, fail 400 "invalid id")
remove_group s (some id) = removed_group (by_number id (delete_group s) (s, group_not_found))

abbrev pub list_groups : Option (List Group) → Reply
list_groups none = fail 500 "db error"
list_groups (some gs) = ok none (group_rows gs)

abbrev pub groups_method : Storage → ApiRequest → Option GroupBody → ℕ → Method → Storage × Reply
groups_method s r body now get = (s, list_groups (get_all_groups s))
groups_method s r body now post = add_group s now body
groups_method s r body now delete = remove_group s (atoi (query_get r "id"))
groups_method s r body now _ = (s, not_allowed)

unfoldable pub handle_admin_groups :
    Env → Storage → ApiRequest → Option GroupBody → ℕ → Storage × Reply
handle_admin_groups env s r body now =
    as_admin s (require_admin env s r now) (groups_method s r body now r.method)

-- What is left in the variable `body` after decoding, whether that failed or not.
pub record InviteBody : Type 0 where
  pub description : String
  pub hours : ℤ

abbrev pub made_invite : (code : String) → Storage × Option InviteRow → Storage × Reply
made_invite code (s, none) = (s, fail 500 "db error")
made_invite code (s, some i) = (s, ok none (invite_made i code))

abbrev pub add_invite : Env → Storage → InviteBody → (code : String) → ℕ → Storage × Reply
add_invite env s b code now = made_invite code (
    create_invite env s code b.description (hours (if is_nonpos b.hours then pos 24 else b.hours))
      now)

abbrev pub remove_invite : Storage → Option ℤ → Storage × Reply
remove_invite s none = (s, fail 400 "invalid id")
remove_invite s (some id) =
    deleted_or "invite not found" (by_number id (delete_invite s) (s, false))

abbrev pub list_invites : Option (List InviteRow) → Reply
list_invites none = fail 500 "db error"
list_invites (some is) = ok none (invite_rows is)

abbrev pub invites_method :
    Env → Storage → ApiRequest → InviteBody → (code : String) → ℕ → Method → Storage × Reply
invites_method env s r body code now get = (s, list_invites (get_all_invites s))
invites_method env s r body code now post = add_invite env s body code now
invites_method env s r body code now delete = remove_invite s (atoi (query_get r "id"))
invites_method env s r body code now _ = (s, not_allowed)

unfoldable pub handle_admin_invites :
    Env → Storage → ApiRequest → InviteBody → (code : String) → ℕ → Storage × Reply
handle_admin_invites env s r body code now =
    as_admin s (require_admin env s r now) (invites_method env s r body code now r.method)

abbrev pub metrics_reply :
    Metrics
    → (bans : List BannedIp) → Option (List SessionInfo)
    → Option (List AuthFailure)
    → Option (List AccessEvent)
    → Reply
metrics_reply m bans none fs es = fail 500 "db error"
metrics_reply m bans (some ss) none es = fail 500 "db error"
metrics_reply m bans (some ss) (some fs) none = fail 500 "db error"
metrics_reply m bans (some ss) (some fs) (some es) =
    ok none (metrics_page ss m.route_counters fs es m.event_counters (get_recent_events m) bans)

abbrev pub revoke : Storage → Option ℤ → Storage × Reply
revoke s none = (s, fail 400 "invalid id")
revoke s (some id) = done_or 500 "db error" (by_number id (admin_delete_session s) (s, s.reachable))

abbrev pub metrics_method :
    Storage → Metrics → (bans : List BannedIp) → ApiRequest → ℕ → Method → Storage × Reply
metrics_method s m bans r now get = (
  s,
  metrics_reply m bans (get_active_sessions s now) (get_recent_auth_failures s 100)
      (get_recent_access s 2000),
)
metrics_method s m bans r now delete = revoke s (atoi (query_get r "id"))
metrics_method s m bans r now _ = (s, not_allowed)

-- `bans` is what GetActiveBans of the package proxy returns, the newest first.
unfoldable pub handle_admin_metrics :
    Env → Storage → Metrics → (bans : List BannedIp) → ApiRequest → ℕ → Storage × Reply
handle_admin_metrics env s m bans r now =
    as_admin s (require_admin env s r now) (metrics_method s m bans r now r.method)
