-- ===== src/Storage/Sessions.antt =====
-- storage/sessions.go and the session statements of storage/metrics.go. A time `now` is what
-- `time.Now()` returned; `tok` in `create_session` is what `randHex(32)` returned.
pub mod ByIp
pub mod GroupIds
pub mod Tokens
mod Tests
use re_mazarin.Common.{
  ℕ, suc, String, Bool, true, not, ◌&&◌, Option, none, some, List, [], ◌∷◌, ◌++◌, ltb, ◌==◌, str_eq,
  if◌then◌else◌, find, select, any, map,
}
use re_mazarin.Common.Int.{ℤ, pos, eq_ℤ}
use re_mazarin.Common.Text.{split, trim_space, itoa_ℕ, atoi}
use re_mazarin.Common.Time.{add_time}
use re_mazarin.Net.{Env, normalize_ip}
use re_mazarin.Storage.{Storage, User, SessionRow}

pub record Session : Type 0 where
  pub id : ℕ
  pub user_id : ℕ
  pub username : String
  pub expires_at : ℕ
  pub created_at : ℕ

pub record SessionWithGroups : Type 0 where
  pub session : Session
  pub open session use *
  pub group_ids : List ℤ

-- GROUP_CONCAT: the numbers between commas.
unfoldable pub group_concat : List ℕ → String
group_concat [] = ""
group_concat (x ∷ []) = itoa_ℕ x
group_concat (x ∷ y ∷ xs) =
    Prim.Native.String.◌++◌ (itoa_ℕ x) (Prim.Native.String.◌++◌ "," (group_concat (y ∷ xs)))

-- The numbers among texts that strconv.Atoi accepts, white space trimmed.
unfoldable pub numbers : List String → List ℤ
numbers [] = []
numbers (p ∷ ps) = elim (atoi (trim_space p)) [ some id ↦ id ∷ numbers ps | none ↦ numbers ps ]

unfoldable pub parse_group_ids : String → List ℤ
unfolding numbers
parse_group_ids s = if str_eq s "" then [] else numbers (split b',' s)

-- The groups of a user, as `LEFT JOIN user_groups` and GROUP_CONCAT return them.
unfoldable pub group_ids_of : Storage → ℕ → List ℕ
group_ids_of s user_id = map (λ m. m.group_id) (select (λ m. m.user_id == user_id) s.user_groups)

-- JOIN users u ON u.id = s.user_id
unfoldable pub user_of : Storage → ℕ → Option User
user_of s user_id = find (λ u. u.id == user_id) s.users

to_session : SessionRow → User → Session
to_session r u = record {
  id = r.id;
  user_id = r.user_id;
  username = u.username;
  expires_at = r.expires_at;
  created_at = r.created_at;
}

-- The row joined with its user, if the user exists.
join_user : Storage → SessionRow → Option Session
unfolding to_session user_of
join_user s r = elim (user_of s r.user_id) [ none ↦ none | some u ↦ some (to_session r u) ]

unfoldable pub with_groups : Storage → Session → SessionWithGroups
unfolding group_concat parse_group_ids group_ids_of
with_groups s sess = record {
  session = sess;
  group_ids = parse_group_ids (group_concat (group_ids_of s sess.user_id));
}

-- The rest of a lookup behind the row that it found.
abbrev found_session : Storage → Option SessionRow → Option Session
found_session s none = none
found_session s (some r) = join_user s r

abbrev found_with_groups : Storage → Option Session → Option SessionWithGroups
found_with_groups s none = none
found_with_groups s (some sess) = some (with_groups s sess)

unfoldable pub create_session :
    Env
    → Storage
    → (user_id : ℕ) (dur : ℤ) (client_ip tok : String) (now : ℕ) → Storage × Option String
create_session env s user_id dur client_ip tok now =
    if s.reachable
      && any (λ u. u.id == user_id) s.users
      && not (any (λ r. str_eq r.token_hash (env.sha256_hex tok)) s.sessions)
    then (
      record s { sessions = s.sessions ++ row ∷ []; last_session = suc s.last_session },
      some tok,
    )
    else (s, none)
  where
    row : SessionRow
    row = record {
      id = suc s.last_session;
      token_hash = env.sha256_hex tok;
      user_id = user_id;
      client_ip = normalize_ip env client_ip;
      expires_at = add_time now dur;
      created_at = now;
    }

-- WHERE token_hash = ? AND expires_at > ?
by_token : Env → Storage → String → ℕ → Option SessionRow
by_token env s tok now =
    if s.reachable
    then find (λ r. str_eq r.token_hash (env.sha256_hex tok) && ltb now r.expires_at) s.sessions
    else none

unfoldable pub validate_session : Env → Storage → String → ℕ → Option Session
unfolding by_token join_user
validate_session env s tok now = found_session s (by_token env s tok now)

unfoldable pub validate_session_and_groups : Env → Storage → String → ℕ → Option SessionWithGroups
unfolding by_token join_user with_groups
validate_session_and_groups env s tok now =
    found_with_groups s (found_session s (by_token env s tok now))

later_of : SessionRow → Option SessionRow → SessionRow
later_of r none = r
later_of r (some q) = if ltb r.expires_at q.expires_at then q else r

-- ORDER BY expires_at DESC LIMIT 1; the first of several rows that expire together.
unfoldable pub latest : List SessionRow → Option SessionRow
unfolding later_of
latest [] = none
latest (r ∷ rs) = some (later_of r (latest rs))

-- user_id IN (SELECT user_id FROM user_groups WHERE group_id IN (…)), or no filter on an empty list
unfoldable pub in_groups : Storage → List ℤ → ℕ → Bool
in_groups s [] user_id = true
in_groups s (g ∷ gs) user_id =
    any (λ m. m.user_id == user_id && any (eq_ℤ (pos m.group_id)) (g ∷ gs)) s.user_groups

-- The rows that the inner SELECT keeps; `ip` is normalised.
unfoldable pub is_candidate : Storage → String → List ℤ → ℕ → SessionRow → Bool
unfolding in_groups
is_candidate s ip allowed now r =
    any (λ u. u.id == r.user_id) s.users
    && str_eq r.client_ip ip
    && ltb now r.expires_at
    && in_groups s allowed r.user_id

unfoldable pub validate_session_by_ip_in_groups :
    Env → Storage → String → List ℤ → ℕ → Option SessionWithGroups
unfolding join_user with_groups
validate_session_by_ip_in_groups env s ip allowed now =
    if s.reachable
    then found_with_groups s (
        found_session s
          (latest (select (is_candidate s (normalize_ip env ip) allowed now) s.sessions)))
    else none

unfoldable pub validate_session_by_ip_and_groups :
    Env → Storage → String → ℕ → Option SessionWithGroups
unfolding validate_session_by_ip_in_groups
validate_session_by_ip_and_groups env s ip now = validate_session_by_ip_in_groups env s ip [] now

unfoldable pub validate_session_by_ip : Env → Storage → String → ℕ → Option Session
unfolding join_user
validate_session_by_ip env s ip now =
    if s.reachable
    then found_session s (latest (select (is_candidate s (normalize_ip env ip) [] now) s.sessions))
    else none

-- UPDATE and DELETE over the table; nothing happens on a database that is not reachable.
update_sessions : Storage → (SessionRow → SessionRow) → Storage
update_sessions s f = if s.reachable then record s { sessions = map f s.sessions } else s

delete_sessions : Storage → (SessionRow → Bool) → Storage
delete_sessions s p =
    if s.reachable then record s { sessions = select (λ r. not (p r)) s.sessions } else s

unfoldable pub delete_session : Env → Storage → String → Storage × Bool
unfolding delete_sessions
delete_session env s tok =
    (delete_sessions s (λ r. str_eq r.token_hash (env.sha256_hex tok)), s.reachable)

unfoldable pub extend_session : Env → Storage → String → (dur : ℤ) (now : ℕ) → Storage
unfolding update_sessions
extend_session env s tok dur now = update_sessions s (λ r.
    if str_eq r.token_hash (env.sha256_hex tok)
    then record r { expires_at = add_time now dur }
    else r)

unfoldable pub extend_session_by_id : Storage → (id : ℕ) (dur : ℤ) (now : ℕ) → Storage
unfolding update_sessions
extend_session_by_id s id dur now =
    update_sessions s (λ r. if r.id == id then record r { expires_at = add_time now dur } else r)

-- WHERE user_id = ? AND client_ip = ? AND expires_at > ?
unfoldable pub is_renewed : ℕ → String → ℕ → SessionRow → Bool
is_renewed user_id ip now r = r.user_id == user_id && str_eq r.client_ip ip && ltb now r.expires_at

unfoldable pub extend_user_sessions_by_ip :
    Env → Storage → (user_id : ℕ) (ip : String) (dur : ℤ) (now : ℕ) → Storage
unfolding update_sessions is_renewed
extend_user_sessions_by_ip env s user_id ip dur now = update_sessions s (λ r.
    if is_renewed user_id (normalize_ip env ip) now r
    then record r { expires_at = add_time now dur }
    else r)

unfoldable pub cleanup_expired_sessions : Storage → ℕ → Storage
unfolding delete_sessions
cleanup_expired_sessions s now = delete_sessions s (λ r. ltb r.expires_at now)

-- DeleteSessionByID: an error when no row was deleted.
unfoldable pub delete_session_by_id : Storage → (session_id owner_user_id : ℕ) → Storage × Bool
unfolding delete_sessions
delete_session_by_id s session_id owner_user_id =
    let hit = λ (r : SessionRow). r.id == session_id && r.user_id == owner_user_id in
    (delete_sessions s hit, s.reachable && any hit s.sessions)

unfoldable pub admin_delete_session : Storage → ℕ → Storage × Bool
unfolding delete_sessions
admin_delete_session s session_id = (delete_sessions s (λ r. r.id == session_id), s.reachable)
