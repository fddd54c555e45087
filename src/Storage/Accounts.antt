-- ===== src/Storage/Accounts.antt =====
-- storage/users.go, groups.go and invites.go. `hash` in `create_user` is what bcrypt made of the
-- password, and `matches` in `authenticate` compares a hash with the password that was given.
pub mod Invites
mod Tests
use re_mazarin.Common.{
  ℕ, suc, String, Bool, true, false, not, ◌&&◌, Option, none, some, List, [], ◌∷◌, ◌++◌, ltb, ◌==◌,
  str_eq, if◌then◌else◌, select, any, find, sort_by,
}
use re_mazarin.Common.Int.{ℤ}
use re_mazarin.Common.Time.{add_time}
use re_mazarin.Net.{Env}
use re_mazarin.Storage.{Storage, User, Group, InviteRow}

unfoldable pub create_user :
    Storage → (username : String) (hash : Option String) (now : ℕ) → Storage × Option User
create_user s username none now = (s, none)
create_user s username (some hash) now =
    if s.reachable && not (any (λ u. str_eq u.username username) s.users)
    then (record s { users = s.users ++ row ∷ []; last_user = suc s.last_user }, some row)
    else (s, none)
  where
    row : User
    row = record {
      id = suc s.last_user;
      username = username;
      password_hash = hash;
      created_at = now;
    }

abbrev pub accept_password : (String → Bool) → Option User → Option User
accept_password matches none = none
accept_password matches (some u) = if matches u.password_hash then some u else none

unfoldable pub authenticate : Storage → String → (String → Bool) → Option User
authenticate s username matches =
    if s.reachable
    then accept_password matches (find (λ u. str_eq u.username username) s.users)
    else none

unfoldable pub get_user_by_id : Storage → ℕ → Option User
get_user_by_id s id = if s.reachable then find (λ u. u.id == id) s.users else none

-- A text comes before another in the order of its code points.
abbrev pub text_before : String → String → Bool
text_before s t = elim (Prim.Native.String.compare s t) [
  | Prim.Native.Nat.Ordering.lt ↦ true
  | _ ↦ false
]

-- GetAllUsers; `none` is an error.
unfoldable pub get_all_users : Storage → Option (List User)
get_all_users s =
    if s.reachable then some (sort_by (λ u v. text_before u.username v.username) s.users) else none

-- With foreign keys enforced, the sessions and memberships of the user go with it.
unfoldable pub delete_user : Storage → ℕ → Storage × Bool
delete_user s id =
    if s.reachable
    then (
      record s {
        users = select (λ u. not (u.id == id)) s.users;
        user_groups = select (λ m. not (m.user_id == id)) s.user_groups;
        sessions = select (λ r. not (r.user_id == id)) s.sessions;
      },
      any (λ u. u.id == id) s.users,
    )
    else (s, false)

unfoldable pub create_group :
    Storage → (name description : String) (now : ℕ) → Storage × Option Group
create_group s name description now =
    if s.reachable && not (any (λ g. str_eq g.name name) s.groups)
    then (record s { groups = s.groups ++ row ∷ []; last_group = suc s.last_group }, some row)
    else (s, none)
  where
    row : Group
    row = record { id = suc s.last_group; name = name; description = description; created_at = now }

unfoldable pub get_all_groups : Storage → Option (List Group)
get_all_groups s =
    if s.reachable then some (sort_by (λ g h. text_before g.name h.name) s.groups) else none

pub data DeleteGroupResult : Type 0 where
  deleted group_not_found group_protected : DeleteGroupResult

unfoldable pub delete_group : Storage → ℕ → Storage × DeleteGroupResult
delete_group s id =
    if s.reachable
    then elim (find (λ g. g.id == id) s.groups) [
      | none ↦ (s, group_not_found)
      | some g ↦ if str_eq g.name "admin" then (s, group_protected) else (
        record s {
          groups = select (λ g. not (g.id == id)) s.groups;
          user_groups = select (λ m. not (m.group_id == id)) s.user_groups;
        },
        deleted,
      )
    ]
    else (s, group_not_found)

-- JOIN user_groups; `none` is an error.
unfoldable pub get_user_groups : Storage → ℕ → Option (List Group)
get_user_groups s user_id =
    if s.reachable
    then some (
        sort_by (λ g h. text_before g.name h.name)
          (select (λ g. any (λ m. m.user_id == user_id && m.group_id == g.id) s.user_groups)
            s.groups))
    else none

-- INSERT OR IGNORE, which does not ignore a foreign key that is missing.
unfoldable pub add_user_to_group : Storage → (user_id group_id : ℕ) → Storage × Bool
add_user_to_group s user_id group_id =
    if s.reachable && any (λ u. u.id == user_id) s.users && any (λ g. g.id == group_id) s.groups
    then (if any (λ m. m.user_id == user_id && m.group_id == group_id) s.user_groups
        then (s, true)
        else (
          record s {
            user_groups = s.user_groups ++ record { user_id = user_id; group_id = group_id } ∷ [];
          },
          true,
        ))
    else (s, false)

unfoldable pub remove_user_from_group : Storage → (user_id group_id : ℕ) → Storage × Bool
remove_user_from_group s user_id group_id =
    if s.reachable
    then (
      record s {
        user_groups =
            select (λ m. not (m.user_id == user_id && m.group_id == group_id)) s.user_groups;
      },
      true,
    )
    else (s, false)

-- UserInGroup: `none` is an error.
unfoldable pub user_in_group : Storage → ℕ → String → Option Bool
user_in_group s user_id group_name =
    if s.reachable
    then some (
        any
          (λ m.
            m.user_id == user_id
            && any (λ g. g.id == m.group_id && str_eq g.name group_name) s.groups)
          s.user_groups)
    else none

-- `code` is what `randHex(16)` returned; the column code_hash is UNIQUE.
unfoldable pub create_invite :
    Env → Storage → (code description : String) (dur : ℤ) (now : ℕ) → Storage × Option InviteRow
create_invite env s code description dur now =
    if s.reachable && not (any (λ i. str_eq i.code_hash (env.sha256_hex code)) s.invites)
    then (record s { invites = s.invites ++ row ∷ []; last_invite = suc s.last_invite }, some row)
    else (s, none)
  where
    row : InviteRow
    row = record {
      id = suc s.last_invite;
      code_hash = env.sha256_hex code;
      description = description;
      used = false;
      expires_at = add_time now dur;
      created_at = now;
    }

-- code_hash = ? AND used = FALSE AND expires_at > ?
unfoldable pub is_usable : Env → String → ℕ → InviteRow → Bool
is_usable env code now i =
    str_eq i.code_hash (env.sha256_hex code) && not i.used && ltb now i.expires_at

-- UPDATE invites SET used = TRUE WHERE id = ?
unfoldable pub mark_used : List InviteRow → ℕ → List InviteRow
mark_used [] id = []
mark_used (j ∷ js) id = (if j.id == id then record j { used = true } else j) ∷ mark_used js id

-- The UPDATE behind the row that the SELECT found.
abbrev pub used_invite : Storage → Option InviteRow → Storage × Option InviteRow
used_invite s none = (s, none)
used_invite s (some i) =
    (record s { invites = mark_used s.invites i.id }, some (record i { used = true }))

-- The two statements as one step: no other request comes between them.
unfoldable pub use_invite : Env → Storage → String → ℕ → Storage × Option InviteRow
unfolding is_usable mark_used
use_invite env s code now =
    used_invite s (if s.reachable then find (is_usable env code now) s.invites else none)

-- GetAllInvites, the newest first.
unfoldable pub get_all_invites : Storage → Option (List InviteRow)
get_all_invites s =
    if s.reachable then some (sort_by (λ i j. ltb j.created_at i.created_at) s.invites) else none

unfoldable pub delete_invite : Storage → ℕ → Storage × Bool
delete_invite s id =
    if s.reachable
    then (
      record s { invites = select (λ i. not (i.id == id)) s.invites },
      any (λ i. i.id == id) s.invites,
    )
    else (s, false)

unfoldable pub cleanup_expired_invites : Storage → ℕ → Storage
cleanup_expired_invites s now =
    if s.reachable
    then record s { invites = select (λ i. not (ltb i.expires_at now && not i.used)) s.invites }
    else s
