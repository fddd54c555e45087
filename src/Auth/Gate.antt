-- ===== src/Auth/Gate.antt =====
-- withAuthForKey of proxy/auth.go against an independent description of who may enter a route.
use re_mazarin.Common.{
  ℕ, String, ◌≡◌, Bool, true, false, not, ◌&&◌, ◌||◌, Option, none, some, List, [], ◌∷◌, arith,
  refl, is_some, str_eq,
}
use re_mazarin.Common.Int.{ℤ}
use re_mazarin.Net.{Env}
use re_mazarin.Storage.{Storage}
use re_mazarin.Storage.Sessions.{SessionWithGroups, validate_session_and_groups}
use re_mazarin.Auth.{
  CachedRoute, Verdict, public_route, ip_session, ip_allowlist, cookie_session, auth_required,
  forbidden, is_public, http_session, ip_allows, groups_allow, judge, judge_cookie, judge_session,
  is_empty,
}

-- The four ways into a route.
abbrev pub is_grant : Verdict → Bool
is_grant public_route = true
is_grant (ip_session _) = true
is_grant ip_allowlist = true
is_grant (cookie_session _ _) = true
is_grant auth_required = false
is_grant forbidden = false

-- A session may use the route: any session on a route that only requires a login, and else one
-- whose user is in an allowed group.
abbrev pub session_enters : CachedRoute → Option SessionWithGroups → Bool
session_enters cr none = false
session_enters cr (some sg) = cr.require_login || groups_allow cr.group_set sg.group_ids

-- The cookie is honoured on routes with persistent login only.
abbrev pub cookie_enters : Env → Storage → CachedRoute → Option String → ℕ → Bool
cookie_enters env s cr none now = false
cookie_enters env s cr (some tok) now =
    cr.persistent_login && session_enters cr (validate_session_and_groups env s tok now)

abbrev pub enters : Env → Storage → CachedRoute → (ip : String) → Option String → ℕ → Bool
enters env s cr ip cookie now =
    is_public cr
    || is_some (http_session env s cr ip now)
    || (not (str_eq cr.allowed_ips "") && ip_allows env cr ip)
    || cookie_enters env s cr cookie now

groups_allow-empty :
    (gs : List String) (ids : List ℤ) → is_empty gs ≡ true → groups_allow gs ids ≡ false
unfolding groups_allow is_empty
groups_allow-empty [] [] h = refl
groups_allow-empty [] (i ∷ ids) h = groups_allow-empty [] ids h
groups_allow-empty (g ∷ gs) ids h = cc

judge_session-grant :
    (cr : CachedRoute) (tok : String) (o : Option SessionWithGroups)
    → is_grant (judge_session cr tok o) ≡ session_enters cr o
unfolding judge_session
judge_session-grant cr tok none = refl
judge_session-grant cr tok (some sg) = ground arith

-- A session never enters through a list without groups, unless a login is all that is required.
no_groups :
    (cr : CachedRoute) (o : Option SessionWithGroups)
    → is_empty cr.group_set ≡ true
    → cr.require_login ≡ false
    → session_enters cr o ≡ false
no_groups cr none e l = refl
no_groups cr (some sg) e l = ground (arith, groups_allow-empty cr.group_set sg.group_ids e)

no_groups_cookie :
    (env : Env) (s : Storage) (cr : CachedRoute) (cookie : Option String) (now : ℕ)
    → is_empty cr.group_set ≡ true
    → cr.require_login ≡ false
    → cookie_enters env s cr cookie now ≡ false
no_groups_cookie env s cr none now e l = refl
no_groups_cookie env s cr (some tok) now e l =
    ground (arith, no_groups cr (validate_session_and_groups env s tok now) e l)

judge_cookie-grant :
    (env : Env) (s : Storage) (cr : CachedRoute) (cookie : Option String) (now : ℕ)
    → cr.persistent_login ≡ true
    → is_grant (judge_cookie env s cr cookie now) ≡ cookie_enters env s cr cookie now
unfolding judge_cookie
judge_cookie-grant env s cr none now p = refl
judge_cookie-grant env s cr (some tok) now p =
    ground (arith, judge_session-grant cr tok (validate_session_and_groups env s tok now))

no_cookie_login :
    (env : Env) (s : Storage) (cr : CachedRoute) (cookie : Option String) (now : ℕ)
    → cr.persistent_login ≡ false
    → cookie_enters env s cr cookie now ≡ false
no_cookie_login env s cr none now p = refl
no_cookie_login env s cr (some tok) now p = ground arith

-- The checks of a route, in the order of the source, grant a request exactly when the route is
-- public, or an IP session or the static allowlist lets its IP in, or the route honours cookies and
-- the cookie's session is enough for it.
pub judge-enters :
    (env : Env) (s : Storage) (cr : CachedRoute) (ip : String) (cookie : Option String) (now : ℕ)
    → is_grant (judge env s cr ip cookie now) ≡ enters env s cr ip cookie now
unfolding judge
judge-enters env s cr ip cookie now = ground (
  arith,
  judge_cookie-grant env s cr cookie now,
  no_groups_cookie env s cr cookie now,
  no_cookie_login env s cr cookie now,
)
