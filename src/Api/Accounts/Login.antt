-- ===== src/Api/Accounts/Login.antt =====
-- Login, the use of its cookie, and logout, of api/auth.go.
use re_mazarin.Common.{
  subst, ℕ, ◌<◌, String, ◌≡◌, Bool, true, false, Option, none, some, any, find, str_eq, ◌==◌, arith,
  refl, ap, ◌∙◌, sym, then_branch,
}
use re_mazarin.Common.Time.{add_time}
use re_mazarin.Net.{Env}
use re_mazarin.Storage.{Storage, User, SessionRow}
use re_mazarin.Storage.Sessions.{create_session, validate_session, delete_session}
use re_mazarin.Storage.Sessions.Tokens.{
  validate_session-create_session, validate_session-delete_session, create_session-made, with_login,
  find-any, login_row,
}
use re_mazarin.Storage.Accounts.{authenticate, get_user_by_id, get_user_groups}
use re_mazarin.Api.{
  get, post, ApiRequest, account, Reply, ok, profile_of, set_session, session_from_request,
  cookie_session,
}
use re_mazarin.Api.Accounts.{
  LoginBody, login_dur, client_of, groups_or_none, logged_in, login_as, handle_login, drop_session,
  handle_logout, handle_me, me_session, me_user, is_get, is_post, not_authenticated,
}

authenticate-found :
    (s : Storage) (name : String) (matches : String → Bool) (u : User)
    → s.reachable ≡ true
    → find (λ (v : User). str_eq v.username name) s.users ≡ some u
    → matches u.password_hash ≡ true
    → authenticate s name matches ≡ some u
unfolding authenticate
authenticate-found s name matches u up h right = ground (arith, up, h, right)

session_of :
    (env : Env) (s : Storage) (r : ApiRequest) (tok : String) (now : ℕ)
    → r.cookie ≡ some tok
    → session_from_request env s r now ≡ validate_session env s tok now
unfolding session_from_request
session_of env s r tok now h = ap (cookie_session env s now) h

me_of :
    (env : Env) (s : Storage) (r : ApiRequest) (tok : String) (now : ℕ)
    → r.method ≡ get
    → r.cookie ≡ some tok
    → handle_me env s r now ≡ me_session s (validate_session env s tok now)
unfolding handle_me
me_of env s r tok now m c =
    then_branch (is_get r.method) _ _ (ap is_get m)
    ∙ ap (me_session s) (session_of env s r tok now c)

-- On a reachable database, after a logout with the cookie of a session, the cookie is refused at every time.
pub handle_me-handle_logout :
    (env : Env) (s : Storage) (r r' : ApiRequest) (tok : String) (now : ℕ)
    → s.reachable ≡ true
    → r.method ≡ post
    → r.cookie ≡ some tok
    → r'.method ≡ get
    → r'.cookie ≡ some tok
    → handle_me env (handle_logout env s r).0 r' now ≡ not_authenticated
unfolding handle_logout
handle_me-handle_logout env s r r' tok now up m c m' c' =
    ap (λ (x : Storage × Reply). handle_me env x.0 r' now)
      (then_branch (is_post r.method) _ _ (ap is_post m))
    ∙ ap (λ o. handle_me env (drop_session env s o) r' now) c
    ∙ me_of env (delete_session env s tok).0 r' tok now m' c'
    ∙ ap (me_session (delete_session env s tok).0)
        (validate_session-delete_session env s tok now up)

-- The database behind a login.
abbrev behind_login : Env → Storage → User → ApiRequest → (tok : String) → ℕ → Storage
behind_login env s u r tok now =
    with_login s (login_row env s u.id (login_dur s) (client_of r) tok now)

groups_behind :
    (env : Env) (s : Storage) (u : User) (r : ApiRequest) (tok : String) (now : ℕ)
    → groups_or_none (behind_login env s u r tok now) u.id ≡ groups_or_none s u.id
unfolding get_user_groups
groups_behind env s u r tok now = refl

module _ (env : Env) (s : Storage) (u : User) (tok : String) (now : ℕ) (up : s.reachable ≡ true)
    (known : find (λ (v : User). v.id == u.id) s.users ≡ some u)
    (fresh : any (λ (q : SessionRow). str_eq q.token_hash (env.sha256_hex tok)) s.sessions
      ≡ false) where
  made_session :
      (r : ApiRequest)
      → create_session env s u.id (login_dur s) (client_of r) tok now
        ≡ (behind_login env s u r tok now, some tok)
  made_session r =
      create_session-made env s u.id (login_dur s) (client_of r) tok now up
        (find-any _ u s.users known) fresh

  login_made :
      (r : ApiRequest) (b : LoginBody) (matches : String → String → Bool)
      → find (λ (v : User). str_eq v.username b.username) s.users ≡ some u
      → matches b.password u.password_hash ≡ true
      → r.method ≡ post
      → handle_login env s r (some b) matches tok now ≡ (
        behind_login env s u r tok now,
        ok (some (set_session r tok)) (account (profile_of u) (groups_or_none s u.id)),
      )
  unfolding handle_login
  login_made r b matches named right m =
      then_branch (is_post r.method) _ _ (ap is_post m)
      ∙ ap (login_as env s r b tok now)
          (authenticate-found s b.username (matches b.password) u up named right)
      ∙ ap (logged_in r u) (made_session r)
      ∙ ap
          (λ gs. (
            behind_login env s u r tok now,
            ok (some (set_session r tok)) (account (profile_of u) gs),
          ))
          (groups_behind env s u r tok now)

  me_found : (t : Storage) → t.reachable ≡ true → t.users ≡ s.users → get_user_by_id t u.id ≡ some u
  unfolding get_user_by_id
  me_found t up' same =
      ground (arith, up', ap (λ us. find (λ (v : User). v.id == u.id) us) same, known)

  me_behind :
      (r r' : ApiRequest) (later : ℕ)
      → r'.method ≡ get
      → r'.cookie ≡ some tok
      → later < add_time now (login_dur s)
      → handle_me env (behind_login env s u r tok now) r' later
        ≡ ok none (account (profile_of u) (groups_or_none s u.id))
  me_behind r r' later m c lt =
      let t : Storage = behind_login env s u r tok now in
      me_of env t r' tok later m c
      ∙ ap (me_session t) (
          ap (λ (x : Storage × Option String). validate_session env x.0 tok later)
            (sym (made_session r))
          ∙ validate_session-create_session env s u u.id (login_dur s) (client_of r) tok now later
              up known fresh lt)
      ∙ ap (me_user t) (me_found t up refl)
      ∙ ap (λ gs. ok none (account (profile_of u) gs)) (groups_behind env s u r tok now)

-- On a reachable database, the right password of a user gets a cookie, with a token that no session had, and
-- with that cookie the page sees the account of the user at every time before the session expires. The
-- user has its number for itself.
pub handle_me-handle_login :
    (env : Env) (s : Storage) (u : User) (r r' : ApiRequest) (b : LoginBody)
    (matches : String → String → Bool) (tok : String) (now later : ℕ)
    → s.reachable ≡ true
    → find (λ (v : User). str_eq v.username b.username) s.users ≡ some u
    → matches b.password u.password_hash ≡ true
    → find (λ (v : User). v.id == u.id) s.users ≡ some u
    → any (λ (q : SessionRow). str_eq q.token_hash (env.sha256_hex tok)) s.sessions ≡ false
    → r.method ≡ post
    → r'.method ≡ get
    → r'.cookie ≡ some tok
    → later < add_time now (login_dur s)
    → let (s', reply) = handle_login env s r (some b) matches tok now in
      (reply ≡ ok (some (set_session r tok)) (account (profile_of u) (groups_or_none s u.id)))
      × (handle_me env s' r' later ≡ ok none (account (profile_of u) (groups_or_none s u.id)))
handle_me-handle_login env s u r r' b matches tok now later up named right known fresh m m' c' lt =
    subst
      (λ (x : Storage × Reply).
        (x.1 ≡ ok (some (set_session r tok)) (account (profile_of u) (groups_or_none s u.id)))
        × (handle_me env x.0 r' later ≡ ok none (account (profile_of u) (groups_or_none s u.id))))
      (sym (login_made env s u tok now up known fresh r b matches named right m))
      (refl, me_behind env s u tok now up known fresh r r' later m' c' lt)
