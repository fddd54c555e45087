-- ===== src/Storage/Sessions/Tokens.antt =====
-- The life of a session token: login, use, renewal, logout.
use re_mazarin.Common.{
  Among, ℕ, suc, ◌<◌, String, ◌≡◌, Bool, true, false, not, ◌&&◌, Option, none, some, List, [], ◌∷◌,
  ◌++◌, arith, eq_refl, refl, select, any, find, ltb, str_eq, ◌==◌, when_true, then_branch,
  and_true, ap, ◌∙◌, true_and, lt→ltb, Among-any, find-Among,
}
use re_mazarin.Common.Int.{ℤ}
use re_mazarin.Common.Time.{add_time}
use re_mazarin.Net.{Env, normalize_ip}
use re_mazarin.Storage.{Storage, User, SessionRow}
use re_mazarin.Storage.Sessions.{
  Session, create_session, validate_session, by_token, found_session, join_user, to_session,
  user_of, delete_session, delete_sessions,
}

-- A search over a list that holds nothing passes on to what is appended.
find-append :
    (p : SessionRow → Bool) (xs : List SessionRow) (r : SessionRow)
    → any p xs ≡ false
    → p r ≡ true
    → find p (xs ++ r ∷ []) ≡ some r
find-append p [] r h e = rw e
find-append p (x ∷ xs) r h e = ground (arith, find-append p xs r)

find-select-not :
    (p q : SessionRow → Bool) (xs : List SessionRow)
    → ((r : SessionRow) → q r ≡ true → p r ≡ true)
    → find q (select (λ r. not (p r)) xs) ≡ none
find-select-not p q [] h = refl
find-select-not p q (x ∷ xs) h = ground (arith, h x, find-select-not p q xs h)

-- The row of the session that a login makes.
by_token_found :
    (env : Env) (s : Storage) (tok : String) (now : ℕ)
    → s.reachable ≡ true
    → by_token env s tok now
      ≡ find (λ r. str_eq r.token_hash (env.sha256_hex tok) && ltb now r.expires_at) s.sessions
unfolding by_token
by_token_found env s tok now up = when_true s.reachable _ up

deleted_sessions :
    (s : Storage) (p : SessionRow → Bool)
    → s.reachable ≡ true
    → delete_sessions s p ≡ record s { sessions = select (λ r. not (p r)) s.sessions }
unfolding delete_sessions
deleted_sessions s p up = then_branch s.reachable _ _ up

-- On a reachable database, logging out ends the session: its token is not valid at any time.
pub validate_session-delete_session :
    (env : Env) (s : Storage) (tok : String) (now : ℕ)
    → s.reachable ≡ true
    → validate_session env (delete_session env s tok).0 tok now ≡ none
unfolding validate_session delete_session
validate_session-delete_session env s tok now up =
    let p : SessionRow → Bool = λ r. str_eq r.token_hash (env.sha256_hex tok) in
    let t : Storage = record s { sessions = select (λ r. not (p r)) s.sessions } in
    ap (λ (u : Storage). validate_session env u tok now) (deleted_sessions s p up)
    ∙ ap (found_session t) (
        by_token_found env t tok now up
        ∙ find-select-not p _ s.sessions (λ r h. (and_true _ _ h).0))

any-false_find :
    (p q : SessionRow → Bool) (xs : List SessionRow)
    → ((r : SessionRow) → q r ≡ true → p r ≡ true)
    → any p xs ≡ false
    → any q xs ≡ false
any-false_find p q [] h e = refl
any-false_find p q (x ∷ xs) h e = ground (arith, h x, any-false_find p q xs h)

pub find-any : (p : User → Bool) (u : User) (xs : List User) → find p xs ≡ some u → any p xs ≡ true
find-any p u xs h = Among-any p u xs (find-Among p u xs h).0 (find-Among p u xs h).1

-- The row that a login appends.
abbrev pub login_row : Env → Storage → ℕ → ℤ → String → String → ℕ → SessionRow
login_row env s user_id dur ip tok now = record {
  id = suc s.last_session;
  token_hash = env.sha256_hex tok;
  user_id = user_id;
  client_ip = normalize_ip env ip;
  expires_at = add_time now dur;
  created_at = now;
}

abbrev pub with_login : Storage → SessionRow → Storage
with_login s r = record s { sessions = s.sessions ++ r ∷ []; last_session = suc s.last_session }

-- What a login does when the guards of the table let it.
pub create_session-made :
    (env : Env) (s : Storage) (user_id : ℕ) (dur : ℤ) (ip tok : String) (now : ℕ)
    → s.reachable ≡ true
    → any (λ (u : User). u.id == user_id) s.users ≡ true
    → any (λ (r : SessionRow). str_eq r.token_hash (env.sha256_hex tok)) s.sessions ≡ false
    → create_session env s user_id dur ip tok now
      ≡ (with_login s (login_row env s user_id dur ip tok now), some tok)
unfolding create_session
create_session-made env s user_id dur ip tok now up known fresh =
    let guard : (s.reachable
          && any (λ (u : User). u.id == user_id) s.users
          && not (any (λ (r : SessionRow). str_eq r.token_hash (env.sha256_hex tok)) s.sessions))
        ≡ true =
      ground (arith, up, known, fresh) in
    then_branch _ _ _ guard

-- On a reachable database, a login of a user that exists, with a token whose digest no session
-- has, makes a session of that user under the token, which is valid at every time before its
-- expiry.
pub validate_session-create_session :
    (env : Env) (s : Storage) (u : User) (user_id : ℕ) (dur : ℤ) (ip tok : String) (now later : ℕ)
    → s.reachable ≡ true
    → find (λ (v : User). v.id == user_id) s.users ≡ some u
    → any (λ (r : SessionRow). str_eq r.token_hash (env.sha256_hex tok)) s.sessions ≡ false
    → later < add_time now dur
    → validate_session env (create_session env s user_id dur ip tok now).0 tok later
      ≡ some (record {
        id = suc s.last_session;
        user_id = user_id;
        username = u.username;
        expires_at = add_time now dur;
        created_at = now;
      })
unfolding validate_session join_user user_of to_session
validate_session-create_session env s u user_id dur ip tok now later up known fresh lt =
    let row : SessionRow = login_row env s user_id dur ip tok now in
    let t : Storage = with_login s row in
    ap (λ (v : Storage × Option String). validate_session env v.0 tok later)
      (create_session-made env s user_id dur ip tok now up (find-any _ u s.users known) fresh)
    ∙ ap (found_session t) (
        by_token_found env t tok later up
        ∙ find-append _ s.sessions row
            (any-false_find _ _ s.sessions (λ r h. (and_true _ _ h).0) fresh)
            (true_and _ _ (eq_refl _) (lt→ltb _ _ lt)))
    ∙ ap (λ (o : Option User). elim o [ none ↦ none | some v ↦ some (to_session row v) ]) known

joined :
    (s : Storage) (r : SessionRow) (sess : Session)
    → join_user s r ≡ some sess
    → sess.user_id ≡ r.user_id
unfolding join_user to_session
joined s r sess h = ground arith

found :
    (s : Storage) (o : Option SessionRow) (sess : Session)
    → found_session s o ≡ some sess
    → (r : SessionRow) × (o ≡ some r) × (sess.user_id ≡ r.user_id)
found s none sess h = ground arith
found s (some r) sess h = (r, refl, joined s r sess h)

by_token-find :
    (env : Env) (s : Storage) (tok : String) (now : ℕ) (r : SessionRow)
    → by_token env s tok now ≡ some r
    → find (λ r. str_eq r.token_hash (env.sha256_hex tok) && ltb now r.expires_at) s.sessions
      ≡ some r
unfolding by_token
by_token-find env s tok now r h = ground arith

-- A session that validates is a row with the digest of the token that has not expired.
pub validate_session_sound :
    (env : Env) (s : Storage) (tok : String) (now : ℕ) (sess : Session)
    → validate_session env s tok now ≡ some sess
    → (r : SessionRow) × Among r s.sessions
      × ((str_eq r.token_hash (env.sha256_hex tok) && ltb now r.expires_at) ≡ true)
      × (sess.user_id ≡ r.user_id)
unfolding validate_session
validate_session_sound env s tok now sess h =
    let (r, e, id) = found s (by_token env s tok now) sess h in
    let p : SessionRow → Bool =
      λ r. str_eq r.token_hash (env.sha256_hex tok) && ltb now r.expires_at in
    let (m, t) = find-Among p r s.sessions (by_token-find env s tok now r e) in (r, m, t, id)
