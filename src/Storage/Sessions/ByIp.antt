-- ===== src/Storage/Sessions/ByIp.antt =====
-- The lookup of a session by the client's IP, which authorises routes with IP session auth.
use re_mazarin.Common.{
  ℕ, ◌≤◌, ◌<◌, String, ◌≡◌, true, ◌&&◌, Option, none, some, List, [], ◌∷◌, arith, eq_iff, refl,
  Among, here, there, Among-select, select-Among, any-Among, any-find, select, any, is_some, ltb,
  ◌==◌, inl, inr, Bool-cases, when_some, when_true, and_true, ltb-false, Option-cases, ◌↔◌, tests,
  All, ==_iff, ap, ◌∙◌,
}
use re_mazarin.Common.Int.{ℤ, pos, eq_ℤ, eq_ℤ_iff}
use re_mazarin.Net.{Env, normalize_ip}
use re_mazarin.Storage.{Storage, User, Membership, SessionRow}
use re_mazarin.Storage.Sessions.{
  Session, SessionWithGroups, later_of, latest, is_candidate, in_groups, join_user, to_session,
  user_of, with_groups, found_session, found_with_groups, validate_session_by_ip_in_groups,
}

abbrev IsLatest : SessionRow → List SessionRow → Type 0
IsLatest r rs = Among r rs × ((q : SessionRow) → Among q rs → q.expires_at ≤ r.expires_at)

extend_bound :
    (b : ℕ) (x : SessionRow) (rs : List SessionRow)
    → x.expires_at ≤ b
    → ((q : SessionRow) → Among q rs → q.expires_at ≤ b)
    → (q : SessionRow) → Among q (x ∷ rs)
    → q.expires_at ≤ b
extend_bound b x rs hx hs q (here e) = rw e hx
extend_bound b x rs hx hs q (there m) = hs q m

no_member : (q : SessionRow) (rs : List SessionRow) → rs ≡ [] → Among q rs → ⊥
no_member q rs e m = elim (rw e at m) [ ]

later_of-IsLatest :
    (x : SessionRow) (rs : List SessionRow) (o : Option SessionRow)
    → ((r : SessionRow) → o ≡ some r → IsLatest r rs)
    → (o ≡ none → rs ≡ [])
    → IsLatest (later_of x o) (x ∷ rs)
unfolding later_of
later_of-IsLatest x rs none known gone = (
  here refl,
  extend_bound x.expires_at x rs (omega arith) (λ q m. absurd (no_member q rs (gone refl) m)),
)
later_of-IsLatest x rs (some y) known gone = elim (Bool-cases (ltb x.expires_at y.expires_at)) [
  | inl t ↦
      rw t (there (known y refl).0, extend_bound y.expires_at x rs (omega tests) (known y refl).1)
  | inr t ↦ rw t (
    here refl,
    extend_bound x.expires_at x rs (omega arith)
        (λ q m. omega (arith, (known y refl).1 q m, ltb-false _ _ t)),
  )
]

latest-nil : (rs : List SessionRow) → latest rs ≡ none → rs ≡ []
unfolding latest
latest-nil [] h = refl
latest-nil (x ∷ rs) h = cc

-- The row found is one of those searched, and none of them expires later.
pub latest_sound : (rs : List SessionRow) (r : SessionRow) → latest rs ≡ some r → IsLatest r rs
unfolding latest
latest_sound [] r h = cc
latest_sound (x ∷ rs) r h =
    let e : later_of x (latest rs) ≡ r = cc h in
    rw (← e) (later_of-IsLatest x rs (latest rs) (latest_sound rs) (latest-nil rs))

abbrev HasGroup : List ℤ → Membership → Type 0
HasGroup gs m = Among (pos m.group_id) gs

eq_ℤ-Among : (z : ℤ) (gs : List ℤ) → any (eq_ℤ z) gs ≡ true → Among z gs
eq_ℤ-Among z gs h =
    let found = any-Among (eq_ℤ z) gs h in rw ((eq_ℤ_iff z found.0).0 found.2) found.1

-- A group filter that is not empty lets a user through who is a member of one of the groups.
pub in_groups_sound :
    (s : Storage) (g : ℤ) (gs : List ℤ) (user_id : ℕ)
    → in_groups s (g ∷ gs) user_id ≡ true
    → (m : Membership) × Among m s.user_groups
      × (m.user_id ≡ user_id)
      × Among (pos m.group_id) (g ∷ gs)
unfolding in_groups
in_groups_sound s g gs user_id h =
    let found =
      any-Among (λ (m : Membership). m.user_id == user_id && any (eq_ℤ (pos m.group_id)) (g ∷ gs))
        s.user_groups h in
    let both = and_true _ _ found.2 in
    (found.0, found.1, (==_iff _ _).0 both.0, eq_ℤ-Among _ (g ∷ gs) both.1)

-- What a row must meet to authorise an IP, whatever order the tests come in.
pub record Authorises (s : Storage) (ip : String) (allowed : List ℤ) (now : ℕ) (r : SessionRow)
    : Type 0 where
  pub row : Among r s.sessions
  pub user_exists : any (λ u. u.id == r.user_id) s.users ≡ true
  pub same_ip : r.client_ip ≡ ip
  pub unexpired : now < r.expires_at
  pub in_group : in_groups s allowed r.user_id ≡ true

candidate_iff :
    (s : Storage) (ip : String) (allowed : List ℤ) (now : ℕ) (r : SessionRow)
    → Among r s.sessions
    → (is_candidate s ip allowed now r ≡ true) ↔ Authorises s ip allowed now r
unfolding is_candidate
candidate_iff s ip allowed now r m = (
  λ h. record {
    row = m;
    user_exists = ground (arith, h);
    same_ip = ground (arith, h, eq_iff r.client_ip ip);
    unexpired = ground (arith, h);
    in_group = ground (arith, h);
  },
  λ a. ground (arith, a.user_exists, a.same_ip, a.unexpired, a.in_group, eq_iff r.client_ip ip),
)

join_user-some :
    (s : Storage) (r : SessionRow)
    → any (λ u. u.id == r.user_id) s.users ≡ true
    → (sess : Session) × (join_user s r ≡ some sess)
      × (sess.id ≡ r.id)
      × (sess.user_id ≡ r.user_id)
      × (sess.expires_at ≡ r.expires_at)
unfolding join_user user_of to_session
join_user-some s r h =
    let u = any-find (λ (u : User). u.id == r.user_id) s.users h in
    (to_session r u.0, rw (u.1, join_user), refl, refl, refl)

-- The answer for the row that was found.
abbrev pub Answers : Storage → SessionWithGroups → SessionRow → Type 0
Answers s sg r = (sg.id ≡ r.id) × (sg.user_id ≡ r.user_id) × (sg.expires_at ≡ r.expires_at)

answer :
    (s : Storage) (ip : String) (allowed : List ℤ) (now : ℕ) (r : SessionRow)
    → Authorises s ip allowed now r
    → (sg : SessionWithGroups) × (found_with_groups s (found_session s (some r)) ≡ some sg)
      × Answers s sg r
unfolding with_groups
answer s ip allowed now r a =
    let (sess, e, id, user, exp) = join_user-some s r a.user_exists in
    (with_groups s sess, rw e, (id, user, exp))

from_members :
    (P : SessionRow → Type 0) (xs : List SessionRow)
    → ((q : SessionRow) → Among q xs → P q)
    → All P xs
from_members P [] h = tt
from_members P (x ∷ xs) h = (h x (here refl), from_members P xs (λ q m. h q (there m)))

module _ (env : Env) (s : Storage) (ip : String) (allowed : List ℤ) (now : ℕ) where
  -- The rows that the inner query keeps.
  abbrev pub candidates : List SessionRow
  candidates = select (is_candidate s (normalize_ip env ip) allowed now) s.sessions

  abbrev pub Meets : SessionRow → Type 0
  Meets r = Authorises s (normalize_ip env ip) allowed now r

  latest-Meets :
      (r : SessionRow)
      → latest candidates ≡ some r
      → Meets r × All (λ q. q.expires_at ≤ r.expires_at) candidates
  latest-Meets r e =
      let (m, bound) = latest_sound candidates r e in
      let (row, test) = Among-select _ r s.sessions m in
      (
        (candidate_iff s (normalize_ip env ip) allowed now r row).0 test,
        from_members _ candidates bound,
      )

  when_reachable :
      (sg : SessionWithGroups)
      → validate_session_by_ip_in_groups env s ip allowed now ≡ some sg
      → found_with_groups s (found_session s (latest candidates)) ≡ some sg
  unfolding validate_session_by_ip_in_groups
  when_reachable sg h = when_some s.reachable _ h

  -- A session that the lookup by IP returns is that of a row which meets all the conditions, and
  -- no row that the query keeps expires later.
  pub by_ip_sound :
      (sg : SessionWithGroups)
      → validate_session_by_ip_in_groups env s ip allowed now ≡ some sg
      → (r : SessionRow) × Meets r
        × Answers s sg r
        × All (λ q. q.expires_at ≤ r.expires_at) candidates
  unfolding validate_session_by_ip_in_groups
  by_ip_sound sg h = elim (Option-cases (latest candidates)) [
    | inl e ↦ absurd (cc (rw e at (when_reachable sg h)))
    | inr (r, e) ↦
        let (a, bound) = latest-Meets r e in
        let (sg', found, (id, user, exp)) = answer s (normalize_ip env ip) allowed now r a in
        let same : sg' ≡ sg = cc (found, rw e at (when_reachable sg h)) in
        (r, a, rw (← same) (id, user, exp), bound)
  ]

  -- On a reachable database, the lookup by IP finds a session whenever some row meets the
  -- conditions.
  pub by_ip_complete :
      (r : SessionRow)
      → s.reachable ≡ true
      → Meets r
      → is_some (validate_session_by_ip_in_groups env s ip allowed now) ≡ true
  unfolding validate_session_by_ip_in_groups
  by_ip_complete r up a = elim (Option-cases (latest candidates)) [
    | inl e ↦ absurd (
        no_member r candidates (latest-nil candidates e) (
          select-Among _ r s.sessions a.row
            ((candidate_iff s (normalize_ip env ip) allowed now r a.row).1 a)))
    | inr (q, e) ↦
        let (sg, found, _) = answer s (normalize_ip env ip) allowed now q (latest-Meets q e).0 in
        ap is_some (when_true s.reachable _ up) ∙ (rw e (rw found))
  ]
