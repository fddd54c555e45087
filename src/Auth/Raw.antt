-- ===== src/Auth/Raw.antt =====
-- authorizeIP of proxy/auth.go: who may open a raw TCP or UDP connection to a route with groups.
use re_mazarin.Common.{
  ℕ, String, ◌≡◌, ◌<◌, Bool, true, false, not, ◌||◌, Option, none, some, List, [], ◌∷◌, arith, refl,
  lookup, str_eq, inl, inr, ◌⊎◌, ap, ◌∙◌, sym, Among, any, is_some, then_branch, else_branch,
  and_true, ◌==◌,
}
use re_mazarin.Common.Int.{ℤ, pos}
use re_mazarin.Net.{Env, normalize_ip}
use re_mazarin.Storage.{Storage, SessionRow, Membership}
use re_mazarin.Storage.Sessions.{SessionWithGroups, validate_session_by_ip_in_groups, in_groups}
use re_mazarin.Storage.Sessions.ByIp.{Authorises, by_ip_sound, by_ip_complete, in_groups_sound}
use re_mazarin.Auth.{
  World, CachedRoute, authorize_ip, authorize_entry, authorize_session, raw_session, is_open_raw,
  ip_allows,
}

-- A route with groups is not open, so a raw connection needs a session or the allowlist.
authorized-session :
    (env : Env) (w : World) (s : Storage) (cr : CachedRoute) (url ip : String) (now : ℕ)
    → w.limiter.auth_store ≡ some s
    → lookup w.auth_cache url ≡ some cr
    → str_eq cr.allowed_groups "" ≡ false
    → authorize_ip env w url ip now
      ≡ authorize_session env w cr ip now
          (validate_session_by_ip_in_groups env s ip cr.group_ids now)
unfolding authorize_ip authorize_entry
authorized-session env w s cr url ip now e found grouped =
    ap (authorize_entry env w ip now) found
    ∙ else_branch (is_open_raw cr) _ _ (ground (arith, grouped))
    ∙ ap (λ o. authorize_session env w cr ip now (raw_session env o cr ip now)) e
    ∙ ap (authorize_session env w cr ip now) (
        then_branch (cr.ip_auth || not (str_eq cr.allowed_groups "")) _ none
          (ground (arith, grouped)))

session_or_list :
    (env : Env) (w : World) (cr : CachedRoute) (ip : String) (now : ℕ)
    (o : Option SessionWithGroups)
    → (authorize_session env w cr ip now o).1.0 ≡ true
    → (ip_allows env cr ip ≡ true) ⊎ ((sg : SessionWithGroups) × (o ≡ some sg))
unfolding authorize_session
session_or_list env w cr ip now none h = inl (and_true _ _ h).1
session_or_list env w cr ip now (some sg) h = inr (sg, refl)

session_passes :
    (env : Env) (w : World) (cr : CachedRoute) (ip : String) (now : ℕ)
    (o : Option SessionWithGroups)
    → is_some o ≡ true
    → (authorize_session env w cr ip now o).1.0 ≡ true
unfolding authorize_session
session_passes env w cr ip now none h = cc
session_passes env w cr ip now (some sg) h = refl

-- A raw connection to a cached route whose groups hold at least one number passes only if the
-- static allowlist has its IP, or if there is an unexpired session at the IP, in its normal form,
-- whose user is a member of one of the groups. This does not depend on the route's ip_auth flag.
pub authorize_ip-member :
    (env : Env) (w : World) (s : Storage) (cr : CachedRoute) (url ip : String) (now : ℕ) (g : ℤ)
    (gs : List ℤ)
    → w.limiter.auth_store ≡ some s
    → lookup w.auth_cache url ≡ some cr
    → str_eq cr.allowed_groups "" ≡ false
    → cr.group_ids ≡ g ∷ gs
    → (authorize_ip env w url ip now).1.0 ≡ true
    → (ip_allows env cr ip ≡ true)
      ⊎ ((r : SessionRow) × (m : Membership) × Among r s.sessions
          × (r.client_ip ≡ normalize_ip env ip)
          × (now < r.expires_at)
          × Among m s.user_groups
          × (m.user_id ≡ r.user_id)
          × Among (pos m.group_id) (g ∷ gs))
authorize_ip-member env w s cr url ip now g gs e found grouped ids pass =
    let o = validate_session_by_ip_in_groups env s ip cr.group_ids now in
    elim (session_or_list env w cr ip now o (
      ap (λ (x : World × (Bool × String)). x.1.0)
        (sym (authorized-session env w s cr url ip now e found grouped))
      ∙ pass)) [
        | inl h ↦ inl h
        | inr (sg, h) ↦
            let same : validate_session_by_ip_in_groups env s ip (g ∷ gs) now ≡ some sg =
              ap (λ (l : List ℤ). validate_session_by_ip_in_groups env s ip l now) (sym ids) ∙ h in
            let (r, a, _, _) = by_ip_sound env s ip (g ∷ gs) now sg same in
            let (m, mem, user, group) = in_groups_sound s g gs r.user_id a.in_group in
            inr (r, m, a.row, a.same_ip, a.unexpired, mem, user, group)
      ]

in_groups-empty : (s : Storage) (u : ℕ) → in_groups s [] u ≡ true
unfolding in_groups
in_groups-empty s u = refl

-- A route that lists groups of which none is a number lets every raw connection pass whose IP has
-- an unexpired session, whatever the groups of its user.
pub authorize_ip-no_numbers :
    (env : Env) (w : World) (s : Storage) (cr : CachedRoute) (url ip : String) (now : ℕ)
    (r : SessionRow)
    → w.limiter.auth_store ≡ some s
    → lookup w.auth_cache url ≡ some cr
    → str_eq cr.allowed_groups "" ≡ false
    → cr.group_ids ≡ []
    → s.reachable ≡ true
    → Among r s.sessions
    → any (λ u. u.id == r.user_id) s.users ≡ true
    → r.client_ip ≡ normalize_ip env ip
    → now < r.expires_at
    → (authorize_ip env w url ip now).1.0 ≡ true
authorize_ip-no_numbers env w s cr url ip now r e found grouped ids up row user same live =
    let a : Authorises s (normalize_ip env ip) [] now r = record {
      row = row;
      user_exists = user;
      same_ip = same;
      unexpired = live;
      in_group = in_groups-empty s r.user_id;
    } in
    ap (λ (x : World × (Bool × String)). x.1.0)
      (authorized-session env w s cr url ip now e found grouped)
    ∙ session_passes env w cr ip now _ (
        ap (λ (l : List ℤ). is_some (validate_session_by_ip_in_groups env s ip l now)) ids
        ∙ by_ip_complete env s ip [] now r up a)
