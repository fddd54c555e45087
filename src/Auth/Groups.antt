-- ===== src/Auth/Groups.antt =====
-- The two tests of a user's groups: groupsAllow of proxy/auth.go and RouteAllows of storage/routes.go.
use re_mazarin.Common.{
  Bool, true, ◌&&◌, ◌==◌, select, sort_by, insert_by, arith, Bool-cases, inl, inr, some, ℕ, ◌≤◌,
  String, ◌≡◌, false, List, [], ◌∷◌, map, All, any, str_eq, refl, ap, ◌∙◌, sym, else_branch, ◌||◌,
}
use re_mazarin.Common.Int.{pos, max_i64}
use re_mazarin.Common.Text.{itoa, itoa_ℕ, split}
use re_mazarin.Net.{Env}
use re_mazarin.Storage.{Storage, Route, Group, Membership}
use re_mazarin.Storage.Routes.{route_allows, names_any, trimmed_parts}
use re_mazarin.Storage.Accounts.{get_user_groups, text_before}
use re_mazarin.Api.Accounts.{group_numbers}
use re_mazarin.Storage.Sessions.{Session, with_groups, group_ids_of}
use re_mazarin.Storage.Sessions.GroupIds.{parse_group_ids-group_concat}
use re_mazarin.Auth.{groups_allow, parse_cached_route}

groups_allow-pos :
    (parts : List String) (ids : List ℕ) → groups_allow parts (map pos ids) ≡ names_any parts ids
unfolding groups_allow names_any itoa
groups_allow-pos parts [] = refl
groups_allow-pos parts (id ∷ ids) =
    ap (λ b. any (str_eq (itoa_ℕ id)) parts || b) (groups_allow-pos parts ids)

cached_groups :
    (env : Env) (rt : Route)
    → str_eq rt.allowed_groups "" ≡ false
    → (parse_cached_route env rt).group_set ≡ trimmed_parts (split b',' rt.allowed_groups)
unfolding parse_cached_route
cached_groups env rt h = else_branch (str_eq rt.allowed_groups "") _ _ h

allows_parts :
    (text : String) (ids : List ℕ)
    → str_eq text "" ≡ false
    → route_allows text ids ≡ names_any (trimmed_parts (split b',' text)) ids
unfolding route_allows
allows_parts text ids h = else_branch (str_eq text "") _ _ h

any-map :
    (q : ℕ → Bool) (f : Membership → ℕ) (xs : List Membership)
    → any q (map f xs) ≡ any (λ x. q (f x)) xs
any-map q f [] = refl
any-map q f (x ∷ xs) = ap (λ b. q (f x) || b) (any-map q f xs)

any-ids : (q : ℕ → Bool) (gs : List Group) → any q (map (λ g. g.id) gs) ≡ any (λ g. q g.id) gs
any-ids q [] = refl
any-ids q (g ∷ gs) = ap (λ b. q g.id || b) (any-ids q gs)

module _ {ℓ} {A : Type ℓ} (q : A → Bool) where
  any-insert_by :
      (before : A → A → Bool) (x : A) (xs : List A)
      → any q (insert_by before x xs) ≡ (q x || any q xs)
  any-insert_by before x [] = refl
  any-insert_by before x (y ∷ ys) = ground (arith, any-insert_by before x ys)

  any-sort_by : (before : A → A → Bool) (xs : List A) → any q (sort_by before xs) ≡ any q xs
  any-sort_by before [] = refl
  any-sort_by before (x ∷ xs) =
      any-insert_by before x (sort_by before xs) ∙ ap (λ b. q x || b) (any-sort_by before xs)

  any-select_and : (p : A → Bool) (xs : List A) → any q (select p xs) ≡ any (λ x. p x && q x) xs
  any-select_and p [] = refl
  any-select_and p (x ∷ xs) = ground (arith, any-select_and p xs)

  any-nothing : (xs : List A) → any (λ x. false && q x) xs ≡ false
  any-nothing [] = refl
  any-nothing (x ∷ xs) = any-nothing xs

  any-either :
      (p r : A → Bool) (xs : List A)
      → any (λ x. (p x || r x) && q x) xs ≡ (any (λ x. p x && q x) xs || any (λ x. r x && q x) xs)
  any-either p r [] = refl
  any-either p r (x ∷ xs) = ground (arith, any-either p r xs)

-- A group is found by its number, if there is one with it.
any-number :
    (q : ℕ → Bool) (hit : Bool) (n : ℕ) (gs : List Group)
    → any (λ g. (hit && n == g.id) && q g.id) gs ≡ (any (λ g. g.id == n) gs && (hit && q n))
any-number q hit n [] = refl
any-number q hit n (g ∷ gs) = elim (Bool-cases (n == g.id)) [
  | inl t ↦
      let same : n ≡ g.id = ground (arith, t) in
      let here : q g.id ≡ q n = ap q (sym same) in ground (arith, t, here, any-number q hit n gs)
  | inr f ↦ ground (arith, f, any-number q hit n gs)
]

-- The join of the groups with the memberships finds what the memberships alone say.
any-join :
    (q : ℕ → Bool) (user_id : ℕ) (gs : List Group) (ms : List Membership)
    → All (λ m. any (λ g. g.id == m.group_id) gs ≡ true) ms
    → any (λ g. any (λ m. m.user_id == user_id && m.group_id == g.id) ms && q g.id) gs
      ≡ any (λ m. m.user_id == user_id && q m.group_id) ms
any-join q user_id gs [] h = any-nothing (λ g. q g.id) gs
any-join q user_id gs (m ∷ ms) (h, hs) =
    any-either (λ g. q g.id) (λ g. m.user_id == user_id && m.group_id == g.id)
      (λ g. any (λ k. k.user_id == user_id && k.group_id == g.id) ms) gs
    ∙ ap
        (λ b. b || any (λ g. any (λ k. k.user_id == user_id && k.group_id == g.id) ms && q g.id) gs)
        (any-number q (m.user_id == user_id) m.group_id gs
          ∙ ap (λ b. b && (m.user_id == user_id && q m.group_id)) h)
    ∙ ap (λ b. (m.user_id == user_id && q m.group_id) || b) (any-join q user_id gs ms hs)

-- The two queries for the groups of a user agree on every test of their numbers.
get_user_groups-any :
    (q : ℕ → Bool) (s : Storage) (user_id : ℕ) (gs : List Group)
    → All (λ m. any (λ g. g.id == m.group_id) s.groups ≡ true) s.user_groups
    → get_user_groups s user_id ≡ some gs
    → any q (group_ids_of s user_id) ≡ any q (map (λ g. g.id) gs)
unfolding get_user_groups group_ids_of
get_user_groups-any q s user_id gs known e =
    let joined =
      select (λ g. any (λ m. m.user_id == user_id && m.group_id == g.id) s.user_groups) s.groups in
    let before : Group → Group → Bool = λ g h. text_before g.name h.name in
    let found : sort_by before joined ≡ gs = ground (arith, e) in
    any-map q (λ m. m.group_id) (select (λ m. m.user_id == user_id) s.user_groups)
    ∙ any-select_and (λ m. q m.group_id) (λ m. m.user_id == user_id) s.user_groups
    ∙ sym (any-join q user_id s.groups s.user_groups known)
    ∙ sym (
        any-select_and (λ g. q g.id)
          (λ g. any (λ m. m.user_id == user_id && m.group_id == g.id) s.user_groups) s.groups)
    ∙ sym (any-sort_by (λ g. q g.id) before joined)
    ∙ sym (any-ids q (sort_by before joined))
    ∙ ap (λ hs. any q (map (λ g. g.id) hs)) found

-- The middleware, on the parsed rules of its cache and the memberships that the query of a session returned as
-- a text, and the pages of the API, on the text of the rules and the groups that GetUserGroups joins,
-- agree on whether a user is in a group that a route with groups allows, if every membership is one in
-- a group of the table and its numbers are int64s.
pub groups_allow-route_allows :
    (env : Env) (s : Storage) (sess : Session) (rt : Route) (gs : List Group)
    → str_eq rt.allowed_groups "" ≡ false
    → All (λ n. n ≤ max_i64) (group_ids_of s sess.user_id)
    → All (λ m. any (λ g. g.id == m.group_id) s.groups ≡ true) s.user_groups
    → get_user_groups s sess.user_id ≡ some gs
    → groups_allow (parse_cached_route env rt).group_set (with_groups s sess).group_ids
      ≡ route_allows rt.allowed_groups (group_numbers gs)
unfolding with_groups names_any
groups_allow-route_allows env s sess rt gs h small known e =
    let parts = trimmed_parts (split b',' rt.allowed_groups) in
    ap (groups_allow (parse_cached_route env rt).group_set)
      (parse_group_ids-group_concat (group_ids_of s sess.user_id) small)
    ∙ groups_allow-pos (parse_cached_route env rt).group_set (group_ids_of s sess.user_id)
    ∙ ap (λ ps. names_any ps (group_ids_of s sess.user_id)) (cached_groups env rt h)
    ∙ get_user_groups-any (λ id. any (str_eq (itoa_ℕ id)) parts) s sess.user_id gs known e
    ∙ sym (allows_parts rt.allowed_groups (group_numbers gs) h)
