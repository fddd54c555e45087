-- ===== src/Storage/Routes/Protect.antt =====
-- EnsureRouteGroup of storage/routes.go, and what SyncRoutes leaves alone.
use re_mazarin.Common.{
  ℕ, String, ◌≡◌, Bool, true, false, ◌&&◌, some, List, [], ◌∷◌, map, any, find, All, str_eq, arith,
  refl, ap, ◌∙◌, sym, Bool-cases, inl, inr, if◌then◌else◌, when_true, then_branch, else_branch,
  subst, any-find,
}
use re_mazarin.Common.Text.{itoa_ℕ}
use re_mazarin.Common.Text.Decimal.{itoa_ℕ-text}
use re_mazarin.Storage.{Storage, Route, Group}
use re_mazarin.Storage.Sessions.GroupIds.{text-not-empty}
use re_mazarin.Storage.Routes.{
  group_set_at, ConfigRoute, update_where, ensure_route_group, sync_routes, upsert_routes,
  upsert_route, has_url,
}

abbrev protected : String → ℕ → Route → Route
protected url id r =
    if str_eq r.url url && str_eq r.allowed_groups ""
    then record r { allowed_groups = itoa_ℕ id }
    else r

found_group :
    (s : Storage) (url name : String) (g : Group)
    → s.reachable ≡ true
    → find (λ (g : Group). str_eq g.name name) s.groups ≡ some g
    → (ensure_route_group s url name).0
      ≡ record s { proxy_routes = map (protected url g.id) s.proxy_routes }
unfolding ensure_route_group group_set_at update_where
found_group s url name g up h =
    ap (λ o. (group_set_at s url o).0) (when_true s.reachable _ up ∙ h)
    ∙ ap (λ (x : Storage × Bool). x.0) (then_branch s.reachable _ _ up)

protected-closed :
    (url : String) (id : ℕ) (r : Route)
    → (str_eq (protected url id r).url url && str_eq (protected url id r).allowed_groups "") ≡ false
protected-closed url id r = ground (arith, text-not-empty (itoa_ℕ id) (itoa_ℕ-text id))

protected_rows :
    (url : String) (id : ℕ) (rs : List Route)
    → All
        (λ r. (str_eq r.url url && str_eq r.allowed_groups "") ≡ false)
        (map (protected url id) rs)
protected_rows url id [] = tt
protected_rows url id (r ∷ rs) = (protected-closed url id r, protected_rows url id rs)

-- On a reachable database with the group, no row of the route is without groups then.
pub ensure_route_group-closed :
    (s : Storage) (url name : String)
    → s.reachable ≡ true
    → any (λ (g : Group). str_eq g.name name) s.groups ≡ true
    → All
        (λ r. (str_eq r.url url && str_eq r.allowed_groups "") ≡ false)
        (ensure_route_group s url name).0.proxy_routes
ensure_route_group-closed s url name up known =
    let (g, h) = any-find (λ (g : Group). str_eq g.name name) s.groups known in
    subst
      (λ (t : Storage).
        All (λ r. (str_eq r.url url && str_eq r.allowed_groups "") ≡ false) t.proxy_routes)
      (sym (found_group s url name g up h)) (protected_rows url g.id s.proxy_routes)

module _ {ℓ} {A : Type ℓ} (f : Storage → A)
    (same : (s : Storage) (rs : List Route) (n : ℕ)
      → f (record s { proxy_routes = rs; last_route = n }) ≡ f s) where
  upsert-same : (s : Storage) (c : ConfigRoute) → f (upsert_route s c) ≡ f s
  unfolding upsert_route
  upsert-same s c = elim (Bool-cases (has_url c.url s.proxy_routes)) [
    | inl t ↦ ap f (then_branch _ _ _ t) ∙ same s _ s.last_route
    | inr n ↦ ap f (else_branch _ _ _ n) ∙ same s _ _
  ]

  upsert_all-same : (s : Storage) (cs : List ConfigRoute) → f (upsert_routes s cs) ≡ f s
  unfolding upsert_routes
  upsert_all-same s [] = refl
  upsert_all-same s (c ∷ cs) = upsert_all-same (upsert_route s c) cs ∙ upsert-same s c

  -- A synchronisation changes the table of routes only.
  pub sync_routes-same : (s : Storage) (cs : List ConfigRoute) → f (sync_routes s cs).0 ≡ f s
  unfolding sync_routes
  sync_routes-same s cs = elim (Bool-cases s.reachable) [
    | inl t ↦
        ap (λ (x : Storage × Bool). f x.0) (then_branch _ _ _ t)
        ∙ same (upsert_routes s cs) _ (upsert_routes s cs).last_route
        ∙ upsert_all-same s cs
    | inr n ↦ ap (λ (x : Storage × Bool). f x.0) (else_branch _ _ _ n)
  ]
