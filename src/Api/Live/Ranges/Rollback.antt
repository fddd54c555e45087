-- ===== src/Api/Live/Ranges/Rollback.antt =====
-- createRouteRange of api/auth.go: what a range leaves in the table of routes.
use re_mazarin.Common.{
  subst, select-select-not, select-not-select-not, map-append, suc, ℕ, String, ◌≡◌, Bool, true,
  false, not, ◌&&◌, Option, none, some, List, [], ◌∷◌, ◌++◌, map, select, str_eq, eq_refl, arith,
  refl, sym, ap, ◌∙◌, inl, inr, if◌then◌else◌, append_nil, append-append, select-append,
}
use re_mazarin.Common.Int.{ℤ}
use re_mazarin.Storage.{Storage, Route}
use re_mazarin.Storage.Routes.{ConfigRoute, new_route, create_route, delete_route_group}
use re_mazarin.Proxy.{Host, Proxy, RouteError, register_route}
use re_mazarin.Api.Live.Ranges.{Outcome, made_row, create_rows, last_error, proxy_route}

-- The rows that DeleteRouteGroup deletes.
abbrev pub in_group : String → Route → Bool
in_group g r = str_eq r.range_group g && str_eq r.source "ui"

abbrev pub kept : String → Storage → List Route
kept g s = select (λ r. not (in_group g r)) s.proxy_routes

new_in_group : (g : String) (id : ℕ) (c : ConfigRoute) → in_group g (new_route id c "ui" g) ≡ true
unfolding new_route
new_in_group g id c = simp (eq_refl g) refl

append_dropped :
    (g : String) (rs : List Route) (r : Route)
    → in_group g r ≡ true
    → select (λ q. not (in_group g q)) (rs ++ r ∷ []) ≡ select (λ q. not (in_group g q)) rs
append_dropped g rs r h = select-append (λ q. not (in_group g q)) rs (r ∷ []) ∙ rw h (append_nil _)

pub create_route-kept :
    (s : Storage) (c : ConfigRoute) (g : String) → kept g (create_route s c g).0 ≡ kept g s
unfolding create_route
create_route-kept s c g =
    let new = new_route (suc s.last_route) c "ui" g in
    ground (arith, append_dropped g s.proxy_routes new (new_in_group g (suc s.last_route) c))

create_route-reachable :
    (s : Storage) (c : ConfigRoute) (g : String) → (create_route s c g).0.reachable ≡ s.reachable
unfolding create_route
create_route-reachable s c g = ground arith

module _ (h : Host) (g : String) where
  -- What holds of every round holds of the loop.
  module _ {ℓ} (A : Type ℓ) (f : Storage → A)
      (step : (s : Storage) (c : ConfigRoute) → f (create_route s c g).0 ≡ f s) where
    made-same :
        (rest : Storage → Proxy → Option RouteError → Outcome)
        → ((s : Storage) (p : Proxy) (w : Option RouteError) → f (rest s p w).0.0 ≡ f s)
        → (p : Proxy) (w : Option RouteError) (row : ℤ × ConfigRoute) (o : Storage × Option Route)
        → f (made_row rest h p w row o).0.0 ≡ f o.0
    made-same rest ih p w (port, c) (s, none) = refl
    made-same rest ih p w (port, c) (s, some _) = ih s _ _

    pub rows-same :
        (cs : List (ℤ × ConfigRoute)) (s : Storage) (p : Proxy) (w : Option RouteError)
        → f (create_rows h g cs s p w).0.0 ≡ f s
    unfolding create_rows
    rows-same [] s p w = refl
    rows-same ((port, c) ∷ cs) s p w =
        made-same (create_rows h g cs) (rows-same cs) p w (port, c) (create_route s c g) ∙ step s c

-- The URLs of the rows of a range.
abbrev pub group_urls : String → Storage → List String
group_urls g s = map (λ r. r.url) (select (in_group g) s.proxy_routes)

append_urls :
    (g : String) (rs : List Route) (r : Route)
    → in_group g r ≡ true
    → map (λ q. q.url) (select (in_group g) (rs ++ r ∷ []))
      ≡ map (λ q. q.url) (select (in_group g) rs) ++ r.url ∷ []
append_urls g rs r h =
    ap (map (λ q. q.url)) (select-append (in_group g) rs (r ∷ []))
    ∙ rw h (map-append (λ q. q.url) (select (in_group g) rs) (r ∷ []))

abbrev Grown : String → List String → Storage × Option Route → Type 0
Grown g xs (s, none) = Unit
Grown g xs (s, some _) = group_urls g s ≡ xs

create_route-Grown :
    (s : Storage) (c : ConfigRoute) (g : String)
    → Grown g (group_urls g s ++ c.url ∷ []) (create_route s c g)
unfolding create_route
create_route-Grown s c g =
    let new = new_route (suc s.last_route) c "ui" g in
    ground (arith, append_urls g s.proxy_routes new (new_in_group g (suc s.last_route) c))

abbrev pub row_urls : List (ℤ × ConfigRoute) → List String
row_urls cs = map (λ x. x.1.url) cs

-- All rounds, unless a port was in use.
abbrev pub Made : String → List String → Outcome → Type 0
Made g xs ((s, p), inl _) = Unit
Made g xs ((s, p), inr _) = group_urls g s ≡ xs

Made-cast : (g : String) (xs ys : List String) (o : Outcome) → xs ≡ ys → Made g xs o → Made g ys o
Made-cast g xs ys o e m = subst (λ zs. Made g zs o) e m

module _ (h : Host) (g : String) where
  made_row-Made :
      (cs : List (ℤ × ConfigRoute)) (xs : List String) (p : Proxy) (w : Option RouteError)
      (row : ℤ × ConfigRoute) (o : Storage × Option Route)
      → ((s : Storage) (p : Proxy) (w : Option RouteError)
          → Made g (group_urls g s ++ row_urls cs) (create_rows h g cs s p w))
      → Grown g xs o
      → Made g (xs ++ row_urls cs) (made_row (create_rows h g cs) h p w row o)
  made_row-Made cs xs p w (port, c) (s, none) ih grown = tt
  made_row-Made cs xs p w (port, c) (s, some _) ih grown =
      let (q, e) = register_route h p (proxy_route c) in
      Made-cast g (group_urls g s ++ row_urls cs) (xs ++ row_urls cs)
        (create_rows h g cs s q (last_error w e)) (ap (λ zs. zs ++ row_urls cs) grown)
        (ih s q (last_error w e))

  pub rows-Made :
      (cs : List (ℤ × ConfigRoute)) (s : Storage) (p : Proxy) (w : Option RouteError)
      → Made g (group_urls g s ++ row_urls cs) (create_rows h g cs s p w)
  unfolding create_rows
  rows-Made [] s p w = sym (append_nil _)
  rows-Made ((port, c) ∷ cs) s p w =
      Made-cast g ((group_urls g s ++ c.url ∷ []) ++ row_urls cs)
        (group_urls g s ++ (c.url ∷ row_urls cs)) (create_rows h g ((port, c) ∷ cs) s p w)
        (append-append (group_urls g s) (c.url ∷ []) (row_urls cs))
        (made_row-Made cs (group_urls g s ++ c.url ∷ []) p w (port, c) (create_route s c g)
          (rows-Made cs) (create_route-Grown s c g))

-- The rows of the range after a roll-back, and those of others.
unfoldable pub rolled_urls : String → Storage → List String
rolled_urls g s = if s.reachable then [] else group_urls g s

pub delete_group-urls :
    (g : String) (s : Storage)
    → str_eq g "" ≡ false
    → group_urls g (delete_route_group s g).0 ≡ rolled_urls g s
unfolding delete_route_group rolled_urls
delete_group-urls g s named = ground (arith, named, select-select-not (in_group g) s.proxy_routes)

pub create_route-rolled :
    (g : String) (s : Storage) (c : ConfigRoute)
    → rolled_urls g (create_route s c g).0 ≡ rolled_urls g s
unfolding create_route rolled_urls
create_route-rolled g s c = ground arith

pub delete_group-kept : (g : String) (s : Storage) → kept g (delete_route_group s g).0 ≡ kept g s
unfolding delete_route_group
delete_group-kept g s = ground (arith, select-not-select-not (in_group g) s.proxy_routes)
