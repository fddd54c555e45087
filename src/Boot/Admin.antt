-- ===== src/Boot/Admin.antt =====
-- The start in main.go: the page of the administrators is never without a rule.
use re_mazarin.Common.{
  ℕ, String, ◌≡◌, Bool, true, false, ◌&&◌, Option, none, some, List, [], ◌∷◌, All, any, str_eq,
  arith, refl, ap, ◌∙◌, sym, subst, ◌⊎◌, inl, inr, then_branch,
}
use re_mazarin.Net.{Env}
use re_mazarin.Storage.{Storage, Route, Group}
use re_mazarin.Storage.Seed.{seed_admin}
use re_mazarin.Storage.Routes.{sync_routes, ensure_route_group}
use re_mazarin.Storage.Routes.Protect.{ensure_route_group-closed, sync_routes-same}
use re_mazarin.Auth.{World, parse_cached_route, is_public}
use re_mazarin.Proxy.{Host, Proxy, RouteError}
use re_mazarin.Api.Live.{System}
use re_mazarin.Boot.{
  Config, load_config, init_auth, BootError, running, start_with, protect_admin, synced,
  boot_config, boot,
}

abbrev store_of : Storage → System ⊎ BootError → Storage
store_of d (inl sys) = sys.store
store_of d (inr _) = d

running-store :
    (w : World) (s : Storage) (x : Proxy × Option RouteError) → store_of s (running w s x) ≡ s
running-store w s (p, none) = refl
running-store w s (p, some e) = refl

start-store :
    (h : Host) (w : World) (s : Storage) (cfg : Config) (o : Option (List Route))
    → store_of s (start_with h w s cfg o) ≡ s
start-store h w s cfg none = refl
start-store h w s cfg (some rs) = running-store w s _

synced-store :
    (env : Env) (h : Host) (w : World) (cfg : Config) (now : ℕ) (x : Storage × Bool)
    → store_of (protect_admin x.0 cfg) (synced env h w cfg now x) ≡ protect_admin x.0 cfg
synced-store env h w cfg now (s, false) = refl
synced-store env h w cfg now (s, true) = start-store h _ (protect_admin s cfg) cfg _

-- The database of a system that has started.
boot-store :
    (env : Env) (h : Host) (w : World) (s : Storage) (hash : Option String) (now : ℕ)
    (decoded : Option Config) (cfg : Config) (sys : System)
    → load_config decoded ≡ some cfg
    → boot env h w s hash now decoded ≡ inl sys
    → sys.store ≡ protect_admin (sync_routes (seed_admin s hash now) cfg.routes).0 cfg
unfolding boot
boot-store env h w s hash now decoded cfg sys loaded e =
    let t = seed_admin s hash now in
    let d = protect_admin (sync_routes t cfg.routes).0 cfg in
    sym (ap (store_of d) e)
    ∙ ap (λ o. store_of d (boot_config env h w s hash now o)) loaded
    ∙ synced-store env h (init_auth env w t now) cfg now (sync_routes t cfg.routes)

not_public :
    (env : Env) (url : String) (r : Route)
    → (str_eq r.url url && str_eq r.allowed_groups "") ≡ false
    → (str_eq r.url url && is_public (parse_cached_route env r)) ≡ false
unfolding parse_cached_route
not_public env url r h = ground (arith, h)

every_row :
    (env : Env) (url : String) (rs : List Route)
    → All (λ r. (str_eq r.url url && str_eq r.allowed_groups "") ≡ false) rs
    → All (λ r. (str_eq r.url url && is_public (parse_cached_route env r)) ≡ false) rs
every_row env url [] h = tt
every_row env url (r ∷ rs) (h, hs) = (not_public env url r h, every_row env url rs hs)

abbrev has_admin : Storage → Bool
has_admin s = any (λ (g : Group). str_eq g.name "admin") s.groups

protected-closed :
    (s : Storage) (cfg : Config)
    → cfg.admin.enabled ≡ true
    → s.reachable ≡ true
    → has_admin s ≡ true
    → All
        (λ r. (str_eq r.url cfg.admin.url && str_eq r.allowed_groups "") ≡ false)
        (protect_admin s cfg).proxy_routes
unfolding protect_admin
protected-closed s cfg on up known =
    subst
      (λ (t : Storage).
        All (λ r. (str_eq r.url cfg.admin.url && str_eq r.allowed_groups "") ≡ false)
          t.proxy_routes)
      (sym (then_branch cfg.admin.enabled (ensure_route_group s cfg.admin.url "admin").0 s on))
      (ensure_route_group-closed s cfg.admin.url "admin" up known)

-- Once the program has started with an admin page, on a reachable database with a group named admin, every row
-- for the URL of that page has some rule: none is what the cache takes for a public route, whatever was
-- stored or configured before.
pub boot-closed :
    (env : Env) (h : Host) (w : World) (s : Storage) (hash : Option String) (now : ℕ)
    (decoded : Option Config) (cfg : Config) (sys : System)
    → load_config decoded ≡ some cfg
    → cfg.admin.enabled ≡ true
    → (seed_admin s hash now).reachable ≡ true
    → any (λ (g : Group). str_eq g.name "admin") (seed_admin s hash now).groups ≡ true
    → boot env h w s hash now decoded ≡ inl sys
    → All
        (λ r. (str_eq r.url cfg.admin.url && is_public (parse_cached_route env r)) ≡ false)
        sys.store.proxy_routes
boot-closed env h w s hash now decoded cfg sys loaded on up known e =
    let t = seed_admin s hash now in
    let u = (sync_routes t cfg.routes).0 in
    let up' : u.reachable ≡ true =
      sync_routes-same (λ (x : Storage). x.reachable) (λ x rs n. refl) t cfg.routes ∙ up in
    let known' : has_admin u ≡ true =
      sync_routes-same has_admin (λ x rs n. refl) t cfg.routes ∙ known in
    subst
      (λ (x : Storage).
        All (λ r. (str_eq r.url cfg.admin.url && is_public (parse_cached_route env r)) ≡ false)
          x.proxy_routes)
      (sym (boot-store env h w s hash now decoded cfg sys loaded e))
      (every_row env cfg.admin.url (protect_admin u cfg).proxy_routes
        (protected-closed u cfg on up' known'))
