-- ===== src/Storage/Routes/Sync.antt =====
-- SyncRoutes of storage/routes.go: what the start of the program does to the access rules of its routes.
use re_mazarin.Common.{
  String, ◌≡◌, Bool, true, not, List, [], ◌∷◌, ◌++◌, map, if◌then◌else◌, any, select, str_eq,
  eq_iff, arith, refl, ap, ◌∙◌, sym, Bool-cases, inl, inr, then_branch, Among, here, there,
  select-Among, Among-select, subst,
}
use re_mazarin.Storage.{Storage, Route}
use re_mazarin.Storage.Routes.{
  ConfigRoute, overwrite, has_url, upsert_route, upsert_routes, is_removed, sync_routes,
}

-- Two rows have the same URL and the same access rules.
abbrev pub SameAccess : Route → Route → Type 0
SameAccess q r =
    (q.id ≡ r.id)
    × (q.url ≡ r.url)
    × (q.allowed_groups ≡ r.allowed_groups)
    × (q.allowed_ips ≡ r.allowed_ips)
    × (q.ip_auth ≡ r.ip_auth)
    × (q.persistent_login ≡ r.persistent_login)
    × (q.require_login ≡ r.require_login)

abbrev Kept : List Route → Route → Type 0
Kept rs r = (q : Route) × Among q rs × SameAccess q r

kept_append : (rs ts : List Route) (r : Route) → Among r rs → Among r (rs ++ ts)
kept_append [] ts r h = elim h [ ]
kept_append (x ∷ xs) ts r (here e) = here e
kept_append (x ∷ xs) ts r (there m) = there (kept_append xs ts r m)

abbrev written : ConfigRoute → Route → Route
written c r = if str_eq r.url c.url then overwrite c r else r

written-SameAccess : (c : ConfigRoute) (r : Route) → SameAccess (written c r) r
unfolding overwrite
written-SameAccess c r = ground arith

map-Among : (f : Route → Route) (rs : List Route) (r : Route) → Among r rs → Among (f r) (map f rs)
map-Among f [] r h = elim h [ ]
map-Among f (x ∷ xs) r (here e) = here (ap f e)
map-Among f (x ∷ xs) r (there m) = there (map-Among f xs r m)

upsert-Kept :
    (s : Storage) (c : ConfigRoute) (r : Route)
    → Among r s.proxy_routes
    → Kept (upsert_route s c).proxy_routes r
unfolding upsert_route
upsert-Kept s c r m = elim (Bool-cases (has_url c.url s.proxy_routes)) [
  | inl t ↦ rw t (written c r, map-Among (written c) s.proxy_routes r m, written-SameAccess c r)
  | inr f ↦ rw f (r, kept_append s.proxy_routes _ r m, (refl, refl, refl, refl, refl, refl, refl))
]

SameAccess-trans : (p q r : Route) → SameAccess p q → SameAccess q r → SameAccess p r
SameAccess-trans p q r (a, b, c, d, e, f, g) (a', b', c', d', e', f', g') =
    (a ∙ a', b ∙ b', c ∙ c', d ∙ d', e ∙ e', f ∙ f', g ∙ g')

upsert_all-Kept :
    (s : Storage) (cs : List ConfigRoute) (r : Route)
    → Among r s.proxy_routes
    → Kept (upsert_routes s cs).proxy_routes r
unfolding upsert_routes
upsert_all-Kept s [] r m = (r, m, (refl, refl, refl, refl, refl, refl, refl))
upsert_all-Kept s (c ∷ cs) r m =
    let (q, mq, same) = upsert-Kept s c r m in
    let (p, mp, same') = upsert_all-Kept (upsert_route s c) cs q mq in
    (p, mp, SameAccess-trans p q r same' same)

synced :
    (s : Storage) (cs : List ConfigRoute)
    → s.reachable ≡ true
    → (sync_routes s cs).0.proxy_routes
      ≡ select (λ q. not (is_removed cs q)) (upsert_routes s cs).proxy_routes
unfolding sync_routes
synced s cs up = ap (λ (x : Storage × Bool). x.0.proxy_routes) (then_branch s.reachable _ _ up)

stays :
    (cs : List ConfigRoute) (q : Route) (url : String)
    → q.url ≡ url
    → any (λ c. str_eq c.url url) cs ≡ true
    → not (is_removed cs q) ≡ true
unfolding is_removed
stays cs q url e h =
    let h' : any (λ c. str_eq c.url q.url) cs ≡ true =
      ap (λ u. any (λ (c : ConfigRoute). str_eq c.url u) cs) e ∙ h in
    ground (arith, h')

-- On a reachable database, a restart with a configuration that has the URL of a stored route keeps
-- that route, under its id, with all the access rules that an administrator gave it.
pub sync_routes-SameAccess :
    (s : Storage) (cs : List ConfigRoute) (r : Route)
    → s.reachable ≡ true
    → Among r s.proxy_routes
    → any (λ c. str_eq c.url r.url) cs ≡ true
    → (q : Route) × Among q (sync_routes s cs).0.proxy_routes × SameAccess q r
sync_routes-SameAccess s cs r up m listed =
    let (q, mq, same) = upsert_all-Kept s cs r m in
    (
      q,
      subst (Among q) (sym (synced s cs up)) (
          select-Among (λ q. not (is_removed cs q)) q (upsert_routes s cs).proxy_routes mq
            (stays cs q r.url same.1 listed)),
      same,
    )

-- On a reachable database, after a restart every route that comes from the configuration is one of
-- the configuration now.
pub sync_routes-config :
    (s : Storage) (cs : List ConfigRoute) (r : Route)
    → s.reachable ≡ true
    → Among r (sync_routes s cs).0.proxy_routes
    → r.source ≡ "config"
    → any (λ c. str_eq c.url r.url) cs ≡ true
unfolding is_removed
sync_routes-config s cs r up m from =
    let (_, kept) =
      Among-select (λ q. not (is_removed cs q)) r (upsert_routes s cs).proxy_routes
        (subst (Among r) (synced s cs up) m) in
    ground (arith, kept, eq_iff r.source "config")
