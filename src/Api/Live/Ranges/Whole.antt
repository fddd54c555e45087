-- ===== src/Api/Live/Ranges/Whole.antt =====
-- createRouteRange of api/auth.go as a whole.
use re_mazarin.Common.{
  subst, ◌++◌, ℕ, zero, suc, String, ◌≡◌, Bool, true, false, Option, none, some, List, [], ◌∷◌, any,
  str_eq, arith, refl, ap, ◌∙◌, inl, inr, Bool-cases, if◌then◌else◌, select-nothing, select-none,
  ltb, map, or_else, then_branch,
}
use re_mazarin.Common.Int.{ℤ, i64_mod, pos_part, gap, shifted, wrap64}
use re_mazarin.Common.Text.{itoa}
use re_mazarin.Net.{Env, join_host_port}
use re_mazarin.Storage.{Storage, Route}
use re_mazarin.Storage.Routes.{ConfigRoute}
use re_mazarin.Proxy.{Host, RouteError}
use re_mazarin.Auth.{World, refresh_cache}
use re_mazarin.Limiter.{Limiter, reload_throttle, reload_bans, reload_policies}
use re_mazarin.Api.{Reply, fail, refused, endless, is_ok, split_host_port_num}
use re_mazarin.Api.Live.{System, shared, on_route_update}
use re_mazarin.Api.Live.Ranges.{
  Outcome, max_port_range, range_rows, validate_rows, create_rows, end_range, make_range, rounds,
  loop_ends, range_with, create_route_range,
}
use re_mazarin.Api.Live.Ranges.Rollback.{
  in_group, kept, group_urls, row_urls, Made, rows-same, rows-Made, rolled_urls, delete_group-urls,
  delete_group-kept, create_route-kept, create_route-rolled,
}

reload_bans-auth_store :
    (l : Limiter) (s : Storage) (now : ℕ) → (reload_bans l s now).auth_store ≡ l.auth_store
unfolding reload_bans
reload_bans-auth_store l s now = ground arith

reload_policies-auth_store :
    (l : Limiter) (s : Storage) → (reload_policies l s).auth_store ≡ l.auth_store
unfolding reload_policies
reload_policies-auth_store l s = ground arith

reloaded : Limiter → ℕ → Option Storage → Limiter
reloaded l now none = l
reloaded l now (some s) = reload_bans (reload_policies l s) s now

reloaded-auth_store :
    (l : Limiter) (now : ℕ) (o : Option Storage) → (reloaded l now o).auth_store ≡ l.auth_store
unfolding reloaded
reloaded-auth_store l now none = refl
reloaded-auth_store l now (some s) =
    reload_bans-auth_store (reload_policies l s) s now ∙ reload_policies-auth_store l s

reload_throttle-auth_store :
    (l : Limiter) (now : ℕ) → (reload_throttle l now).auth_store ≡ l.auth_store
unfolding reload_throttle reloaded
reload_throttle-auth_store l now = reloaded-auth_store l now l.auth_store

refresh_cache-auth_store :
    (env : Env) (w : World) (now : ℕ)
    → (refresh_cache env w now).limiter.auth_store ≡ w.limiter.auth_store
unfolding refresh_cache
refresh_cache-auth_store env w now = ground (arith, reload_throttle-auth_store w.limiter now)

-- The proxy reads the database only.
pub on_route_update-store :
    (env : Env) (sys : System) (now : ℕ) → (on_route_update env sys now).store ≡ sys.store
unfolding on_route_update
on_route_update-store env sys now =
    ap (λ o. or_else o sys.store) (refresh_cache-auth_store env (shared sys) now)

-- The URLs of `n` ports, `k` steps behind the first one.
abbrev pub port_urls : (host : String) (start : ℤ) (n k : ℕ) → List String
port_urls host start zero k = []
port_urls host start (suc n) k =
    join_host_port host (itoa (shifted start k)) ∷ port_urls host start n (suc k)

range_rows-urls :
    (c : ConfigRoute) (host : String) (start : ℤ) (target : Option (String × ℤ)) (n k : ℕ)
    → row_urls (range_rows c host start target n k) ≡ port_urls host start n k
unfolding range_rows
range_rows-urls c host start target zero k = refl
range_rows-urls c host start target (suc n) k =
    ap (λ us. join_host_port host (itoa (shifted start k)) ∷ us)
      (range_rows-urls c host start target n (suc k))

module _ (sys : System) (g : String) (xs : List String) where
  -- The rows of others are as before, and the range has its rows or none.
  abbrev AllOrNothing : System × Reply → Type 0
  AllOrNothing (sys', reply) =
      (kept g sys'.store ≡ sys.store.proxy_routes)
      × (group_urls g sys'.store ≡ (if is_ok reply then xs else []))

  module _ (fresh : any (in_group g) sys.store.proxy_routes ≡ false) where
    unchanged : (reply : Reply) → is_ok reply ≡ false → AllOrNothing (sys, reply)
    unchanged reply e = (
      select-none (in_group g) sys.store.proxy_routes fresh,
      rw e (ap (map (λ r. r.url)) (select-nothing (in_group g) sys.store.proxy_routes fresh)),
    )

    no_rows : rolled_urls g sys.store ≡ []
    unfolding rolled_urls
    no_rows =
        ground
          (arith, ap (map (λ r. r.url)) (select-nothing (in_group g) sys.store.proxy_routes fresh))

    end_whole :
        (env : Env) (span now : ℕ) (o : Outcome)
        → str_eq g "" ≡ false
        → kept g o.0.0 ≡ kept g sys.store
        → rolled_urls g o.0.0 ≡ rolled_urls g sys.store
        → Made g xs o
        → AllOrNothing (end_range env sys g span now o)
    end_whole env span now ((s, p), inl port) named k u m = (
      delete_group-kept g s ∙ k ∙ select-none (in_group g) sys.store.proxy_routes fresh,
      delete_group-urls g s named ∙ u ∙ no_rows,
    )
    end_whole env span now ((s, p), inr w) named k u m =
        let now_store = on_route_update-store env (record sys { store = s; proxy = p }) now in
        (
          ap (kept g) now_store ∙ k ∙ select-none (in_group g) sys.store.proxy_routes fresh,
          ap (group_urls g) now_store ∙ m,
        )

    make_whole :
        (env : Env) (h : Host) (cs : List (ℤ × ConfigRoute)) (span now : ℕ) (ends : Bool)
        (o : Option RouteError)
        → str_eq g "" ≡ false
        → (ends ≡ true → row_urls cs ≡ xs)
        → AllOrNothing (make_range env h sys g cs span ends now o)
    make_whole env h cs span now ends (some e) named urls = unchanged (refused e) refl
    make_whole env h cs span now false none named urls = unchanged endless refl
    make_whole env h cs span now true none named urls =
        end_whole env span now (create_rows h g cs sys.store sys.proxy none) named
          (rows-same h g (List Route) (kept g) (λ s c. create_route-kept s c g) cs sys.store
            sys.proxy none)
          (rows-same h g (List String) (rolled_urls g) (create_route-rolled g) cs sys.store
            sys.proxy none)
          (subst (λ us. Made g us (create_rows h g cs sys.store sys.proxy none))
            (ap (λ rs. map (λ r. r.url) rs ++ row_urls cs)
                (select-nothing (in_group g) sys.store.proxy_routes fresh)
              ∙ urls refl)
            (rows-Made h g cs sys.store sys.proxy none))

module _ (env : Env) (h : Host) (sys : System) (c : ConfigRoute) (host : String) (start : ℤ)
    (g : String) (named : str_eq g "" ≡ false)
    (fresh : any (in_group g) sys.store.proxy_routes ≡ false) where
  ended_urls :
      (span : ℕ) (ends : Bool) (target : Option (String × ℤ))
      → ends ≡ true
      → row_urls (range_rows c host start target (rounds span ends) 0) ≡ port_urls host start span 0
  unfolding rounds
  ended_urls span ends target e =
      ap (λ n. row_urls (range_rows c host start target n 0)) (then_branch ends span i64_mod e)
      ∙ range_rows-urls c host start target span 0

  with_whole :
      (span now : ℕ) (ends offset : Bool) (target : Option (String × ℤ))
      → AllOrNothing sys g
          (port_urls host start span 0)
          (range_with env h sys c host start span ends g now offset target)
  with_whole span now ends false target =
      make_whole sys g (port_urls host start span 0) fresh env h
        (range_rows c host start none (rounds span ends) 0) span now ends
        (validate_rows sys.proxy (range_rows c host start none (rounds span ends) 0)) named
        (ended_urls span ends none)
  with_whole span now ends true none =
      unchanged sys g (port_urls host start span 0) fresh
        (fail 400 "offset target must be host:port") refl
  with_whole span now ends true (some t) =
      make_whole sys g (port_urls host start span 0) fresh env h
        (range_rows c host start (some t) (rounds span ends) 0) span now ends
        (validate_rows sys.proxy (range_rows c host start (some t) (rounds span ends) 0)) named
        (ended_urls span ends (some t))

  -- A request for a range of ports leaves all other rows of the table of routes as they were, and adds
  -- one row for each port, in order, if the answer is a success, and none if it is an error or never
  -- comes, which it may not where the last port is the largest integer. The identifier of the range is not empty, and no row from the administrators has it yet.
  pub create_route_range-whole :
      (end_port : ℤ) (offset : Bool) (now : ℕ)
      → AllOrNothing sys g
          (port_urls host start (suc (gap start end_port)) 0)
          (create_route_range env h sys c host start end_port offset g now)
  unfolding create_route_range
  create_route_range-whole end_port offset now =
      elim (Bool-cases (ltb max_port_range (pos_part (wrap64 (suc (gap start end_port)))))) [
        | inl t ↦ rw t (
            unchanged sys g (port_urls host start (suc (gap start end_port)) 0) fresh
              (fail 400 "port range too large (max 256 ports)") refl)
        | inr f ↦ rw f (
            with_whole (suc (gap start end_port)) now (loop_ends end_port) offset
              (split_host_port_num c.target))
      ]
