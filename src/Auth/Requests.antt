-- ===== src/Auth/Requests.antt =====
-- withAuthForKey of proxy/auth.go from end to end: the ban, the rate limit, the route's rules, and
-- what a refused request leaves behind.
use re_mazarin.Common.{
  ℕ, String, ◌≡◌, Bool, true, false, not, ◌&&◌, Option, none, some, arith, refl, lookup, ap, ◌∙◌,
}
use re_mazarin.Net.{Env}
use re_mazarin.Storage.{Storage}
use re_mazarin.Limiter.{Limiter, is_banned, allow}
use re_mazarin.Auth.{
  World, CachedRoute, Request, Response, forwarded, failed, Verdict, public_route, ip_session,
  ip_allowlist, cookie_session, auth_required, forbidden, act, judge_entry, judge_stored,
  judge_route, guarded, limited, gate, with_auth_for_key, extract_client_ip,
}
use re_mazarin.Auth.Gate.{is_grant, enters, judge-enters}

abbrev pub is_forwarded : Response → Bool
is_forwarded forwarded = true
is_forwarded (failed _ _) = false

-- Who may enter the route that is cached under a key; nobody enters a route that is not cached.
abbrev pub enters_cached : Env → Storage → Option CachedRoute → String → Option String → ℕ → Bool
enters_cached env s none ip cookie now = false
enters_cached env s (some cr) ip cookie now = enters env s cr ip cookie now

-- The limiter behind the ban check, and the answer of the rate limit.
abbrev pub checked : Limiter → String → ℕ → Limiter
checked l ip now = (is_banned l ip now).0

abbrev pub rate_answer : Limiter → String → ℕ → Limiter × (Bool × ℕ)
rate_answer l ip now = allow (checked l ip now) ip now

pub store_checked :
    (l : Limiter) (ip : String) (now : ℕ) → (checked l ip now).auth_store ≡ l.auth_store
unfolding is_banned
store_checked l ip now = refl

pub store_allow :
    (l : Limiter) (ip : String) (now : ℕ) → (allow l ip now).0.auth_store ≡ l.auth_store
unfolding allow
store_allow l ip now = refl

pub act-grant :
    (env : Env) (w : World) (rk ip : String) (now : ℕ) (v : Verdict)
    → is_forwarded (act env w rk ip now v).1 ≡ is_grant v
unfolding act
act-grant env w rk ip now public_route = refl
act-grant env w rk ip now (ip_session sg) = refl
act-grant env w rk ip now ip_allowlist = refl
act-grant env w rk ip now (cookie_session tok sg) = refl
act-grant env w rk ip now auth_required = refl
act-grant env w rk ip now forbidden = refl

judge_entry-enters :
    (env : Env) (w : World) (s : Storage) (rk ip : String) (cookie : Option String) (now : ℕ)
    (o : Option CachedRoute)
    → is_forwarded (judge_entry env w s rk ip cookie now o).1 ≡ enters_cached env s o ip cookie now
unfolding judge_entry
judge_entry-enters env w s rk ip cookie now none = refl
judge_entry-enters env w s rk ip cookie now (some cr) = rw (act-grant, judge-enters)

judge_route-enters :
    (env : Env) (w : World) (s : Storage) (rk ip : String) (cookie : Option String) (now : ℕ)
    → w.limiter.auth_store ≡ some s
    → is_forwarded (judge_route env w rk ip cookie now).1
      ≡ enters_cached env s (lookup w.auth_cache rk) ip cookie now
unfolding judge_route
judge_route-enters env w s rk ip cookie now e =
    ap (λ o. is_forwarded (judge_stored env w rk ip cookie now o).1) e
    ∙ judge_entry-enters env w s rk ip cookie now (lookup w.auth_cache rk)

limited-enters :
    (env : Env) (w : World) (s : Storage) (rk ip : String) (cookie : Option String) (now : ℕ)
    → w.limiter.auth_store ≡ some s
    → is_forwarded (limited env w rk ip cookie now).1
      ≡ ((allow w.limiter ip now).1.0 && enters_cached env s (lookup w.auth_cache rk) ip cookie now)
unfolding limited
limited-enters env w s rk ip cookie now e =
    let w' : World = record w { limiter = (allow w.limiter ip now).0 } in
    ground (arith, judge_route-enters env w' s rk ip cookie now (store_allow w.limiter ip now ∙ e))

gate-enters :
    (env : Env) (w : World) (s : Storage) (rk ip : String) (cookie : Option String) (now : ℕ)
    → w.limiter.auth_store ≡ some s
    → is_forwarded (gate env w rk ip cookie now).1 ≡ (
        not (is_banned w.limiter ip now).1
        && (rate_answer w.limiter ip now).1.0
        && enters_cached env s (lookup w.auth_cache rk) ip cookie now)
unfolding gate
gate-enters env w s rk ip cookie now e =
    let w' : World = record w { limiter = checked w.limiter ip now } in
    ground (arith, limited-enters env w' s rk ip cookie now (store_checked w.limiter ip now ∙ e))

-- With a database attached, a request reaches the backend of a route exactly when its IP is not
-- banned, the rate limit has a token for the IP, the route is in the cache, and the route's rules
-- let the request enter.
pub with_auth_for_key-enters :
    (env : Env) (w : World) (s : Storage) (rk : String) (r : Request) (now : ℕ)
    → w.limiter.auth_store ≡ some s
    → is_forwarded (with_auth_for_key env w rk r now).1 ≡ (
        not (is_banned w.limiter (extract_client_ip r) now).1
        && (rate_answer w.limiter (extract_client_ip r) now).1.0
        && enters_cached env s (lookup w.auth_cache rk) (extract_client_ip r) r.cookie now)
unfolding with_auth_for_key
with_auth_for_key-enters env w s rk r now e =
    ap (λ o. is_forwarded (guarded env w rk r now o).1) e
    ∙ gate-enters env w s rk (extract_client_ip r) r.cookie now e
