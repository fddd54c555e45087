-- ===== src/Auth/Traces.antt =====
-- withAuthForKey of proxy/auth.go: what a request leaves in the limiter and in the metrics.
use re_mazarin.Common.{
  ℕ, String, ◌≡◌, Bool, true, false, ◌&&◌, Option, none, some, arith, lookup, if◌then◌else◌, ap,
  ◌∙◌,
}
use re_mazarin.Net.{Env}
use re_mazarin.Storage.{Storage}
use re_mazarin.Storage.Sessions.{SessionWithGroups}
use re_mazarin.Limiter.{Limiter, is_banned, allow, record_failure}
use re_mazarin.Metrics.{Metrics, Outcome, served, denied, rate_limited, banned, record_event}
use re_mazarin.Auth.{
  World, CachedRoute, Request, Verdict, public_route, ip_session, ip_allowlist, cookie_session,
  auth_required, forbidden, judge, act, judge_entry, judge_stored, judge_route, guarded, limited,
  gate, with_auth_for_key, extract_client_ip, deny_auth, log_access, renew_by_ip, renew_cookie,
}
use re_mazarin.Auth.Gate.{is_grant, judge-enters}
use re_mazarin.Auth.Requests.{
  is_forwarded, enters_cached, checked, rate_answer, store_checked, store_allow,
  with_auth_for_key-enters,
}

metrics_log : (w : World) (ip u rk : String) → (log_access w ip u rk).metrics ≡ w.metrics
unfolding log_access
metrics_log w ip u rk = ground arith

limiter_log : (w : World) (ip u rk : String) → (log_access w ip u rk).limiter ≡ w.limiter
unfolding log_access
limiter_log w ip u rk = ground arith

-- A denied request is logged for an unauthorised user, counted as denied, and is one failure.
deny_limiter :
    (w : World) (ip rk : String) (now : ℕ)
    → (deny_auth w ip rk now).limiter ≡ record_failure w.limiter ip now
unfolding deny_auth
deny_limiter w ip rk now =
    ap (λ (l : Limiter). record_failure l ip now) (limiter_log w ip "Unauthorized User" rk)

deny_metrics :
    (w : World) (ip rk : String) (now : ℕ)
    → (deny_auth w ip rk now).metrics ≡ record_event w.metrics ip rk denied now
unfolding deny_auth
deny_metrics w ip rk now =
    ap (λ (m : Metrics). record_event m ip rk denied now) (metrics_log w ip "Unauthorized User" rk)

serve_metrics :
    (w : World) (ip u rk : String) (now : ℕ)
    → record_event (log_access w ip u rk).metrics ip rk served now
      ≡ record_event w.metrics ip rk served now
serve_metrics w ip u rk now =
    ap (λ (m : Metrics). record_event m ip rk served now) (metrics_log w ip u rk)

metrics_renew :
    (env : Env) (w : World) (sg : SessionWithGroups) (ip : String) (now : ℕ)
    → (renew_by_ip env w sg ip now).metrics ≡ w.metrics
unfolding renew_by_ip
metrics_renew env w sg ip now = ground arith

metrics_renew_cookie :
    (env : Env) (w : World) (tok : String) (now : ℕ)
    → (renew_cookie env w tok now).metrics ≡ w.metrics
unfolding renew_cookie
metrics_renew_cookie env w tok now = ground arith

abbrev pub outcome_of : Bool → Outcome
outcome_of true = served
outcome_of false = denied

act-metrics :
    (env : Env) (w : World) (rk ip : String) (now : ℕ) (v : Verdict)
    → (act env w rk ip now v).0.metrics ≡ record_event w.metrics ip rk (outcome_of (is_grant v)) now
unfolding act
act-metrics env w rk ip now public_route = serve_metrics w ip "" rk now
act-metrics env w rk ip now (ip_session sg) =
    serve_metrics (renew_by_ip env w sg ip now) ip sg.username rk now
    ∙ ap (λ (m : Metrics). record_event m ip rk served now) (metrics_renew env w sg ip now)
act-metrics env w rk ip now ip_allowlist = serve_metrics w ip "" rk now
act-metrics env w rk ip now (cookie_session tok sg) =
    serve_metrics (renew_cookie env w tok now) ip sg.username rk now
    ∙ ap (λ (m : Metrics). record_event m ip rk served now) (metrics_renew_cookie env w tok now)
act-metrics env w rk ip now auth_required = deny_metrics w ip rk now
act-metrics env w rk ip now forbidden = deny_metrics w ip rk now

act-limiter :
    (env : Env) (w : World) (rk ip : String) (now : ℕ) (v : Verdict)
    → is_grant v ≡ false
    → (act env w rk ip now v).0.limiter ≡ record_failure w.limiter ip now
unfolding act
act-limiter env w rk ip now auth_required h = deny_limiter w ip rk now
act-limiter env w rk ip now forbidden h = deny_limiter w ip rk now
act-limiter env w rk ip now public_route h = cc
act-limiter env w rk ip now (ip_session sg) h = cc
act-limiter env w rk ip now ip_allowlist h = cc
act-limiter env w rk ip now (cookie_session tok sg) h = cc

entry-metrics :
    (env : Env) (w : World) (s : Storage) (rk ip : String) (cookie : Option String) (now : ℕ)
    (o : Option CachedRoute)
    → (judge_entry env w s rk ip cookie now o).0.metrics
      ≡ record_event w.metrics ip rk (outcome_of (enters_cached env s o ip cookie now)) now
unfolding judge_entry
entry-metrics env w s rk ip cookie now none = deny_metrics w ip rk now
entry-metrics env w s rk ip cookie now (some cr) =
    act-metrics env w rk ip now (judge env s cr ip cookie now)
    ∙ ap (λ (b : Bool). record_event w.metrics ip rk (outcome_of b) now)
        (judge-enters env s cr ip cookie now)

entry-limiter :
    (env : Env) (w : World) (s : Storage) (rk ip : String) (cookie : Option String) (now : ℕ)
    (o : Option CachedRoute)
    → enters_cached env s o ip cookie now ≡ false
    → (judge_entry env w s rk ip cookie now o).0.limiter ≡ record_failure w.limiter ip now
unfolding judge_entry
entry-limiter env w s rk ip cookie now none h = deny_limiter w ip rk now
entry-limiter env w s rk ip cookie now (some cr) h =
    act-limiter env w rk ip now (judge env s cr ip cookie now)
      (judge-enters env s cr ip cookie now ∙ h)

-- The outcome that a request is counted under, from its three answers.
abbrev pub gate_outcome : (hit ok enter : Bool) → Outcome
gate_outcome hit ok enter = if hit then banned else if ok then outcome_of enter else rate_limited

route-metrics :
    (env : Env) (w : World) (s : Storage) (rk ip : String) (cookie : Option String) (now : ℕ)
    → w.limiter.auth_store ≡ some s
    → (judge_route env w rk ip cookie now).0.metrics
      ≡ record_event w.metrics ip rk
          (outcome_of (enters_cached env s (lookup w.auth_cache rk) ip cookie now))
          now
unfolding judge_route
route-metrics env w s rk ip cookie now e =
    ap (λ o. (judge_stored env w rk ip cookie now o).0.metrics) e
    ∙ entry-metrics env w s rk ip cookie now (lookup w.auth_cache rk)

route-limiter :
    (env : Env) (w : World) (s : Storage) (rk ip : String) (cookie : Option String) (now : ℕ)
    → w.limiter.auth_store ≡ some s
    → enters_cached env s (lookup w.auth_cache rk) ip cookie now ≡ false
    → (judge_route env w rk ip cookie now).0.limiter ≡ record_failure w.limiter ip now
unfolding judge_route
route-limiter env w s rk ip cookie now e h =
    ap (λ o. (judge_stored env w rk ip cookie now o).0.limiter) e
    ∙ entry-limiter env w s rk ip cookie now (lookup w.auth_cache rk) h

limited-metrics :
    (env : Env) (w : World) (s : Storage) (rk ip : String) (cookie : Option String) (now : ℕ)
    → w.limiter.auth_store ≡ some s
    → (limited env w rk ip cookie now).0.metrics
      ≡ record_event w.metrics ip rk
          (gate_outcome false
            (allow w.limiter ip now).1.0
            (enters_cached env s (lookup w.auth_cache rk) ip cookie now))
          now
unfolding limited
limited-metrics env w s rk ip cookie now e =
    let w' : World = record w { limiter = (allow w.limiter ip now).0 } in
    ground (arith, route-metrics env w' s rk ip cookie now (store_allow w.limiter ip now ∙ e))

limited-limiter :
    (env : Env) (w : World) (s : Storage) (rk ip : String) (cookie : Option String) (now : ℕ)
    → w.limiter.auth_store ≡ some s
    → ((allow w.limiter ip now).1.0 && enters_cached env s (lookup w.auth_cache rk) ip cookie now)
      ≡ false
    → (limited env w rk ip cookie now).0.limiter ≡ record_failure (allow w.limiter ip now).0 ip now
unfolding limited
limited-limiter env w s rk ip cookie now e h =
    let w' : World = record w { limiter = (allow w.limiter ip now).0 } in
    ground (arith, route-limiter env w' s rk ip cookie now (store_allow w.limiter ip now ∙ e))

-- With a database attached, each request adds exactly one event to the metrics, under the client's
-- IP and the route's key: as banned if the IP is banned, else as rate limited if there is no token
-- for it, else as served or denied by the rules of the route.
pub with_auth_for_key-metrics :
    (env : Env) (w : World) (s : Storage) (rk : String) (r : Request) (now : ℕ)
    → w.limiter.auth_store ≡ some s
    → (with_auth_for_key env w rk r now).0.metrics
      ≡ record_event w.metrics
          (extract_client_ip r)
          rk
          (gate_outcome
            (is_banned w.limiter (extract_client_ip r) now).1
            (rate_answer w.limiter (extract_client_ip r) now).1.0
            (enters_cached env s (lookup w.auth_cache rk) (extract_client_ip r) r.cookie now))
          now
unfolding with_auth_for_key gate
with_auth_for_key-metrics env w s rk r now e =
    let ip = extract_client_ip r in
    let w' : World = record w { limiter = checked w.limiter ip now } in
    ap (λ o. (guarded env w rk r now o).0.metrics) e
    ∙ ground
        (arith, limited-metrics env w' s rk ip r.cookie now (store_checked w.limiter ip now ∙ e))

-- With a database attached, a request that is not forwarded, from an IP that is not banned, is
-- counted as exactly one failure of its IP, whichever check refused it.
pub refused-record_failure :
    (env : Env) (w : World) (s : Storage) (rk : String) (r : Request) (now : ℕ)
    → w.limiter.auth_store ≡ some s
    → (is_banned w.limiter (extract_client_ip r) now).1 ≡ false
    → is_forwarded (with_auth_for_key env w rk r now).1 ≡ false
    → (with_auth_for_key env w rk r now).0.limiter
      ≡ record_failure (rate_answer w.limiter (extract_client_ip r) now).0 (extract_client_ip r) now
refused-record_failure env w s rk r now e free refused =
    let ip = extract_client_ip r in
    let w' : World = record w { limiter = checked w.limiter ip now } in
    let no : ((rate_answer w.limiter ip now).1.0
          && enters_cached env s (lookup w.auth_cache rk) ip r.cookie now)
        ≡ false =
      ground (arith, with_auth_for_key-enters env w s rk r now e) in
    unfold with_auth_for_key gate in
    (ap (λ o. (guarded env w rk r now o).0.limiter) e
      ∙ ground (
        arith,
        limited-limiter env w' s rk ip r.cookie now (store_checked w.limiter ip now ∙ e) no,
      ))
