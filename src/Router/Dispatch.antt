-- ===== src/Router/Dispatch.antt =====
-- route of proxy/router.go end to end: which requests reach a backend or an API handler.
use re_mazarin.Common.{
  ℕ, String, Bool, true, false, Option, none, some, ◌⊎◌, ◌≡◌, lookup, if◌then◌else◌, arith, refl,
  ap, ◌∙◌, sym, Option-cases, Bool-cases, inl, inr, then_branch, else_branch, when_some,
}
use re_mazarin.Net.{Env}
use re_mazarin.Storage.{Storage}
use re_mazarin.Limiter.{is_banned}
use re_mazarin.Metrics.{banned, record_event}
use re_mazarin.Auth.{
  World, Request, Response, forwarded, failed, extract_client_ip, with_auth_for_key,
}
use re_mazarin.Auth.Requests.{
  is_forwarded, enters_cached, checked, store_checked, with_auth_for_key-enters,
}
use re_mazarin.Proxy.{
  Host, Proxy, ListenServer, Handler, Backend, file_handler, folder_handler, api_handler,
  reverse_proxy,
}
use re_mazarin.Proxy.Registry.{handler_of, handler_at}
use re_mazarin.Router.{
  Answer, rejected, api_call, gated, target_of, api_name, injected, serve_http, to_handler,
  to_server, route, join,
}

abbrev is_rejected : Answer → Bool
is_rejected (rejected _) = true
is_rejected (api_call _) = false
is_rejected (gated _ _) = false

-- The handler of the host and the port that a request names.
abbrev pub handler_for : Proxy → Request → Option Handler
handler_for p r = handler_at p (target_of r).0 (target_of r).1

abbrev pub unbanned : World → Request → ℕ → World
unbanned w r now = record w { limiter = checked w.limiter (extract_client_ip r) now }

to_server-handler :
    (h : Host) (env : Env) (w : World) (r : Request) (path ip host key : String) (now : ℕ)
    (o : Option ListenServer) (hd : Handler)
    → handler_of o host ≡ some hd
    → to_server h env w r path ip host key now o ≡ serve_http h env w hd r path now
to_server-handler h env w r path ip host key now none hd e = absurd (cc e)
to_server-handler h env w r path ip host key now (some ls) hd e =
    ap (to_handler h env w r path ip key now) e

to_server-none :
    (h : Host) (env : Env) (w : World) (r : Request) (path ip host key : String) (now : ℕ)
    (o : Option ListenServer)
    → handler_of o host ≡ none
    → is_rejected (to_server h env w r path ip host key now o).1 ≡ true
to_server-none h env w r path ip host key now none e = refl
to_server-none h env w r path ip host key now (some ls) e =
    ap (λ o. is_rejected (to_handler h env w r path ip key now o).1) e

-- A request from a banned IP is rejected, whatever it asks for, and counted once, as banned.
route-banned :
    (h : Host) (p : Proxy) (env : Env) (w : World) (r : Request) (path : String) (now : ℕ)
    → (is_banned w.limiter (extract_client_ip r) now).1 ≡ true
    → ((route h p env w r path now).1 ≡ rejected 403)
      × ((route h p env w r path now).0.metrics
          ≡ record_event w.metrics
              (extract_client_ip r)
              (join (target_of r).0 (target_of r).1)
              banned
              now)
unfolding route
route-banned h p env w r path now hit =
    let first = then_branch (is_banned w.limiter (extract_client_ip r) now).1 _ _ hit in
    (ap (λ (x : World × Answer). x.1) first, ap (λ (x : World × Answer). x.0.metrics) first)

-- A request that is not banned is handed to the handler of its host and port, if there is one.
route-handler :
    (h : Host) (p : Proxy) (env : Env) (w : World) (r : Request) (path : String) (now : ℕ)
    (hd : Handler)
    → (is_banned w.limiter (extract_client_ip r) now).1 ≡ false
    → handler_for p r ≡ some hd
    → route h p env w r path now ≡ serve_http h env (unbanned w r now) hd r path now
unfolding route
route-handler h p env w r path now hd free e =
    else_branch (is_banned w.limiter (extract_client_ip r) now).1 _ _ free
    ∙ to_server-handler h env (unbanned w r now) r path (extract_client_ip r) (target_of r).0
        (join (target_of r).0 (target_of r).1) now (lookup p.servers (target_of r).1) hd e

route-no_handler :
    (h : Host) (p : Proxy) (env : Env) (w : World) (r : Request) (path : String) (now : ℕ)
    → (is_banned w.limiter (extract_client_ip r) now).1 ≡ false
    → handler_for p r ≡ none
    → is_rejected (route h p env w r path now).1 ≡ true
unfolding route
route-no_handler h p env w r path now free e =
    ap (λ (x : World × Answer). is_rejected x.1)
      (else_branch (is_banned w.limiter (extract_client_ip r) now).1 _ _ free)
    ∙ to_server-none h env (unbanned w r now) r path (extract_client_ip r) (target_of r).0
        (join (target_of r).0 (target_of r).1) now (lookup p.servers (target_of r).1) e

-- An answer that is not the router's own is that of the handler of the request's host and port, to
-- a request that is not banned.
route-served :
    (h : Host) (p : Proxy) (env : Env) (w : World) (r : Request) (path : String) (now : ℕ)
    → is_rejected (route h p env w r path now).1 ≡ false
    → (hd : Handler) × (handler_for p r ≡ some hd)
      × ((is_banned w.limiter (extract_client_ip r) now).1 ≡ false)
      × (route h p env w r path now ≡ serve_http h env (unbanned w r now) hd r path now)
route-served h p env w r path now e =
    elim (Bool-cases (is_banned w.limiter (extract_client_ip r) now).1) [
      | inl hit ↦ absurd (cc (ap is_rejected (route-banned h p env w r path now hit).0, e))
      | inr free ↦ elim (Option-cases (handler_for p r)) [
        | inl n ↦ absurd (cc (route-no_handler h p env w r path now free n, e))
        | inr (hd, f) ↦ (hd, f, free, route-handler h p env w r path now hd free f)
      ]
    ]

injected-gated :
    (env : Env) (w : World) (hd : Handler) (r : Request) (now : ℕ) (o : Option String) (b : Backend)
    (a : Response)
    → (injected env w hd r now o).1 ≡ gated b a
    → (hd.backend ≡ b) × ((with_auth_for_key env w hd.route_key r now).1 ≡ a)
injected-gated env w hd r now none b a e = (cc e, cc e)
injected-gated env w hd r now (some n) b a e = absurd (cc e)

injected-api :
    (env : Env) (w : World) (hd : Handler) (r : Request) (now : ℕ) (o : Option String) (n : String)
    → (injected env w hd r now o).1 ≡ api_call n
    → o ≡ some n
injected-api env w hd r now none n e = absurd (cc e)
injected-api env w hd r now (some m) n e = cc e

-- With a database attached, a request reaches a backend only through the handler that is registered
-- for its host and port, and only if its IP is not banned and the rules that are cached for that
-- handler's route let the request enter.
pub route-forwarded :
    (h : Host) (p : Proxy) (env : Env) (w : World) (s : Storage) (r : Request) (path : String)
    (now : ℕ) (b : Backend)
    → w.limiter.auth_store ≡ some s
    → (route h p env w r path now).1 ≡ gated b forwarded
    → (hd : Handler) × (handler_for p r ≡ some hd)
      × (hd.backend ≡ b)
      × ((is_banned w.limiter (extract_client_ip r) now).1 ≡ false)
      × (enters_cached env s (lookup w.auth_cache hd.route_key) (extract_client_ip r) r.cookie now
          ≡ true)
unfolding serve_http
route-forwarded h p env w s r path now b store e =
    let (hd, f, free, same) = route-served h p env w r path now (ap is_rejected e) in
    let w' : World = unbanned w r now in
    let (back, answer) =
      injected-gated env w' hd r now (if hd.inject_api then api_name h path else none) b forwarded
        (ap (λ (x : World × Answer). x.1) (sym same) ∙ e) in
    let entered =
      with_auth_for_key-enters env w' s hd.route_key r now
        (store_checked w.limiter (extract_client_ip r) now ∙ store) in
    let yes = sym entered ∙ ap is_forwarded answer in (hd, f, back, free, ground (arith, yes))

-- The API handler that an answer is the work of: one called through /api/, or the backend of a route of
-- type api whose rules let the request enter.
abbrev pub called : Answer → Option String
called (rejected _) = none
called (api_call name) = some name
called (gated (api_handler name) forwarded) = some name
called (gated (api_handler _) (failed _ _)) = none
called (gated (file_handler _ _) _) = none
called (gated (folder_handler _) _) = none
called (gated (reverse_proxy _) _) = none

called_api :
    (a : Answer) (name : String)
    → called a ≡ some name
    → (a ≡ api_call name) ⊎ (a ≡ gated (api_handler name) forwarded)
called_api (rejected _) name e = absurd (cc e)
called_api (api_call n) name e = inl (cc e)
called_api (gated (api_handler n) forwarded) name e = inr (cc e)
called_api (gated (api_handler n) (failed _ _)) name e = absurd (cc e)
called_api (gated (file_handler _ _) _) name e = absurd (cc e)
called_api (gated (folder_handler _) _) name e = absurd (cc e)
called_api (gated (reverse_proxy _) _) name e = absurd (cc e)

injected_call :
    (h : Host) (p : Proxy) (env : Env) (w : World) (r : Request) (path name : String) (now : ℕ)
    → (route h p env w r path now).1 ≡ api_call name
    → (hd : Handler) × (handler_for p r ≡ some hd)
      × (hd.inject_api ≡ true)
      × (api_name h path ≡ some name)
      × ((is_banned w.limiter (extract_client_ip r) now).1 ≡ false)
unfolding serve_http
injected_call h p env w r path name now e =
    let (hd, f, free, same) = route-served h p env w r path now (ap is_rejected e) in
    let found : (if hd.inject_api then api_name h path else none) ≡ some name =
      injected-api env (unbanned w r now) hd r now (if hd.inject_api then api_name h path else none)
        name (ap (λ (x : World × Answer). x.1) (sym same) ∙ e) in
    (hd, f, ground (arith, found), when_some hd.inject_api (api_name h path) found, free)

-- With a database attached, an API handler is called only for a request from an IP that is not banned, and
-- only in one of two ways: the handler of the request's host and port injects the API and the path names
-- the API handler, or that API handler is the backend there and the rules that are cached for the route
-- let the request enter.
pub route-called :
    (h : Host) (p : Proxy) (env : Env) (w : World) (s : Storage) (r : Request) (path name : String)
    (now : ℕ)
    → w.limiter.auth_store ≡ some s
    → called (route h p env w r path now).1 ≡ some name
    → (hd : Handler) × (handler_for p r ≡ some hd)
      × ((is_banned w.limiter (extract_client_ip r) now).1 ≡ false)
      × (((hd.inject_api ≡ true) × (api_name h path ≡ some name))
          ⊎ ((hd.backend ≡ api_handler name)
              × (enters_cached env s
                    (lookup w.auth_cache hd.route_key)
                    (extract_client_ip r)
                    r.cookie
                    now
                  ≡ true)))
route-called h p env w s r path name now store e =
    elim (called_api (route h p env w r path now).1 name e) [
      | inl a ↦
          let (hd, f, inj, named, free) = injected_call h p env w r path name now a in
          (hd, f, free, inl (inj, named))
      | inr b ↦
          let (hd, f, back, free, enters) =
            route-forwarded h p env w s r path now (api_handler name) store b in
          (hd, f, free, inr (back, enters))
    ]
