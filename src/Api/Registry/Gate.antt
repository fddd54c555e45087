-- ===== src/Api/Registry/Gate.antt =====
-- requireAdmin of api/auth.go before every handler whose name begins with admin/.
use re_mazarin.Common.{
  subst, eq_iff, or_else, not, ◌⊎◌, ℕ, String, ◌≡◌, Bool, true, false, ◌&&◌, Option, none, some, [],
  ◌∷◌, Map, lookup, insert, any, ltb, ◌==◌, str_eq, is_some, arith, refl, ap, ◌∙◌, inr, Among-any,
}
use re_mazarin.Common.Text.{strip_prefix}
use re_mazarin.Net.{Env}
use re_mazarin.Storage.{Storage, SessionRow}
use re_mazarin.Storage.Accounts.{user_in_group}
use re_mazarin.Storage.Sessions.{Session, validate_session}
use re_mazarin.Storage.Sessions.Tokens.{validate_session_sound}
use re_mazarin.Proxy.{Host}
use re_mazarin.Api.{
  ApiRequest, Reply, fail, admin_session, require_admin, session_from_request, cookie_session,
}
use re_mazarin.Api.Live.{System, handle_admin_settings, handle_admin_throttle}
use re_mazarin.Api.Admin.{
  as_admin, handle_admin_users, handle_admin_user_groups, handle_admin_groups, handle_admin_invites,
  handle_admin_metrics,
}
use re_mazarin.Api.Live.Routes.{handle_admin_routes}
use re_mazarin.Api.Registry.{
  ApiHandler, config, login, logout, register, me, user_routes, admin_users, admin_user_groups,
  admin_groups, admin_invites, admin_routes, admin_settings, admin_metrics, admin_throttle,
  user_sessions, extend_session, example, health, stored, Inputs, Site, handle, registry, call,
  call_got,
}

-- A member of a group with the name admin.
abbrev is_admin_id : Storage → ℕ → Bool
is_admin_id s id =
    any (λ m. m.user_id == id && any (λ g. g.id == m.group_id && str_eq g.name "admin") s.groups)
      s.user_groups

-- The cookie has the token of an unexpired session of a member of admin.
abbrev pub holds_admin : Env → Storage → Option String → ℕ → Bool
holds_admin env s none now = false
holds_admin env s (some tok) now =
    any
      (λ r.
        str_eq r.token_hash (env.sha256_hex tok) && ltb now r.expires_at && is_admin_id s r.user_id)
      s.sessions

abbrev admin_of : Storage → Option Session → Bool
admin_of s none = false
admin_of s (some sess) = is_admin_id s sess.user_id

session-admin :
    (env : Env) (s : Storage) (tok : String) (now : ℕ) (o : Option Session)
    → validate_session env s tok now ≡ o
    → holds_admin env s (some tok) now ≡ false
    → admin_of s o ≡ false
session-admin env s tok now none e h = refl
session-admin env s tok now (some sess) e h =
    let (r, m, t, id) = validate_session_sound env s tok now sess e in
    let p : SessionRow → Bool = λ r.
      str_eq r.token_hash (env.sha256_hex tok) && ltb now r.expires_at && is_admin_id s r.user_id in
    ap (is_admin_id s) id ∙ ground (arith, h, t, Among-any p r s.sessions m)

request-admin :
    (env : Env) (s : Storage) (r : ApiRequest) (now : ℕ)
    → holds_admin env s r.cookie now ≡ false
    → admin_of s (session_from_request env s r now) ≡ false
unfolding session_from_request
request-admin env s r now h = cookie_admin r.cookie h
  where
    cookie_admin :
        (c : Option String)
        → holds_admin env s c now ≡ false
        → admin_of s (cookie_session env s now c) ≡ false
    cookie_admin none h = refl
    cookie_admin (some tok) h = session-admin env s tok now (validate_session env s tok now) refl h

abbrev Denial : Session ⊎ Reply → Type 0
Denial x = (status : ℕ) × (msg : String) × (x ≡ inr (fail status msg))

not_yes :
    (s : Storage) (sess : Session)
    → is_admin_id s sess.user_id ≡ false
    → admin_session s (some sess) ≡ inr (fail 403 "admin required")
unfolding user_in_group
not_yes s sess h = ground arith

admin_session-Denial :
    (s : Storage) (o : Option Session) → admin_of s o ≡ false → Denial (admin_session s o)
admin_session-Denial s none h = (401, "not authenticated", refl)
admin_session-Denial s (some sess) h = (403, "admin required", not_yes s sess h)

request-Denial :
    (env : Env) (s : Storage) (r : ApiRequest) (now : ℕ)
    → holds_admin env s r.cookie now ≡ false
    → Denial (require_admin env s r now)
unfolding require_admin
request-Denial env s r now h =
    admin_session-Denial s (session_from_request env s r now) (request-admin env s r now h)

-- An error, and nothing changed.
abbrev pub Refused : System → System × Reply → Type 0
Refused sys x = (status : ℕ) × (msg : String) × (x ≡ (sys, fail status msg))

stored-Refused :
    (sys : System) (x : Session ⊎ Reply) (rest : Storage × Reply)
    → Denial x
    → Refused sys (stored sys (as_admin sys.store x rest))
stored-Refused sys x rest (status, msg, e) =
    (status, msg, ap (λ y. stored sys (as_admin sys.store y rest)) e)

live-Refused :
    (sys : System) (x : Session ⊎ Reply) (rest : System × Reply)
    → Denial x
    → Refused sys (as_admin sys x rest)
live-Refused sys x rest (status, msg, e) = (status, msg, ap (λ y. as_admin sys y rest) e)

abbrev admin_only : ApiHandler → Bool
admin_only admin_users = true
admin_only admin_user_groups = true
admin_only admin_groups = true
admin_only admin_invites = true
admin_only admin_routes = true
admin_only admin_settings = true
admin_only admin_metrics = true
admin_only admin_throttle = true
admin_only _ = false

module _ (env : Env) (h : Host) (site : Site) (i : Inputs) (sys : System) (r : ApiRequest) (now : ℕ)
    (stranger : holds_admin env sys.store r.cookie now ≡ false) where
  denial : Denial (require_admin env sys.store r now)
  denial = request-Denial env sys.store r now stranger

  handle-Refused :
      (k : ApiHandler) → admin_only k ≡ true → Refused sys (handle env h site k i sys r now)
  unfolding handle handle_admin_users handle_admin_user_groups handle_admin_groups
      handle_admin_invites handle_admin_routes handle_admin_settings handle_admin_metrics
      handle_admin_throttle
  handle-Refused admin_users e = stored-Refused sys _ _ denial
  handle-Refused admin_user_groups e = stored-Refused sys _ _ denial
  handle-Refused admin_groups e = stored-Refused sys _ _ denial
  handle-Refused admin_invites e = stored-Refused sys _ _ denial
  handle-Refused admin_routes e = live-Refused sys _ _ denial
  handle-Refused admin_settings e = live-Refused sys _ _ denial
  handle-Refused admin_metrics e = stored-Refused sys _ _ denial
  handle-Refused admin_throttle e = live-Refused sys _ _ denial
  handle-Refused config e = ground arith
  handle-Refused login e = ground arith
  handle-Refused logout e = ground arith
  handle-Refused register e = ground arith
  handle-Refused me e = ground arith
  handle-Refused user_routes e = ground arith
  handle-Refused user_sessions e = ground arith
  handle-Refused extend_session e = ground arith
  handle-Refused example e = ground arith
  handle-Refused health e = ground arith

-- A handler for others, under a name for administrators.
abbrev is_open : String × ApiHandler → Bool
is_open (name, k) = is_some (strip_prefix "admin/" name) && not (admin_only k)

lookup-closed :
    (m : Map ApiHandler) (name : String) (k : ApiHandler)
    → any is_open m ≡ false
    → lookup m name ≡ some k
    → is_some (strip_prefix "admin/" name) ≡ true
    → admin_only k ≡ true
unfolding lookup
lookup-closed [] name k c h a = ground arith
lookup-closed ((j, v) ∷ m) name k c h a = ground (arith, eq_iff j name, lookup-closed m name k)

registry_closed : any is_open (or_else registry []) ≡ false
unfolding registry lookup insert strip_prefix
registry_closed = refl

some-or_else {ℓ} : {A : Type ℓ} (o : Option A) (d a : A) → o ≡ some a → or_else o d ≡ a
some-or_else o d a h = ap (λ x. or_else x d) h

called :
    (env : Env) (h : Host) (site : Site) (m : Map ApiHandler) (name : String) (i : Inputs)
    (sys : System) (r : ApiRequest) (now : ℕ) (k : ApiHandler)
    → lookup m name ≡ some k
    → call env h site m name i sys r now ≡ some (handle env h site k i sys r now)
unfolding call
called env h site m name i sys r now k e = ap (λ o. call_got env h site o i sys r now) e

-- Every handler that the program registers under a name beginning with admin/ answers with an error and
-- changes nothing, neither the database nor the running proxy, unless the cookie of the request has the
-- digest of an unexpired session whose user is a member of a group named admin.
pub call-Refused :
    (env : Env) (h : Host) (site : Site) (m : Map ApiHandler) (name : String) (k : ApiHandler)
    (i : Inputs) (sys : System) (r : ApiRequest) (now : ℕ)
    → registry ≡ some m
    → is_some (strip_prefix "admin/" name) ≡ true
    → lookup m name ≡ some k
    → holds_admin env sys.store r.cookie now ≡ false
    → (x : System × Reply) × (call env h site m name i sys r now ≡ some x) × Refused sys x
call-Refused env h site m name k i sys r now all prefix found stranger =
    let closed : any is_open m ≡ false =
      subst (λ n. any is_open n ≡ false) (some-or_else registry [] m all) registry_closed in
    (
      handle env h site k i sys r now,
      called env h site m name i sys r now k found,
      handle-Refused env h site i sys r now stranger k (lookup-closed m name k closed found prefix),
    )
