-- ===== src/Api.antt =====
-- api/auth.go, api/metrics.go and api/throttle.go: what the handlers of the built-in API share. The body
-- of a request is what encoding/json decoded, `none` where that failed; a random text is an argument.
-- The package variable `store` is not nil, and the callbacks that main.go sets are called directly.
pub mod Accounts
pub mod Admin
pub mod Live
pub mod Registry
pub mod Sessions
use re_mazarin.Common.{
  ℕ, String, Bool, true, false, Option, none, some, List, [], ◌∷◌, Map, lookup, or_else, str_eq,
  if◌then◌else◌, ◌||◌, ◌⊎◌, inl, inr,
}
use re_mazarin.Common.Int.{ℤ, pos, negsuc}
use re_mazarin.Common.Text.{split, atoi}
use re_mazarin.Net.{Env, split_host_port}
use re_mazarin.Storage.{
  Storage, User, Group, InviteRow, Route, Settings, ThrottlePolicy, BannedIp, AccessEvent,
  AuthFailure,
}
use re_mazarin.Storage.Sessions.{Session, validate_session}
use re_mazarin.Storage.Accounts.{user_in_group}
use re_mazarin.Storage.Activity.{SessionInfo}
use re_mazarin.Metrics.{Event}
use re_mazarin.Proxy.{RouteError}

pub data Method : Type 0 where
  get post put delete other : Method

-- What the handlers read of an http.Request; `query` are the parameters of its URL.
pub record ApiRequest : Type 0 where
  pub method : Method
  pub path : String
  pub host : String
  pub tls : Bool
  pub remote_addr : String
  pub cookie : Option String
  pub query : Map String

-- r.URL.Query().Get: the empty text for a parameter that is missing.
unfoldable pub query_get : ApiRequest → String → String
query_get r name = or_else (lookup r.query name) ""

-- The fields of the session cookie that differ from one to the next. A negative age deletes it.
pub record Cookie : Type 0 where
  pub value : String
  pub domain : String
  pub secure : Bool
  pub max_age : ℤ

-- The public fields of a user.
pub record Profile : Type 0 where
  pub id : ℕ
  pub username : String
  pub created_at : ℕ

pub record RouteInfo : Type 0 where
  pub url : String
  pub tls : Bool
  pub session_duration : ℤ
  pub renew_on_access : Bool

-- The objects that the handlers answer with.
pub data Payload : Type 0 where
  done : Payload
  auth_url : String → Payload
  account : Profile → List Group → Payload
  registered : Profile → Payload
  accessible : List RouteInfo → Payload
  extended : (expires_at : ℕ) → Payload
  user_rows : List (Profile × List Group) → Payload
  group_rows : List Group → Payload
  group_made : Group → Payload
  invite_rows : List InviteRow → Payload
  invite_made : InviteRow → (code : String) → Payload
  route_rows : List Route → Payload
  route_made : Route → (warning : Option RouteError) → Payload
  range_made : (range_group : String) (count : ℤ) (warning : Option RouteError) → Payload
  settings_row : Settings → Payload
  own_sessions : List SessionInfo → (current_id : ℕ) → Payload
  metrics_page :
      List SessionInfo
      → Map ℕ
      → List AuthFailure
      → List AccessEvent
      → Map ℕ
      → List Event
      → List BannedIp
      → Payload
  hello : (path : String) → Method → Payload
  healthy : Payload
  throttle_page : List ThrottlePolicy → List BannedIp → Payload

-- `refused` is a 400 with the text of the error that ValidateRoute returned, and `endless` stands for a
-- handler that never answers.
pub data Reply : Type 0 where
  ok : Option Cookie → Payload → Reply
  fail : (status : ℕ) (msg : String) → Reply
  refused : RouteError → Reply
  endless : Reply

abbrev pub is_ok : Reply → Bool
is_ok (ok _ _) = true
is_ok (fail _ _) = false
is_ok (refused _) = false
is_ok endless = false

unfoldable pub profile_of : User → Profile
profile_of u = record { id = u.id; username = u.username; created_at = u.created_at }

-- The last two labels of the host, or nothing where it has fewer.
last_labels : List String → String
last_labels [] = ""
last_labels (a ∷ []) = ""
last_labels (a ∷ b ∷ []) = Prim.Native.String.◌++◌ a (Prim.Native.String.◌++◌ "." b)
last_labels (a ∷ b ∷ c ∷ ls) = last_labels (b ∷ c ∷ ls)

unfoldable pub root_domain : String → String
unfolding last_labels
root_domain host_header = elim (split_host_port host_header) [
  | none ↦ last_labels (split b'.' host_header)
  | some (h, _) ↦ last_labels (split b'.' h)
]

-- 400 days
abbrev pub cookie_max_age : ℤ
cookie_max_age = pos 34560000

unfoldable pub set_session : ApiRequest → (tok : String) → Cookie
unfolding root_domain
set_session r tok = record {
  value = tok;
  domain = root_domain r.host;
  secure = r.tls;
  max_age = cookie_max_age;
}

unfoldable pub clear_session : ApiRequest → Cookie
unfolding root_domain
clear_session r = record {
  value = "";
  domain = root_domain r.host;
  secure = r.tls;
  max_age = negsuc 0;
}

abbrev pub cookie_session : Env → Storage → ℕ → Option String → Option Session
cookie_session env s now none = none
cookie_session env s now (some tok) = validate_session env s tok now

unfoldable pub session_from_request : Env → Storage → ApiRequest → ℕ → Option Session
session_from_request env s r now = cookie_session env s now r.cookie

-- The answer of UserInGroup, an error counting as no.
abbrev pub is_yes : Option Bool → Bool
is_yes none = false
is_yes (some b) = b

abbrev pub admin_session : Storage → Option Session → Session ⊎ Reply
admin_session s none = inr (fail 401 "not authenticated")
admin_session s (some sess) =
    if is_yes (user_in_group s sess.user_id "admin")
    then inl sess
    else inr (fail 403 "admin required")

-- The session of an administrator, or the answer to whoever is none.
unfoldable pub require_admin : Env → Storage → ApiRequest → ℕ → Session ⊎ Reply
unfolding session_from_request
require_admin env s r now = admin_session s (session_from_request env s r now)

-- Statements that name a row by a number: the numbers of rows are not negative.
abbrev pub by_number {ℓ} : {A : Type ℓ} → ℤ → (ℕ → A) → A → A
by_number (pos n) f d = f n
by_number (negsuc n) f d = d

-- The host and the number of the port.
abbrev pub port_number : String → Option ℤ → Option (String × ℤ)
port_number h none = none
port_number h (some n) = some (h, n)

unfoldable pub split_host_port_num : String → Option (String × ℤ)
split_host_port_num host_port = elim (split_host_port host_port) [
  | none ↦ none
  | some (h, p) ↦ port_number h (atoi p)
]

unfoldable pub is_raw_type : String → Bool
is_raw_type t = str_eq t "tcp" || str_eq t "udp" || str_eq t "tcp+udp"
