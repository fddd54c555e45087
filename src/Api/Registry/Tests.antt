-- ===== src/Api/Registry/Tests.antt =====
-- Runs of the registered handlers.
use re_mazarin.Common.{◌≡◌, true, none, some, [], ◌∷◌, refl, Map, or_else, lookup, insert, is_some}
use re_mazarin.Common.Int.{pos}
use re_mazarin.Common.Text.{strip_prefix}
use re_mazarin.Api.{delete, ApiRequest, Reply}
use re_mazarin.Api.Live.{System}
use re_mazarin.Api.Registry.{ApiHandler, admin_users, Inputs, Site, registry, call}
use re_mazarin.Api.Registry.Gate.{call-Refused, Refused}
use re_mazarin.Fixtures.{env, host, storage, world, proxy, get_request}

abbrev system : System
system = record { store = storage; world = world; proxy = proxy }

abbrev site : Site
site = record { auth_url = "http://web"; defaults = record { cert = "c"; key = "k" } }

abbrev inputs : Inputs
inputs = record {
  login_body = none;
  register_body = none;
  membership_body = none;
  group_body = none;
  invite_body = record { description = ""; hours = pos 0 };
  route_body = none;
  access_body = none;
  settings_body = none;
  policy_body = none;
  ban_body = none;
  matches = λ _ _. true;
  hash = none;
  random = "r";
}

-- A user who is no administrator deletes an account.
abbrev deletion : ApiRequest
deletion = record get_request { method = delete; query = ("id", "1") ∷ [] }

abbrev table : Map ApiHandler
table = or_else registry []

registered : registry ≡ some table
unfolding registry lookup insert
registered = refl

prefixed : is_some (strip_prefix "admin/" "admin/users") ≡ true
unfolding strip_prefix
prefixed = refl

found : lookup table "admin/users" ≡ some admin_users
unfolding registry lookup insert
found = refl

call-Refused_example :
    (x : System × Reply) × (call env host site table "admin/users" inputs system deletion 100
      ≡ some x)
    × Refused system x
call-Refused_example =
    call-Refused env host site table "admin/users" admin_users inputs system deletion 100 registered
      prefixed found refl
