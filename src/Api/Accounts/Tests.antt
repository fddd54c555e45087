-- ===== src/Api/Accounts/Tests.antt =====
-- Runs of login, logout and registration.
use re_mazarin.Common.{
  ◌<◌, ◌≡◌, true, false, ◌&&◌, none, some, [], ◌∷◌, refl, arith, str_eq, String, Bool,
}
use re_mazarin.Common.Int.{wrap64}
use re_mazarin.Common.Text.{split, split_last, contains}
use re_mazarin.Common.Time.{add_time, hours}
use re_mazarin.Net.{split_host_port}
use re_mazarin.Storage.{Storage, InviteRow}
use re_mazarin.Storage.Accounts.{use_invite, authenticate, is_usable}
use re_mazarin.Api.{
  account, registered, ok, fail, profile_of, set_session, root_domain, last_labels,
}
use re_mazarin.Api.Accounts.{
  LoginBody, RegisterBody, groups_or_none, login_dur, handle_login, handle_logout, handle_me,
  handle_register, is_complete, not_authenticated,
}
use re_mazarin.Api.Accounts.Login.{handle_me-handle_login, handle_me-handle_logout}
use re_mazarin.Api.Accounts.Register.{handle_register-taken, authenticate-handle_register, new_user}
use re_mazarin.Storage.GlobalSettings.{get_settings, session_dur}
use re_mazarin.Fixtures.{env, storage, ann, get_request, post_request}

abbrev matches : String → String → Bool
matches password hash = str_eq password "secret" && str_eq hash "h"

abbrev credentials : LoginBody
credentials = record { username = "ann"; password = "secret" }

in_time : 200 < add_time 100 (login_dur storage)
unfolding add_time login_dur get_settings session_dur hours wrap64
in_time = omega arith

handle_me-handle_login_example :
    let (s', reply) = handle_login env storage post_request (some credentials) matches "new" 100 in
    (reply
      ≡ ok
          (some (set_session post_request "new"))
          (account (profile_of ann) (groups_or_none storage 1)))
    × (handle_me env s' (record get_request { cookie = some "new" }) 200
        ≡ ok none (account (profile_of ann) (groups_or_none storage 1)))
handle_me-handle_login_example =
    handle_me-handle_login env storage ann post_request (record get_request { cookie = some "new" })
      credentials matches "new" 100 200 refl refl refl refl refl refl refl refl in_time

handle_me-handle_logout_example :
    handle_me env (handle_logout env storage post_request).0 get_request 200 ≡ not_authenticated
handle_me-handle_logout_example =
    handle_me-handle_logout env storage post_request get_request "tok" 200 refl refl refl refl refl

abbrev invite : InviteRow
invite = record {
  id = 1;
  code_hash = "code";
  description = "";
  used = false;
  expires_at = 1000;
  created_at = 1;
}

abbrev inviting : Storage
inviting = record storage { invites = invite ∷ [] }

abbrev taken_name : RegisterBody
taken_name = record { username = "ann"; password = "p"; invite = "code" }

abbrev free_name : RegisterBody
free_name = record { username = "bob"; password = "secret"; invite = "code" }

usable : (use_invite env inviting "code" 100).1 ≡ some (record invite { used = true })
unfolding use_invite is_usable
usable = refl

complete : is_complete taken_name ≡ true
unfolding is_complete
complete = refl

complete_free : is_complete free_name ≡ true
unfolding is_complete
complete_free = refl

handle_register-taken_example :
    let (s', reply) = handle_register env inviting post_request (some taken_name) (some "h") 100 in
    (reply ≡ fail 409 "username already taken")
    × (s'.users ≡ inviting.users)
    × ((use_invite env s' "code" 200).1 ≡ none)
handle_register-taken_example =
    handle_register-taken env inviting post_request taken_name (some "h") 100
      (record invite { used = true }) refl complete usable 200 refl (λ _. refl, tt)

authenticate-handle_register_example :
    let (s', reply) = handle_register env inviting post_request (some free_name) (some "h") 100 in
    (reply ≡ ok none (registered (profile_of (new_user inviting free_name "h" 100))))
    × (authenticate s' "bob" (matches "secret") ≡ some (new_user inviting free_name "h" 100))
authenticate-handle_register_example =
    authenticate-handle_register env inviting post_request free_name "h" 100
      (record invite { used = true }) matches refl refl complete_free usable refl refl

-- The domain of a cookie: a name, and an address.
root_of_name : root_domain "admin.meng.zip:8081" ≡ "meng.zip"
unfolding root_domain last_labels split_host_port split split_last contains
root_of_name = refl

root_of_address : root_domain "192.168.1.10:8080" ≡ "1.10"
unfolding root_domain last_labels split_host_port split split_last contains
root_of_address = refl
