-- ===== src/Storage/Accounts/Tests.antt =====
-- Runs of the properties of invites.
use re_mazarin.Common.{◌≡◌, true, false, none, some, [], ◌∷◌, refl}
use re_mazarin.Storage.{Storage, InviteRow}
use re_mazarin.Storage.Accounts.{use_invite, is_usable}
use re_mazarin.Storage.Accounts.Invites.{use_invite-use_invite}
use re_mazarin.Fixtures.{env, storage}

abbrev invite : InviteRow
invite = record {
  id = 7;
  code_hash = "c0de";
  description = "";
  used = false;
  expires_at = 500;
  created_at = 1;
}

abbrev inviting : Storage
inviting = record storage { invites = invite ∷ [] }

used_once : (use_invite env inviting "c0de" 100).1 ≡ some (record invite { used = true })
unfolding use_invite is_usable
used_once = refl

use_invite-use_invite_example :
    (use_invite env (use_invite env inviting "c0de" 100).0 "c0de" 200).1 ≡ none
use_invite-use_invite_example =
    use_invite-use_invite env inviting "c0de" 100 200 (record invite { used = true })
      ((λ _. refl), tt) used_once
