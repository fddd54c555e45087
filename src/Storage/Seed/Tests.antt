-- ===== src/Storage/Seed/Tests.antt =====
-- Runs of the first start, and of one behind the deletion of the last user.
use re_mazarin.Common.{◌≡◌, not, some, [], ◌∷◌, refl, str_eq}
use re_mazarin.Storage.{Storage, Group}
use re_mazarin.Storage.Accounts.{authenticate, user_in_group}
use re_mazarin.Storage.Seed.{seed_admin}
use re_mazarin.Storage.Seed.First.{seed_admin-member, seeded_user, without_users, has_admin}
use re_mazarin.Fixtures.{storage}

abbrev admins : Group
admins = record { id = 1; name = "admin"; description = ""; created_at = 1 }

-- Every user was deleted, and the group is still there.
abbrev deserted : Storage
deserted = record storage { user_groups = []; groups = admins ∷ [] }

seed_admin-member_example :
    let s' = seed_admin (without_users deserted) (some "h") 100 in
    (authenticate s' "admin" (str_eq "h") ≡ some (seeded_user deserted "h" 100))
    × (user_in_group s' 2 "admin" ≡ some (not (has_admin deserted)))
seed_admin-member_example = seed_admin-member deserted "h" 100 (str_eq "h") refl refl
