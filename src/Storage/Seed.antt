-- ===== src/Storage/Seed.antt =====
-- seedAdmin of storage/storage.go. `hash` is what bcrypt made of the default password.
mod First
mod Tests
use re_mazarin.Common.{ℕ, String, Option, none, some, List, [], ◌∷◌, if◌then◌else◌}
use re_mazarin.Storage.{Storage, User, Group}
use re_mazarin.Storage.Accounts.{create_user, create_group, add_user_to_group}

-- The group and the membership, behind the user.
abbrev pub seed_member : User → Storage × Option Group → Storage
seed_member u (s, none) = s
seed_member u (s, some g) = (add_user_to_group s u.id g.id).0

abbrev pub seed_group : ℕ → Storage × Option User → Storage
seed_group now (s, none) = s
seed_group now (s, some u) = seed_member u (create_group s "admin" "Administrators" now)

abbrev pub seed_users : Storage → Option String → ℕ → List User → Storage
seed_users s hash now [] = seed_group now (create_user s "admin" hash now)
seed_users s hash now (_ ∷ _) = s

unfoldable pub seed_admin : Storage → (hash : Option String) → ℕ → Storage
unfolding create_user create_group add_user_to_group
seed_admin s hash now = if s.reachable then seed_users s hash now s.users else s
