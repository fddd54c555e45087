-- ===== src/Storage/Seed/First.antt =====
-- seedAdmin of storage/storage.go: the account on a database without users.
use re_mazarin.Common.{
  ℕ, suc, String, ◌≡◌, Bool, true, false, not, ◌&&◌, Option, none, some, List, [], ◌∷◌, ◌++◌, any,
  str_eq, ◌==◌, arith, refl, sym, ap, ◌∙◌, inl, inr, Bool-cases, then_branch, else_branch,
}
use re_mazarin.Storage.{Storage, User, Group, Membership}
use re_mazarin.Storage.Accounts.{
  create_user, create_group, add_user_to_group, user_in_group, authenticate,
}
use re_mazarin.Storage.Seed.{seed_admin, seed_member}

abbrev pub without_users : Storage → Storage
without_users s = record s { reachable = true; users = [] }

abbrev pub has_admin : Storage → Bool
has_admin s = any (λ g. str_eq g.name "admin") s.groups

abbrev pub seeded_user : Storage → (hash : String) → ℕ → User
seeded_user s hash now = record {
  id = suc s.last_user;
  username = "admin";
  password_hash = hash;
  created_at = now;
}

abbrev with_seeded : Storage → (hash : String) → ℕ → Storage
with_seeded s hash now = record s {
  reachable = true;
  users = seeded_user s hash now ∷ [];
  last_user = suc s.last_user;
}

seeded :
    (s : Storage) (hash : String) (now : ℕ)
    → seed_admin (without_users s) (some hash) now
      ≡ seed_member
          (seeded_user s hash now)
          (create_group (with_seeded s hash now) "admin" "Administrators" now)
unfolding seed_admin create_user
seeded s hash now = refl

not_made :
    (t : Storage) (now : ℕ)
    → (t.reachable && not (has_admin t)) ≡ false
    → create_group t "admin" "Administrators" now ≡ (t, none)
unfolding create_group
not_made t now guard = else_branch _ _ _ guard

left_out :
    (t : Storage) (u : User) (now : ℕ)
    → has_admin t ≡ true
    → seed_member u (create_group t "admin" "Administrators" now) ≡ t
left_out t u now h =
    let guard : (t.reachable && not (has_admin t)) ≡ false = ground (arith, h) in
    ap (seed_member u) (not_made t now guard)

-- Rows of nobody are rows of no administrator.
none_among :
    (id : ℕ) (t : Storage) (ms : List Membership)
    → any (λ m. m.user_id == id) ms ≡ false
    → any
        (λ m. m.user_id == id && any (λ g. g.id == m.group_id && str_eq g.name "admin") t.groups)
        ms
      ≡ false
none_among id t [] h = refl
none_among id t (m ∷ ms) h = ground (arith, none_among id t ms)

no_member :
    (t : Storage) (id : ℕ)
    → t.reachable ≡ true
    → any (λ m. m.user_id == id) t.user_groups ≡ false
    → user_in_group t id "admin" ≡ some false
unfolding user_in_group
no_member t id up h =
    then_branch t.reachable _ _ up ∙ ap (λ b. some b) (none_among id t t.user_groups h)

any-last {ℓ} :
    {A : Type ℓ} (p : A → Bool) (xs : List A) (x : A) → p x ≡ true → any p (xs ++ x ∷ []) ≡ true
any-last p [] x h = ground (arith, h)
any-last p (y ∷ ys) x h = ground (arith, any-last p ys x h)

abbrev admin_group : Storage → ℕ → Group
admin_group t now = record {
  id = suc t.last_group;
  name = "admin";
  description = "Administrators";
  created_at = now;
}

abbrev with_group : Storage → ℕ → Storage
with_group t now = record t {
  groups = t.groups ++ admin_group t now ∷ [];
  last_group = suc t.last_group;
}

group_made :
    (t : Storage) (now : ℕ)
    → t.reachable ≡ true
    → has_admin t ≡ false
    → create_group t "admin" "Administrators" now ≡ (with_group t now, some (admin_group t now))
unfolding create_group
group_made t now up h =
    let guard : (t.reachable && not (has_admin t)) ≡ true = ground (arith, up, h) in
    then_branch _ _ _ guard

abbrev membership : Storage → User → Membership
membership t u = record { user_id = u.id; group_id = suc t.last_group }

no_pair :
    (ms : List Membership) (u g : ℕ)
    → any (λ m. m.user_id == u) ms ≡ false
    → any (λ m. m.user_id == u && m.group_id == g) ms ≡ false
no_pair [] u g h = refl
no_pair (m ∷ ms) u g h = ground (arith, no_pair ms u g)

member_made :
    (t : Storage) (u : User) (now : ℕ)
    → t.reachable ≡ true
    → any (λ v. v.id == u.id) t.users ≡ true
    → any (λ m. m.user_id == u.id) t.user_groups ≡ false
    → (add_user_to_group (with_group t now) u.id (suc t.last_group)).0
      ≡ record (with_group t now) { user_groups = t.user_groups ++ membership t u ∷ [] }
unfolding add_user_to_group
member_made t u now up known clear =
    let last : any (λ g. g.id == suc t.last_group) (t.groups ++ admin_group t now ∷ []) ≡ true =
      any-last (λ g. g.id == suc t.last_group) t.groups (admin_group t now) (ground arith) in
    let guard : (t.reachable
          && any (λ v. v.id == u.id) t.users
          && any (λ g. g.id == suc t.last_group) (t.groups ++ admin_group t now ∷ []))
        ≡ true =
      ground (arith, up, known, last) in
    ap (λ (x : Storage × Bool). x.0)
      (then_branch _ _ _ guard
        ∙ else_branch _ _ _ (no_pair t.user_groups u.id (suc t.last_group) clear))

member :
    (t : Storage) (u : User) (now : ℕ)
    → t.reachable ≡ true
    → any (λ v. v.id == u.id) t.users ≡ true
    → any (λ m. m.user_id == u.id) t.user_groups ≡ false
    → has_admin t ≡ false
    → user_in_group (seed_member u (create_group t "admin" "Administrators" now)) u.id "admin"
      ≡ some true
unfolding user_in_group
member t u now up known clear h =
    let in_groups : any (λ g. g.id == suc t.last_group && str_eq g.name "admin")
          (t.groups ++ admin_group t now ∷ [])
        ≡ true =
      any-last (λ g. g.id == suc t.last_group && str_eq g.name "admin") t.groups (admin_group t now)
        (ground arith) in
    ap (λ (x : Storage × Option Group). user_in_group (seed_member u x) u.id "admin")
      (group_made t now up h)
    ∙ ap (λ (x : Storage). user_in_group x u.id "admin") (member_made t u now up known clear)
    ∙ then_branch t.reachable _ _ up
    ∙ ap (λ b. some b)
        (any-last
          (λ m.
            m.user_id == u.id
            && any (λ g. g.id == m.group_id && str_eq g.name "admin")
                (t.groups ++ admin_group t now ∷ []))
          t.user_groups (membership t u) (ground (arith, in_groups)))

-- The group and the membership change no account.
added-authenticate :
    (t : Storage) (u g : ℕ) (name : String) (matches : String → Bool)
    → authenticate (add_user_to_group t u g).0 name matches ≡ authenticate t name matches
unfolding add_user_to_group authenticate
added-authenticate t u g name matches = ground arith

group-authenticate :
    (t : Storage) (now : ℕ) (name : String) (matches : String → Bool)
    → authenticate (create_group t "admin" "Administrators" now).0 name matches
      ≡ authenticate t name matches
unfolding create_group authenticate
group-authenticate t now name matches = ground arith

seed_member-any :
    (u : User) (x : Storage × Option Group) (name : String) (matches : String → Bool)
    → authenticate (seed_member u x) name matches ≡ authenticate x.0 name matches
seed_member-any u (t, none) name matches = refl
seed_member-any u (t, some g) name matches = added-authenticate t u.id g.id name matches

seed_member-authenticate :
    (t : Storage) (u : User) (now : ℕ) (name : String) (matches : String → Bool)
    → authenticate (seed_member u (create_group t "admin" "Administrators" now)) name matches
      ≡ authenticate t name matches
seed_member-authenticate t u now name matches =
    seed_member-any u (create_group t "admin" "Administrators" now) name matches
    ∙ group-authenticate t now name matches

authenticate-seeded :
    (s : Storage) (hash : String) (now : ℕ) (matches : String → Bool)
    → matches hash ≡ true
    → authenticate (with_seeded s hash now) "admin" matches ≡ some (seeded_user s hash now)
unfolding authenticate
authenticate-seeded s hash now matches right = then_branch (matches hash) _ _ right

known :
    (s : Storage) (hash : String) (now : ℕ)
    → any (λ v. v.id == suc s.last_user) (with_seeded s hash now).users ≡ true
known s hash now = ground arith

-- A start on a database without users makes the account admin, with the next number and the default
-- password, and that account is an administrator exactly if no group has the name admin yet. No membership
-- has the number.
pub seed_admin-member :
    (s : Storage) (hash : String) (now : ℕ) (matches : String → Bool)
    → matches hash ≡ true
    → any (λ m. m.user_id == suc s.last_user) s.user_groups ≡ false
    → let s' = seed_admin (without_users s) (some hash) now in
      (authenticate s' "admin" matches ≡ some (seeded_user s hash now))
      × (user_in_group s' (suc s.last_user) "admin" ≡ some (not (has_admin s)))
seed_admin-member s hash now matches right clear =
    let t : Storage = with_seeded s hash now in
    let u : User = seeded_user s hash now in
    (
      ap (λ (x : Storage). authenticate x "admin" matches) (seeded s hash now)
          ∙ seed_member-authenticate t u now "admin" matches
          ∙ authenticate-seeded s hash now matches right,
      ap (λ (x : Storage). user_in_group x (suc s.last_user) "admin") (seeded s hash now)
          ∙ elim (Bool-cases (has_admin s)) [
            | inl yes' ↦
                ap (λ (x : Storage). user_in_group x u.id "admin") (left_out t u now yes')
                ∙ no_member t u.id refl clear
                ∙ ap (λ b. some (not b)) (sym yes')
            | inr no' ↦
                member t u now refl (known s hash now) clear no' ∙ ap (λ b. some (not b)) (sym no')
          ],
    )
