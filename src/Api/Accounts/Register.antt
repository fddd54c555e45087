-- ===== src/Api/Accounts/Register.antt =====
-- HandleRegister of api/auth.go: what it does to the invite and to the users.
use re_mazarin.Common.{
  ℕ, suc, String, ◌≡◌, Bool, true, false, Option, none, some, List, [], ◌∷◌, ◌++◌, any, find,
  str_eq, eq_iff, arith, refl, ap, ◌∙◌, sym, subst, then_branch,
}
use re_mazarin.Net.{Env}
use re_mazarin.Storage.{Storage, User, InviteRow}
use re_mazarin.Storage.Accounts.{
  use_invite, used_invite, create_user, authenticate, accept_password,
}
use re_mazarin.Storage.Accounts.Invites.{OneCode, use_invite-use_invite}
use re_mazarin.Api.{post, ApiRequest, registered, Reply, ok, fail, profile_of}
use re_mazarin.Api.Accounts.{
  RegisterBody, made_user, invited, is_complete, handle_register, is_post,
}

used-same {ℓ} :
    {A : Type ℓ} (f : Storage → A)
    → ((s : Storage) (is : List InviteRow) → f (record s { invites = is }) ≡ f s)
    → (s : Storage) (o : Option InviteRow) → f (used_invite s o).0 ≡ f s
used-same f same s none = refl
used-same f same s (some i) = same s _

-- A use of an invite changes the invites only.
use_invite-same {ℓ} :
    {A : Type ℓ} (f : Storage → A)
    → ((s : Storage) (is : List InviteRow) → f (record s { invites = is }) ≡ f s)
    → (env : Env) (s : Storage) (code : String) (now : ℕ) → f (use_invite env s code now).0 ≡ f s
unfolding use_invite
use_invite-same f same env s code now = used-same f same s _

create_user-taken :
    (s : Storage) (name : String) (hash : Option String) (now : ℕ)
    → any (λ (u : User). str_eq u.username name) s.users ≡ true
    → create_user s name hash now ≡ (s, none)
unfolding create_user
create_user-taken s name none now h = refl
create_user-taken s name (some x) now h = ground (arith, h)

module _ (env : Env) (s : Storage) (r : ApiRequest) (b : RegisterBody) (hash : Option String)
    (now : ℕ) (i : InviteRow) (m : r.method ≡ post) (full : is_complete b ≡ true)
    (valid : (use_invite env s b.invite now).1 ≡ some i) where
  registers :
      handle_register env s r (some b) hash now
      ≡ made_user (create_user (use_invite env s b.invite now).0 b.username hash now)
  unfolding handle_register
  registers =
      then_branch (is_post r.method) _ _ (ap is_post m)
      ∙ then_branch (is_complete b) _ _ full
      ∙ ap (λ (o : Option InviteRow). invited b hash now ((use_invite env s b.invite now).0, o))
          valid

  -- A registration with a name that is taken is refused, but the invite is spent: from then on its code is
  -- refused at every time. No two rows have the digest of the code, and no other use of it comes between
  -- the two statements of this one.
  pub handle_register-taken :
      (later : ℕ)
      → any (λ (u : User). str_eq u.username b.username) s.users ≡ true
      → OneCode env b.invite i.id s.invites
      → let (s', reply) = handle_register env s r (some b) hash now in
        (reply ≡ fail 409 "username already taken")
        × (s'.users ≡ s.users)
        × ((use_invite env s' b.invite later).1 ≡ none)
  handle_register-taken later taken one =
      let t : Storage = (use_invite env s b.invite now).0 in
      let users : t.users ≡ s.users =
        use_invite-same (λ (x : Storage). x.users) (λ x is. refl) env s b.invite now in
      let left : create_user t b.username hash now ≡ (t, none) =
        create_user-taken t b.username hash now
          (ap (any (λ (u : User). str_eq u.username b.username)) users ∙ taken) in
      subst
        (λ (x : Storage × Reply).
          (x.1 ≡ fail 409 "username already taken")
          × (x.0.users ≡ s.users)
          × ((use_invite env x.0 b.invite later).1 ≡ none))
        (sym (registers ∙ ap made_user left))
        (refl, users, use_invite-use_invite env s b.invite now later i one valid)

find-behind :
    (name : String) (us : List User) (u : User)
    → any (λ (v : User). str_eq v.username name) us ≡ false
    → u.username ≡ name
    → find (λ (v : User). str_eq v.username name) (us ++ u ∷ []) ≡ some u
find-behind name [] u h e = ground (arith, eq_iff u.username name, e)
find-behind name (v ∷ vs) u h e = ground (arith, find-behind name vs u)

-- The row of a user that registers.
abbrev pub new_user : Storage → RegisterBody → (hash : String) → ℕ → User
new_user s b hash now = record {
  id = suc s.last_user;
  username = b.username;
  password_hash = hash;
  created_at = now;
}

abbrev with_user : Storage → User → Storage
with_user s u = record s { users = s.users ++ u ∷ []; last_user = suc s.last_user }

create_user-made :
    (s : Storage) (b : RegisterBody) (hash : String) (now : ℕ)
    → s.reachable ≡ true
    → any (λ (u : User). str_eq u.username b.username) s.users ≡ false
    → create_user s b.username (some hash) now
      ≡ (with_user s (new_user s b hash now), some (new_user s b hash now))
unfolding create_user
create_user-made s b hash now up free = ground (arith, up, free)

authenticate-with_user :
    (s : Storage) (b : RegisterBody) (hash : String) (now : ℕ) (matches : String → Bool)
    → s.reachable ≡ true
    → any (λ (u : User). str_eq u.username b.username) s.users ≡ false
    → matches hash ≡ true
    → authenticate (with_user s (new_user s b hash now)) b.username matches
      ≡ some (new_user s b hash now)
unfolding authenticate
authenticate-with_user s b hash now matches up free right =
    then_branch s.reachable _ _ up
    ∙ ap (accept_password matches)
        (find-behind b.username s.users (new_user s b hash now) free refl)
    ∙ then_branch (matches hash) _ _ right

-- On a reachable database, a registration with a valid invite and a name that is free makes an account to
-- which that name and the password open, if the hash of the password matches it.
pub authenticate-handle_register :
    (env : Env) (s : Storage) (r : ApiRequest) (b : RegisterBody) (hash : String) (now : ℕ)
    (i : InviteRow) (matches : String → String → Bool)
    → s.reachable ≡ true
    → r.method ≡ post
    → is_complete b ≡ true
    → (use_invite env s b.invite now).1 ≡ some i
    → any (λ (u : User). str_eq u.username b.username) s.users ≡ false
    → matches b.password hash ≡ true
    → let (s', reply) = handle_register env s r (some b) (some hash) now in
      (reply ≡ ok none (registered (profile_of (new_user s b hash now))))
      × (authenticate s' b.username (matches b.password) ≡ some (new_user s b hash now))
authenticate-handle_register env s r b hash now i matches up m full valid free right =
    let t : Storage = (use_invite env s b.invite now).0 in
    let same : new_user t b hash now ≡ new_user s b hash now =
      use_invite-same (λ (x : Storage). new_user x b hash now) (λ x is. refl) env s b.invite now in
    let up' : t.reachable ≡ true =
      use_invite-same (λ (x : Storage). x.reachable) (λ x is. refl) env s b.invite now ∙ up in
    let free' : any (λ (u : User). str_eq u.username b.username) t.users ≡ false =
      use_invite-same (λ (x : Storage). any (λ (u : User). str_eq u.username b.username) x.users)
        (λ x is. refl) env s b.invite now
      ∙ free in
    subst
      (λ (x : Storage × Reply).
        (x.1 ≡ ok none (registered (profile_of (new_user s b hash now))))
        × (authenticate x.0 b.username (matches b.password) ≡ some (new_user s b hash now)))
      (sym (
        registers env s r b (some hash) now i m full valid
        ∙ ap made_user (create_user-made t b hash now up' free')))
      (
        ap (λ u. ok none (registered (profile_of u))) same,
        authenticate-with_user t b hash now (matches b.password) up' free' right
            ∙ ap (λ u. some u) same,
      )
