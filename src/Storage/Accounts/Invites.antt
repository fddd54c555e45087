-- ===== src/Storage/Accounts/Invites.antt =====
-- The life of an invite, of storage/invites.go.
use re_mazarin.Common.{
  ℕ, String, ◌≡◌, Bool, true, false, Option, none, some, List, [], ◌∷◌, if◌then◌else◌, ==_iff, find,
  find-Among, Among, arith, refl, ap, ◌∙◌, sym, str_eq, eq_iff, when_some, Option-cases, inl, inr,
  subst, ◌<◌, All,
}
use re_mazarin.Net.{Env}
use re_mazarin.Storage.{Storage, InviteRow}
use re_mazarin.Storage.Accounts.{is_usable, mark_used, used_invite, use_invite}

-- The table's constraint on the digests of the codes, at one code: at most one row has it.
abbrev pub OneCode : Env → String → ℕ → List InviteRow → Type 0
OneCode env code id rows =
    All (λ r. str_eq r.code_hash (env.sha256_hex code) ≡ true → r.id ≡ id) rows

spent :
    (env : Env) (code : String) (id later : ℕ) (rows : List InviteRow)
    → OneCode env code id rows
    → find (is_usable env code later) (mark_used rows id) ≡ none
unfolding mark_used is_usable
spent env code id later [] u = refl
spent env code id later (r ∷ rs) (h, hs) =
    ground (arith, h, spent env code id later rs hs, ==_iff r.id id)

-- What the SELECT of a use finds.
abbrev selected : Env → Storage → String → ℕ → Option InviteRow
selected env s code now = if s.reachable then find (is_usable env code now) s.invites else none

if_none : (b : Bool) (o : Option InviteRow) → o ≡ none → (if b then o else none) ≡ none
if_none true o e = e
if_none false o e = refl

use_invite-row :
    (env : Env) (s : Storage) (code : String) (now : ℕ) (i : InviteRow)
    → (use_invite env s code now).1 ≡ some i
    → (r : InviteRow) × (selected env s code now ≡ some r) × (i ≡ record r { used = true })
unfolding use_invite
use_invite-row env s code now i e = elim (Option-cases (selected env s code now)) [
  | inl n ↦ absurd (cc (sym (ap (λ o. (used_invite s o).1) n) ∙ e))
  | inr (r, f) ↦ (r, f, cc (sym (ap (λ o. (used_invite s o).1) f) ∙ e))
]

-- An invite that is used is one of the table that was not used before, has not expired, and whose
-- digest is that of the code.
pub use_invite-usable :
    (env : Env) (s : Storage) (code : String) (now : ℕ) (i : InviteRow)
    → (use_invite env s code now).1 ≡ some i
    → (r : InviteRow) × Among r s.invites
      × (r.id ≡ i.id)
      × (r.used ≡ false)
      × (now < r.expires_at)
      × (r.code_hash ≡ env.sha256_hex code)
unfolding is_usable
use_invite-usable env s code now i e =
    let (r, f, same) = use_invite-row env s code now i e in
    let (row, test) = find-Among (is_usable env code now) r s.invites (when_some s.reachable _ f) in
    (
      r,
      row,
      ap (λ (x : InviteRow). x.id) (sym same),
      ground (arith, test),
      ground (arith, test),
      ground (arith, test, eq_iff r.code_hash (env.sha256_hex code)),
    )

-- A code that was used is refused from then on, at whatever time, if no two rows of the table have
-- its digest and no other use comes between the two statements of one.
pub use_invite-use_invite :
    (env : Env) (s : Storage) (code : String) (now later : ℕ) (i : InviteRow)
    → OneCode env code i.id s.invites
    → (use_invite env s code now).1 ≡ some i
    → (use_invite env (use_invite env s code now).0 code later).1 ≡ none
unfolding use_invite
use_invite-use_invite env s code now later i one e =
    let (r, f, same) = use_invite-row env s code now i e in
    let t : Storage = record s { invites = mark_used s.invites r.id } in
    let one' : OneCode env code r.id s.invites =
      subst (λ n. OneCode env code n s.invites) (ap (λ (x : InviteRow). x.id) same) one in
    ap (λ o. (used_invite (used_invite s o).0 (selected env (used_invite s o).0 code later)).1) f
    ∙ ap (λ o. (used_invite t o).1)
        (if_none s.reachable (find (is_usable env code later) t.invites)
          (spent env code r.id later s.invites one'))
