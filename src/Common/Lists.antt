-- ===== src/Common/Lists.antt =====
-- Lists measured by native numbers, Boolean search and filtering, and predicates by recursion.
use Prim.Native.Nat.{ℕ, zero, suc, ◌+◌, ◌≤◌, ◌<◌}
use mathlib.Core.Path.{◌≡◌, refl, ap, sym}
use mathlib.Core.Logic.{◌≢◌, inl, inr}
use mathlib.Core.Bool.{Bool, true, false, not, ◌||◌}
use mathlib.Core.List.{List, [], ◌∷◌, ◌++◌, map}
use mathlib.Core.Option.{Option, none, some}
use native.Mathlib.Omega.{arith}
use re_mazarin.Common.Tests.{if◌then◌else◌, Bool-cases}

module _ {ℓ} {A : Type ℓ} where
  abbrev pub length : List A → ℕ
  length [] = 0
  length (x ∷ xs) = suc (length xs)

  abbrev pub take : ℕ → List A → List A
  take zero xs = []
  take (suc n) [] = []
  take (suc n) (x ∷ xs) = x ∷ take n xs

  -- The elements that pass a Boolean test, in order: `WHERE`.
  abbrev pub select : (A → Bool) → List A → List A
  select p [] = []
  select p (x ∷ xs) = if p x then x ∷ select p xs else select p xs

  abbrev pub find : (A → Bool) → List A → Option A
  find p [] = none
  find p (x ∷ xs) = if p x then some x else find p xs

  abbrev pub any : (A → Bool) → List A → Bool
  any p [] = false
  any p (x ∷ xs) = p x || any p xs

  pub length-append : (xs ys : List A) → length (xs ++ ys) ≡ length xs + length ys
  length-append [] ys = omega arith
  length-append (x ∷ xs) ys = omega (arith, length-append xs ys)

  pub append_nil : (xs : List A) → xs ++ [] ≡ xs
  append_nil [] = refl
  append_nil (x ∷ xs) = ap (λ ys. x ∷ ys) (append_nil xs)

  pub append-append : (xs ys zs : List A) → (xs ++ ys) ++ zs ≡ xs ++ (ys ++ zs)
  append-append [] ys zs = refl
  append-append (x ∷ xs) ys zs = ap (λ ws. x ∷ ws) (append-append xs ys zs)

  pub select-append :
      (p : A → Bool) (xs ys : List A) → select p (xs ++ ys) ≡ select p xs ++ select p ys
  select-append p [] ys = refl
  select-append p (x ∷ xs) ys = ground (arith, select-append p xs ys)

  -- A test that no element passes selects all, negated.
  pub select-none :
      (p : A → Bool) (xs : List A) → any p xs ≡ false → select (λ x. not (p x)) xs ≡ xs
  select-none p [] h = refl
  select-none p (x ∷ xs) h = ground (arith, select-none p xs)

  pub select-nothing : (p : A → Bool) (xs : List A) → any p xs ≡ false → select p xs ≡ []
  select-nothing p [] h = refl
  select-nothing p (x ∷ xs) h = ground (arith, select-nothing p xs)

  pub select-select-not : (p : A → Bool) (xs : List A) → select p (select (λ x. not (p x)) xs) ≡ []
  select-select-not p [] = refl
  select-select-not p (x ∷ xs) = ground (arith, select-select-not p xs)

  pub select-not-select-not :
      (p : A → Bool) (xs : List A)
      → select (λ x. not (p x)) (select (λ x. not (p x)) xs) ≡ select (λ x. not (p x)) xs
  select-not-select-not p [] = refl
  select-not-select-not p (x ∷ xs) = ground (arith, select-not-select-not p xs)

  pub length-select-le : (p : A → Bool) (xs : List A) → length (select p xs) ≤ length xs
  length-select-le p [] = omega arith
  length-select-le p (x ∷ xs) = ground (arith, length-select-le p xs)

module _ {ℓ κ} {A : Type ℓ} where
  abbrev pub All : (A → Type κ) → List A → Type κ
  All P [] = Unit
  All P (x ∷ xs) = P x × All P xs

  pub All-select : (P : A → Type κ) (p : A → Bool) (xs : List A) → All P xs → All P (select p xs)
  All-select P p [] h = tt
  All-select P p (x ∷ xs) (hx, hs) = ground (arith, All-select P p xs hs)

module _ {ℓ} {A : Type ℓ} where
  -- A write out of bounds changes nothing; a read out of bounds gives the default.
  abbrev pub set : List A → ℕ → A → List A
  set [] i v = []
  set (x ∷ xs) zero v = v ∷ xs
  set (x ∷ xs) (suc i) v = x ∷ set xs i v

  abbrev pub get_or : List A → ℕ → A → A
  get_or [] i d = d
  get_or (x ∷ xs) zero d = x
  get_or (x ∷ xs) (suc i) d = get_or xs i d

  pub length-set : (xs : List A) (i : ℕ) (v : A) → length (set xs i v) ≡ length xs
  length-set [] i v = refl
  length-set (x ∷ xs) zero v = refl
  length-set (x ∷ xs) (suc i) v = ap suc (length-set xs i v)

  pub get_or-set_self :
      (xs : List A) (i : ℕ) (v d : A) → i < length xs → get_or (set xs i v) i d ≡ v
  get_or-set_self [] i v d h = elim h [ ]
  get_or-set_self (x ∷ xs) zero v d h = refl
  get_or-set_self (x ∷ xs) (suc i) v d h = get_or-set_self xs i v d (omega arith)

  pub get_or-set_ne :
      (xs : List A) (i j : ℕ) (v d : A) → i ≢ j → get_or (set xs i v) j d ≡ get_or xs j d
  get_or-set_ne [] i j v d h = refl
  get_or-set_ne (x ∷ xs) zero zero v d h = absurd (h refl)
  get_or-set_ne (x ∷ xs) zero (suc j) v d h = refl
  get_or-set_ne (x ∷ xs) (suc i) zero v d h = refl
  get_or-set_ne (x ∷ xs) (suc i) (suc j) v d h = get_or-set_ne xs i j v d (λ e. h (ap suc e))

  abbrev pub replicate : ℕ → A → List A
  replicate zero a = []
  replicate (suc n) a = a ∷ replicate n a

-- `a` stands in the list.
pub data Among {ℓ} {A : Type ℓ} (a : A) : List A → Type ℓ where
  here : {x : A} {xs : List A} → a ≡ x → Among a (x ∷ xs)
  there : {x : A} {xs : List A} → Among a xs → Among a (x ∷ xs)

module _ {ℓ} {A : Type ℓ} where
  drop_head :
      (p : A → Bool) (a x : A) (xs : List A)
      → (Among a (select p xs) → Among a xs × (p a ≡ true))
      → p x ≡ true
      → Among a (x ∷ select p xs)
      → Among a (x ∷ xs) × (p a ≡ true)
  drop_head p a x xs ih e (here same) = (here same, rw same e)
  drop_head p a x xs ih e (there m) = (there (ih m).0, (ih m).1)

  pub Among-select :
      (p : A → Bool) (a : A) (xs : List A) → Among a (select p xs) → Among a xs × (p a ≡ true)
  Among-select p a [] h = elim h [ ]
  Among-select p a (x ∷ xs) h = elim (Bool-cases (p x)) [
    | inl e ↦ drop_head p a x xs (Among-select p a xs) e (rw e at h)
    | inr e ↦ (there (Among-select p a xs (rw e at h)).0, (Among-select p a xs (rw e at h)).1)
  ]

  pub select-Among :
      (p : A → Bool) (a : A) (xs : List A) → Among a xs → p a ≡ true → Among a (select p xs)
  select-Among p a [] h e = elim h [ ]
  select-Among p a (x ∷ xs) (here same) e = rw (← same, e) (here refl)
  select-Among p a (x ∷ xs) (there m) e = elim (Bool-cases (p x)) [
    | inl t ↦ rw t (there (select-Among p a xs m e))
    | inr t ↦ rw t (select-Among p a xs m e)
  ]

  pub any-Among :
      (p : A → Bool) (xs : List A) → any p xs ≡ true → (a : A) × Among a xs × (p a ≡ true)
  any-Among p [] h = cc
  any-Among p (x ∷ xs) h = elim (Bool-cases (p x)) [
    | inl t ↦ (x, here refl, t)
    | inr t ↦ let found = any-Among p xs (rw t at h) in (found.0, there found.1, found.2)
  ]

  pub Among-any : (p : A → Bool) (a : A) (xs : List A) → Among a xs → p a ≡ true → any p xs ≡ true
  Among-any p a [] h e = elim h [ ]
  Among-any p a (x ∷ xs) (here same) e = rw (← same, e)
  Among-any p a (x ∷ xs) (there m) e = ground (arith, Among-any p a xs m e)

  pub find-Among :
      (p : A → Bool) (a : A) (xs : List A) → find p xs ≡ some a → Among a xs × (p a ≡ true)
  find-Among p a [] h = cc
  find-Among p a (x ∷ xs) h = elim (Bool-cases (p x)) [
    | inl t ↦ let e : x ≡ a = cc (rw t at h) in (here (sym e), rw (← e) t)
    | inr t ↦ (there (find-Among p a xs (rw t at h)).0, (find-Among p a xs (rw t at h)).1)
  ]

  pub any-find : (p : A → Bool) (xs : List A) → any p xs ≡ true → (a : A) × (find p xs ≡ some a)
  any-find p [] h = cc
  any-find p (x ∷ xs) h = elim (Bool-cases (p x)) [
    | inl t ↦ (x, rw t)
    | inr t ↦ let found = any-find p xs (rw t at h) in (found.0, rw t found.1)
  ]

module _ {ℓ} {A : Type ℓ} where
  abbrev pub insert_by : (A → A → Bool) → A → List A → List A
  insert_by before x [] = x ∷ []
  insert_by before x (y ∷ ys) = if before y x then y ∷ insert_by before x ys else x ∷ y ∷ ys

  -- ORDER BY: what must come first does; rows that tie keep the table's order.
  abbrev pub sort_by : (A → A → Bool) → List A → List A
  sort_by before [] = []
  sort_by before (x ∷ xs) = insert_by before x (sort_by before xs)

pub map-append {ℓ κ} :
    {A : Type ℓ} {B : Type κ} (f : A → B) (xs ys : List A) → map f (xs ++ ys) ≡ map f xs ++ map f ys
map-append f [] ys = refl
map-append f (x ∷ xs) ys = ap (λ zs. f x ∷ zs) (map-append f xs ys)
