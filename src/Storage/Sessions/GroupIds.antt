-- ===== src/Storage/Sessions/GroupIds.antt =====
-- The round trip of the groups of a user: GROUP_CONCAT in the query, parseGroupIDs behind it.
use Prim.Native.String.{[], ◌∷◌, ◌++◌}
use text.Mathlib.TextLemmas.{cons-append}
use re_mazarin.Common.{
  ℕ, ◌≤◌, String, ◌≡◌, true, false, none, some, List, [], ◌∷◌, map, All, str_eq, inl, inr,
  Bool-cases, eq_iff, arith, refl, ap, ◌∙◌, sym, else_branch,
}
use re_mazarin.Common.Int.{pos, max_i64}
use re_mazarin.Common.Text.{split, itoa_ℕ, atoi}
use re_mazarin.Common.Text.Decimal.{
  itoa_ℕ-Digits, itoa_ℕ-text, atoi-itoa_ℕ, trim_space-Digits, split-Digits, split-Digits-only,
  is_text,
}
use re_mazarin.Storage.Sessions.{group_concat, numbers, parse_group_ids}

abbrev joined : ℕ → List ℕ → String
joined n ns = group_concat (n ∷ ns)

split-joined : (n : ℕ) (ns : List ℕ) → split b',' (joined n ns) ≡ map itoa_ℕ (n ∷ ns)
unfolding group_concat
split-joined n [] = split-Digits-only (itoa_ℕ n) (itoa_ℕ-Digits n)
split-joined n (m ∷ ns) =
    split-Digits (itoa_ℕ n) (joined m ns) (itoa_ℕ-Digits n)
    ∙ ap (λ ts. itoa_ℕ n ∷ ts) (split-joined m ns)

numbers-itoa_ℕ : (ns : List ℕ) → All (λ n. n ≤ max_i64) ns → numbers (map itoa_ℕ ns) ≡ map pos ns
unfolding numbers
numbers-itoa_ℕ [] h = refl
numbers-itoa_ℕ (n ∷ ns) (h, hs) =
    ap (λ o. elim o [ some id ↦ id ∷ numbers (map itoa_ℕ ns) | none ↦ numbers (map itoa_ℕ ns) ])
      (ap atoi (trim_space-Digits (itoa_ℕ n) (itoa_ℕ-Digits n)) ∙ atoi-itoa_ℕ n h)
    ∙ ap (λ zs. pos n ∷ zs) (numbers-itoa_ℕ ns hs)

pub text-not-empty : (s : String) → is_text s ≡ true → str_eq s "" ≡ false
text-not-empty s h = elim (Bool-cases (str_eq s "")) [
  | inl t ↦ absurd (cc (sym h ∙ ap is_text ((eq_iff s "").0 t)))
  | inr f ↦ f
]

text-append : (s t : String) → is_text s ≡ true → is_text (s ++ t) ≡ true
text-append [] t h = ground arith
text-append (c ∷ s) t h = ap is_text (cons-append c s t)

joined-text : (n : ℕ) (ns : List ℕ) → is_text (joined n ns) ≡ true
unfolding group_concat
joined-text n [] = itoa_ℕ-text n
joined-text n (m ∷ ns) = text-append (itoa_ℕ n) _ (itoa_ℕ-text n)

-- The numbers that parseGroupIDs reads are those that GROUP_CONCAT wrote, in their order, if an int64
-- holds each of them.
pub parse_group_ids-group_concat :
    (ns : List ℕ) → All (λ n. n ≤ max_i64) ns → parse_group_ids (group_concat ns) ≡ map pos ns
unfolding parse_group_ids group_concat
parse_group_ids-group_concat [] h = refl
parse_group_ids-group_concat (n ∷ ns) h =
    else_branch (str_eq (joined n ns) "") _ _ (text-not-empty (joined n ns) (joined-text n ns))
    ∙ ap numbers (split-joined n ns)
    ∙ numbers-itoa_ℕ (n ∷ ns) h
